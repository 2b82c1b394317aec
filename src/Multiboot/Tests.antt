-- ===== src/Multiboot/Tests.antt =====
-- Runs of the division of kernel/multiboot.c, and its theorem at one division.
use rotary_os.Base.{ℕ, ◌+◌, ◌*◌, ◌^◌, ◌-◌, ◌≤◌, ◌<◌, ◌≡◌, ◌⊎◌, refl, arith}
use rotary_os.Multiboot.Text.{uint64_to_str, IsHex, uint64_to_str-IsHex}
use rotary_os.Multiboot.{udivmod64, divide_bits, udivmod64_lem}

divide_runs :
    (udivmod64 1000007 10 ≡ (100000, 7))
    × (udivmod64 (2 ^ 64 - 1) (2 ^ 64 - 1) ≡ (1, 0))
    × (udivmod64 5 0 ≡ (2 ^ 64 - 1, 5))
unfolding udivmod64 divide_bits
divide_runs = (refl, refl, refl)

udivmod64_lem_example :
    ((udivmod64 4294967296 1000).0 * 1000 + (udivmod64 4294967296 1000).1 ≡ 4294967296)
    × ((udivmod64 4294967296 1000).1 < 1000)
udivmod64_lem_example = udivmod64_lem 4294967296 1000 (omega arith) (omega arith)

uint64_to_str-IsHex_example :
    (length : ℕ) × (0 < length)
    × (length ≤ 16)
    × IsHex (uint64_to_str (λ a. 32) 0x7fe0000 100 16) 100 0x7fe0000 length
    × ((a : ℕ) → (a < 100) ⊎ (100 + length < a) → uint64_to_str (λ a. 32) 0x7fe0000 100 16 a ≡ 32)
uint64_to_str-IsHex_example = uint64_to_str-IsHex (λ a. 32) 0x7fe0000 100 (omega arith)

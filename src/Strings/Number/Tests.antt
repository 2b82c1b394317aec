-- ===== src/Strings/Number/Tests.antt =====
-- Runs of the decimal conversions of kernel/string.c, and their theorem at one number.
use rotary_os.Base.{ℕ, ◌+◌, ◌<◌, ◌≡◌, ◌⊎◌, refl, arith, some}
use rotary_os.Strings.{Bytes}
use rotary_os.Strings.Number.{int_to_str, digits_from, swap_from, atoi, itoa, itoa_from, reverse}
use rotary_os.Strings.Number.RoundTrip.{atoi-int_to_str}

abbrev blank : Bytes
blank = λ a. 32

-- `itoa` writes the digits of 705 at 7 to 9 and leaves the bytes before them as they were.
number_runs :
    (int_to_str blank 705 100 100 ≡ 55)
    × (int_to_str blank 705 100 102 ≡ 53)
    × (int_to_str blank 705 100 103 ≡ 0)
    × (itoa blank 705 100 100 ≡ 32)
    × (itoa blank 705 100 107 ≡ 55)
    × (reverse (int_to_str blank 705 100) 100 3 100 ≡ 53)
unfolding int_to_str digits_from swap_from itoa itoa_from reverse
number_runs = (refl, refl, refl, refl, refl, refl)

atoi-int_to_str_example :
    (atoi 11 (int_to_str blank 705 100) 100 ≡ some 705)
    × ((a : ℕ) → (a < 100) ⊎ (100 + 10 < a) → int_to_str blank 705 100 a ≡ 32)
atoi-int_to_str_example = atoi-int_to_str 11 blank 705 100 (omega arith) (omega arith)

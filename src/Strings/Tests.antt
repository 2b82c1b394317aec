-- ===== src/Strings/Tests.antt =====
-- Runs of kernel/string.c, and its theorem at a concrete number.
use rotary_os.Base.{ℕ, ◌+◌, ◌-◌, ◌/◌, ◌%◌, ◌^◌, ◌<◌, ◌≡◌, ◌⊎◌, refl, ◌==◌, if◌then◌else◌}
use rotary_os.Strings.{
  Bytes, strlen, length_from, strcmp, same_from, hex_digit, hex_from, int_to_hex_str,
}
use rotary_os.Strings.Hex.{int_to_hex_str_lem}

-- "ab" at 16 and at 32, "ac" at 48; all other bytes are 0.
abbrev texts : Bytes
texts = λ a.
    if a == 16
    then 97
    else if a == 17
    then 98
    else if a == 32
    then 97
    else if a == 33
    then 98
    else if a == 48
    then 97
    else if a == 49
    then 99
    else 0

string_runs :
    (strlen texts 16 ≡ 2)
    × (strlen (λ a. 1) 16 ≡ 2 ^ 32 - 1)
    × (strcmp texts 16 32 ≡ 1)
    × (strcmp texts 16 48 ≡ 0)
    × (int_to_hex_str texts 0x1a2f 100 107 ≡ 102)
unfolding strlen length_from strcmp same_from int_to_hex_str hex_from
string_runs = (refl, refl, refl, refl, refl)

int_to_hex_str_lem_example :
    ((k : ℕ)
      → k < 8
      → int_to_hex_str texts 0x1a2f 100 (100 + (7 - k)) ≡ hex_digit (0x1a2f / 16 ^ k % 16))
    × (int_to_hex_str texts 0x1a2f 100 (100 + 8) ≡ 0)
    × ((a : ℕ) → (a < 100) ⊎ (100 + 8 < a) → int_to_hex_str texts 0x1a2f 100 a ≡ texts a)
int_to_hex_str_lem_example = int_to_hex_str_lem texts 0x1a2f 100

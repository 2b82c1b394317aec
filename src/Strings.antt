-- ===== src/Strings.antt =====
-- Strings of kernel/string.c, over a memory of bytes, each given by its address.
pub mod Compare
pub mod Hex
pub mod Number
pub mod Copy
pub mod Format
mod Tests
use rotary_os.Base.{
  ℕ, zero, suc, ◌+◌, ◌-◌, ◌*◌, ◌/◌, ◌%◌, ◌^◌, ◌<◌, ◌≤◌, ◌≡◌, ◌≢◌, ◌↔◌, refl, sym, ap, inl, inr, ◌⊎◌,
  arith, Bool, true, false, Bool-cases, leb-cases, le_refl, leb, ◌==◌, not, if◌then◌else◌, update,
  update_same, update_other, bit_and, shr,
}
use mathlib.Core.Path.{◌∙◌}
use mathlib.Core.Bool.{false≢true}
use native.Mathlib.Nat.{div-div-eq-div-mul, pow-succ'}
use rotary_os.Base.Bits.{bit_and-low_mask}

-- A byte of memory, from 0 to 255. Addresses do not wrap.
abbrev pub Bytes : Type 0
Bytes = ℕ → ℕ

abbrev pub max_string_len : ℕ
max_string_len = 512

-- The loop of `strlen` from index `i` on: -1 when the rounds end.
pub length_from : (rounds : ℕ) → Bytes → (string i : ℕ) → ℕ
length_from zero m string i = 2 ^ 32 - 1
length_from (suc n) m string i =
    let rest = length_from n m string (i + 1) in if m (string + i) == 0 then i else rest

pub strlen : Bytes → (string : ℕ) → ℕ
strlen m string = length_from max_string_len m string 0

-- The loop of `strcmp`: whether the bytes from index `i` on are the same.
unfoldable pub same_from : (rounds : ℕ) → Bytes → (str1 str2 i : ℕ) → Bool
same_from zero m str1 str2 i = true
same_from (suc n) m str1 str2 i =
    let rest = same_from n m str1 str2 (i + 1) in
    if not (m (str1 + i) == m (str2 + i)) then false else rest

unfoldable pub strcmp : Bytes → (str1 str2 : ℕ) → ℕ
strcmp m str1 str2 =
    if not (strlen m str1 == strlen m str2)
    then 0
    else if same_from (strlen m str1) m str1 str2 0
    then 1
    else 0

-- `hex_digits`, 0 to 9 and a to f
abbrev pub hex_digit : ℕ → ℕ
hex_digit d = if leb 10 d then d + 87 else d + 48

-- The loop of `int_to_hex_str` from index `i` on.
pub hex_from : (rounds : ℕ) → Bytes → (num dest i : ℕ) → Bytes
hex_from zero m num dest i = m
hex_from (suc n) m num dest i =
    hex_from n (update m (dest + (7 - i)) (hex_digit (bit_and num 0xf))) (shr num 4) dest (i + 1)

pub int_to_hex_str : Bytes → (num dest : ℕ) → Bytes
int_to_hex_str m num dest = update (hex_from 8 m num dest 0) (dest + 8) 0

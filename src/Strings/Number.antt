-- ===== src/Strings/Number.antt =====
-- Decimal numbers of kernel/string.c: `int_to_str`, `atoi`, `reverse` and `itoa`.
pub mod Swap
pub mod RoundTrip
mod Tests
use rotary_os.Base.{
  ℕ, zero, suc, ◌+◌, ◌-◌, ◌*◌, ◌/◌, ◌%◌, ◌^◌, Bool, true, false, leb, ltb, ◌==◌, not, ◌||◌,
  if◌then◌else◌, update, add32, sub32, mul32, Option, none, some,
}
use rotary_os.Strings.{Bytes}

-- The first loop of `int_to_str` from index `i` on: the bytes, and the index behind the last digit. Ten
-- rounds are enough for 32 bits.
unfoldable pub digits_from : (rounds : ℕ) → Bytes → (num dest i : ℕ) → Bytes × ℕ
digits_from zero m num dest i = (m, i)
digits_from (suc n) m num dest i =
    let m₁ = update m (dest + i) (num % 10 + b'0') in
    let rest = digits_from n m₁ (num / 10) dest (i + 1) in
    if num / 10 == 0 then (m₁, i + 1) else rest

-- The second loop, which is that of `reverse` too: `rounds` bounds its rounds.
unfoldable pub swap_from : (rounds : ℕ) → Bytes → (dest j k : ℕ) → Bytes
swap_from zero m dest j k = m
swap_from (suc n) m dest j k =
    let m₁ = update (update m (dest + j) (m (dest + k))) (dest + k) (m (dest + j)) in
    let rest = swap_from n m₁ dest (j + 1) (k - 1) in if ltb j k then rest else m

unfoldable pub int_to_str : Bytes → (num dest : ℕ) → Bytes
int_to_str m num dest =
    let (m₁, i) = digits_from 10 m num dest 0 in swap_from i (update m₁ (dest + i) 0) dest 0 (i - 1)

pub reverse : Bytes → (str length : ℕ) → Bytes
reverse m str length = swap_from length m str 0 (length - 1)

-- A `char` as an `int`, in 32 bits.
abbrev pub char_word : ℕ → ℕ
char_word b = if leb 128 b then b + (2 ^ 32 - 256) else b

-- The loop of `atoi` from index `i` on, with the arithmetic of 32 bits; `none` when the fuel ends.
pub atoi_from : (fuel : ℕ) → Bytes → (str i res : ℕ) → Option ℕ
atoi_from zero m str i res = none
atoi_from (suc n) m str i res =
    let rest =
      atoi_from n m str (i + 1) (sub32 (add32 (mul32 res 10) (char_word (m (str + i)))) b'0') in
    if m (str + i) == 0 then some res else rest

pub atoi : (fuel : ℕ) → Bytes → (str : ℕ) → Option ℕ
atoi fuel m str = atoi_from fuel m str 0 0

-- The loop of `itoa` from index `i` on.
pub itoa_from :
    (rounds : ℕ) → Bytes → (num dec_string i divisor : ℕ) → (leading_zeroes : Bool) → Bytes
itoa_from zero m num dec_string i divisor leading_zeroes = m
itoa_from (suc n) m num dec_string i divisor leading_zeroes =
    let digit = num / divisor in
    let writes = not (digit == 0) || not leading_zeroes in
    itoa_from n (if writes then update m (dec_string + i) (digit + b'0') else m) (num % divisor)
      dec_string (i + 1) (divisor / 10) (if writes then false else leading_zeroes)

pub itoa : Bytes → (num dec_string : ℕ) → Bytes
itoa m num dec_string = update (itoa_from 10 m num dec_string 0 1000000000 true) (dec_string + 10) 0

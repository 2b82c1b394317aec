-- ===== src/Strings/Hex.antt =====
-- `int_to_hex_str` of kernel/string.c.
use rotary_os.Base.{
  ℕ, zero, suc, ◌+◌, ◌-◌, ◌*◌, ◌/◌, ◌%◌, ◌^◌, ◌<◌, ◌≤◌, ◌≡◌, ◌≢◌, refl, ap, inr, ◌⊎◌, arith, update,
  update_same, update_other, bit_and, shr,
}
use mathlib.Core.Path.{◌∙◌}
use native.Mathlib.Nat.{div-div-eq-div-mul, pow-succ'}
use rotary_os.Base.Bits.{bit_and-low_mask}
use rotary_os.Strings.{Bytes, hex_digit, hex_from, int_to_hex_str}

module _ (dest : ℕ) where
  hex_from_before :
      (n : ℕ) (m : Bytes) (num i a : ℕ)
      → i + n ≤ 8
      → (a < dest) ⊎ (dest + 8 ≤ a + i)
      → hex_from n m num dest i a ≡ m a
  unfolding hex_from
  hex_from_before zero m num i a b o = refl
  hex_from_before (suc n) m num i a b o =
      let written = hex_digit (bit_and num 0xf) in
      let apart : a ≢ dest + (7 - i) = omega arith in
      hex_from_before n (update m (dest + (7 - i)) written) (shr num 4) (i + 1) a (omega arith)
        (omega arith)
      ∙ update_other m (dest + (7 - i)) a written apart

  hex_from_at :
      (n : ℕ) (m : Bytes) (num i k a : ℕ)
      → i + n ≤ 8
      → k < n
      → a + i + k ≡ dest + 7
      → hex_from n m num dest i a ≡ hex_digit (num / 16 ^ k % 16)
  unfolding hex_from
  hex_from_at zero m num i k a b l e = absurd (omega arith)
  hex_from_at (suc n) m num i zero a b l e =
      let written = hex_digit (bit_and num 0xf) in
      let here : a ≡ dest + (7 - i) = omega arith in
      let digit : bit_and num 0xf ≡ num / 1 % 16 = omega (arith, bit_and-low_mask 4 num) in
      rw here (
        hex_from_before n (update m (dest + (7 - i)) written) (shr num 4) (i + 1) (dest + (7 - i))
          (omega arith) (inr (omega arith))
        ∙ (update_same m (dest + (7 - i)) written ∙ ap hex_digit digit))
  hex_from_at (suc n) m num i (suc k) a b l e =
      let written = hex_digit (bit_and num 0xf) in
      let power : 16 ^ suc k ≡ 16 * 16 ^ k = pow-succ' 16 k in
      let shifted : num / 16 / 16 ^ k ≡ num / 16 ^ suc k =
        rw power (div-div-eq-div-mul num 16 (16 ^ k)) in
      hex_from_at n (update m (dest + (7 - i)) written) (shr num 4) (i + 1) k a (omega arith)
        (omega arith) (omega arith)
      ∙ ap (λ t. hex_digit (t % 16)) shifted

-- `int_to_hex_str` writes the low eight digits of the number in base 16, the highest first, then a 0,
-- and no other byte.
pub int_to_hex_str_lem :
    (m : Bytes) (num dest : ℕ)
    → ((k : ℕ) → k < 8 → int_to_hex_str m num dest (dest + (7 - k)) ≡ hex_digit (num / 16 ^ k % 16))
      × (int_to_hex_str m num dest (dest + 8) ≡ 0)
      × ((a : ℕ) → (a < dest) ⊎ (dest + 8 < a) → int_to_hex_str m num dest a ≡ m a)
unfolding int_to_hex_str
int_to_hex_str_lem m num dest = (
  λ k b.
      let apart : dest + (7 - k) ≢ dest + 8 = omega arith in
      update_other written (dest + 8) (dest + (7 - k)) 0 apart
      ∙ hex_from_at dest 8 m num 0 k (dest + (7 - k)) (omega arith) b (omega arith),
  update_same written (dest + 8) 0,
  λ a o.
      let apart : a ≢ dest + 8 = omega arith in
      let outside : (a < dest) ⊎ (dest + 8 ≤ a + 0) = omega arith in
      update_other written (dest + 8) a 0 apart
      ∙ hex_from_before dest 8 m num 0 a (omega arith) outside,
)
  where
    written : Bytes
    written = hex_from 8 m num dest 0

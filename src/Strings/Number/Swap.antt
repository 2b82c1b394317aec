-- ===== src/Strings/Number/Swap.antt =====
-- The loop of kernel/string.c that turns a row of bytes round, in `int_to_str` and in `reverse`.
use rotary_os.Base.{
  ℕ, zero, suc, ◌+◌, ◌-◌, ◌≤◌, ◌<◌, ◌≡◌, ◌⊎◌, inl, inr, refl, sym, ap, arith, true, false, leb, ltb,
  ◌==◌, ◌&&◌, if◌then◌else◌, leb-cases, update, update_same, update_other,
}
use mathlib.Core.Path.{◌∙◌}
use rotary_os.Strings.{Bytes}
use rotary_os.Strings.Number.{swap_from}

-- The place that mirrors place `a` between `j` and `k`.
pub mirror : (j k a : ℕ) → ℕ
mirror j k a = if leb j a && leb a k then j + k - a else a

-- The two places that a round exchanges.
exchange : (j k a : ℕ) → ℕ
exchange j k a = if a == k then j else if a == j then k else a

exchange-mirror : (j k a : ℕ) → j < k → exchange j k (mirror (j + 1) (k - 1) a) ≡ mirror j k a
unfolding mirror exchange
exchange-mirror j k a h = ground arith

mirror_end : (j k a : ℕ) → k ≤ j → mirror j k a ≡ a
unfolding mirror
mirror_end j k a h = ground arith

pub mirror_back : (length j : ℕ) → j < length → mirror 0 (length - 1) (length - 1 - j) ≡ j
unfolding mirror
mirror_back length j h = ground arith

exchanged :
    (m : Bytes) (dest j k a : ℕ)
    → update (update m (dest + j) (m (dest + k))) (dest + k) (m (dest + j)) (dest + a)
      ≡ m (dest + exchange j k a)
unfolding exchange
exchanged m dest j k a = ground arith

-- Each place from `j` to `k` has the byte of the place that mirrors it.
pub swap_from_at :
    (n : ℕ) (m : Bytes) (dest j k a : ℕ)
    → k ≤ j + n
    → swap_from n m dest j k (dest + a) ≡ m (dest + mirror j k a)
unfolding swap_from
swap_from_at zero m dest j k a h = ap (λ x. m (dest + x)) (sym (mirror_end j k a (omega arith)))
swap_from_at (suc n) m dest j k a h = elim (leb-cases k j) [
  | inl stop ↦
      let go : ltb j k ≡ false = ground arith in
      rw go (ap (λ x. m (dest + x)) (sym (mirror_end j k a stop)))
  | inr on ↦
      let go : ltb j k ≡ true = ground arith in
      let m₁ = update (update m (dest + j) (m (dest + k))) (dest + k) (m (dest + j)) in
      rw go (
        swap_from_at n m₁ dest (j + 1) (k - 1) a (omega arith)
        ∙ exchanged m dest j k (mirror (j + 1) (k - 1) a)
        ∙ ap (λ x. m (dest + x)) (exchange-mirror j k a on))
]

-- The bytes around stay.
pub swap_from_outside :
    (n : ℕ) (m : Bytes) (dest j k a : ℕ)
    → (a < dest + j) ⊎ (dest + k < a)
    → swap_from n m dest j k a ≡ m a
unfolding swap_from
swap_from_outside zero m dest j k a o = refl
swap_from_outside (suc n) m dest j k a o = elim (leb-cases k j) [
  | inl stop ↦ let go : ltb j k ≡ false = ground arith in rw go refl
  | inr on ↦
      let go : ltb j k ≡ true = ground arith in
      let m₁ = update m (dest + j) (m (dest + k)) in
      rw go (
        swap_from_outside n (update m₁ (dest + k) (m (dest + j))) dest (j + 1) (k - 1) a
          (omega arith)
        ∙ update_other m₁ (dest + k) a (m (dest + j)) (omega arith)
        ∙ update_other m (dest + j) a (m (dest + k)) (omega arith))
]

-- A text of `length` bytes that is ended by a 0 and turned round.
module _ (m : Bytes) (dest length : ℕ) where
  abbrev pub turned : Bytes
  turned = swap_from length (update m (dest + length) 0) dest 0 (length - 1)

  pub turned_at : (j : ℕ) → j < length → turned (dest + (length - 1 - j)) ≡ m (dest + j)
  turned_at j l =
      swap_from_at length (update m (dest + length) 0) dest 0 (length - 1) (length - 1 - j)
        (omega arith)
      ∙ ap (λ x. update m (dest + length) 0 (dest + x)) (mirror_back length j l)
      ∙ update_other m (dest + length) (dest + j) 0 (omega arith)

  pub turned_end : 0 < length → turned (dest + length) ≡ 0
  turned_end pos =
      swap_from_outside length (update m (dest + length) 0) dest 0 (length - 1) (dest + length)
        (omega arith)
      ∙ update_same m (dest + length) 0

  pub turned_outside : (a : ℕ) → 0 < length → (a < dest) ⊎ (dest + length < a) → turned a ≡ m a
  turned_outside a pos o =
      swap_from_outside length (update m (dest + length) 0) dest 0 (length - 1) a (omega arith)
      ∙ update_other m (dest + length) a 0 (omega arith)

-- ===== src/Strings/Number/RoundTrip.antt =====
-- `atoi` of kernel/string.c reads what `int_to_str` writes.
use rotary_os.Base.{
  ℕ, zero, suc, ◌+◌, ◌-◌, ◌*◌, ◌/◌, ◌%◌, ◌^◌, ◌≤◌, ◌<◌, ◌≡◌, ◌⊎◌, inl, inr, refl, sym, ap, arith,
  true, false, leb, ◌==◌, leb-cases, some, update, update_same, update_other, add32, sub32, mul32,
}
use mathlib.Core.Path.{◌∙◌, subst}
use native.Mathlib.Nat.{pow-succ'}
use rotary_os.Strings.{Bytes}
use rotary_os.Strings.Number.{digits_from, swap_from, int_to_str, atoi_from, atoi}
use rotary_os.Strings.Number.Swap.{turned_at, turned_end, turned_outside}

-- The number without its last `k` digits.
abbrev pub drop_digits : (num k : ℕ) → ℕ
drop_digits num zero = num
drop_digits num (suc k) = drop_digits num k / 10

drop_next : (num i : ℕ) → drop_digits num (i + 1) ≡ drop_digits num i / 10
drop_next num i = let e : i + 1 ≡ suc i = omega arith in ap (drop_digits num) e

-- The digits of `num` from index `i` on stand in `r`, the last digit first, and end before the index
-- that it gives.
record IsDigits (m : Bytes) (num dest i rounds : ℕ) (r : Bytes × ℕ) : Type 0 where
  grows : i < r.1
  bounded : r.1 ≤ i + rounds
  digit : (k : ℕ) → i ≤ k → k < r.1 → (r.0) (dest + k) ≡ drop_digits num k % 10 + 48
  whole : drop_digits num (r.1) ≡ 0
  others : (a : ℕ) → (a < dest + i) ⊎ (dest + r.1 ≤ a) → (r.0) a ≡ m a

-- The last round.
last-IsDigits :
    (n : ℕ) (m : Bytes) (num dest i : ℕ)
    → drop_digits num i / 10 ≡ 0
    → IsDigits m num dest i (suc n) (update m (dest + i) (drop_digits num i % 10 + 48), i + 1)
last-IsDigits n m num dest i z = record {
  grows = omega arith;
  bounded = omega arith;
  digit = λ k l b.
      let e : k ≡ i = omega arith in rw e (update_same m (dest + i) (drop_digits num i % 10 + 48));
  whole = drop_next num i ∙ z;
  others = λ a o. update_other m (dest + i) a (drop_digits num i % 10 + 48) (omega arith);
}

-- A round before the last.
more-IsDigits :
    {n : ℕ} {m : Bytes} {num dest i : ℕ} {r : Bytes × ℕ}
    → IsDigits (update m (dest + i) (drop_digits num i % 10 + 48)) num dest (i + 1) (suc n) r
    → IsDigits m num dest i (suc (suc n)) r
more-IsDigits {n} {m} {num} {dest} {i} {r} h = record {
  grows = omega (arith, h.grows);
  bounded = omega (arith, h.bounded);
  digit = λ k l b. elim (leb-cases k i) [
    | inl first ↦
        let e : k ≡ i = omega arith in
        rw e (
          h.others (dest + i) (inl (omega arith))
          ∙ update_same m (dest + i) (drop_digits num i % 10 + 48))
    | inr later ↦ h.digit k (omega arith) b
  ];
  whole = h.whole;
  others = λ a o.
      let grows = h.grows in
      h.others a (omega arith)
      ∙ update_other m (dest + i) a (drop_digits num i % 10 + 48) (omega arith);
}

digits_from-IsDigits :
    (n : ℕ) (m : Bytes) (num dest i : ℕ)
    → drop_digits num i < 10 ^ suc n
    → IsDigits m num dest i (suc n) (digits_from (suc n) m (drop_digits num i) dest i)
unfolding digits_from
digits_from-IsDigits zero m num dest i h =
    let go : (drop_digits num i / 10 == 0) ≡ true = ground arith in
    rw go (last-IsDigits 0 m num dest i (omega arith))
digits_from-IsDigits (suc n) m num dest i h = elim (leb-cases (drop_digits num i / 10) 0) [
  | inl stop ↦
      let go : (drop_digits num i / 10 == 0) ≡ true = ground arith in
      rw go (last-IsDigits (suc n) m num dest i (omega arith))
  | inr on ↦
      let go : (drop_digits num i / 10 == 0) ≡ false = ground arith in
      let power : 10 ^ suc (suc n) ≡ 10 * 10 ^ suc n = pow-succ' 10 (suc n) in
      let small : drop_digits num (i + 1) < 10 ^ suc n = omega (arith, drop_next num i) in
      let m₁ = update m (dest + i) (drop_digits num i % 10 + 48) in
      let rest = digits_from-IsDigits n m₁ num dest (i + 1) small in
      rw go (
        subst (λ x. IsDigits m num dest i (suc (suc n)) (digits_from (suc n) m₁ x dest (i + 1)))
          (drop_next num i) (more-IsDigits rest))
]

drop_digits_le : (num k : ℕ) → drop_digits num k ≤ num
drop_digits_le num zero = omega arith
drop_digits_le num (suc k) = omega (arith, drop_digits_le num k)

-- A decimal number in memory: its digits, the highest first, and a 0 behind them.
pub record IsDecimal (m : Bytes) (str num length : ℕ) : Type 0 where
  pub digit : (j : ℕ) → j < length → m (str + (length - 1 - j)) ≡ drop_digits num j % 10 + 48
  pub end : m (str + length) ≡ 0
  pub whole : drop_digits num length ≡ 0

-- The loop of `atoi` when `j` digits are left.
atoi_from-IsDecimal :
    (n : ℕ) (m : Bytes) (str num length i j : ℕ)
    → IsDecimal m str num length
    → num < 2 ^ 31
    → i + j ≡ length
    → length < i + n
    → atoi_from n m str i (drop_digits num j) ≡ some num
unfolding atoi_from
atoi_from-IsDecimal zero m str num length i j h b e u = absurd (omega arith)
atoi_from-IsDecimal (suc n) m str num length i zero h b e u =
    let q : i ≡ length = omega arith in
    let stop : (m (str + i) == 0) ≡ true = rw q (ground (arith, h.end)) in rw stop refl
atoi_from-IsDecimal (suc n) m str num length i (suc j) h b e u =
    let place : length - 1 - j ≡ i = omega arith in
    let digit : m (str + i) ≡ drop_digits num j % 10 + 48 =
      ap (λ x. m (str + x)) (sym place) ∙ h.digit j (omega arith) in
    let go : (m (str + i) == 0) ≡ false = ground (arith, digit) in
    let small = drop_digits_le num j in
    let plain : leb 128 (m (str + i)) ≡ false = ground (arith, digit) in
    let res : sub32 (add32 (mul32 (drop_digits num j / 10) 10) (m (str + i))) 48
        ≡ drop_digits num j =
      omega (arith, digit, small) in
    rw (go, plain, res)
      (atoi_from-IsDecimal n m str num length (i + 1) j h b (omega arith) (omega arith))

-- What `int_to_str` writes.
int_to_str-IsDecimal :
    (m : Bytes) (num dest : ℕ)
    → num < 2 ^ 32
    → (length : ℕ) × (length ≤ 10)
      × IsDecimal (int_to_str m num dest) dest num length
      × ((a : ℕ) → (a < dest) ⊎ (dest + 10 < a) → int_to_str m num dest a ≡ m a)
unfolding int_to_str
int_to_str-IsDecimal m num dest b =
    write (digits_from 10 m num dest 0) (digits_from-IsDigits 9 m num dest 0 (omega arith))
  where
    write :
        (r : Bytes × ℕ)
        → IsDigits m num dest 0 10 r
        → (length : ℕ) × (length ≤ 10)
          × IsDecimal
              (swap_from (r.1) (update (r.0) (dest + r.1) 0) dest 0 (r.1 - 1))
              dest
              num
              length
          × ((a : ℕ)
              → (a < dest) ⊎ (dest + 10 < a)
              → swap_from (r.1) (update (r.0) (dest + r.1) 0) dest 0 (r.1 - 1) a ≡ m a)
    write (m₁, length) h =
        let grows = h.grows in
        let bounded = h.bounded in
        (
          length,
          omega arith,
          record {
            digit = λ j l. turned_at m₁ dest length j l ∙ h.digit j (omega arith) l;
            end = turned_end m₁ dest length (omega arith);
            whole = h.whole;
          },
          λ a o.
              turned_outside m₁ dest length a (omega arith) (omega arith)
              ∙ h.others a (omega arith),
        )

-- For a number below 2^31, `int_to_str` writes at most eleven bytes from the destination on, and no others,
-- and `atoi` of them, with a fuel of 11 or more, ends and returns the number.
pub atoi-int_to_str :
    (fuel : ℕ) (m : Bytes) (num dest : ℕ)
    → num < 2 ^ 31
    → 11 ≤ fuel
    → (atoi fuel (int_to_str m num dest) dest ≡ some num)
      × ((a : ℕ) → (a < dest) ⊎ (dest + 10 < a) → int_to_str m num dest a ≡ m a)
unfolding atoi
atoi-int_to_str fuel m num dest b f =
    let (length, l, h, others) = int_to_str-IsDecimal m num dest (omega arith) in
    (
      ap (atoi_from fuel (int_to_str m num dest) dest 0) (sym h.whole)
          ∙ atoi_from-IsDecimal fuel (int_to_str m num dest) dest num length 0 length h b
              (omega arith) (omega arith),
      others,
    )

-- ===== src/Multiboot/Text.antt =====
-- `uint64_to_str` of kernel/multiboot.c, and what it writes in base 16.
use rotary_os.Base.{
  ℕ, zero, suc, ◌+◌, ◌-◌, ◌*◌, ◌/◌, ◌%◌, ◌^◌, ◌≤◌, ◌<◌, ◌≡◌, ◌⊎◌, inl, inr, ap, arith, true, false,
  ◌==◌, leb-cases, if◌then◌else◌, update, update_same, update_other,
}
use mathlib.Core.Path.{◌∙◌, subst}
use native.Mathlib.Nat.{pow-succ'}
use rotary_os.Strings.{Bytes, hex_digit}
use rotary_os.Strings.Number.{swap_from}
use rotary_os.Strings.Number.Swap.{turned_at, turned_end, turned_outside}
use rotary_os.Multiboot.{udivmod64, udivmod64_lem}

-- The first loop from index `i` on: the bytes, and the index behind the last digit. 64 rounds are enough for 64
-- bits.
pub places_from : (rounds : ℕ) → Bytes → (value base str i : ℕ) → Bytes × ℕ
places_from zero m value base str i = (m, i)
places_from (suc n) m value base str i =
    let (quotient, remainder) = udivmod64 value base in
    let m₁ = update m (str + i) (hex_digit remainder) in
    let rest = places_from n m₁ quotient base str (i + 1) in
    if quotient == 0 then (m₁, i + 1) else rest

-- The second loop turns the digits round, as that of `int_to_str` does.
pub uint64_to_str : Bytes → (value str base : ℕ) → Bytes
uint64_to_str m value str base =
    let (m₁, i) = places_from 64 m value base str 0 in
    swap_from i (update m₁ (str + i) 0) str 0 (i - 1)

-- The number without its last `k` digits.
abbrev pub drop_places : (value k : ℕ) → ℕ
drop_places value zero = value
drop_places value (suc k) = drop_places value k / 16

drop_next : (value i : ℕ) → drop_places value (i + 1) ≡ drop_places value i / 16
drop_next value i = let e : i + 1 ≡ suc i = omega arith in ap (drop_places value) e

drop_places_le : (value k : ℕ) → drop_places value k ≤ value
drop_places_le value zero = omega arith
drop_places_le value (suc k) = omega (arith, drop_places_le value k)

divided : (x : ℕ) → x < 2 ^ 64 → udivmod64 x 16 ≡ (x / 16, x % 16)
divided x h =
    let (whole, small) = udivmod64_lem x 16 h (omega arith) in
    ap (λ q. (q, (udivmod64 x 16).1)) (omega (arith, whole, small))
    ∙ ap (λ r. (x / 16, r)) (omega (arith, whole, small))

-- The digits from index `i` on stand in `r`, the last one first, and are at most `places`.
record IsPlaces (m : Bytes) (value str i places : ℕ) (r : Bytes × ℕ) : Type 0 where
  grows : i < r.1
  bounded : r.1 ≤ i + places
  digit : (k : ℕ) → i ≤ k → k < r.1 → (r.0) (str + k) ≡ hex_digit (drop_places value k % 16)
  whole : drop_places value (r.1) ≡ 0
  others : (a : ℕ) → (a < str + i) ⊎ (str + r.1 ≤ a) → (r.0) a ≡ m a

-- The last round.
last-IsPlaces :
    (n : ℕ) (m : Bytes) (value str i : ℕ)
    → drop_places value i / 16 ≡ 0
    → IsPlaces m value str i
        (suc n)
        (update m (str + i) (hex_digit (drop_places value i % 16)), i + 1)
last-IsPlaces n m value str i z = record {
  grows = omega arith;
  bounded = omega arith;
  digit = λ k l b.
      let e : k ≡ i = omega arith in
      rw e (update_same m (str + i) (hex_digit (drop_places value i % 16)));
  whole = drop_next value i ∙ z;
  others = λ a o. update_other m (str + i) a (hex_digit (drop_places value i % 16)) (omega arith);
}

-- A round before the last.
more-IsPlaces :
    {n : ℕ} {m : Bytes} {value str i : ℕ} {r : Bytes × ℕ}
    → IsPlaces (update m (str + i) (hex_digit (drop_places value i % 16))) value str (i + 1) n r
    → IsPlaces m value str i (suc n) r
more-IsPlaces {n} {m} {value} {str} {i} {r} h = record {
  grows = omega (arith, h.grows);
  bounded = omega (arith, h.bounded);
  digit = λ k l b. elim (leb-cases k i) [
    | inl first ↦
        let e : k ≡ i = omega arith in
        rw e (
          h.others (str + i) (inl (omega arith))
          ∙ update_same m (str + i) (hex_digit (drop_places value i % 16)))
    | inr later ↦ h.digit k (omega arith) b
  ];
  whole = h.whole;
  others = λ a o.
      let grows = h.grows in
      h.others a (omega arith)
      ∙ update_other m (str + i) a (hex_digit (drop_places value i % 16)) (omega arith);
}

places_from-IsPlaces :
    (rounds n : ℕ) (m : Bytes) (value str i : ℕ)
    → value < 2 ^ 64
    → n < rounds
    → drop_places value i < 16 ^ suc n
    → IsPlaces m value str i (suc n) (places_from rounds m (drop_places value i) 16 str i)
unfolding places_from
places_from-IsPlaces zero n m value str i b l h = absurd (omega arith)
places_from-IsPlaces (suc rounds) zero m value str i b l h =
    let fits = drop_places_le value i in
    let go : (drop_places value i / 16 == 0) ≡ true = ground arith in
    rw (divided (drop_places value i) (omega arith), go)
      (last-IsPlaces 0 m value str i (omega arith))
places_from-IsPlaces (suc rounds) (suc n) m value str i b l h =
    let fits = drop_places_le value i in
    rw (divided (drop_places value i) (omega arith))
      (elim (leb-cases (drop_places value i / 16) 0) [
        | inl stop ↦
            let go : (drop_places value i / 16 == 0) ≡ true = ground arith in
            rw go (last-IsPlaces (suc n) m value str i (omega arith))
        | inr on ↦
            let go : (drop_places value i / 16 == 0) ≡ false = ground arith in
            let power : 16 ^ suc (suc n) ≡ 16 * 16 ^ suc n = pow-succ' 16 (suc n) in
            let small : drop_places value (i + 1) < 16 ^ suc n = omega (arith, drop_next value i) in
            let m₁ = update m (str + i) (hex_digit (drop_places value i % 16)) in
            let rest = places_from-IsPlaces rounds n m₁ value str (i + 1) b (omega arith) small in
            rw go (
              subst
                (λ x. IsPlaces m value str i (suc (suc n)) (places_from rounds m₁ x 16 str (i + 1)))
                (drop_next value i) (more-IsPlaces rest))
      ])

-- A number in base 16 in memory: its digits, the highest first, and a 0 behind them.
pub record IsHex (m : Bytes) (str value length : ℕ) : Type 0 where
  pub digit :
      (j : ℕ) → j < length → m (str + (length - 1 - j)) ≡ hex_digit (drop_places value j % 16)
  pub end : m (str + length) ≡ 0
  pub whole : drop_places value length ≡ 0

-- For a number of 64 bits and base 16, `uint64_to_str` writes the digits of the number, the highest first, in lower
-- case, at most 16 of them and at least one, and a 0 behind them; no digit is left out, and no byte in front of the
-- text or behind its end is touched.
pub uint64_to_str-IsHex :
    (m : Bytes) (value str : ℕ)
    → value < 2 ^ 64
    → (length : ℕ) × (0 < length)
      × (length ≤ 16)
      × IsHex (uint64_to_str m value str 16) str value length
      × ((a : ℕ) → (a < str) ⊎ (str + length < a) → uint64_to_str m value str 16 a ≡ m a)
unfolding uint64_to_str
uint64_to_str-IsHex m value str b =
    write (places_from 64 m value 16 str 0)
      (places_from-IsPlaces 64 15 m value str 0 b (omega arith) (omega arith))
  where
    write :
        (r : Bytes × ℕ)
        → IsPlaces m value str 0 16 r
        → (length : ℕ) × (0 < length)
          × (length ≤ 16)
          × IsHex (swap_from (r.1) (update (r.0) (str + r.1) 0) str 0 (r.1 - 1)) str value length
          × ((a : ℕ)
              → (a < str) ⊎ (str + length < a)
              → swap_from (r.1) (update (r.0) (str + r.1) 0) str 0 (r.1 - 1) a ≡ m a)
    write (m₁, length) h =
        let grows = h.grows in
        let bounded = h.bounded in
        (
          length,
          omega arith,
          omega arith,
          record {
            digit = λ j l. turned_at m₁ str length j l ∙ h.digit j (omega arith) l;
            end = turned_end m₁ str length (omega arith);
            whole = h.whole;
          },
          λ a o.
              turned_outside m₁ str length a (omega arith) (omega arith) ∙ h.others a (omega arith),
        )

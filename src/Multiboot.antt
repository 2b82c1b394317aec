-- ===== src/Multiboot.antt =====
-- `udivmod64` of kernel/multiboot.c, the division of 64-bit numbers by shifts.
pub mod Map
pub mod Text
mod Tests
use rotary_os.Base.{
  ℕ, zero, suc, ◌+◌, ◌-◌, ◌*◌, ◌/◌, ◌%◌, ◌^◌, ◌≤◌, ◌<◌, ◌≡◌, inl, inr, refl, sym, ap, leb→le, arith,
  true, false, Bool-cases, leb, if◌then◌else◌, bit_and, bit_or,
}
use rotary_os.Base.Joins.{shifted-bit_or}
use rotary_os.Base.Bits.{bit_and-low_mask}
use mathlib.Core.Path.{◌∙◌}
use native.Mathlib.Nat.{pow-suc, one-le-pow, pow-le-pow_right, div-le_self, div-div-eq-div-mul}

-- The next remainder: shifted in 64 bits, with bit `i` of the dividend as its last.
abbrev pub bring_down : (dividend r i : ℕ) → ℕ
bring_down dividend r i = bit_or (r * 2 % 2 ^ 64) (bit_and (dividend / 2 ^ i) 1)

-- The rounds for the bits below `n`, from the highest down, on a quotient and a remainder.
pub divide_bits : (n dividend divisor q r : ℕ) → ℕ × ℕ
divide_bits zero dividend divisor q r = (q, r)
divide_bits (suc i) dividend divisor q r =
    let r₁ = bring_down dividend r i in
    let less = leb divisor r₁ in
    divide_bits i dividend divisor (if less then bit_or q (2 ^ i % 2 ^ 64) else q)
      (if less then r₁ - divisor else r₁)

-- The quotient and the remainder, which the code stores where its pointers are not null.
pub udivmod64 : (dividend divisor : ℕ) → ℕ × ℕ
udivmod64 dividend divisor = divide_bits 64 dividend divisor 0 0

or_last_bit : (x b : ℕ) → b < 2 → bit_or (x * 2) b ≡ x * 2 + b
or_last_bit x b h = shifted-bit_or 1 b x h

or_low_bit : (i x : ℕ) → bit_or (x * 2 * 2 ^ i) (2 ^ i) ≡ (x * 2 + 1) * 2 ^ i
or_low_bit i x =
    let power : 2 ^ suc i ≡ 2 ^ i * 2 = pow-suc 2 i in
    let pos : 1 ≤ 2 ^ i = one-le-pow i 2 (omega arith) in
    let both : x * 2 * 2 ^ i ≡ x * 2 ^ suc i = rw power (around x (2 ^ i)) in
    let sum : x * (2 ^ i * 2) + 2 ^ i ≡ (x * 2 + 1) * 2 ^ i = around_add x (2 ^ i) in
    rw both (shifted-bit_or (suc i) (2 ^ i) x (omega arith) ∙ rw power sum)
  where
    around : (a b : ℕ) → a * 2 * b ≡ a * (b * 2)
    around a b = grind arith

    around_add : (a b : ℕ) → a * (b * 2) + b ≡ (a * 2 + 1) * b
    around_add a b = grind arith

-- A round in the middle of the division: `quotient` is that of the bits from `n` on.
record IsPart (dividend divisor n q r : ℕ) : Type 0 where
  quotient : ℕ
  placed : q ≡ quotient * 2 ^ n
  equation : dividend / 2 ^ n ≡ quotient * divisor + r
  below : r < divisor

module _ (dividend divisor : ℕ) (fits : dividend < 2 ^ 64) where
  bring_down-is :
      (i r : ℕ) → r ≤ dividend / 2 ^ i / 2 → bring_down dividend r i ≡ r * 2 + dividend / 2 ^ i % 2
  bring_down-is i r b =
      let small : dividend / 2 ^ i ≤ dividend = div-le_self dividend (2 ^ i) in
      let plain : r * 2 % 2 ^ 64 ≡ r * 2 = omega (arith, fits) in
      let last : bit_and (dividend / 2 ^ i) 1 ≡ dividend / 2 ^ i % 2 =
        bit_and-low_mask 1 (dividend / 2 ^ i) in
      rw (plain, last) (or_last_bit r (dividend / 2 ^ i % 2) (omega arith))

  round :
      (i q r : ℕ)
      → i < 64
      → IsPart dividend divisor (suc i) q r
      → let r₁ = bring_down dividend r i in
        let less = leb divisor r₁ in
        IsPart dividend divisor i
          (if less then bit_or q (2 ^ i % 2 ^ 64) else q)
          (if less then r₁ - divisor else r₁)
  round i q r b p = elim (Bool-cases (leb divisor (bring_down dividend r i))) [
    | inl less ↦ rw less (record {
      quotient = p.quotient * 2 + 1;
      placed = rw (one_bit, p.placed, twice) (or_low_bit i p.quotient);
      equation = omega (
        arith,
        more_equation,
        plus (p.quotient * 2),
        leb→le divisor (bring_down dividend r i) less,
      );
      below =
          omega
            (arith, bring_down-is i r part, p.below, leb→le divisor (bring_down dividend r i) less);
    })
    | inr more ↦ rw more (record {
      quotient = p.quotient * 2;
      placed = p.placed ∙ twice;
      equation = more_equation;
      below = ground (arith, more);
    })
  ]
    where
      swap : (a : ℕ) → a * 2 * divisor ≡ a * divisor * 2
      swap a = grind arith

      plus : (a : ℕ) → (a + 1) * divisor ≡ a * divisor + divisor
      plus a = grind arith

      twice : p.quotient * 2 ^ suc i ≡ p.quotient * 2 * 2 ^ i
      twice = grind (arith, pow-suc 2 i)

      halves : dividend / 2 ^ suc i ≡ dividend / 2 ^ i / 2
      halves =
          let e : 2 ^ suc i ≡ 2 ^ i * 2 = omega (arith, pow-suc 2 i) in
          rw (e, div-div-eq-div-mul dividend (2 ^ i) 2) refl

      part : r ≤ dividend / 2 ^ i / 2
      part = omega (arith, p.equation, halves)

      more_equation : dividend / 2 ^ i ≡ p.quotient * 2 * divisor + bring_down dividend r i
      more_equation = omega (arith, bring_down-is i r part, p.equation, halves, swap p.quotient)

      one_bit : 2 ^ i % 2 ^ 64 ≡ 2 ^ i
      one_bit =
          let small : i ≤ 63 = omega (arith, b) in
          omega (arith, pow-le-pow_right {n = 2} (omega arith) small)

  divide_bits_lem :
      (n q r : ℕ)
      → n ≤ 64
      → IsPart dividend divisor n q r
      → IsPart dividend divisor 0
          (divide_bits n dividend divisor q r).0
          (divide_bits n dividend divisor q r).1
  unfolding divide_bits
  divide_bits_lem zero q r b p = p
  divide_bits_lem (suc i) q r b p =
      let r₁ = bring_down dividend r i in
      let less = leb divisor r₁ in
      divide_bits_lem i (if less then bit_or q (2 ^ i % 2 ^ 64) else q)
        (if less then r₁ - divisor else r₁) (omega arith) (round i q r (omega arith) p)

-- For any dividend of 64 bits and any divisor but 0, the results are the quotient and the remainder
-- of the division: no shift overflows.
pub udivmod64_lem :
    (dividend divisor : ℕ)
    → dividend < 2 ^ 64
    → 0 < divisor
    → ((udivmod64 dividend divisor).0 * divisor + (udivmod64 dividend divisor).1 ≡ dividend)
      × ((udivmod64 dividend divisor).1 < divisor)
unfolding udivmod64
udivmod64_lem dividend divisor a b =
    let done =
      divide_bits_lem dividend divisor a 64 0 0 (omega arith)
        (record { quotient = 0; placed = refl; equation = omega arith; below = b }) in
    let whole : dividend / 1 ≡ dividend = omega arith in
    let places : done.quotient * 1 ≡ done.quotient = omega arith in
    let quotient : (divide_bits 64 dividend divisor 0 0).0 ≡ done.quotient = done.placed ∙ places in
    (
      ap (λ t. t * divisor + (divide_bits 64 dividend divisor 0 0).1) quotient
          ∙ sym done.equation
          ∙ whole,
      done.below,
    )

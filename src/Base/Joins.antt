-- ===== src/Base/Joins.antt =====
-- `|` of numbers whose bits do not overlap is their sum.
use Prim.Native.Nat.{ℕ, zero, suc, ◌+◌, ◌*◌, ◌/◌, ◌%◌, ◌^◌, ◌<◌, bit_or}
use mathlib.Core.Path.{◌≡◌}
use native.Mathlib.Nat.{pow-suc}
use native.Mathlib.Omega.{arith}
use rotary_os.Base.Digits.{or_digit, or_from_zero}

-- `| 0`, by recursion on a bound of the number.
or_zero_below : (bound x : ℕ) → x < bound → bit_or x 0 ≡ x
or_zero_below zero x u = absurd (omega (arith, u))
or_zero_below (suc bound) zero u = omega (arith, or_digit 0 0)
or_zero_below (suc bound) (suc x) u =
    omega (arith, or_zero_below bound (suc x / 2) (omega (arith, u)), or_digit (suc x) 0)

pub bit_or-zero : (x : ℕ) → bit_or x 0 ≡ x
bit_or-zero x = or_zero_below (suc x) x (omega arith)

or_even_right : (x y : ℕ) → bit_or x (y * 2) ≡ bit_or (x / 2) y * 2 + x % 2
or_even_right x y =
    let half : y * 2 / 2 ≡ y = omega arith in
    let shorter : bit_or (x / 2) (y * 2 / 2) ≡ bit_or (x / 2) y = rw half in
    omega (arith, or_digit x (y * 2), shorter)

or_even_left : (x y : ℕ) → bit_or (y * 2) x ≡ bit_or y (x / 2) * 2 + x % 2
or_even_left x y =
    let half : y * 2 / 2 ≡ y = omega arith in
    let shorter : bit_or (y * 2 / 2) (x / 2) ≡ bit_or y (x / 2) = rw half in
    omega (arith, or_digit (y * 2) x, shorter)

outer : (a b : ℕ) → a * (b * 2) ≡ a * b * 2
outer a b = grind arith

shift_once : (k y : ℕ) → y * 2 ^ suc k ≡ y * 2 ^ k * 2
shift_once k y = let e : 2 ^ suc k ≡ 2 ^ k * 2 = pow-suc 2 k in rw e (outer y (2 ^ k))

-- The number below on the left.
pub bit_or-shifted : (k x y : ℕ) → x < 2 ^ k → bit_or x (y * 2 ^ k) ≡ x + y * 2 ^ k
bit_or-shifted zero x y h =
    let e : y * 1 ≡ y = omega arith in
    let none : x ≡ 0 = omega arith in rw (e, none) (omega (arith, or_from_zero y))
bit_or-shifted (suc k) x y h =
    let e = shift_once k y in
    let small : x / 2 < 2 ^ k = omega (arith, pow-suc 2 k) in
    rw e (omega (arith, or_even_right x (y * 2 ^ k), bit_or-shifted k (x / 2) y small))

-- The number below on the right.
pub shifted-bit_or : (k x y : ℕ) → x < 2 ^ k → bit_or (y * 2 ^ k) x ≡ y * 2 ^ k + x
shifted-bit_or zero x y h =
    let e : y * 1 ≡ y = omega arith in
    let none : x ≡ 0 = omega arith in rw (e, none) (omega (arith, bit_or-zero y))
shifted-bit_or (suc k) x y h =
    let e = shift_once k y in
    let small : x / 2 < 2 ^ k = omega (arith, pow-suc 2 k) in
    rw e (omega (arith, or_even_left x (y * 2 ^ k), shifted-bit_or k (x / 2) y small))

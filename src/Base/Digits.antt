-- ===== src/Base/Digits.antt =====
-- The digit recursion that stands for `&` and `|` on numbers, and checks of a range by evaluation.
use Prim.Native.Nat.{
  ℕ, zero, suc, ◌+◌, ◌*◌, ◌/◌, ◌%◌, ◌≤◌, ◌<◌, min, max, bit_and, bit_or, digits, bit_and-bitwise,
  bit_or-bitwise,
}
use mathlib.Core.Path.{◌≡◌, refl}
use mathlib.Core.Bool.{Bool, true, ◌&&◌}
use native.Mathlib.Nat.{le_refl}
use native.Mathlib.Omega.{arith}

-- The depth of the recursion does not matter once it covers the first number.
module _ (base : ℕ → ℕ) (op : ℕ → ℕ → ℕ) where
  depth_irrelevant :
      (x y : ℕ) (k l : ℕ) → x ≤ k → x ≤ l → digits base op k x y ≡ digits base op l x y
  depth_irrelevant zero y zero zero u v = refl
  depth_irrelevant zero y zero (suc l) u v = refl
  depth_irrelevant zero y (suc k) zero u v = refl
  depth_irrelevant zero y (suc k) (suc l) u v = refl
  depth_irrelevant (suc x) y zero l u v = absurd (omega (arith, u))
  depth_irrelevant (suc x) y (suc k) zero u v = absurd (omega (arith, v))
  depth_irrelevant (suc x) y (suc k) (suc l) u v =
      omega (arith, depth_irrelevant (suc x / 2) (y / 2) k l (omega (arith, u)) (omega (arith, v)))

  -- One digit off a number that is not 0.
  digit_off :
      (x y : ℕ)
      → digits base op (suc x) (suc x) y
        ≡ digits base op (suc x / 2) (suc x / 2) (y / 2) * 2 + op (suc x % 2) (y % 2)
  digit_off x y = omega (
    arith,
    depth_irrelevant (suc x / 2) (y / 2) x (suc x / 2) (omega arith) (le_refl (suc x / 2)),
  )

and_from_zero : (y : ℕ) → bit_and 0 y ≡ 0
and_from_zero y = bit_and-bitwise 0 y

pub or_from_zero : (y : ℕ) → bit_or 0 y ≡ y
or_from_zero y = bit_or-bitwise 0 y

-- The laws of the last digit.
pub and_digit : (x y : ℕ) → bit_and x y ≡ bit_and (x / 2) (y / 2) * 2 + min (x % 2) (y % 2)
and_digit zero y = omega (arith, and_from_zero (y / 2), and_from_zero y)
and_digit (suc x) y =
    let whole = bit_and-bitwise (suc x) y in
    let shorter = bit_and-bitwise (suc x / 2) (y / 2) in
    omega (arith, whole, digit_off (λ t. zero) min x y, shorter)

pub or_digit : (x y : ℕ) → bit_or x y ≡ bit_or (x / 2) (y / 2) * 2 + max (x % 2) (y % 2)
or_digit zero y = omega (arith, or_from_zero (y / 2), or_from_zero y)
or_digit (suc x) y =
    let whole = bit_or-bitwise (suc x) y in
    let shorter = bit_or-bitwise (suc x / 2) (y / 2) in
    omega (arith, whole, digit_off (λ t. t) max x y, shorter)

-- `& 0` is 0, by recursion on a bound of the number.
and_zero_below : (bound x : ℕ) → x < bound → bit_and x 0 ≡ 0
and_zero_below zero x u = absurd (omega (arith, u))
and_zero_below (suc bound) zero u = and_from_zero 0
and_zero_below (suc bound) (suc x) u =
    let shorter = and_zero_below bound (suc x / 2) (omega (arith, u)) in
    omega (arith, shorter, and_digit (suc x) 0)

pub bit_and-zero : (x : ℕ) → bit_and x 0 ≡ 0
bit_and-zero x = and_zero_below (x + 1) x (omega arith)

-- A test that holds at every number below the last argument.
unfoldable pub holds_below : (ℕ → Bool) → ℕ → Bool
holds_below test zero = true
holds_below test (suc top) = holds_below test top && test top

pub test_of_holds_below :
    (test : ℕ → Bool) (top i : ℕ) → holds_below test top ≡ true → i < top → test i ≡ true
unfolding holds_below
test_of_holds_below test zero i all u = absurd (omega (arith, u))
test_of_holds_below test (suc top) i all u = ground (arith, test_of_holds_below test top i)

-- ===== src/Base/Bits.antt =====
-- The bits of a number, and what `&`, `|` and `& ~` do to each bit.
use Prim.Native.Nat.{ℕ, zero, suc, ◌+◌, ◌-◌, ◌*◌, ◌/◌, ◌%◌, ◌^◌, ◌<◌, min, max, bit_and, bit_or}
use mathlib.Core.Path.{◌≡◌, refl, sym, ◌∙◌, ap}
use mathlib.Core.Bool.{Bool, true, false, ◌&&◌}
use native.Mathlib.Nat.{
  pow-suc, one-le-pow, div-add-mod, mod-lt, mod-eq_of_lt, add-mul-mod_self_right,
  div-div-eq-div-mul,
}
use native.Mathlib.Omega.{arith}
use rotary_os.Base.Tests.{◌==◌, if◌then◌else◌}
use rotary_os.Base.Digits.{and_digit, or_digit, bit_and-zero, holds_below, test_of_holds_below}
use rotary_os.Base.Words.{not32, shl32}

-- Bit `k` of `n`: 0 or 1.
unfoldable pub bit : ℕ → ℕ → ℕ
bit n zero = n % 2
bit n (suc k) = bit (n / 2) k

pub bit-lt : (n k : ℕ) → bit n k < 2
unfolding bit
bit-lt n zero = omega arith
bit-lt n (suc k) = bit-lt (n / 2) k

pub zero-bit : (k : ℕ) → bit 0 k ≡ 0
unfolding bit
zero-bit zero = refl
zero-bit (suc k) = zero-bit k

pub bit-bit_and : (a b k : ℕ) → bit (bit_and a b) k ≡ min (bit a k) (bit b k)
unfolding bit
bit-bit_and a b zero = omega (arith, and_digit a b)
bit-bit_and a b (suc k) =
    ap (λ t. bit t k) (omega (arith, and_digit a b)) ∙ bit-bit_and (a / 2) (b / 2) k

pub bit-bit_or : (a b k : ℕ) → bit (bit_or a b) k ≡ max (bit a k) (bit b k)
unfolding bit
bit-bit_or a b zero = omega (arith, or_digit a b)
bit-bit_or a b (suc k) =
    ap (λ t. bit t k) (omega (arith, or_digit a b)) ∙ bit-bit_or (a / 2) (b / 2) k

-- A mask of one bit.
bit_and-two_pow : (a k : ℕ) → bit_and a (2 ^ k) ≡ bit a k * 2 ^ k
unfolding bit
bit_and-two_pow a zero = omega (arith, and_digit a 1, bit_and-zero (a / 2))
bit_and-two_pow a (suc k) =
    let e : 2 ^ suc k ≡ 2 * 2 ^ k = omega (arith, pow-suc 2 k) in
    rw e (
      omega (
        arith,
        and_digit a (2 * 2 ^ k),
        ap (λ t. bit_and (a / 2) t) (half-double (2 ^ k)),
        bit_and-two_pow (a / 2) k,
      ))
  where
    half-double : (n : ℕ) → 2 * n / 2 ≡ n
    half-double n = omega arith

-- A remainder by `2 * p`, from its last digit.
mod-double : (x p : ℕ) → 0 < p → x / 2 % p * 2 + x % 2 ≡ x % (2 * p)
mod-double x p h =
    let d = x / 2 % p * 2 + x % 2 in
    let e : x ≡ d + x / 2 / p * (2 * p) = omega (arith, div-add-mod (x / 2) p) in
    let small : d < 2 * p = omega (arith, mod-lt (x / 2) h) in
    sym
      (ap (λ t. t % (2 * p)) e ∙ add-mul-mod_self_right d (x / 2 / p) (2 * p) ∙ mod-eq_of_lt small)

-- `& (2^k - 1)` is the remainder by `2^k`.
pub bit_and-low_mask : (k x : ℕ) → bit_and x (2 ^ k - 1) ≡ x % 2 ^ k
bit_and-low_mask zero x = omega (arith, bit_and-zero x)
bit_and-low_mask (suc k) x =
    let e : 2 ^ suc k ≡ 2 * 2 ^ k = omega (arith, pow-suc 2 k) in
    let pos : 0 < 2 ^ k = one-le-pow k 2 (omega arith) in
    rw e (
      omega (
        arith,
        and_digit x (2 * 2 ^ k - 1),
        ap (λ t. bit_and (x / 2) t) (half (2 ^ k) pos),
        bit_and-low_mask k (x / 2),
        mod-double x (2 ^ k) pos,
      ))
  where
    half : (n : ℕ) → 0 < n → (2 * n - 1) / 2 ≡ n - 1
    half n h = omega arith

-- `&` with a mask whose `k` low bits are clear drops these bits.
pub bit_and-high_mask : (k x m : ℕ) → bit_and x (m * 2 ^ k) ≡ bit_and (x / 2 ^ k) m * 2 ^ k
bit_and-high_mask zero x m =
    let e : m * 1 ≡ m = omega arith in let d : x / 1 ≡ x = omega arith in rw (e, d) (omega arith)
bit_and-high_mask (suc k) x m =
    let e : 2 ^ suc k ≡ 2 * 2 ^ k = omega (arith, pow-suc 2 k) in
    rw e (
      omega (
        arith,
        and_digit x (m * (2 * 2 ^ k)),
        ap (λ t. bit_and (x / 2) t) (half (m * 2 ^ k)),
        bit_and-high_mask k (x / 2) m,
        ap (λ t. bit_and t m * 2 ^ k) (div-div-eq-div-mul x 2 (2 ^ k)),
      ))
  where
    half : (n : ℕ) → m * (2 * 2 ^ k) / 2 ≡ m * 2 ^ k
    half n = omega arith

-- `1 << k` in 32 bits
abbrev pub bit_mask : ℕ → ℕ
bit_mask k = shl32 1 k

abbrev mask_row : ℕ → Bool
mask_row k =
    (bit_mask k == 2 ^ k)
    && holds_below
        (λ j.
          (bit (bit_mask k) j == (if j == k then 1 else 0))
          && (bit (not32 (bit_mask k)) j == (if j == k then 0 else 1)))
        32

mask_table : holds_below mask_row 32 ≡ true
unfolding holds_below bit
mask_table = refl

mask_row_sound : (k : ℕ) → k < 32 → mask_row k ≡ true
mask_row_sound k h = test_of_holds_below mask_row 32 k mask_table h

mask_entry_sound :
    (j k : ℕ)
    → k < 32
    → j < 32
    → ((bit (bit_mask k) j == (if j == k then 1 else 0))
        && (bit (not32 (bit_mask k)) j == (if j == k then 0 else 1)))
      ≡ true
mask_entry_sound j k hk hj =
    test_of_holds_below _ 32 j (and_right (bit_mask k == 2 ^ k) _ (mask_row_sound k hk)) hj
  where
    and_right : (a b : Bool) → (a && b) ≡ true → b ≡ true
    and_right true b h = h
    and_right false b h = cc

-- A test of bit `k` reads that bit.
pub bit_and-mask : (a k : ℕ) → k < 32 → bit_and a (bit_mask k) ≡ bit a k * 2 ^ k
bit_and-mask a k h =
    let e : bit_mask k ≡ 2 ^ k = ground (arith, mask_row_sound k h) in rw e (bit_and-two_pow a k)

-- `a |= 1 << k` sets bit `k` and keeps the others.
pub bit-set_mask :
    (a j k : ℕ) → k < 32 → j < 32 → bit (bit_or a (bit_mask k)) j ≡ (if j == k then 1 else bit a j)
bit-set_mask a j k hk hj =
    ground (arith, bit-bit_or a (bit_mask k) j, mask_entry_sound j k hk hj, bit-lt a j)

-- `a &= ~(1 << k)` clears bit `k` and keeps the others.
pub bit-clear_mask :
    (a j k : ℕ)
    → k < 32
    → j < 32
    → bit (bit_and a (not32 (bit_mask k))) j ≡ (if j == k then 0 else bit a j)
bit-clear_mask a j k hk hj =
    ground (arith, bit-bit_and a (not32 (bit_mask k)) j, mask_entry_sound j k hk hj, bit-lt a j)

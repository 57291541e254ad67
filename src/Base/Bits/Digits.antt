-- ===== src/Base/Bits/Digits.antt =====
-- The k-th binary digit, and the digits of `|`, `&`, `1 << j` and 0.
use Prim.Native.Nat.{
  ℕ, zero, suc, ◌/◌, ◌%◌, ◌^◌, ◌≤◌, ◌<◌, min, max, bit_and, bit_or, digits, bit_and-bitwise,
  bit_or-bitwise,
}
use mathlib.Core.Path.{◌≡◌, refl, ap, ◌∙◌}
use mathlib.Core.Bool.{Bool, false, ◌&&◌, ◌||◌}
use native.Mathlib.Decide.{ℕ_discrete}
use native.Mathlib.Nat.{pow-suc, le_refl}
use native.Mathlib.Omega.{arith}
use bpf_rbacd.Base.Equality.{◌==◌, nat_eq}

-- Digit k of n, counted from the lowest.
unfoldable pub test_bit : ℕ → ℕ → Bool
test_bit n zero = n % 2 == 1
test_bit n (suc k) = test_bit (n / 2) k

pub test_bit-zero : (k : ℕ) → test_bit 0 k ≡ false
unfolding test_bit nat_eq ℕ_discrete
test_bit-zero zero = refl
test_bit-zero (suc k) = test_bit-zero k

-- `|` and `&` on `rounds` digits of the first number.
abbrev ors : ℕ → ℕ → ℕ → ℕ
ors = digits (λ rest. rest) max

abbrev ands : ℕ → ℕ → ℕ → ℕ
ands = digits (λ _. 0) min

test_bit-ors :
    (rounds a b k : ℕ) → a ≤ rounds → test_bit (ors rounds a b) k ≡ (test_bit a k || test_bit b k)
unfolding test_bit
test_bit-ors zero a b k h = let e : a ≡ 0 = omega arith in rw (e, test_bit-zero k)
test_bit-ors (suc rounds) zero b k h = rw (test_bit-zero k)
test_bit-ors (suc rounds) (suc a) b zero h = ground arith
test_bit-ors (suc rounds) (suc a) b (suc k) h =
    let shifted : ors (suc rounds) (suc a) b / 2 ≡ ors rounds (suc a / 2) (b / 2) = omega arith in
    rw shifted (test_bit-ors rounds (suc a / 2) (b / 2) k (omega arith))

test_bit-ands :
    (rounds a b k : ℕ) → a ≤ rounds → test_bit (ands rounds a b) k ≡ (test_bit a k && test_bit b k)
unfolding test_bit
test_bit-ands zero a b k h = let e : a ≡ 0 = omega arith in rw (e, test_bit-zero k)
test_bit-ands (suc rounds) zero b k h = rw (test_bit-zero k)
test_bit-ands (suc rounds) (suc a) b zero h = ground arith
test_bit-ands (suc rounds) (suc a) b (suc k) h =
    let shifted : ands (suc rounds) (suc a) b / 2 ≡ ands rounds (suc a / 2) (b / 2) = omega arith in
    rw shifted (test_bit-ands rounds (suc a / 2) (b / 2) k (omega arith))

pub test_bit-bit_or : (a b k : ℕ) → test_bit (bit_or a b) k ≡ (test_bit a k || test_bit b k)
test_bit-bit_or a b k =
    ap (λ n. test_bit n k) (bit_or-bitwise a b) ∙ test_bit-ors a a b k (le_refl a)

pub test_bit-bit_and : (a b k : ℕ) → test_bit (bit_and a b) k ≡ (test_bit a k && test_bit b k)
test_bit-bit_and a b k =
    ap (λ n. test_bit n k) (bit_and-bitwise a b) ∙ test_bit-ands a a b k (le_refl a)

-- Bounds of the two, by powers of two.
ors-lt : (w rounds a b : ℕ) → a < 2 ^ w → b < 2 ^ w → ors rounds a b < 2 ^ w
ors-lt w zero a b p q = q
ors-lt w (suc rounds) zero b p q = q
ors-lt zero (suc rounds) (suc a) b p q = absurd (omega arith)
ors-lt (suc w) (suc rounds) (suc a) b p q =
    let twice = pow-suc 2 w in
    omega (arith, ors-lt w rounds (suc a / 2) (b / 2) (omega arith) (omega arith))

ands-lt : (w rounds a b : ℕ) → 0 < 2 ^ w → b < 2 ^ w → ands rounds a b < 2 ^ w
ands-lt w zero a b p q = p
ands-lt w (suc rounds) zero b p q = p
ands-lt zero (suc rounds) (suc a) b p q =
    let e : b ≡ 0 = omega arith in
    omega (arith, ands-lt zero rounds (suc a / 2) (b / 2) p (omega arith))
ands-lt (suc w) (suc rounds) (suc a) b p q =
    let twice = pow-suc 2 w in
    omega (arith, ands-lt w rounds (suc a / 2) (b / 2) (omega arith) (omega arith))

pub bit_or-lt : (w a b : ℕ) → a < 2 ^ w → b < 2 ^ w → bit_or a b < 2 ^ w
bit_or-lt w a b p q = rw (bit_or-bitwise a b) (ors-lt w a a b p q)

-- `&` is bounded by its second number.
pub bit_and-lt : (w a b : ℕ) → b < 2 ^ w → bit_and a b < 2 ^ w
bit_and-lt w a b q = rw (bit_and-bitwise a b) (ands-lt w a a b (omega arith) q)

pub test_bit-pow : (j k : ℕ) → test_bit (2 ^ j) k ≡ (j == k)
unfolding test_bit
test_bit-pow zero zero = ground arith
test_bit-pow zero (suc k) = test_bit-zero k ∙ ground arith
test_bit-pow (suc j) zero = ground (arith, pow-suc 2 j)
test_bit-pow (suc j) (suc k) =
    let half : 2 ^ suc j / 2 ≡ 2 ^ j = omega (arith, pow-suc 2 j) in
    rw half (test_bit-pow j k ∙ ground arith)

-- ===== src/Base/Bits/Width.antt =====
-- Bitmaps of a fixed width: equality by digits, the shift and the mask test of the source.
use Prim.Native.Nat.{ℕ, zero, suc, ◌+◌, ◌/◌, ◌%◌, ◌^◌, ◌≤◌, ◌<◌, bit_and}
use mathlib.Core.Path.{◌≡◌, refl, ap, ◌∙◌}
use mathlib.Core.Logic.{inl, inr}
use mathlib.Core.Bool.{Bool, false}
use native.Mathlib.Nat.{pow-suc, one-le-pow, pow-le-pow_right}
use native.Mathlib.Omega.{arith}
use bpf_rbacd.Base.Equality.{◌!=◌, nat_eq, Bool-cases}
use bpf_rbacd.Base.Number.{ltb}
use bpf_rbacd.Base.Bits.Digits.{test_bit, test_bit-bit_and, test_bit-zero, test_bit-pow, bit_and-lt}

-- `1 << k` on `u32`: without the check for overflow, the shift takes the low five bits of k.
abbrev pub shl_one : ℕ → ℕ
shl_one k = 2 ^ (k % 32)

-- `0xFFFFFFFF`
abbrev pub all_ones : ℕ
all_ones = 0xFFFFFFFF

-- `bitmap & (1 << k) != 0`
abbrev pub masks : ℕ → ℕ → Bool
masks bitmap k = bit_and bitmap (shl_one k) != 0

test_bit-all : (w n k : ℕ) → n + 1 ≡ 2 ^ w → test_bit n k ≡ ltb k w
unfolding test_bit
test_bit-all zero n k h = let e : n ≡ 0 = omega arith in rw e (test_bit-zero k ∙ ground arith)
test_bit-all (suc w) n zero h = ground (arith, pow-suc 2 w)
test_bit-all (suc w) n (suc k) h =
    test_bit-all w (n / 2) k (omega (arith, pow-suc 2 w)) ∙ ground arith

-- Exactly the digits below 32 of `0xFFFFFFFF` are ones.
pub test_bit-all_ones : (k : ℕ) → test_bit all_ones k ≡ ltb k 32
test_bit-all_ones k = test_bit-all 32 all_ones k refl

-- A number of w digits is determined by them.
pub eq_of_digits :
    (w a b : ℕ) → a < 2 ^ w → b < 2 ^ w → ((k : ℕ) → test_bit a k ≡ test_bit b k) → a ≡ b
unfolding test_bit
eq_of_digits zero a b p q h = omega arith
eq_of_digits (suc w) a b p q h =
    let half : a / 2 ≡ b / 2 =
      eq_of_digits w (a / 2) (b / 2) (omega (arith, pow-suc 2 w)) (omega (arith, pow-suc 2 w))
        (λ k. h (suc k)) in
    let low : a % 2 ≡ b % 2 = ground (arith, h 0) in omega arith

-- The mask keeps digit k alone, so it is 0 exactly when that digit is.
bit_and-pow_digits :
    (n k j : ℕ) → test_bit n k ≡ false → test_bit (bit_and n (2 ^ k)) j ≡ test_bit 0 j
bit_and-pow_digits n k j off =
    ground (arith, test_bit-bit_and n (2 ^ k) j, test_bit-pow k j, test_bit-zero j)

bit_and-pow_off : (n k : ℕ) → test_bit n k ≡ false → bit_and n (2 ^ k) ≡ 0
bit_and-pow_off n k off =
    eq_of_digits (suc k) (bit_and n (2 ^ k)) 0
      (bit_and-lt (suc k) n (2 ^ k) (omega (arith, pow-suc 2 k, one-le-pow k 2)))
      (omega (arith, pow-suc 2 k, one-le-pow k 2)) (λ j. bit_and-pow_digits n k j off)

bit_and-pow : (n k : ℕ) → (bit_and n (2 ^ k) != 0) ≡ test_bit n k
bit_and-pow n k = elim (Bool-cases (test_bit n k)) [
  | inl on ↦ ground (arith, test_bit-bit_and n (2 ^ k) k, test_bit-pow k k, test_bit-zero k)
  | inr off ↦ ground (arith, bit_and-pow_off n k off)
]

-- The shift loses nothing below 32.
pub shl_one-eq : (k : ℕ) → k < 32 → shl_one k ≡ 2 ^ k
shl_one-eq k h = let low : k % 32 ≡ k = omega arith in ap (λ (n : ℕ). 2 ^ n) low

pub shl_one-lt : (k : ℕ) → shl_one k < 2 ^ 32
shl_one-lt k =
    let le : 2 ^ (k % 32) ≤ 2 ^ 31 = pow-le-pow_right (omega arith) {j = 31} (omega arith) in
    omega arith

-- The mask test of the source reads one digit.
pub masks-test_bit : (n k : ℕ) → k < 32 → masks n k ≡ test_bit n k
masks-test_bit n k h = rw (shl_one-eq k h) (bit_and-pow n k)

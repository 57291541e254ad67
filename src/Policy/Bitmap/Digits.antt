-- ===== src/Policy/Bitmap/Digits.antt =====
-- The digits of the bitmaps of src/policy.rs, and that they are `u32` values.
use bpf_rbacd.Base.{
  ℕ, ◌^◌, ◌<◌, String, Bool, false, ◌||◌, Option, none, some, List, [], ◌∷◌, HashMap, any, keys,
  contains_key, ◌≡◌, refl, ◌∙◌, arith, ◌==◌, string_eq, nat_eq,
}
use bpf_rbacd.Base.Bits.{
  shl_one, test_bit, test_bit-bit_or, test_bit-zero, test_bit-pow, test_bit-all_ones, shl_one-eq,
  shl_one-lt, bit_or-lt,
}
use bpf_rbacd.Policy.Bitmap.{add_bit, or_bits, types_bits, commands_bits}
use bpf_rbacd.Policy.Tables.{command_to_bit}
use bpf_rbacd.Policy.Tables.Codes.{command_to_bit-lt}

abbrev pub is_code : ℕ → Option ℕ → Bool
is_code k none = false
is_code k (some code) = code == k

-- The table gives this name the code k.
abbrev pub codes_to : (String → Option ℕ) → ℕ → String → Bool
codes_to to_bit k name = is_code k (to_bit name)

-- Every code of the table is a position in a `u32`.
abbrev pub FitsWord : (String → Option ℕ) → Type 0
FitsWord to_bit = (name : String) (code : ℕ) → to_bit name ≡ some code → code < 32

test_bit-add_bit :
    (code : Option ℕ) (bitmap k : ℕ)
    → ((c : ℕ) → code ≡ some c → c < 32)
    → test_bit (add_bit code bitmap) k ≡ (test_bit bitmap k || is_code k code)
unfolding add_bit
test_bit-add_bit none bitmap k fits = ground arith
test_bit-add_bit (some c) bitmap k fits =
    rw (shl_one-eq c (fits c refl), test_bit-bit_or bitmap (2 ^ c) k, test_bit-pow c k)

add_bit-lt :
    (code : Option ℕ) (bitmap : ℕ)
    → ((c : ℕ) → code ≡ some c → c < 32)
    → bitmap < 2 ^ 32
    → add_bit code bitmap < 2 ^ 32
unfolding add_bit
add_bit-lt none bitmap fits h = h
add_bit-lt (some c) bitmap fits h = bit_or-lt 32 bitmap (shl_one c) h (shl_one-lt c)

module _ (to_bit : String → Option ℕ) (fits : FitsWord to_bit) where
  -- A digit of the loop's result: it was set before, or some name has that code.
  pub test_bit-or_bits :
      (names : List String) (bitmap k : ℕ)
      → test_bit (or_bits to_bit names bitmap) k
        ≡ (test_bit bitmap k || any (codes_to to_bit k) names)
  unfolding or_bits
  test_bit-or_bits [] bitmap k = ground arith
  test_bit-or_bits (name ∷ names) bitmap k = ground (
    arith,
    test_bit-or_bits names (add_bit (to_bit name) bitmap) k,
    test_bit-add_bit (to_bit name) bitmap k (fits name),
  )

  pub or_bits-lt :
      (names : List String) (bitmap : ℕ) → bitmap < 2 ^ 32 → or_bits to_bit names bitmap < 2 ^ 32
  unfolding or_bits
  or_bits-lt [] bitmap h = h
  or_bits-lt (name ∷ names) bitmap h =
      or_bits-lt names (add_bit (to_bit name) bitmap)
        (add_bit-lt (to_bit name) bitmap (fits name) h)

  -- From an empty bitmap.
  pub test_bit-or_bits_zero :
      (names : List String) (k : ℕ)
      → test_bit (or_bits to_bit names 0) k ≡ any (codes_to to_bit k) names
  test_bit-or_bits_zero names k = test_bit-or_bits names 0 k ∙ rw test_bit-zero

  -- A type map's bitmap has digit k if it has the wildcard or some type of that code.
  pub test_bit-types_bits :
      (types : HashMap (List String)) (k : ℕ)
      → k < 32
      → test_bit (types_bits to_bit types) k
        ≡ (contains_key "any" types || any (codes_to to_bit k) (keys types))
  unfolding types_bits
  test_bit-types_bits types k h =
      ground (arith, test_bit-all_ones k, test_bit-or_bits_zero (keys types) k)

  pub types_bits-lt : (types : HashMap (List String)) → types_bits to_bit types < 2 ^ 32
  unfolding types_bits
  types_bits-lt types = ground (arith, or_bits-lt (keys types) 0)

pub test_bit-commands_bits :
    (commands : List String) (k : ℕ)
    → k < 32
    → test_bit (commands_bits commands) k
      ≡ (any (λ c. c == "any") commands || any (codes_to command_to_bit k) commands)
unfolding commands_bits
test_bit-commands_bits commands k h =
    ground (
      arith,
      test_bit-all_ones k,
      test_bit-or_bits_zero command_to_bit command_to_bit-lt commands k,
    )

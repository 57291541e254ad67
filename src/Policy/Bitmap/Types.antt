-- ===== src/Policy/Bitmap/Types.antt =====
-- `prog_types_bitmap` and `map_types_bitmap` of src/policy.rs, digit by digit and against the
-- checks of operations.
use bpf_rbacd.Base.{
  ℕ, ◌<◌, String, Bool, true, ◌&&◌, ◌||◌, Option, none, some, List, [], ◌∷◌, HashMap, any, keys,
  contains_key, contains_key-get, bit_and, ◌≡◌, ◌∙◌, arith, string_eq, nat_eq,
}
use bpf_rbacd.Base.Bits.{test_bit, test_bit-bit_and, test_bit-all_ones}
use bpf_rbacd.Policy.Config.{SystemPolicy, Role, Policy}
use bpf_rbacd.Policy.Check.{check_type_op}
use bpf_rbacd.Policy.Bitmap.{or_bits, types_bits, prog_types_bitmap, map_types_bitmap}
use bpf_rbacd.Policy.Bitmap.Digits.{codes_to, FitsWord, test_bit-or_bits_zero, test_bit-types_bits}
use bpf_rbacd.Policy.Tables.{prog_type_to_bit, map_type_to_bit}
use bpf_rbacd.Policy.Tables.Codes.{prog_type_to_bit-lt, map_type_to_bit-lt}

module _ (to_bit : String → Option ℕ) (k : ℕ) where
  -- Some type of the map has code k.
  abbrev pub lists_code : HashMap (List String) → Bool
  lists_code types = any (codes_to to_bit k) (keys types)

  -- The same, or the map has the wildcard.
  abbrev pub admits_code : HashMap (List String) → Bool
  admits_code types = contains_key "any" types || lists_code types

  -- The system policy, read by `select`, admits the code.
  abbrev pub ceiling_admits : (SystemPolicy → HashMap (List String)) → Option SystemPolicy → Bool
  ceiling_admits select none = true
  ceiling_admits select (some system) = admits_code (select system)

  pub lists_code_of_key :
      (types : HashMap (List String)) (name : String)
      → to_bit name ≡ some k
      → contains_key name types ≡ true
      → lists_code types ≡ true
  unfolding contains_key keys
  lists_code_of_key [] name code h = h
  lists_code_of_key ((j, ops) ∷ types) name code h =
      ground (arith, lists_code_of_key types name code)

  -- A type on which some operation is granted is admitted.
  pub admits_of_check :
      (types : HashMap (List String)) (name op : String)
      → to_bit name ≡ some k
      → check_type_op types name op ≡ true
      → admits_code types ≡ true
  unfolding check_type_op
  admits_of_check types name op code h = ground (
    arith,
    contains_key-get "any" types,
    contains_key-get name types,
    lists_code_of_key types name code,
  )

  module _ (fits : FitsWord to_bit) (small : k < 32) where
    masked_digit :
        (types : HashMap (List String)) (select : SystemPolicy → HashMap (List String))
        (o : Option SystemPolicy)
        → test_bit
            (elim o [
              | some system ↦
                  bit_and (or_bits to_bit (keys types) 0) (types_bits to_bit (select system))
              | none ↦ or_bits to_bit (keys types) 0
            ])
            k
          ≡ (lists_code types && ceiling_admits select o)
    masked_digit types select none = test_bit-or_bits_zero to_bit fits (keys types) k ∙ ground arith
    masked_digit types select (some system) = ground (
      arith,
      test_bit-or_bits_zero to_bit fits (keys types) k,
      test_bit-types_bits to_bit fits (select system) k small,
      test_bit-bit_and (or_bits to_bit (keys types) 0) (types_bits to_bit (select system)) k,
    )

module _ (p : Policy) (role : Role) where
  pub test_bit-prog_types_bitmap :
      (k : ℕ)
      → k < 32
      → test_bit (prog_types_bitmap p role) k ≡ (
          contains_key "any" role.prog_types
          || lists_code prog_type_to_bit k role.prog_types
            && ceiling_admits prog_type_to_bit k
                (λ system. system.prog_types)
                p.config.system_policy)
  unfolding prog_types_bitmap
  test_bit-prog_types_bitmap k h = ground (
    arith,
    test_bit-all_ones k,
    masked_digit prog_type_to_bit k prog_type_to_bit-lt h role.prog_types
        (λ system. system.prog_types) p.config.system_policy,
  )

  pub test_bit-map_types_bitmap :
      (k : ℕ)
      → k < 32
      → test_bit (map_types_bitmap p role) k ≡ (
          contains_key "any" role.map_types
          || lists_code map_type_to_bit k role.map_types
            && ceiling_admits map_type_to_bit k (λ system. system.map_types) p.config.system_policy)
  unfolding map_types_bitmap
  test_bit-map_types_bitmap k h = ground (
    arith,
    test_bit-all_ones k,
    masked_digit map_type_to_bit k map_type_to_bit-lt h role.map_types (λ system. system.map_types)
        p.config.system_policy,
  )

  -- The digits k < 32 of both bitmaps: set exactly when the role has the wildcard, or some type of
  -- its map has code k and the system policy, if there is one, has the wildcard or some type of
  -- code k. No operation plays a part.
  pub type_bitmaps_digits :
      (k : ℕ)
      → k < 32
      → (test_bit (prog_types_bitmap p role) k ≡ (
          contains_key "any" role.prog_types
          || lists_code prog_type_to_bit k role.prog_types
            && ceiling_admits prog_type_to_bit k
                (λ system. system.prog_types)
                p.config.system_policy))
        × (test_bit (map_types_bitmap p role) k ≡ (
            contains_key "any" role.map_types
            || lists_code map_type_to_bit k role.map_types
              && ceiling_admits map_type_to_bit k
                  (λ system. system.map_types)
                  p.config.system_policy))
  type_bitmaps_digits k h = (test_bit-prog_types_bitmap k h, test_bit-map_types_bitmap k h)

-- ===== src/Policy/Bitmap/Operations.antt =====
-- `prog_types_bitmap` and `map_types_bitmap` of src/policy.rs against `is_prog_op_allowed` and
-- `is_map_op_allowed`.
use bpf_rbacd.Base.{
  ℕ, String, true, false, ◌&&◌, ◌||◌, Option, none, some, List, HashMap, contains_key,
  contains_key-get, ◌≡◌, refl, ◌∙◌, arith, string_eq, nat_eq, if◌then◌else◌,
}
use bpf_rbacd.Base.Bits.{test_bit}
use bpf_rbacd.Policy.Config.{SystemPolicy, Role, Policy}
use bpf_rbacd.Policy.Check.{check_type_op, is_prog_op_allowed, is_map_op_allowed}
use bpf_rbacd.Policy.Bitmap.{prog_types_bitmap, map_types_bitmap}
use bpf_rbacd.Policy.Bitmap.Types.{
  lists_code, ceiling_admits, admits_of_check, lists_code_of_key, test_bit-prog_types_bitmap,
  test_bit-map_types_bitmap,
}
use bpf_rbacd.Policy.Tables.{prog_type_to_bit, map_type_to_bit}
use bpf_rbacd.Policy.Tables.Codes.{prog_type_to_bit-lt, map_type_to_bit-lt}

module _ (to_bit : String → Option ℕ) (name op : String) (k : ℕ) (code : to_bit name ≡ some k) where
  ceiling_of_check :
      (select : SystemPolicy → HashMap (List String)) (o : Option SystemPolicy)
      → (elim o [ some system ↦ check_type_op (select system) name op | none ↦ true ]) ≡ true
      → ceiling_admits to_bit k select o ≡ true
  ceiling_of_check select none h = refl
  ceiling_of_check select (some system) h = admits_of_check to_bit k (select system) name op code h

  digit_of_check :
      (types : HashMap (List String)) (select : SystemPolicy → HashMap (List String))
      (o : Option SystemPolicy)
      → (if check_type_op types name op
          then elim o [ some system ↦ check_type_op (select system) name op | none ↦ true ]
          else false)
        ≡ true
      → (contains_key "any" types || lists_code to_bit k types && ceiling_admits to_bit k select o)
        ≡ true
  digit_of_check types select o h =
      ground (arith, admits_of_check to_bit k types name op code, ceiling_of_check select o)

module _ (p : Policy) (role : Role) where
  -- A program type with a code has its digit set if the policy allows some operation on it.
  pub prog_types_bitmap_complete :
      (prog_type op : String) (k : ℕ)
      → prog_type_to_bit prog_type ≡ some k
      → is_prog_op_allowed p role prog_type op ≡ true
      → test_bit (prog_types_bitmap p role) k ≡ true
  unfolding is_prog_op_allowed
  prog_types_bitmap_complete t op k code h =
      test_bit-prog_types_bitmap p role k (prog_type_to_bit-lt t k code)
      ∙ digit_of_check prog_type_to_bit t op k code role.prog_types (λ system. system.prog_types)
          p.config.system_policy h

  -- A map type with a code has its digit set if the policy allows some operation on it.
  pub map_types_bitmap_complete :
      (map_type op : String) (k : ℕ)
      → map_type_to_bit map_type ≡ some k
      → is_map_op_allowed p role map_type op ≡ true
      → test_bit (map_types_bitmap p role) k ≡ true
  unfolding is_map_op_allowed
  map_types_bitmap_complete t op k code h =
      test_bit-map_types_bitmap p role k (map_type_to_bit-lt t k code)
      ∙ digit_of_check map_type_to_bit t op k code role.map_types (λ system. system.map_types)
          p.config.system_policy h

  -- For a role with the wildcard in its program types the bitmap exceeds the system policy: the
  -- digit of a program type that has a code is set, although the system policy covers the
  -- operation on that type by no entry and `is_prog_op_allowed` denies it.
  pub prog_types_bitmap_exceeds :
      (system : SystemPolicy) (prog_type op : String) (k : ℕ)
      → prog_type_to_bit prog_type ≡ some k
      → p.config.system_policy ≡ some system
      → contains_key "any" role.prog_types ≡ true
      → check_type_op system.prog_types prog_type op ≡ false
      → (test_bit (prog_types_bitmap p role) k ≡ true)
        × (is_prog_op_allowed p role prog_type op ≡ false)
  unfolding is_prog_op_allowed
  prog_types_bitmap_exceeds system t op k code capped wild denied =
      ground (arith, test_bit-prog_types_bitmap p role k (prog_type_to_bit-lt t k code))

  -- Program types that share a code share a digit: where the role lists one and the system policy
  -- lists another of that code, the digit is set, although `is_prog_op_allowed` denies every
  -- operation on the role's type, which the system policy does not list.
  pub prog_types_bitmap_shared :
      (system : SystemPolicy) (listed other op : String) (k : ℕ)
      → prog_type_to_bit listed ≡ some k
      → prog_type_to_bit other ≡ some k
      → p.config.system_policy ≡ some system
      → contains_key listed role.prog_types ≡ true
      → contains_key other system.prog_types ≡ true
      → contains_key "any" system.prog_types ≡ false
      → contains_key listed system.prog_types ≡ false
      → (test_bit (prog_types_bitmap p role) k ≡ true)
        × (is_prog_op_allowed p role listed op ≡ false)
  unfolding is_prog_op_allowed
  prog_types_bitmap_shared system listed other op k code code' capped have have' no_any missing =
      ground (
        arith,
        test_bit-prog_types_bitmap p role k (prog_type_to_bit-lt listed k code),
        contains_key-get "any" system.prog_types,
        contains_key-get listed system.prog_types,
        lists_code_of_key prog_type_to_bit k role.prog_types listed code,
        lists_code_of_key prog_type_to_bit k system.prog_types other code',
      )

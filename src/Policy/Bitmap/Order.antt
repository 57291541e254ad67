-- ===== src/Policy/Bitmap/Order.antt =====
-- The bitmaps of src/policy.rs do not depend on the order in which a `HashMap` iterates.
use mathlib.Core.List.{Perm}
use mathlib.Core.Quot
use mathlib.Core.Quot.{Quot}
use native.Mathlib.Nat.{ℕ_set}
use bpf_rbacd.Base.{
  ℕ, String, Option, List, HashMap, keys, any-keys_order, contains_key_order, ◌≡◌, sym, ◌∙◌, arith,
  string_eq,
}
use bpf_rbacd.Base.Bits.{eq_of_digits}
use bpf_rbacd.Policy.Config.{Role, Policy}
use bpf_rbacd.Policy.Bitmap.{or_bits, types_bits, prog_types_bitmap, map_types_bitmap}
use bpf_rbacd.Policy.Bitmap.Digits.{codes_to, FitsWord, test_bit-or_bits_zero, or_bits-lt}
use bpf_rbacd.Policy.Tables.{prog_type_to_bit, map_type_to_bit}
use bpf_rbacd.Policy.Tables.Codes.{prog_type_to_bit-lt, map_type_to_bit-lt}

module _ (to_bit : String → Option ℕ) (fits : FitsWord to_bit) {m m' : HashMap (List String)}
    (h : Perm m m') where
  or_bits-keys_order : or_bits to_bit (keys m) 0 ≡ or_bits to_bit (keys m') 0
  or_bits-keys_order =
      eq_of_digits 32 _ _ (or_bits-lt to_bit fits (keys m) 0 (omega arith))
        (or_bits-lt to_bit fits (keys m') 0 (omega arith))
        (λ k.
          test_bit-or_bits_zero to_bit fits (keys m) k
          ∙ any-keys_order (codes_to to_bit k) h
          ∙ sym (test_bit-or_bits_zero to_bit fits (keys m') k))

  types_bits_order : types_bits to_bit m ≡ types_bits to_bit m'
  unfolding types_bits
  types_bits_order = rw (contains_key_order "any" h, or_bits-keys_order)

-- A role whose program types and map types are listed in another order has the same bitmaps of
-- them.
pub type_bitmaps_order :
    (p : Policy) (role : Role) (progs maps : HashMap (List String))
    → Perm role.prog_types progs
    → Perm role.map_types maps
    → let role' = record role { prog_types = progs; map_types = maps } in
      (prog_types_bitmap p role ≡ prog_types_bitmap p role')
      × (map_types_bitmap p role ≡ map_types_bitmap p role')
unfolding prog_types_bitmap map_types_bitmap
type_bitmaps_order p role progs maps h g = (
  ground (
    arith,
    contains_key_order "any" h,
    or_bits-keys_order prog_type_to_bit prog_type_to_bit-lt h,
  ),
  ground
      (arith, contains_key_order "any" g, or_bits-keys_order map_type_to_bit map_type_to_bit-lt g),
)

-- A type map with its order forgotten.
abbrev pub TypeMap : Type 0
TypeMap = Quot (Perm {A = String × List String})

-- The bitmap of a type map, on the quotient.
pub type_map_bits : (to_bit : String → Option ℕ) → FitsWord to_bit → TypeMap → ℕ
type_map_bits to_bit fits =
    Quot.lift ℕ_set (types_bits to_bit) (λ m m' h. types_bits_order to_bit fits h)

-- ===== src/Policy/Bitmap.antt =====
-- The three bitmaps of src/policy.rs.
pub mod Digits
pub mod Commands
pub mod Types
pub mod Operations
pub mod Order
pub mod Width
use bpf_rbacd.Base.{
  ℕ, String, Bool, Option, none, some, List, [], ◌∷◌, HashMap, any, keys, contains_key, bit_or,
  bit_and, ◌==◌, string_eq, if◌then◌else◌,
}
use bpf_rbacd.Base.Bits.{shl_one, all_ones}
use bpf_rbacd.Policy.Config.{Role, Policy}
use bpf_rbacd.Policy.Tables.{prog_type_to_bit, map_type_to_bit, command_to_bit}

-- `if let Some(bit) = … { bitmap |= 1 << bit; }`
unfoldable pub add_bit : Option ℕ → ℕ → ℕ
add_bit none bitmap = bitmap
add_bit (some bit) bitmap = bit_or bitmap (shl_one bit)

-- The loop over the names, with the bitmap that it has built so far.
unfoldable pub or_bits : (String → Option ℕ) → List String → ℕ → ℕ
unfolding add_bit
or_bits to_bit [] bitmap = bitmap
or_bits to_bit (name ∷ names) bitmap = or_bits to_bit names (add_bit (to_bit name) bitmap)

-- The bitmap of one type map: that of the system policy, and of a role after its early return.
unfoldable pub types_bits : (String → Option ℕ) → HashMap (List String) → ℕ
unfolding or_bits contains_key keys
types_bits to_bit types =
    if contains_key "any" types then all_ones else or_bits to_bit (keys types) 0

unfoldable pub commands_bits : List String → ℕ
unfolding or_bits
commands_bits commands =
    if any (λ c. c == "any") commands then all_ones else or_bits command_to_bit commands 0

module _ (p : Policy) (role : Role) where
  unfoldable pub prog_types_bitmap : ℕ
  unfolding types_bits
  prog_types_bitmap =
      if contains_key "any" role.prog_types
      then all_ones
      else let bitmap = or_bits prog_type_to_bit (keys role.prog_types) 0 in
        elim p.config.system_policy [
          | some system ↦ bit_and bitmap (types_bits prog_type_to_bit system.prog_types)
          | none ↦ bitmap
        ]

  unfoldable pub map_types_bitmap : ℕ
  unfolding types_bits
  map_types_bitmap =
      if contains_key "any" role.map_types
      then all_ones
      else let bitmap = or_bits map_type_to_bit (keys role.map_types) 0 in
        elim p.config.system_policy [
          | some system ↦ bit_and bitmap (types_bits map_type_to_bit system.map_types)
          | none ↦ bitmap
        ]

  unfoldable pub commands_bitmap : ℕ
  unfolding commands_bits
  commands_bitmap =
      if any (λ c. c == "any") role.commands
      then all_ones
      else let bitmap = or_bits command_to_bit role.commands 0 in
        elim p.config.system_policy [
          | some system ↦ bit_and bitmap (commands_bits system.commands)
          | none ↦ bitmap
        ]

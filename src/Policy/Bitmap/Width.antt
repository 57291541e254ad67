-- ===== src/Policy/Bitmap/Width.antt =====
-- The bitmaps of src/policy.rs fit a `u32`.
use bpf_rbacd.Base.{ℕ, ◌<◌, ◌^◌, String, Option, none, some, List, keys, bit_and, arith, string_eq}
use bpf_rbacd.Base.Bits.{bit_and-lt}
use bpf_rbacd.Policy.Config.{SystemPolicy, Role, Policy}
use bpf_rbacd.Policy.Tables.{prog_type_to_bit, map_type_to_bit, command_to_bit}
use bpf_rbacd.Policy.Tables.Codes.{prog_type_to_bit-lt, map_type_to_bit-lt, command_to_bit-lt}
use bpf_rbacd.Policy.Bitmap.{
  or_bits, types_bits, commands_bits, prog_types_bitmap, map_types_bitmap, commands_bitmap,
}
use bpf_rbacd.Policy.Bitmap.Digits.{or_bits-lt, types_bits-lt}

masked-lt :
    (bitmap : ℕ) (of_system : SystemPolicy → ℕ) (o : Option SystemPolicy)
    → bitmap < 2 ^ 32
    → ((system : SystemPolicy) → of_system system < 2 ^ 32)
    → (elim o [ some system ↦ bit_and bitmap (of_system system) | none ↦ bitmap ]) < 2 ^ 32
masked-lt bitmap of_system none h g = h
masked-lt bitmap of_system (some system) h g = bit_and-lt 32 bitmap (of_system system) (g system)

commands_bits-lt : (commands : List String) → commands_bits commands < 2 ^ 32
unfolding commands_bits
commands_bits-lt commands = ground (arith, or_bits-lt command_to_bit command_to_bit-lt commands 0)

module _ (p : Policy) (role : Role) where
  pub commands_bitmap-lt : commands_bitmap p role < 2 ^ 32
  unfolding commands_bitmap
  commands_bitmap-lt = ground (
    arith,
    masked-lt (or_bits command_to_bit role.commands 0) (λ system. commands_bits system.commands)
        p.config.system_policy
        (or_bits-lt command_to_bit command_to_bit-lt role.commands 0 (omega arith))
        (λ system. commands_bits-lt system.commands),
  )

  pub prog_types_bitmap-lt : prog_types_bitmap p role < 2 ^ 32
  unfolding prog_types_bitmap
  prog_types_bitmap-lt = ground (
    arith,
    masked-lt (or_bits prog_type_to_bit (keys role.prog_types) 0)
        (λ system. types_bits prog_type_to_bit system.prog_types) p.config.system_policy
        (or_bits-lt prog_type_to_bit prog_type_to_bit-lt (keys role.prog_types) 0 (omega arith))
        (λ system. types_bits-lt prog_type_to_bit prog_type_to_bit-lt system.prog_types),
  )

  pub map_types_bitmap-lt : map_types_bitmap p role < 2 ^ 32
  unfolding map_types_bitmap
  map_types_bitmap-lt = ground (
    arith,
    masked-lt (or_bits map_type_to_bit (keys role.map_types) 0)
        (λ system. types_bits map_type_to_bit system.map_types) p.config.system_policy
        (or_bits-lt map_type_to_bit map_type_to_bit-lt (keys role.map_types) 0 (omega arith))
        (λ system. types_bits-lt map_type_to_bit map_type_to_bit-lt system.map_types),
  )

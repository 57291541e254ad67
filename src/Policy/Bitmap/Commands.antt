-- ===== src/Policy/Bitmap/Commands.antt =====
-- `commands_bitmap` of src/policy.rs against `is_command_allowed`.
use bpf_rbacd.Base.{
  ℕ, String, Bool, true, false, ◌&&◌, ◌||◌, Option, none, some, List, [], ◌∷◌, any, ◌≡◌, refl, ◌∙◌,
  ◌⊎◌, inl, inr, arith, ◌==◌, string_eq, nat_eq, Option-cases,
}
use bpf_rbacd.Base.Bits.{test_bit, test_bit-bit_and, test_bit-all_ones}
use bpf_rbacd.Policy.Config.{SystemPolicy, Role, Policy}
use bpf_rbacd.Policy.Check.{lists, is_command_allowed}
use bpf_rbacd.Policy.Bitmap.{or_bits, commands_bits, commands_bitmap}
use bpf_rbacd.Policy.Bitmap.Digits.{codes_to, test_bit-or_bits_zero, test_bit-commands_bits}
use bpf_rbacd.Policy.Tables.{command_to_bit}
use bpf_rbacd.Policy.Tables.Codes.{command_to_bit-lt, command_to_bit_injective}

-- The wildcard stands in the list.
abbrev pub has_any : List String → Bool
has_any = any (λ c. c == "any")

lists-any :
    (names : List String) (name : String)
    → lists names name ≡ (has_any names || any (λ c. c == name) names)
unfolding lists
lists-any [] name = refl
lists-any (c ∷ names) name = ground (arith, lists-any names name)

-- Since no two commands share a code, the code finds the name.
any-codes :
    (command : String) (k : ℕ) (names : List String)
    → command_to_bit command ≡ some k
    → any (codes_to command_to_bit k) names ≡ any (λ c. c == command) names
any-codes command k [] h = refl
any-codes command k (c ∷ names) h =
    ground (arith, any-codes command k names, command_to_bit_injective c command k)

module _ (p : Policy) (role : Role) (command : String) (k : ℕ)
    (code : command_to_bit command ≡ some k) where
  role_digit :
      test_bit (or_bits command_to_bit role.commands 0) k ≡ any (λ c. c == command) role.commands
  role_digit =
      test_bit-or_bits_zero command_to_bit command_to_bit-lt role.commands k
      ∙ any-codes command k role.commands code

  ceiling_digit :
      (system : SystemPolicy)
      → test_bit (commands_bits system.commands) k ≡ lists system.commands command
  ceiling_digit system = ground (
    arith,
    test_bit-commands_bits system.commands k (command_to_bit-lt command k code),
    any-codes command k system.commands code,
    lists-any system.commands command,
  )

  ceiling_lists : Option SystemPolicy → Bool
  ceiling_lists none = true
  ceiling_lists (some system) = lists system.commands command

  bitmap_digit : test_bit (commands_bitmap p role) k ≡ (
      has_any role.commands
      || any (λ c. c == command) role.commands && ceiling_lists p.config.system_policy)
  unfolding commands_bitmap ceiling_lists
  bitmap_digit = elim (Option-cases p.config.system_policy) [
    | inl uncapped ↦
        rw uncapped
          (ground (arith, role_digit, test_bit-all_ones k, command_to_bit-lt command k code))
    | inr (system, capped) ↦ rw capped (
        ground (
          arith,
          role_digit,
          ceiling_digit system,
          test_bit-all_ones k,
          command_to_bit-lt command k code,
          test_bit-bit_and (or_bits command_to_bit role.commands 0) (commands_bits system.commands)
              k,
        ))
  ]

  allowed_split : is_command_allowed p role command ≡ (
      (has_any role.commands || any (λ c. c == command) role.commands)
      && ceiling_lists p.config.system_policy)
  unfolding is_command_allowed ceiling_lists
  allowed_split = ground (arith, lists-any role.commands command)

  -- The digit of a command that has a code is the answer of `is_command_allowed`, for a role that
  -- does not list the wildcard or a policy with no system policy.
  pub commands_bitmap-is_command_allowed :
      (has_any role.commands ≡ false) ⊎ (p.config.system_policy ≡ none)
      → test_bit (commands_bitmap p role) k ≡ is_command_allowed p role command
  unfolding ceiling_lists
  commands_bitmap-is_command_allowed h = rw (bitmap_digit, allowed_split) (ground arith)

  -- A command that has a code and that the policy allows has its digit set in the bitmap.
  pub commands_bitmap_complete :
      is_command_allowed p role command ≡ true → test_bit (commands_bitmap p role) k ≡ true
  commands_bitmap_complete h = ground (arith, bitmap_digit, allowed_split)

  -- For a role that lists the wildcard, the bitmap exceeds the system policy: the digit of a
  -- command that has a code is set although the system policy does not list the command, and
  -- `is_command_allowed` denies it.
  pub commands_bitmap_exceeds :
      (system : SystemPolicy)
      → p.config.system_policy ≡ some system
      → has_any role.commands ≡ true
      → lists system.commands command ≡ false
      → (test_bit (commands_bitmap p role) k ≡ true) × (is_command_allowed p role command ≡ false)
  unfolding ceiling_lists
  commands_bitmap_exceeds system capped wild denied = ground (arith, bitmap_digit, allowed_split)

-- ===== src/Tests/CommandLine.antt =====
-- The arguments of src/bin/bpf-rbac.rs.
use bpf_rbacd.Base.{none, some, [], ◌∷◌, ◌≡◌, refl, arith, err, nat_eq}
use bpf_rbacd.Base.Format.{to_string, parse_u32}
use bpf_rbacd.Cli.{resolve_create_map_args, usage}
use bpf_rbacd.Cli.Forms.{positional_as_flags}

numbers :
    (parse_u32 "1024" ≡ some 1024)
    × (parse_u32 "+007" ≡ some 7)
    × (parse_u32 "" ≡ none)
    × (parse_u32 "+" ≡ none)
    × (parse_u32 "-1" ≡ none)
    × (parse_u32 "4294967295" ≡ some 4294967295)
    × (parse_u32 "4294967296" ≡ none)
unfolding parse_u32 nat_eq
numbers = (refl, refl, refl, refl, refl, refl, refl)

missing_name :
    resolve_create_map_args (some "hash") none (some 4) (some 8) none [] ≡ err "--name is required"
unfolding resolve_create_map_args
missing_name = refl

no_arguments : resolve_create_map_args none none none none (some 16) ("hash" ∷ []) ≡ err usage
unfolding resolve_create_map_args
no_arguments = refl

bad_number :
    resolve_create_map_args none none none none none ("hash" ∷ "m" ∷ "four" ∷ "8" ∷ [])
    ≡ err "invalid key_size 'four': expected a number"
unfolding resolve_create_map_args parse_u32 nat_eq
bad_number = refl

positional_as_flags_example :
    resolve_create_map_args none none none none none
      ("hash" ∷ "m" ∷ to_string 4 ∷ to_string 8 ∷ to_string 16 ∷ [])
    ≡ resolve_create_map_args (some "hash") (some "m") (some 4) (some 8) (some 16) []
positional_as_flags_example =
    positional_as_flags "hash" "m" 4 8 16 none [] [] (omega arith) (omega arith) (omega arith)

-- ===== src/Cli/Forms.antt =====
-- The two forms of the arguments that src/bin/bpf-rbac.rs takes.
use bpf_rbacd.Base.{ℕ, ◌<◌, ◌^◌, String, Option, none, some, List, [], ◌∷◌, ◌≡◌, refl, ok}
use bpf_rbacd.Base.Format.{to_string}
use bpf_rbacd.Base.Format.Decimal.{parse_u32-to_string}
use bpf_rbacd.Cli.{from_flags, parse_field, fifth, from_positional, resolve_create_map_args}

parse_field-to_string :
    (field : String) (n : ℕ) → n < 2 ^ 32 → parse_field field (to_string n) ≡ ok n
unfolding parse_field
parse_field-to_string field n h = rw (parse_u32-to_string n h) refl

-- Five positional arguments, the sizes and the number of entries printed in decimal, give what the
-- flags with those values give; a flag for the number of entries beside them plays no part.
pub positional_as_flags :
    (map_type name : String) (key_size value_size max_entries : ℕ) (ignored : Option ℕ)
    (rest positional : List String)
    → key_size < 2 ^ 32
    → value_size < 2 ^ 32
    → max_entries < 2 ^ 32
    → resolve_create_map_args none none none none ignored
        (map_type ∷ name ∷ to_string key_size ∷ to_string value_size ∷ to_string max_entries ∷ rest)
      ≡ resolve_create_map_args
          (some map_type)
          (some name)
          (some key_size)
          (some value_size)
          (some max_entries)
          positional
unfolding resolve_create_map_args from_positional fifth from_flags
positional_as_flags t n k v e ignored rest positional hk hv he =
    rw
      (
        parse_field-to_string "key_size" k hk,
        parse_field-to_string "value_size" v hv,
        parse_field-to_string "max_entries" e he,
      )
      refl

-- With four positional arguments the number of entries is 1024, also beside a flag that gives
-- another.
pub max_entries_dropped :
    (map_type name : String) (key_size value_size : ℕ) (dropped : Option ℕ)
    → key_size < 2 ^ 32
    → value_size < 2 ^ 32
    → resolve_create_map_args none none none none dropped
        (map_type ∷ name ∷ to_string key_size ∷ to_string value_size ∷ [])
      ≡ ok (map_type, name, key_size, value_size, 1024)
unfolding resolve_create_map_args from_positional fifth
max_entries_dropped t n k v dropped hk hv =
    rw (parse_field-to_string "key_size" k hk, parse_field-to_string "value_size" v hv) refl

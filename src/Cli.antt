-- ===== src/Cli.antt =====
-- src/bin/bpf-rbac.rs: the arguments of the command create-map. `clap` has parsed the flags; a
-- `u32` flag is below 2^32.
pub mod Forms
pub mod Main
use bpf_rbacd.Base.{
  ℕ, String, ◌<>◌, Bool, true, false, ◌||◌, Option, none, some, List, [], ◌∷◌, Result, ok, err,
  ◌>>=◌, ok_or, unwrap_or, if◌then◌else◌,
}
use bpf_rbacd.Base.Format.{parse_u32}

-- Type, name, key size, value size, and the number of entries.
abbrev pub MapArgs : Type 0
MapArgs = String × String × ℕ × ℕ × ℕ

abbrev pub is_some {ℓ} : {A : Type ℓ} → Option A → Bool
is_some none = false
is_some (some _) = true

abbrev pub usage : String
usage =
    "Missing required arguments.\n\nUsage:\n  "
    <> "bpf-rbac create-map --type <TYPE> --name <NAME> --key-size <BYTES> --value-size <BYTES> [--max-entries <N>]\n  "
    <> "bpf-rbac create-map <type> <name> <key_size> <value_size> [max_entries]\n\nExamples:\n  "
    <> "bpf-rbac create-map --type hash --name my_counters --key-size 4 --value-size 8 --max-entries 1024\n  "
    <> "bpf-rbac create-map hash my_map 4 8 1024"

-- The branch of the flags.
unfoldable pub from_flags :
    Option String → Option String → Option ℕ → Option ℕ → Option ℕ → Result MapArgs String
from_flags map_type name key_size value_size max_entries = do
  map_type ← ok_or map_type "--type is required"
  name ← ok_or name "--name is required"
  key_size ← ok_or key_size "--key-size is required"
  value_size ← ok_or value_size "--value-size is required"
  ok (map_type, name, key_size, value_size, unwrap_or max_entries 1024)

unfoldable pub parse_field : String → String → Result ℕ String
parse_field field text =
    ok_or (parse_u32 text) ("invalid " <> field <> " '" <> text <> "': expected a number")

-- The fifth argument, if there is one.
unfoldable pub fifth : List String → Result ℕ String
unfolding parse_field
fifth [] = ok 1024
fifth (text ∷ _) = parse_field "max_entries" text

-- The branch of the positional arguments, and the last one, which shows the usage.
unfoldable pub from_positional : List String → Result MapArgs String
unfolding parse_field fifth
from_positional (map_type ∷ name ∷ key_text ∷ value_text ∷ rest) = do
  key_size ← parse_field "key_size" key_text
  value_size ← parse_field "value_size" value_text
  max_entries ← fifth rest
  ok (map_type, name, key_size, value_size, max_entries)
from_positional _ = err usage

unfoldable pub resolve_create_map_args :
    Option String
    → Option String
    → Option ℕ
    → Option ℕ
    → Option ℕ
    → List String
    → Result MapArgs String
unfolding from_flags from_positional
resolve_create_map_args map_type name key_size value_size max_entries positional =
    if is_some map_type || is_some name || is_some key_size || is_some value_size
    then from_flags map_type name key_size value_size max_entries
    else from_positional positional

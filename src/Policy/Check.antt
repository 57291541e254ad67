-- ===== src/Policy/Check.antt =====
-- The permission checks of src/policy.rs: `check_type_op`, the three `is_…_allowed` methods and
-- `is_allowed`.
pub mod Grants
pub mod Decides
pub mod Ceiling
pub mod Extension
use bpf_rbacd.Base.{
  String, Bool, true, false, ◌&&◌, ◌||◌, Option, none, some, List, HashMap, get, any, ◌==◌,
  string_eq, if◌then◌else◌,
}
use bpf_rbacd.Protocol.{Request, load_program, create_map, attach}
use bpf_rbacd.Policy.Config.{Role, Policy}

-- `iter().any(|c| c == "any" || c == name)`
unfoldable pub lists : List String → String → Bool
lists names name = any (λ c. c == "any" || c == name) names

unfoldable pub check_type_op : HashMap (List String) → String → String → Bool
unfolding lists
check_type_op type_map type_name op = elim (get "any" type_map) [
  | some ops ↦ lists ops op
  | none ↦ elim (get type_name type_map) [ some ops ↦ lists ops op | none ↦ false ]
]

module _ (p : Policy) (role : Role) where
  unfoldable pub is_command_allowed : String → Bool
  unfolding lists
  is_command_allowed command =
      if lists role.commands command
      then elim p.config.system_policy [ some system ↦ lists system.commands command | none ↦ true ]
      else false

  unfoldable pub is_prog_op_allowed : String → String → Bool
  unfolding check_type_op
  is_prog_op_allowed prog_type operation =
      if check_type_op role.prog_types prog_type operation
      then elim p.config.system_policy [
        | some system ↦ check_type_op system.prog_types prog_type operation
        | none ↦ true
      ]
      else false

  unfoldable pub is_map_op_allowed : String → String → Bool
  unfolding check_type_op
  is_map_op_allowed map_type operation =
      if check_type_op role.map_types map_type operation
      then elim p.config.system_policy [
        | some system ↦ check_type_op system.map_types map_type operation
        | none ↦ true
      ]
      else false

  -- The `match` on the request in `is_allowed`, once the role is found.
  unfoldable pub role_allows : Request → Bool
  unfolding is_command_allowed is_prog_op_allowed is_map_op_allowed
  role_allows (load_program prog_type _ _) =
      is_command_allowed "PROG_LOAD" && is_prog_op_allowed prog_type "load"
  role_allows (create_map map_type _ _ _ _) =
      is_command_allowed "MAP_CREATE" && is_map_op_allowed map_type "create"
  role_allows (attach attach_type _ _) =
      is_command_allowed "PROG_ATTACH" && is_prog_op_allowed attach_type "attach"

unfoldable pub is_allowed : Policy → String → Request → Bool
unfolding role_allows get
is_allowed p role_name request = elim (get role_name p.config.roles) [
  | some role ↦ role_allows p role request
  | none ↦ false
]

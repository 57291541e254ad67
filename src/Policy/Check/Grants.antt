-- ===== src/Policy/Check/Grants.antt =====
-- What the checks of src/policy.rs decide, as relations on the lists and maps of the policy.
use bpf_rbacd.Base.{
  String, Option, none, some, List, HashMap, DistinctKeys, get, In, ◌≡◌, ◌⊎◌, string_eq, All,
}
use bpf_rbacd.Protocol.{Request, load_program, create_map, attach}
use bpf_rbacd.Policy.Config.{SystemPolicy, Role, Policy}

-- The list holds the name or the wildcard.
abbrev pub Names : List String → String → Type 0
Names names name = In "any" names ⊎ In name names

-- A type map grants an operation on a type by its wildcard entry or, if it has none, by the entry
-- of that type.
pub data Covers (types : HashMap (List String)) (type_name op : String) : Type 0 where
  by_any : (ops : List String) → In ("any", ops) types → Names ops op → Covers types type_name op
  by_type :
      (ops : List String)
      → get "any" types ≡ none
      → In (type_name, ops) types
      → Names ops op
      → Covers types type_name op

-- What the system policy must meet, where there is one.
abbrev pub Capped : Option SystemPolicy → (SystemPolicy → Type 0) → Type 0
Capped none P = Unit
Capped (some system) P = P system

module _ (p : Policy) (role : Role) where
  abbrev pub CommandGranted : String → Type 0
  CommandGranted command =
      Names role.commands command
      × Capped p.config.system_policy (λ system. Names system.commands command)

  abbrev pub ProgGranted : String → String → Type 0
  ProgGranted prog_type op =
      Covers role.prog_types prog_type op
      × Capped p.config.system_policy (λ system. Covers system.prog_types prog_type op)

  abbrev pub MapGranted : String → String → Type 0
  MapGranted map_type op =
      Covers role.map_types map_type op
      × Capped p.config.system_policy (λ system. Covers system.map_types map_type op)

  abbrev pub RequestGranted : Request → Type 0
  RequestGranted (load_program prog_type _ _) =
      CommandGranted "PROG_LOAD" × ProgGranted prog_type "load"
  RequestGranted (create_map map_type _ _ _ _) =
      CommandGranted "MAP_CREATE" × MapGranted map_type "create"
  RequestGranted (attach attach_type _ _) =
      CommandGranted "PROG_ATTACH" × ProgGranted attach_type "attach"

-- What the type `HashMap` guarantees of a role, of the system policy and of the policy.
abbrev pub RoleDistinct : Role → Type 0
RoleDistinct role = DistinctKeys role.prog_types × DistinctKeys role.map_types

abbrev pub CeilingDistinct : SystemPolicy → Type 0
CeilingDistinct system = DistinctKeys system.prog_types × DistinctKeys system.map_types

pub record IsWellFormed (p : Policy) : Type 0 where
  pub names_distinct : DistinctKeys p.config.roles
  pub roles_distinct : All (λ ((_, role) : String × Role). RoleDistinct role) p.config.roles
  pub ceiling_distinct : Capped p.config.system_policy CeilingDistinct

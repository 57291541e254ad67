-- ===== src/Policy/Check/Extension.antt =====
-- What more entries in a role do to the answers of src/policy.rs.
use bpf_rbacd.Base.{
  String, true, false, ◌||◌, none, some, List, HashMap, get, insert, get-insert, In, any-In,
  any_of_In, ◌≡◌, refl, sym, ◌∙◌, inl, inr, arith, ◌==◌, string_eq, Option-cases,
}
use bpf_rbacd.Protocol.{Request, load_program, create_map, attach}
use bpf_rbacd.Policy.Config.{Role, Policy}
use bpf_rbacd.Policy.Check.{
  lists, check_type_op, is_command_allowed, is_prog_op_allowed, is_map_op_allowed, role_allows,
  is_allowed,
}

abbrev pub Includes : List String → List String → Type 0
Includes names names' = (name : String) → In name names → In name names'

-- Each entry is there with at least its operations, and there is no new wildcard.
pub record TypesExtend (types types' : HashMap (List String)) : Type 0 where
  pub wildcard : get "any" types ≡ none → get "any" types' ≡ none
  pub entries :
      (name : String) (ops : List String)
      → get name types ≡ some ops
      → (ops' : List String) × (get name types' ≡ some ops') × Includes ops ops'

pub record Extends (role role' : Role) : Type 0 where
  pub commands : Includes role.commands role'.commands
  pub prog_types : TypesExtend role.prog_types role'.prog_types
  pub map_types : TypesExtend role.map_types role'.map_types

-- The policy with another role under this name.
abbrev pub with_role : Policy → String → Role → Policy
with_role p name role = record p {
  config = record p.config { roles = insert name role p.config.roles };
}

lists-Includes :
    (names names' : List String) (name : String)
    → Includes names names'
    → lists names name ≡ true
    → lists names' name ≡ true
unfolding lists
lists-Includes names names' name h listed =
    let (found, place, passes) = any-In (λ c. c == "any" || c == name) names listed in
    any_of_In (λ c. c == "any" || c == name) found names' (h found place) passes

check_type_op-entry :
    (types : HashMap (List String)) (name op : String) (ops : List String)
    → get "any" types ≡ none
    → get name types ≡ some ops
    → check_type_op types name op ≡ lists ops op
unfolding check_type_op
check_type_op-entry types name op ops unwild found = rw (unwild, check_type_op, found) refl

check_type_op-wildcard :
    (types : HashMap (List String)) (name op : String) (ops : List String)
    → get "any" types ≡ some ops
    → check_type_op types name op ≡ lists ops op
unfolding check_type_op
check_type_op-wildcard types name op ops wild = rw (wild, check_type_op) refl

check_type_op-none :
    (types : HashMap (List String)) (name op : String)
    → get "any" types ≡ none
    → get name types ≡ none
    → check_type_op types name op ≡ false
unfolding check_type_op
check_type_op-none types name op unwild missing = rw (unwild, check_type_op, missing) refl

check_type_op-TypesExtend :
    (types types' : HashMap (List String)) (name op : String)
    → TypesExtend types types'
    → check_type_op types name op ≡ true
    → check_type_op types' name op ≡ true
check_type_op-TypesExtend types types' name op h checked = elim (Option-cases (get "any" types)) [
  | inr (ops, wild) ↦
      let (ops', wild', more) = h.entries "any" ops wild in
      check_type_op-wildcard types' name op ops' wild'
      ∙ lists-Includes ops ops' op more
          (sym (check_type_op-wildcard types name op ops wild) ∙ checked)
  | inl unwild ↦ elim (Option-cases (get name types)) [
    | inr (ops, found) ↦
        let (ops', found', more) = h.entries name ops found in
        check_type_op-entry types' name op ops' (h.wildcard unwild) found'
        ∙ lists-Includes ops ops' op more
            (sym (check_type_op-entry types name op ops unwild found) ∙ checked)
    | inl missing ↦ absurd (cc (checked, check_type_op-none types name op unwild missing))
  ]
]

module _ (p p' : Policy) (role role' : Role) (h : Extends role role')
    (same : p'.config.system_policy ≡ p.config.system_policy) where
  is_command_allowed-Extends :
      (command : String)
      → is_command_allowed p role command ≡ true
      → is_command_allowed p' role' command ≡ true
  unfolding is_command_allowed
  is_command_allowed-Extends command allowed =
      ground (arith, same, allowed, lists-Includes role.commands role'.commands command h.commands)

  is_prog_op_allowed-Extends :
      (prog_type operation : String)
      → is_prog_op_allowed p role prog_type operation ≡ true
      → is_prog_op_allowed p' role' prog_type operation ≡ true
  unfolding is_prog_op_allowed
  is_prog_op_allowed-Extends prog_type operation allowed = ground (
    arith,
    same,
    allowed,
    check_type_op-TypesExtend role.prog_types role'.prog_types prog_type operation h.prog_types,
  )

  is_map_op_allowed-Extends :
      (map_type operation : String)
      → is_map_op_allowed p role map_type operation ≡ true
      → is_map_op_allowed p' role' map_type operation ≡ true
  unfolding is_map_op_allowed
  is_map_op_allowed-Extends map_type operation allowed = ground (
    arith,
    same,
    allowed,
    check_type_op-TypesExtend role.map_types role'.map_types map_type operation h.map_types,
  )

  role_allows-Extends :
      (request : Request) → role_allows p role request ≡ true → role_allows p' role' request ≡ true
  unfolding role_allows
  role_allows-Extends (load_program prog_type _ _) allowed =
      ground
        (arith, is_command_allowed-Extends "PROG_LOAD", is_prog_op_allowed-Extends prog_type "load")
  role_allows-Extends (create_map map_type _ _ _ _) allowed =
      ground (
        arith,
        is_command_allowed-Extends "MAP_CREATE",
        is_map_op_allowed-Extends map_type "create",
      )
  role_allows-Extends (attach attach_type _ _) allowed = ground (
    arith,
    is_command_allowed-Extends "PROG_ATTACH",
    is_prog_op_allowed-Extends attach_type "attach",
  )

-- A request that is allowed to a role stays allowed when the role gets more commands, more types or
-- more operations on its types, but no new wildcard among them.
pub is_allowed-Extends :
    (p : Policy) (name : String) (role role' : Role) (request : Request)
    → get name p.config.roles ≡ some role
    → Extends role role'
    → is_allowed p name request ≡ true
    → is_allowed (with_role p name role') name request ≡ true
unfolding is_allowed
is_allowed-Extends p name role role' request found h allowed =
    let there : get name (insert name role' p.config.roles) ≡ some role' =
      get-insert name name role' p.config.roles ∙ ground arith in
    rw (there, is_allowed)
      (role_allows-Extends p (with_role p name role') role role' h refl request
        (rw (found, is_allowed) at allowed))

-- A wildcard among the types shadows their own entries: one that does not list an operation denies it
-- on every type.
pub check_type_op_shadowed :
    (types : HashMap (List String)) (ops : List String) (name op : String)
    → lists ops op ≡ false
    → check_type_op (insert "any" ops types) name op ≡ false
check_type_op_shadowed types ops name op unlisted =
    check_type_op-wildcard (insert "any" ops types) name op ops
      (get-insert "any" "any" ops types ∙ ground arith)
    ∙ unlisted

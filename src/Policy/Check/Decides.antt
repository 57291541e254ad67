-- ===== src/Policy/Check/Decides.antt =====
-- The checks of src/policy.rs decide the relations of `Grants`.
use bpf_rbacd.Base.{
  String, Bool, true, false, ◌||◌, Option, none, some, List, [], ◌∷◌, HashMap, DistinctKeys, get,
  In, any_of_In, get-In, get_of_In, ◌≡◌, sym, subst, ◌↔◌, ◌&&◌, inl, inr, refl, arith, ◌==◌,
  string_eq, Option-cases, All, if◌then◌else◌,
}
use bpf_rbacd.Protocol.{Request, load_program, create_map, attach}
use bpf_rbacd.Policy.Config.{SystemPolicy, Role, Policy}
use bpf_rbacd.Policy.Check.{
  lists, check_type_op, is_command_allowed, is_prog_op_allowed, is_map_op_allowed, role_allows,
  is_allowed,
}
use bpf_rbacd.Policy.Check.Grants.{
  Names, Covers, by_any, by_type, Capped, CommandGranted, ProgGranted, MapGranted, RequestGranted,
  RoleDistinct, CeilingDistinct, IsWellFormed,
}

lists-Names : (names : List String) (name : String) → lists names name ≡ true → Names names name
unfolding lists
lists-Names [] name h = cc
lists-Names (c ∷ names) name h = ground (arith, lists-Names names name)

lists_of_Names : (names : List String) (name : String) → Names names name → lists names name ≡ true
unfolding lists
lists_of_Names names name (inl m) =
    any_of_In (λ c. c == "any" || c == name) "any" names m (ground arith)
lists_of_Names names name (inr m) =
    any_of_In (λ c. c == "any" || c == name) name names m (ground arith)

pub lists_iff : (names : List String) (name : String) → (lists names name ≡ true) ↔ Names names name
lists_iff names name = (lists-Names names name, lists_of_Names names name)

check_type_op-Covers :
    (types : HashMap (List String)) (type_name op : String)
    → check_type_op types type_name op ≡ true
    → Covers types type_name op
unfolding check_type_op
check_type_op-Covers types type_name op h = elim (Option-cases (get "any" types)) [
  | inr (ops, wild) ↦
      by_any ops (get-In "any" ops types wild) (lists-Names ops op (rw (wild, check_type_op) at h))
  | inl no_wild ↦ elim (Option-cases (get type_name types)) [
    | inr (ops, entry) ↦
        by_type ops no_wild (get-In type_name ops types entry)
          (lists-Names ops op (rw (no_wild, check_type_op, entry) at h))
    | inl missing ↦ cc (rw (no_wild, check_type_op, missing) at h)
  ]
]

check_type_op_of_Covers :
    (types : HashMap (List String)) (type_name op : String)
    → DistinctKeys types
    → Covers types type_name op
    → check_type_op types type_name op ≡ true
unfolding check_type_op
check_type_op_of_Covers types type_name op distinct (by_any ops m n) =
    rw (get_of_In "any" ops types distinct m, check_type_op) (lists_of_Names ops op n)
check_type_op_of_Covers types type_name op distinct (by_type ops no_wild m n) =
    rw (no_wild, check_type_op, get_of_In type_name ops types distinct m) (lists_of_Names ops op n)

-- `check_type_op` decides `Covers`.
pub check_type_op_iff :
    (types : HashMap (List String)) (type_name op : String)
    → DistinctKeys types
    → (check_type_op types type_name op ≡ true) ↔ Covers types type_name op
check_type_op_iff types type_name op distinct =
    (check_type_op-Covers types type_name op, check_type_op_of_Covers types type_name op distinct)

module _ (o : Option SystemPolicy) (P : SystemPolicy → Type 0) where
  capped_all : ((system : SystemPolicy) → P system) → Capped o P
  capped_all h = elim o as (λ o. Capped o P) [ none ↦ tt | some system ↦ h system ]

pub capped_map :
    (o : Option SystemPolicy) (P Q : SystemPolicy → Type 0)
    → ((system : SystemPolicy) → P system → Q system)
    → Capped o P
    → Capped o Q
capped_map none P Q h c = tt
capped_map (some system) P Q h c = h system c

-- A test by the system policy decides what it stands for.
capped_iff :
    (o : Option SystemPolicy) (P : SystemPolicy → Type 0) (test : SystemPolicy → Bool)
    → Capped o (λ system. (test system ≡ true) ↔ P system)
    → ((elim o [ some system ↦ test system | none ↦ true ]) ≡ true) ↔ Capped o P
capped_iff none P test h = (λ _. tt, λ _. refl)
capped_iff (some system) P test h = h

both_iff :
    (a b : Bool) (A B : Type 0)
    → (a ≡ true) ↔ A
    → (b ≡ true) ↔ B
    → ((if a then b else false) ≡ true) ↔ (A × B)
both_iff true b A B f g = (λ h. (f.0 refl, g.0 h), λ (x, y). g.1 y)
both_iff false b A B f g = (λ h. cc, λ (x, y). cc (f.1 x))

and_iff :
    (a b : Bool) (A B : Type 0) → (a ≡ true) ↔ A → (b ≡ true) ↔ B → ((a && b) ≡ true) ↔ (A × B)
and_iff true b A B f g = (λ h. (f.0 refl, g.0 h), λ (x, y). g.1 y)
and_iff false b A B f g = (λ h. cc, λ (x, y). cc (f.1 x))

module _ (p : Policy) (role : Role) where
  -- The command check decides membership in both command lists, wildcards included.
  pub is_command_allowed_iff :
      (command : String)
      → (is_command_allowed p role command ≡ true) ↔ CommandGranted p role command
  unfolding is_command_allowed
  is_command_allowed_iff command = both_iff _ _ _ _ (lists_iff role.commands command) (
      capped_iff p.config.system_policy _ (λ system. lists system.commands command)
        (capped_all _ _ (λ system. lists_iff system.commands command)))

  module _ (distinct : RoleDistinct role)
      (capped : Capped p.config.system_policy CeilingDistinct) where
    pub is_prog_op_allowed_iff :
        (prog_type op : String)
        → (is_prog_op_allowed p role prog_type op ≡ true) ↔ ProgGranted p role prog_type op
    unfolding is_prog_op_allowed
    is_prog_op_allowed_iff t op =
        both_iff _ _ _ _ (check_type_op_iff role.prog_types t op distinct.0) (
          capped_iff p.config.system_policy _ (λ system. check_type_op system.prog_types t op)
            (capped_map _ _ _ (λ system d. check_type_op_iff system.prog_types t op d.0) capped))

    pub is_map_op_allowed_iff :
        (map_type op : String)
        → (is_map_op_allowed p role map_type op ≡ true) ↔ MapGranted p role map_type op
    unfolding is_map_op_allowed
    is_map_op_allowed_iff t op =
        both_iff _ _ _ _ (check_type_op_iff role.map_types t op distinct.1) (
          capped_iff p.config.system_policy _ (λ system. check_type_op system.map_types t op)
            (capped_map _ _ _ (λ system d. check_type_op_iff system.map_types t op d.1) capped))

    pub role_allows_iff :
        (request : Request) → (role_allows p role request ≡ true) ↔ RequestGranted p role request
    unfolding role_allows
    role_allows_iff (load_program t _ _) =
        and_iff _ _ _ _ (is_command_allowed_iff "PROG_LOAD") (is_prog_op_allowed_iff t "load")
    role_allows_iff (create_map t _ _ _ _) =
        and_iff _ _ _ _ (is_command_allowed_iff "MAP_CREATE") (is_map_op_allowed_iff t "create")
    role_allows_iff (attach t _ _) =
        and_iff _ _ _ _ (is_command_allowed_iff "PROG_ATTACH") (is_prog_op_allowed_iff t "attach")

distinct_of_In :
    (name : String) (role : Role) (roles : HashMap Role)
    → All (λ ((_, role) : String × Role). RoleDistinct role) roles
    → In (name, role) roles
    → RoleDistinct role
distinct_of_In name role [] h m = absurd m.1
distinct_of_In name role ((j, r) ∷ roles) h (inl e) =
    subst (λ (e : String × Role). RoleDistinct e.1) (sym e) h.0
distinct_of_In name role (_ ∷ roles) h (inr m) = distinct_of_In name role roles h.1 m

-- A request is allowed exactly when the policy has a role of that name, and the role and the
-- system policy (if there is one) both grant the request's command and its operation on its type.
-- The policy's maps are maps: none lists a key twice.
pub is_allowed_iff :
    (p : Policy) (role_name : String) (request : Request)
    → IsWellFormed p
    → (is_allowed p role_name request ≡ true)
      ↔ ((role : Role) × In (role_name, role) p.config.roles × RequestGranted p role request)
unfolding is_allowed
is_allowed_iff p name request w = (
  λ h. elim (Option-cases (get name p.config.roles)) [
    | inr (role, found) ↦
        let m : In (name, role) p.config.roles = get-In name role p.config.roles found in
        (role, m, (iff role m).0 (rw (found, is_allowed) at h))
    | inl missing ↦ cc (rw (missing, is_allowed) at h)
  ],
  λ (role, m, g).
      rw (get_of_In name role p.config.roles w.names_distinct m, is_allowed) ((iff role m).1 g),
)
  where
    iff :
        (role : Role)
        → In (name, role) p.config.roles
        → (role_allows p role request ≡ true) ↔ RequestGranted p role request
    iff role m =
        role_allows_iff p role (distinct_of_In name role p.config.roles w.roles_distinct m)
          w.ceiling_distinct request

-- ===== src/Daemon/Groups.antt =====
-- `get_user_groups` of src/main.rs. The name service of the system (the `nix` crate's `User`,
-- `Group` and `getgrouplist`) is a parameter.
pub mod Names
use Prim.Native.Char.{code}
use bpf_rbacd.Base.{
  ℕ, String, Bool, true, false, ◌||◌, Option, none, some, List, [], ◌∷◌, ◌++◌, any, ◌==◌, string_eq,
  nat_eq, if◌then◌else◌, Result, ok, err, ◌>>=◌,
}

-- The fields of `nix::unistd::User` that the daemon reads.
pub record User : Type 0 where
  pub name : String
  pub gid : ℕ

-- The error messages stand for the errors.
pub record NameService : Type 0 where
  pub user_from_uid : ℕ → Result (Option User) String
  pub group_from_gid : ℕ → Result (Option String) String
  pub getgrouplist : String → ℕ → Result (List ℕ) String

-- The text has a NUL, which `CString::new` refuses.
unfoldable pub has_nul : String → Bool
has_nul String.[] = false
has_nul (String.◌∷◌ c s) = code c == 0 || has_nul s

module _ (ns : NameService) where
  -- `if let Ok(Some(g)) = Group::from_gid(gid)`, with the group's name.
  unfoldable pub group_name : ℕ → Option String
  group_name gid = elim (ns.group_from_gid gid) [ ok found ↦ found | err _ ↦ none ]

  -- One round of the loop: a name that is not there yet is pushed.
  unfoldable pub push_new : Option String → List String → List String
  push_new none groups = groups
  push_new (some name) groups =
      if any (λ g. g == name) groups then groups else groups ++ (name ∷ [])

  unfoldable pub push_all : List ℕ → List String → List String
  unfolding push_new group_name
  push_all [] groups = groups
  push_all (gid ∷ gids) groups = push_all gids (push_new (group_name gid) groups)

  unfoldable pub primary_group : ℕ → List String
  unfolding group_name
  primary_group gid = elim (group_name gid) [ some name ↦ name ∷ [] | none ↦ [] ]

  unfoldable pub supplementary_groups : User → List String → List String
  unfolding push_all
  supplementary_groups user groups = elim (ns.getgrouplist user.name user.gid) [
    | ok gids ↦ push_all gids groups
    | err _ ↦ groups
  ]

  unfoldable pub user_groups : User → Result (List String) String
  unfolding has_nul primary_group supplementary_groups
  user_groups user =
      if has_nul user.name
      then err "nul byte found in provided data"
      else ok (supplementary_groups user (primary_group user.gid))

  unfoldable pub get_user_groups : ℕ → Result (List String) String
  unfolding user_groups
  get_user_groups uid = ns.user_from_uid uid >>= λ found. elim found [
    | none ↦ err "User not found"
    | some user ↦ user_groups user
  ]

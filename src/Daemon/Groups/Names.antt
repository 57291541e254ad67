-- ===== src/Daemon/Groups/Names.antt =====
-- The groups that `get_user_groups` of src/main.rs returns.
use bpf_rbacd.Base.{
  ℕ, String, Bool, false, ◌||◌, Option, none, some, List, [], ◌∷◌, ◌++◌, any, any-append, ◌≡◌, inl,
  inr, refl, ◌∙◌, arith, ◌==◌, string_eq, ok, Option-cases,
}
use bpf_rbacd.Daemon.Groups.{
  User, NameService, has_nul, group_name, push_new, push_all, primary_group, get_user_groups,
}

-- No name stands twice.
abbrev pub Distinct : List String → Type 0
Distinct [] = Unit
Distinct (x ∷ xs) = (any (λ g. g == x) xs ≡ false) × Distinct xs

-- The list has this name.
abbrev pub has : String → List String → Bool
has name = any (λ g. g == name)

-- The name service gives the group this name.
abbrev pub is_name : String → Option String → Bool
is_name name none = false
is_name name (some found) = found == name

append-Distinct :
    (xs : List String) (x : String)
    → Distinct xs
    → any (λ g. g == x) xs ≡ false
    → Distinct (xs ++ (x ∷ []))
append-Distinct [] x d h = (refl, tt)
append-Distinct (y ∷ xs) x d h =
    ground (arith, append-Distinct xs x d.1, any-append (λ g. g == y) xs (x ∷ []))

module _ (ns : NameService) where
  push_new-Distinct :
      (o : Option String) (xs : List String) → Distinct xs → Distinct (push_new ns o xs)
  unfolding push_new
  push_new-Distinct none xs d = d
  push_new-Distinct (some x) xs d = ground (arith, append-Distinct xs x d)

  push_all-Distinct :
      (gids : List ℕ) (xs : List String) → Distinct xs → Distinct (push_all ns gids xs)
  unfolding push_all
  push_all-Distinct [] xs d = d
  push_all-Distinct (gid ∷ gids) xs d =
      push_all-Distinct gids (push_new ns (group_name ns gid) xs) (push_new-Distinct _ xs d)

  has-push_new :
      (name : String) (o : Option String) (xs : List String)
      → has name (push_new ns o xs) ≡ (has name xs || is_name name o)
  unfolding push_new
  has-push_new name none xs = ground arith
  has-push_new name (some x) xs = ground (arith, any-append (λ g. g == name) xs (x ∷ []))

  has-push_all :
      (name : String) (gids : List ℕ) (xs : List String)
      → has name (push_all ns gids xs)
        ≡ (has name xs || any (λ gid. is_name name (group_name ns gid)) gids)
  unfolding push_all
  has-push_all name [] xs = ground arith
  has-push_all name (gid ∷ gids) xs = ground (
    arith,
    has-push_all name gids (push_new ns (group_name ns gid) xs),
    has-push_new name (group_name ns gid) xs,
  )

  primary_group-Distinct : (gid : ℕ) → Distinct (primary_group ns gid)
  unfolding primary_group
  primary_group-Distinct gid = elim (Option-cases (group_name ns gid)) [
    | inl missing ↦ rw (missing, primary_group) tt
    | inr (x, found) ↦ rw (found, primary_group) (refl, tt)
  ]

  has-primary_group :
      (name : String) (gid : ℕ) → has name (primary_group ns gid) ≡ is_name name (group_name ns gid)
  unfolding primary_group
  has-primary_group name gid = elim (Option-cases (group_name ns gid)) [
    | inl missing ↦ rw (missing, primary_group)
    | inr (x, found) ↦ rw (found, primary_group) (ground arith)
  ]

  -- For a user who exists, whose name has no NUL and whose group list is read, the groups are
  -- exactly the names that the name service gives for the primary group and for the numbers of the
  -- list, each once; numbers without a name are passed over.
  pub get_user_groups_names :
      (uid : ℕ) (user : User) (gids : List ℕ) (name : String)
      → ns.user_from_uid uid ≡ ok (some user)
      → has_nul user.name ≡ false
      → ns.getgrouplist user.name user.gid ≡ ok gids
      → (groups : List String) × (get_user_groups ns uid ≡ ok groups)
        × Distinct groups
        × (has name groups ≡ any (λ gid. is_name name (group_name ns gid)) (user.gid ∷ gids))
  unfolding get_user_groups
  get_user_groups_names uid user gids name found plain listed = (
    push_all ns gids (primary_group ns user.gid),
    ground arith,
    push_all-Distinct gids (primary_group ns user.gid) (primary_group-Distinct user.gid),
    has-push_all name gids (primary_group ns user.gid) ∙ rw (has-primary_group name user.gid),
  )

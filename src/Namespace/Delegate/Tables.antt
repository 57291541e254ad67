-- ===== src/Namespace/Delegate/Tables.antt =====
-- The mounts that `delegate_bpf_to_namespace` and `revoke_bpf_delegation` of src/namespace.rs make
-- and take away.
pub mod Ends
pub mod Undo
use bpf_rbacd.Base.{
  ℕ, String, Bool, true, false, if◌then◌else◌, List, [], ◌∷◌, ◌==◌, nat_eq, string_eq, ◌≡◌, refl,
  sym, ap, ◌∙◌, arith, inl, inr, Result, ok, err, Bool-cases,
}
use bpf_rbacd.Base.Effects.{Effect, with_context, relabel, relabel_state, outcome-cases}
use bpf_rbacd.Base.Format.{to_string}
use bpf_rbacd.Namespace.Host.{Host, Namespaces, CloneFlags, MsFlags, clone_newuser, clone_newns}
use bpf_rbacd.Namespace.Options.{DelegationOpts, to_mount_data}
use bpf_rbacd.Namespace.Delegate.{
  TargetNamespace, NsFds, open_fds, enter, return_home, leave, inside, mount_flags,
  delegate_bpf_to_namespace, revoke_bpf_delegation,
}
use bpf_rbacd.Namespace.Delegate.Moves.{
  Saved, Stays, chain-Stays, with_context-Stays, open_fds-Stays, Opened,
}
use bpf_rbacd.Namespace.Delegate.Inside.{enter_lem, not_opened, not_entered, entered, ways}

-- A mount: `owner` is the user namespace that it was made in, its `s_user_ns`.
pub record Mounted : Type 0 where
  pub source : String
  pub path : String
  pub fstype : String
  pub flags : List MsFlags
  pub data_text : String
  pub owner : ℕ

-- A table without its topmost mount at the path.
unfoldable pub without : String → List Mounted → List Mounted
without path [] = []
without path (m ∷ ms) = if m.path == path then ms else m ∷ without path ms

-- What mount(2) and umount(2) document of the tables of mounts, one for each mount namespace, the
-- topmost mount first, where no mount is shared between namespaces: mount() adds a mount, and umount()
-- takes the topmost one at its path away, in the calling thread's mount namespace alone.
pub record MountTables (host : Host) (laws : Namespaces host) : Type 0 where
  pub table : host.State → ℕ → List Mounted
  pub open_keeps : (path : String) (s : host.State) → table (host.open_read path s).1 ≡ table s
  pub setns_keeps :
      (f : host.File) (flag : CloneFlags) (s : host.State) → table (host.setns f flag s).1 ≡ table s
  pub mount_adds :
      (source path fstype : String) (flags : List MsFlags) (data_text : String) (s s' : host.State)
      → host.mount source path fstype flags data_text s ≡ (ok tt, s')
      → (n : ℕ)
      → table s' n ≡ (
          let here : Mounted = record {
            source = source;
            path = path;
            fstype = fstype;
            flags = flags;
            data_text = data_text;
            owner = (laws.current s).0;
          } in
          if n == (laws.current s).1 then here ∷ table s n else table s n)
  pub mount_fails :
      (source path fstype : String) (flags : List MsFlags) (data_text e : String)
      (s s' : host.State)
      → host.mount source path fstype flags data_text s ≡ (err e, s')
      → table s' ≡ table s
  pub umount_takes :
      (path : String) (s s' : host.State)
      → host.umount path s ≡ (ok tt, s')
      → (n : ℕ)
      → table s' n ≡ (if n == (laws.current s).1 then without path (table s n) else table s n)
  pub umount_fails :
      (path e : String) (s s' : host.State) → host.umount path s ≡ (err e, s') → table s' ≡ table s

-- The bpffs of a delegation, made in this user namespace.
abbrev pub bpffs : (host : Host) → String → DelegationOpts → ℕ → Mounted
bpffs host path opts owner = record {
  source = "bpf";
  path = path;
  fstype = "bpf";
  flags = mount_flags host;
  data_text = to_mount_data opts;
  owner = owner;
}

-- What a call does to the tables of the namespaces (user, mount) that it is made in.
abbrev pub Change : Type 0
Change = (ns : ℕ × ℕ) (n : ℕ) → List Mounted → List Mounted

-- The bpffs on top of the target's table, and no other table changed.
abbrev pub mounts_bpffs : Host → String → DelegationOpts → Change
mounts_bpffs host path opts (user, mnt) n table =
    if n == mnt then bpffs host path opts user ∷ table else table

-- The topmost mount at the path gone from the target's table, and no other table changed.
abbrev pub unmounts : String → Change
unmounts path (user, mnt) n table = if n == mnt then without path table else table

module _ (host : Host) (laws : Namespaces host) (tables : MountTables host laws) where
  -- How a delegation or a revocation ends: it ends well and has changed the tables as its call does in
  -- the namespaces of the target's files, or it fails and has left all tables as they were.
  pub data Outcome (target : TargetNamespace) (change : Change) (s : host.State)
      (r : Result (Unit {0}) String × host.State) : Type 0 where
    done :
        (user_file mnt_file : host.File)
        → Opened host laws (to_string target.pid) "user" user_file
        → Opened host laws (to_string target.pid) "mnt" mnt_file
        → r.0 ≡ ok tt
        → ((n : ℕ)
            → tables.table r.1 n
              ≡ change (laws.inode user_file, laws.inode mnt_file) n (tables.table s n))
        → Outcome target change s r
    failed :
        (e : String) → r.0 ≡ err e → tables.table r.1 ≡ tables.table s → Outcome target change s r

-- ===== src/Tests/Mounts.antt =====
-- Delegation and revocation of src/namespace.rs on a system with a table of mounts for each mount
-- namespace; the thread and process 42 are where Tests/Namespaces.antt has them.
use bpf_rbacd.Base.{
  ℕ, String, List, [], ◌∷◌, ◌≡◌, refl, sym, ap, ◌==◌, if◌then◌else◌, string_eq, nat_eq, Result, ok,
  arith, err, true, false, Bool, ◌&&◌, ok_injective, ◌∙◌,
}
use bpf_rbacd.Namespace.Host.{Host, Namespaces, CloneFlags, clone_newuser, clone_newns}
use bpf_rbacd.Namespace.Delegate.{delegate_bpf_to_namespace, revoke_bpf_delegation}
use bpf_rbacd.Namespace.Delegate.Tables.{
  Mounted, without, MountTables, Outcome, mounts_bpffs, unmounts,
}
use bpf_rbacd.Namespace.Delegate.Tables.Ends.{delegation-Outcome}
use bpf_rbacd.Namespace.Delegate.Tables.Undo.{OneMountNamespace, revoke-delegate}
use bpf_rbacd.Namespace.Delegate.Moves.{Opened}
use bpf_rbacd.Base.Format.{to_string}
use bpf_rbacd.Tests.Namespaces.{ns_number, target, opts}

record World : Type 0 where
  user : ℕ
  mnt : ℕ
  tables : ℕ → List Mounted

abbrev moved : ℕ → CloneFlags → World → World
moved n clone_newuser w = record w { user = n }
moved n clone_newns w = record w { mnt = n }

abbrev number : String → World → Result ℕ String
number path w = ns_number path (record { user = w.user; mnt = w.mnt; mounts = [] })

abbrev with_mount : Mounted → World → World
with_mount m w = record w { tables = λ n. if n == w.mnt then m ∷ w.tables n else w.tables n }

abbrev without_mount : String → World → World
without_mount path w = record w {
  tables = λ n. if n == w.mnt then without path (w.tables n) else w.tables n;
}

-- A thread of the daemon's user namespace joins the target's, and none joins the daemon's.
abbrev lets : ℕ → CloneFlags → World → Bool
lets n clone_newuser w = n == 2 && w.user == 1
lets n clone_newns w = true

abbrev host : Host
host = record {
  State = World;
  File = ℕ;
  metadata_ino = number;
  open_read = (λ path w. (number path w, w));
  setns = (λ n flag w. elim (lets n flag w) [
    | true ↦ (ok tt, moved n flag w)
    | false ↦ (err "EPERM", w)
  ]);
  mount = (λ source path fstype flags data_text w. (
    ok tt,
    with_mount
        (record {
          source = source;
          path = path;
          fstype = fstype;
          flags = flags;
          data_text = data_text;
          owner = w.user;
        })
        w,
  ));
  umount = (λ path w. (ok tt, without_mount path w));
}

laws : Namespaces host
unfolding string_eq
laws = record {
  current = (λ w. (w.user, w.mnt));
  inode = (λ n. n);
  open_keeps = (λ _ _. refl);
  self_user = (λ f s s' h. ground arith);
  self_mnt = (λ f s s' h. ground arith);
  setns_user = (λ f s s' h. ground arith);
  setns_mnt = (λ f s s' h. ground arith);
  setns_fails = (λ f flag e s s' h. ground arith);
  mount_keeps = (λ _ _ _ _ _ _. refl);
  umount_keeps = (λ _ _. refl);
}

setns_tables : (n : ℕ) (flag : CloneFlags) (w : World) → (host.setns n flag w).1.tables ≡ w.tables
setns_tables n clone_newuser w = ground arith
setns_tables n clone_newns w = refl

tables : MountTables host laws
unfolding laws
tables = record {
  table = (λ w. w.tables);
  open_keeps = (λ _ _. refl);
  setns_keeps = setns_tables;
  mount_adds = (λ source path fstype flags data_text s s' h n.
      sym (ap (λ (r : Result (Unit {0}) String × World). r.1.tables n) h));
  mount_fails = (λ source path fstype flags data_text e s s' h. cc);
  umount_takes =
      (λ path s s' h n. sym (ap (λ (r : Result (Unit {0}) String × World). r.1.tables n) h));
  umount_fails = (λ path e s s' h. cc);
}

abbrev proc : Mounted
proc = record {
  source = "proc";
  path = "/proc";
  fstype = "proc";
  flags = [];
  data_text = "";
  owner = 1;
}

abbrev home : World
home = record { user = 1; mnt = 10; tables = λ _. proc ∷ [] }

delegation-Outcome_example :
    Outcome host laws tables target
      (mounts_bpffs host "/sys/fs/bpf" opts)
      home
      (delegate_bpf_to_namespace host target "/sys/fs/bpf" opts home)
    × Outcome host laws tables target
        (unmounts "/sys/fs/bpf")
        home
        (revoke_bpf_delegation host target "/sys/fs/bpf" home)
delegation-Outcome_example = delegation-Outcome host laws tables target "/sys/fs/bpf" opts home

abbrev delegated : World
delegated = (delegate_bpf_to_namespace host target "/sys/fs/bpf" opts home).1

-- Another thread of the daemon: this one is still in the target's user namespace.
abbrev another : World
another = record delegated { user = 1 }

abbrev revoked : World
revoked = (revoke_bpf_delegation host target "/sys/fs/bpf" another).1

delegates : delegate_bpf_to_namespace host target "/sys/fs/bpf" opts home ≡ (ok tt, delegated)
unfolding delegate_bpf_to_namespace string_eq nat_eq
delegates = refl

stays_there : delegated.user ≡ 2
unfolding delegate_bpf_to_namespace string_eq nat_eq
stays_there = refl

revokes : revoke_bpf_delegation host target "/sys/fs/bpf" another ≡ (ok tt, revoked)
unfolding delegate_bpf_to_namespace revoke_bpf_delegation string_eq nat_eq
revokes = refl

file_of_target : (f : ℕ) → Opened host laws (to_string 42) "mnt" f → 20 ≡ f
unfolding to_string string_eq
file_of_target f (s, s', h) = ok_injective 20 f (ap (λ (r : Result ℕ String × World). r.0) h)

one_namespace : OneMountNamespace host laws tables target
unfolding laws
one_namespace f f' o o' = sym (file_of_target f o) ∙ file_of_target f' o'

revoke-delegate_example : revoked.tables 20 ≡ proc ∷ []
unfolding tables
revoke-delegate_example =
    revoke-delegate host laws tables target "/sys/fs/bpf" opts home delegated another revoked
      one_namespace delegates (λ n. refl) revokes 20

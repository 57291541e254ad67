-- ===== src/Tests/Namespaces.antt =====
-- Delegation of src/namespace.rs on a small system: the thread is in user namespace 1 and mount
-- namespace 10, process 42 in 2 and 20.
use bpf_rbacd.Base.{
  ℕ, String, Bool, true, false, List, [], ◌∷◌, ◌≡◌, refl, arith, ltb, ◌==◌, string_eq, nat_eq,
  Result, ok, err,
}
use bpf_rbacd.Namespace.Host.{Host, Namespaces, CloneFlags, clone_newuser, clone_newns}
use bpf_rbacd.Base.Format.{hex, to_string}
use bpf_rbacd.Namespace.Options.{DelegationOpts, from_bitmaps, to_mount_data}
use bpf_rbacd.Namespace.Options.Reader.{read_options}
use bpf_rbacd.Namespace.Options.RoundTrip.{four_options, read_options-to_mount_data}
use bpf_rbacd.Namespace.Delegate.{
  TargetNamespace, NsFds, from_pid, open_fds, delegate_bpf_to_namespace, revoke_bpf_delegation,
}
use bpf_rbacd.Namespace.Delegate.Contract.{left_in_target}
use bpf_rbacd.Namespace.Delegate.Strands.{OnlyDescendants, Stranded, delegate-Stranded}

pub record Thread : Type 0 where
  pub user : ℕ
  pub mnt : ℕ
  -- The mounts, each with the user namespace that it was made in.
  pub mounts : List (ℕ × String)

abbrev home : Thread
home = record { user = 1; mnt = 10; mounts = [] }

abbrev pub ns_number : String → Thread → Result ℕ String
ns_number path t = elim (path == "/proc/self/ns/user") [
  | true ↦ ok t.user
  | false ↦ elim (path == "/proc/self/ns/mnt") [
    | true ↦ ok t.mnt
    | false ↦ elim (path == "/proc/42/ns/user") [
      | true ↦ ok 2
      | false ↦ elim (path == "/proc/42/ns/mnt") [ true ↦ ok 20 | false ↦ err "no such file" ]
    ]
  ]
]

-- Which setns() calls the system lets through.
module _ (lets : ℕ → CloneFlags → Thread → Bool) where
  abbrev moved : ℕ → CloneFlags → Thread → Thread
  moved n clone_newuser t = record t { user = n }
  moved n clone_newns t = record t { mnt = n }

  abbrev host : Host
  host = record {
    State = Thread;
    File = ℕ;
    metadata_ino = ns_number;
    open_read = (λ path t. (ns_number path t, t));
    setns = (λ n flag t. elim (lets n flag t) [
      | true ↦ (ok tt, moved n flag t)
      | false ↦ (err "EPERM", t)
    ]);
    mount = (λ source path fstype flags data_text t.
        (ok tt, record t { mounts = (t.user, data_text) ∷ t.mounts }));
    umount = (λ path t. (ok tt, record t { mounts = [] }));
  }

  host_laws : Namespaces host
  unfolding string_eq
  host_laws = record {
    current = (λ t. (t.user, t.mnt));
    inode = (λ n. n);
    open_keeps = (λ _ _. refl);
    self_user = (λ f s s' h. ground arith);
    self_mnt = (λ f s s' h. ground arith);
    setns_user = (λ f s s' h. ground arith);
    setns_mnt = (λ f s s' h. ground arith);
    setns_fails = (λ f flag e s s' h. ground arith);
    mount_keeps = (λ _ _ _ _ _ _. refl);
    umount_keeps = (λ _ _. refl);
  }

abbrev pub target : TargetNamespace
target = record { pid = 42; userns_id = 2 }

abbrev pub opts : DelegationOpts
opts = from_bitmaps 0x1f 0x24 6 0

mount_data :
    to_mount_data opts
    ≡ "delegate_cmds=0x1f,delegate_progs=0x24,delegate_maps=0x6,delegate_attachs=0x0"
unfolding to_mount_data
mount_data = refl

all_data : hex 0xffffffff ≡ "0xffffffff"
unfolding hex
all_data = refl

pid_text : to_string 4001 ≡ "4001"
unfolding to_string
pid_text = refl

read_options-to_mount_data_example :
    read_options 4 (to_mount_data opts) ≡ four_options 0x1f 0x24 6 0
read_options-to_mount_data_example =
    read_options-to_mount_data opts (omega arith) (omega arith) (omega arith) (omega arith)

target_found : from_pid (host (λ _ _ _. true)) 42 home ≡ ok target
unfolding from_pid string_eq
target_found = refl

-- A system that lets every setns() through.
abbrev always : ℕ → CloneFlags → Thread → Bool
always _ _ _ = true

abbrev delegated : Thread
delegated = record home { mounts = (2, to_mount_data opts) ∷ [] }

delegates :
    delegate_bpf_to_namespace (host always) target "/sys/fs/bpf" opts home ≡ (ok tt, delegated)
unfolding delegate_bpf_to_namespace string_eq
delegates = refl

revokes : revoke_bpf_delegation (host always) target "/sys/fs/bpf" delegated ≡ (ok tt, home)
unfolding revoke_bpf_delegation string_eq
revokes = refl

no_process :
    delegate_bpf_to_namespace
      (host always)
      (record { pid = 43; userns_id = 2 })
      "/sys/fs/bpf"
      opts
      home
    ≡ (err "Failed to open /proc/43/ns/user", home)
unfolding delegate_bpf_to_namespace string_eq
no_process = refl

-- A system that lets no thread into another mount namespace.
abbrev no_mnt : ℕ → CloneFlags → Thread → Bool
no_mnt _ clone_newuser _ = true
no_mnt _ clone_newns _ = false

abbrev files : NsFds ℕ
files = record { self_userns = 1; self_mntns = 10; target_userns = 2; target_mntns = 20 }

abbrev moved_user : Thread
moved_user = record home { user = 2 }

files_opened : open_fds (host no_mnt) target home ≡ (ok files, home)
unfolding open_fds string_eq
files_opened = refl

left_in_target_example :
    (delegate_bpf_to_namespace (host no_mnt) target "/sys/fs/bpf" opts home
      ≡ (err "Failed to enter target mount namespace", moved_user))
    × (revoke_bpf_delegation (host no_mnt) target "/sys/fs/bpf" home
        ≡ (err "Failed to enter target mount namespace", moved_user))
    × ((host_laws no_mnt).current moved_user
        ≡ ((host_laws no_mnt).inode 2, ((host_laws no_mnt).current home).1))
left_in_target_example =
    left_in_target (host no_mnt) (host_laws no_mnt) target "/sys/fs/bpf" opts files home home
      moved_user moved_user "EPERM" files_opened refl refl

-- The rule of setns(2), where a namespace descends from those with a lower number.
abbrev downward : ℕ → CloneFlags → Thread → Bool
downward n clone_newuser t = ltb t.user n
downward _ clone_newns _ = true

downward_rule : OnlyDescendants (host downward) (host_laws downward)
unfolding host_laws
downward_rule = record {
  descends = (λ a b. ltb b a);
  one_way = (λ a b h. ground arith);
  joined = (λ f s s' h. ground arith);
}

strands :
    delegate_bpf_to_namespace (host downward) target "/sys/fs/bpf" opts home
    ≡ (ok tt, record delegated { user = 2 })
unfolding delegate_bpf_to_namespace string_eq
strands = refl

delegate-Stranded_example :
    Stranded
      (host downward)
      (host_laws downward)
      downward_rule
      target
      home
      (record delegated { user = 2 })
delegate-Stranded_example =
    delegate-Stranded (host downward) (host_laws downward) downward_rule target "/sys/fs/bpf" opts
      home (record delegated { user = 2 }) strands

-- ===== src/Namespace/Delegate.antt =====
-- `delegate_bpf_to_namespace` and `revoke_bpf_delegation` of src/namespace.rs.
pub mod Moves
pub mod Inside
pub mod Contract
pub mod Strands
pub mod Tables
use bpf_rbacd.Base.{ℕ, String, ◌<>◌, List, [], ◌∷◌, Result, ok, err}
use bpf_rbacd.Base.Effects.{Effect, ◌>>=◌, go_on, with_context}
use bpf_rbacd.Namespace.Host.{
  Host, CloneFlags, clone_newuser, clone_newns, MsFlags, ms_nosuid, ms_nodev, ms_noexec,
  ms_relatime,
}
use bpf_rbacd.Base.Format.{to_string}
use bpf_rbacd.Namespace.Options.{DelegationOpts, to_mount_data}

pub record TargetNamespace : Type 0 where
  pub pid : ℕ
  pub userns_id : ℕ

-- The four files that both functions open.
pub record NsFds (File : Type 0) : Type 0 where
  pub self_userns : File
  pub self_mntns : File
  pub target_userns : File
  pub target_mntns : File

abbrev pub ns_path : String → String → String
ns_path pid_or_self ns_type = "/proc/" <> pid_or_self <> "/ns/" <> ns_type

module _ (host : Host) where
  unfoldable pub from_pid : ℕ → host.State → Result TargetNamespace String
  unfolding to_string
  from_pid pid s = elim (host.metadata_ino (ns_path (to_string pid) "user") s) [
    | ok userns_id ↦ ok (record { pid = pid; userns_id = userns_id })
    | err _ ↦ err ("Failed to stat " <> ns_path (to_string pid) "user")
  ]

  unfoldable pub open_ns_fd : String → String → Effect host.State host.File
  open_ns_fd pid_or_self ns_type =
      with_context ("Failed to open " <> ns_path pid_or_self ns_type)
        (host.open_read (ns_path pid_or_self ns_type))

  -- The record that stands for the four variables of the source.
  abbrev pub opened :
      (self_userns self_mntns target_userns target_mntns : host.File)
      → Effect host.State (NsFds host.File)
  opened self_userns self_mntns target_userns target_mntns s = (
    ok (record {
      self_userns = self_userns;
      self_mntns = self_mntns;
      target_userns = target_userns;
      target_mntns = target_mntns;
    }),
    s,
  )

  -- The target's two files, with those of the thread already open.
  unfoldable pub open_target :
      TargetNamespace → host.File → host.File → Effect host.State (NsFds host.File)
  unfolding open_ns_fd to_string
  open_target target self_userns self_mntns = do
    target_userns ← open_ns_fd (to_string target.pid) "user"
    target_mntns ← open_ns_fd (to_string target.pid) "mnt"
    opened self_userns self_mntns target_userns target_mntns

  unfoldable pub open_fds : TargetNamespace → Effect host.State (NsFds host.File)
  unfolding open_target
  open_fds target = do
    self_userns ← open_ns_fd "self" "user"
    self_mntns ← open_ns_fd "self" "mnt"
    open_target target self_userns self_mntns

  -- The user namespace first, then the mount namespace.
  unfoldable pub enter : NsFds host.File → Effect host.State (Unit {0})
  enter fds = do
    _ ←
        with_context "Failed to enter target user namespace"
          (host.setns fds.target_userns clone_newuser)
    with_context "Failed to enter target mount namespace" (host.setns fds.target_mntns clone_newns)

  -- `let _ = setns(…)`, twice: the results are dropped.
  unfoldable pub return_home : NsFds host.File → host.State → host.State
  return_home fds s =
      (host.setns fds.self_mntns clone_newns (host.setns fds.self_userns clone_newuser s).1).1

  -- The end of both functions, whatever the call between has given.
  unfoldable pub leave :
      NsFds host.File → Effect host.State (Unit {0}) → Effect host.State (Unit {0})
  unfolding return_home
  leave fds act s = let (result, s') = act s in (result, return_home fds s')

  -- What the two functions share, around the call that they make inside.
  unfoldable pub inside :
      TargetNamespace → Effect host.State (Unit {0}) → Effect host.State (Unit {0})
  unfolding open_fds enter leave
  inside target act = do fds ← open_fds target; _ ← enter fds; leave fds act

  abbrev pub mount_flags : List MsFlags
  mount_flags = ms_nosuid ∷ ms_nodev ∷ ms_noexec ∷ ms_relatime ∷ []

  unfoldable pub delegate_bpf_to_namespace :
      TargetNamespace → String → DelegationOpts → Effect host.State (Unit {0})
  unfolding inside to_mount_data
  delegate_bpf_to_namespace target mount_path opts = inside target (
      with_context "Failed to mount bpffs in target namespace"
        (host.mount "bpf" mount_path "bpf" mount_flags (to_mount_data opts)))

  unfoldable pub revoke_bpf_delegation : TargetNamespace → String → Effect host.State (Unit {0})
  unfolding inside
  revoke_bpf_delegation target mount_path =
      inside target (with_context "Failed to unmount bpffs" (host.umount mount_path))

-- ===== src/Namespace/Host.antt =====
-- What src/namespace.rs asks of the system: opening the files of /proc, setns(), mount() and
-- umount(). All of it is code that the repository only calls.
use bpf_rbacd.Base.{ℕ, String, List, Result, ok, err, ◌≡◌}
use bpf_rbacd.Base.Effects.{Effect}

pub data CloneFlags : Type 0 where
  clone_newuser : CloneFlags
  clone_newns : CloneFlags

pub data MsFlags : Type 0 where
  ms_nosuid : MsFlags
  ms_nodev : MsFlags
  ms_noexec : MsFlags
  ms_relatime : MsFlags

-- `open_read` opens for reading; `mount` takes the source, the path, the type, the flags and the data.
pub record Host : Type 1 where
  pub State : Type 0
  pub File : Type 0
  pub metadata_ino : String → State → Result ℕ String
  pub open_read : String → Effect State File
  pub setns : File → CloneFlags → Effect State (Unit {0})
  pub mount : String → String → String → List MsFlags → String → Effect State (Unit {0})
  pub umount : String → Effect State (Unit {0})

-- What Linux documents of the namespaces of the calling thread, as numbers (user, mount): a file
-- under /proc/self/ns stands for the thread's own namespace, setns() moves the thread into the one
-- that its file stands for or leaves it, and no other call moves it.
pub record Namespaces (host : Host) : Type 0 where
  pub current : host.State → ℕ × ℕ
  pub inode : host.File → ℕ
  pub open_keeps : (path : String) (s : host.State) → current (host.open_read path s).1 ≡ current s
  pub self_user :
      (f : host.File) (s s' : host.State)
      → host.open_read "/proc/self/ns/user" s ≡ (ok f, s')
      → inode f ≡ (current s).0
  pub self_mnt :
      (f : host.File) (s s' : host.State)
      → host.open_read "/proc/self/ns/mnt" s ≡ (ok f, s')
      → inode f ≡ (current s).1
  pub setns_user :
      (f : host.File) (s s' : host.State)
      → host.setns f clone_newuser s ≡ (ok tt, s')
      → current s' ≡ (inode f, (current s).1)
  pub setns_mnt :
      (f : host.File) (s s' : host.State)
      → host.setns f clone_newns s ≡ (ok tt, s')
      → current s' ≡ ((current s).0, inode f)
  pub setns_fails :
      (f : host.File) (flag : CloneFlags) (e : String) (s s' : host.State)
      → host.setns f flag s ≡ (err e, s')
      → current s' ≡ current s
  pub mount_keeps :
      (source path fstype : String) (flags : List MsFlags) (data_text : String) (s : host.State)
      → current (host.mount source path fstype flags data_text s).1 ≡ current s
  pub umount_keeps : (path : String) (s : host.State) → current (host.umount path s).1 ≡ current s

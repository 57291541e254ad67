-- ===== src/Tests/Startup.antt =====
-- The mount table of src/namespace.rs, the start of src/main.rs, and the commands of
-- src/bin/bpf-rbac.rs.
use bpf_rbacd.Base.{
  true, false, none, some, List, ℕ, [], ◌∷◌, ◌≡◌, refl, ok, err, string_eq, nat_eq,
}
use bpf_rbacd.Base.Int.{pos}
use bpf_rbacd.Base.Format.{parse_u32}
use bpf_rbacd.Protocol.{success}
use bpf_rbacd.Protocol.Client.{Socket, create_map as client_create_map}
use bpf_rbacd.Protocol.Client.Proxy.{arrival}
use bpf_rbacd.Policy.Defaults.{default}
use bpf_rbacd.Policy.Load.{startup_policy}
use bpf_rbacd.Cli.Main.{create_map, status, success_fd, is_running, not_available, main}
use bpf_rbacd.Namespace.Mounts.{is_bpffs_mounted}
use bpf_rbacd.Namespace.Mounts.Table.{Mount, print_table, IsPrinted, is_bpffs_mounted-print_table}
use bpf_rbacd.Tests.Sample.{sample}
use bpf_rbacd.Tests.Machine.{codec}

mounted :
    (is_bpffs_mounted (ok "proc /proc proc rw 0 0\nbpf /sys/fs/bpf bpf rw 0 0\n") "/sys/fs/bpf"
      ≡ true)
    × (is_bpffs_mounted (ok "tmpfs /sys/fs/bpf tmpfs rw 0 0\n") "/sys/fs/bpf" ≡ false)
    × (is_bpffs_mounted (err "no such file") "/sys/fs/bpf" ≡ false)
unfolding is_bpffs_mounted nat_eq string_eq
mounted = (refl, refl, refl)

loaded :
    (startup_policy (ok "…") (λ _. ok sample.config) ≡ sample)
    × (startup_policy (ok "…") (λ _. err "bad indentation") ≡ default)
unfolding startup_policy
loaded = (refl, refl)

abbrev socket : Socket
socket = record {
  State = List ℕ;
  connect = (λ _. ok []);
  write_all = (λ bytes s. (ok tt, bytes));
  recvmsg = (λ s. (ok (arrival (success (some (pos 5))) (5 ∷ []) (pos 9)), s));
}

abbrev no_daemon : Socket
no_daemon = record socket { connect = λ _. err "refused" }

commands :
    (main codec socket (create_map none none none none none ("hash" ∷ "m" ∷ "4" ∷ "8" ∷ []))
      ≡ ok (success_fd (pos 9)))
    × (main codec socket status ≡ ok is_running)
    × (main codec no_daemon status ≡ ok (not_available "refused"))
    × (main codec no_daemon (create_map (some "hash") (some "m") (some 4) (some 8) none [])
        ≡ err "refused")
unfolding main client_create_map parse_u32 string_eq nat_eq
commands = (refl, refl, refl, refl)

abbrev proc_mount : Mount
proc_mount = record { device = "proc"; dir = "/proc"; fstype = "proc"; rest = "rw,nosuid 0 0" }

abbrev bpf_mount : Mount
bpf_mount = record {
  device = "bpf";
  dir = "/sys/fs/bpf";
  fstype = "bpf";
  rest = "rw,delegate_cmds=0x1f 0 0";
}

proc-IsPrinted : IsPrinted proc_mount
unfolding nat_eq
proc-IsPrinted = record { device = refl; dir = refl; fstype = refl; rest = refl }

bpf-IsPrinted : IsPrinted bpf_mount
unfolding nat_eq
bpf-IsPrinted = record { device = refl; dir = refl; fstype = refl; rest = refl }

is_bpffs_mounted-print_table_example :
    is_bpffs_mounted (ok (print_table (proc_mount ∷ bpf_mount ∷ []))) "/sys/fs/bpf" ≡ true
unfolding string_eq
is_bpffs_mounted-print_table_example =
    is_bpffs_mounted-print_table (proc_mount ∷ bpf_mount ∷ []) "/sys/fs/bpf"
      (proc-IsPrinted, (bpf-IsPrinted, tt))

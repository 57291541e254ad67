-- ===== src/Lib.antt =====
-- Verification library for bpf-rbacd, a daemon that gives unprivileged users access to bpf() by
-- role.
--
-- The program has two modes and one policy engine. In proxy mode a client (src/protocol.rs) sends a
-- request over a Unix socket to the daemon (src/main.rs), which finds the user's groups, asks the
-- policy engine (src/policy.rs) for a role and for permission, makes the bpf() call itself and
-- sends the descriptor back. In delegation mode the policy engine turns a role into bitmaps, which
-- stand in the kernel's policy map by user namespace (the types of bpf-rbacd-common/src/lib.rs),
-- and the LSM hooks (bpf-rbacd-ebpf/src/main.rs) test the bits on each bpf() call.
--
-- Files and what they model:
--   Base.antt, Base/: what the source uses of the language: ==, maps, slices, Result with the ?
--     operator, UTF-8 bytes, and bits of machine integers as binary digits of natural numbers.
--   Common.antt, Common/: bpf-rbacd-common/src/lib.rs. PolicyKey, PolicyValue, the flags, and the
--     constants of the modules prog_types, map_types and commands.
--   Policy/: src/policy.rs. Config has the types that serde fills; Check is check_type_op and the
--     methods is_..._allowed; Roles is get_role_for_groups; Tables has the three ..._to_bit
--     functions; Bitmap has the methods ..._bitmap; Defaults is Policy::default; Load is
--     Policy::load and main's fallback, with the file and the YAML parser as parameters. A HashMap
--     is a list of pairs in the map's iteration order; theorems that need a key to stand once say
--     so (DistinctKeys).
--   Ebpf.antt, Ebpf/: the hooks. try_bpf_rbac_... have the answer of get_current_userns_id as a
--     parameter; bpf_rbac_... are the hooks with the stub of the source.
--   Enforcement.antt: the policy engine's answers against the hooks' answers on its bitmaps.
--   Delegation.antt: the policy engine's answers against the mount data made of its bitmaps.
--   Protocol.antt, Protocol/: src/protocol.rs. Request and Response; Client is BpfRbacClient, with
--     the socket as a parameter. Codec stands for bincode, and RoundTrips for what both ends rely
--     on.
--   Daemon.antt, Daemon/: src/main.rs. Groups is get_user_groups over the system's name service,
--     Syscall is create_bpf_map and execute_bpf, and Handler is handle_client. System has the calls
--     that change state: bpf(), write, sendmsg, accept and close, over a state of the system's own. Start is
--     main up to the accept loop, and Server is the loop: a task for each client, which stands
--     before its read, with its request, with its response, with bytes that write_all has left, or
--     at its end, where its socket is closed, and events that accept a client or poll one task,
--     whose read or write is ready (wake) or is not (poll). A list of events is one interleaving;
--     the clients share the state of the system.
--   Proxy.antt, Proxy/: the two ends of the proxy mode together, the client of src/protocol.rs on a
--     socket that leads to handle_client of src/main.rs. Link has what Linux documents of a
--     connected pair of sockets, and Reads the one read of at most 4096 bytes.
--   Namespace.antt, Namespace/: src/namespace.rs. Options is DelegationOpts with its mount data,
--     Delegate has TargetNamespace::from_pid, delegate_bpf_to_namespace and revoke_bpf_delegation;
--     the steps that both functions take are the function inside. Mounts is is_bpffs_mounted, on a
--     text for /proc/mounts. Host has the calls of the system as effects on a state, Namespaces what
--     they do to the namespaces of the calling thread, and MountTables what they do to the mounts of
--     each mount namespace, none of which is shared with another.
--   Cli.antt, Cli/: src/bin/bpf-rbac.rs, resolve_create_map_args and main. Base/Format.antt has the
--     standard library's to_string, {:#x} and parse of a u32, with as many digits as a u32 takes.
--   Xtask.antt, Xtask/: xtask/src/main.rs, main and the four commands over a shell that starts
--     processes, and Script, the text of integration_test_script. Base/Paths.antt has Path::parent.
--   Tests.antt, Tests/: runs on the inputs of the source's tests, and each theorem at an input.
--
-- Bounds: a bitmap is a u32, and a shift or test of a bit is below 32 by the tables and the guards;
-- past that a shift would take the low five bits of its amount.
-- A read of a request takes at most 4096 bytes, in one call. All recursion is on lists, texts and
-- numbers, so no fuel is used. An error is represented by its message; log lines are left out.
--
-- Not modelled: the texts that src/bin/bpf-rbac.rs and xtask/src/main.rs print, and src/lib.rs, which
-- only declares modules. bincode, serde, tokio, nix, libc, clap and aya are outside the repository:
-- what the code calls of them is a parameter.
pub mod Base
pub mod Common
pub mod Protocol
pub mod Policy
pub mod Ebpf
pub mod Enforcement
pub mod Namespace
pub mod Delegation
pub mod Daemon
pub mod Cli
pub mod Xtask
pub mod Proxy
mod Tests

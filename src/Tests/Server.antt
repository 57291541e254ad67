-- ===== src/Tests/Server.antt =====
-- Two clients of the daemon of src/main.rs, one of them without a role, interleaved.
use mathlib.Core.List.{Perm}
use bpf_rbacd.Base.{
  ℕ, String, true, some, List, [], ◌∷◌, ◌≡◌, refl, ok, err, string_eq, nat_eq, get,
}
use bpf_rbacd.Base.Int.{pos}
use bpf_rbacd.Policy.Defaults.{default}
use bpf_rbacd.Policy.Roles.{get_role_for_groups}
use bpf_rbacd.Policy.Check.{is_allowed}
use bpf_rbacd.Daemon.Groups.{NameService, has_nul, get_user_groups}
use bpf_rbacd.Daemon.Syscall.{execute_bpf}
use bpf_rbacd.Daemon.Handler.{receive}
use bpf_rbacd.Daemon.Server.{
  Event, accept, accept_error, wake, poll, Server, finished, listening, start, run,
}
use bpf_rbacd.Daemon.Server.History.{History}
use bpf_rbacd.Daemon.Server.Accounts.{run-granted}
use bpf_rbacd.Policy.Load.{load}
use bpf_rbacd.Daemon.Handler.Authority.{authorise}
use bpf_rbacd.Daemon.Start.Unconfigured.{Member, start-Member}
use bpf_rbacd.Daemon.Start.Serving.{default-IsWellFormed, Serving}
use bpf_rbacd.Daemon.Start.{Files, start as start_daemon}
use bpf_rbacd.Tests.Sample.{sample}
use bpf_rbacd.Tests.Machine.{ℤ_discrete, codec, idle, system, system_fds, client}
use bpf_rbacd.Tests.Daemon.{names, outsiders, asks, hash_request}

abbrev Daemon : Type 0
Daemon = Server system codec names sample

-- The second client's user is unknown.
abbrev stranger : Event
stranger = accept (client 1001 (4 ∷ 8 ∷ 16 ∷ []))

abbrev interleaved : List Event
interleaved =
    accept asks ∷ stranger ∷ wake 1 ∷ wake 0 ∷ accept_error "EMFILE" ∷ wake 0 ∷ wake 1 ∷ wake 0 ∷ []

abbrev at_start : Daemon
at_start = listening system codec names sample idle

both_served : run system codec names sample interleaved at_start ≡ record {
  tasks = finished (ok tt) ∷ finished (err "User not found") ∷ [];
  system = record { next = 6; open_fds = pos 5 ∷ []; sent = (1001, 5 ∷ []) ∷ [] };
}
unfolding ℤ_discrete run is_allowed execute_bpf receive get_user_groups has_nul get_role_for_groups
    get string_eq nat_eq
both_served = refl

-- The descriptor of alice's map is still open when both clients are gone.
run-granted_example :
    Perm (run system codec names sample interleaved at_start).system.open_fds (pos 5 ∷ [])
unfolding system_fds ℤ_discrete run is_allowed execute_bpf receive get_user_groups has_nul
    get_role_for_groups get string_eq nat_eq
run-granted_example = run-granted system codec names sample system_fds interleaved idle

-- A client without a role, whose denial goes out in two parts.
abbrev in_parts : List Event
in_parts = accept asks ∷ poll 0 ∷ wake 0 ∷ wake 0 ∷ poll 0 ∷ wake 0 ∷ []

denied_in_parts :
    run system codec outsiders sample in_parts (listening system codec outsiders sample idle)
    ≡ record {
      tasks = finished (ok tt) ∷ [];
      system = record { next = 5; open_fds = []; sent = (1001, 0 ∷ 0 ∷ []) ∷ (1001, 0 ∷ []) ∷ [] };
    }
unfolding ℤ_discrete run is_allowed execute_bpf receive get_user_groups has_nul get_role_for_groups
    get string_eq nat_eq
denied_in_parts = refl

-- The socket file, and whether it is bound.
abbrev files : Files
files = record {
  State = List ℕ;
  Listener = String;
  read_to_string = (λ path s. ok path);
  from_str = (λ text. ok sample.config);
  remove_file = (λ path s. (err "no such file", s));
  bind = (λ path s. (ok path, s));
  set_permissions = (λ path mode s. (ok tt, mode ∷ s));
}

no_policy_file :
    start_daemon (record files { read_to_string = λ path s. err "no such file" }) []
    ≡ (ok (default, "/run/bpf-rbac.sock"), 511 ∷ [])
unfolding start_daemon
no_policy_file = refl

address_in_use :
    start_daemon (record files { bind = λ path s. (err "EADDRINUSE", s) }) []
    ≡ (err "Failed to bind socket", [])
unfolding start_daemon
address_in_use = refl

-- A system where every group is called `ebpf`, and a daemon with no policy file.
abbrev tracers : NameService
tracers = record names { group_from_gid = λ _. ok (some "ebpf") }

abbrev no_files : Files
no_files = record files { read_to_string = λ path s. err "no such file" }

started_without : start_daemon no_files [] ≡ (ok (default, "/run/bpf-rbac.sock"), 511 ∷ [])
unfolding start_daemon
started_without = refl

not_loaded : load (err "no such file") no_files.from_str ≡ err "no such file"
unfolding load
not_loaded = refl

tracer_received : receive system codec tracers default asks ≡ ok (some "ebpf", some hash_request)
unfolding receive get_user_groups has_nul get_role_for_groups default get string_eq nat_eq
tracer_received = refl

tracer_allowed : is_allowed default "ebpf" hash_request ≡ true
unfolding is_allowed default get string_eq
tracer_allowed = refl

start-Member_example : Member tracers asks hash_request
start-Member_example =
    start-Member no_files tracers default "/run/bpf-rbac.sock" [] (511 ∷ []) "no such file" asks
      hash_request not_loaded started_without
      (authorise system codec tracers default asks "ebpf" hash_request default-IsWellFormed
        tracer_received tracer_allowed)

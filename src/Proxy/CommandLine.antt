-- ===== src/Proxy/CommandLine.antt =====
-- The command create-map of src/bin/bpf-rbac.rs against the daemon of src/main.rs.
use bpf_rbacd.Base.{ℕ, String, true, Option, some, List, length, ◌≤◌, ◌≡◌, refl, Result, ok, err}
use bpf_rbacd.Base.Int.{ℤ, pos}
use bpf_rbacd.Protocol.{Codec, RoundTrips, create_map as create_map_request, success}
use bpf_rbacd.Protocol.Client.{connect, create_map as client_create_map}
use bpf_rbacd.Policy.{Policy}
use bpf_rbacd.Policy.Check.{is_allowed}
use bpf_rbacd.Policy.Roles.{get_role_for_groups}
use bpf_rbacd.Daemon.Groups.{NameService, get_user_groups}
use bpf_rbacd.Daemon.System.{System}
use bpf_rbacd.Daemon.Syscall.{map_type_num, map_attr, as_raw_fd}
use bpf_rbacd.Daemon.Handler.{Connection}
use bpf_rbacd.Daemon.Handler.Serves.{Delivers}
use bpf_rbacd.Cli.{resolve_create_map_args}
use bpf_rbacd.Cli.Main.{Printed, success_fd, create_map, request_map, main}
use bpf_rbacd.Proxy.{Link, Reads, proxy}
use bpf_rbacd.Proxy.Served.{create_map_granted}

-- What the command prints for the client library's result.
abbrev printed : Result ℤ String → Result Printed String
printed (ok fd) = ok (success_fd fd)
printed (err e) = err e

module _ (sys : System) (codec : Codec) (laws : RoundTrips codec) (ns : NameService)
    (policy : Policy) (link : Link sys) (conn_of : List ℕ → Connection)
    (reads : Reads sys link conn_of) (s₀ : sys.State) (map_type_flag name_flag : Option String)
    (key_size_flag value_size_flag max_entries_flag : Option ℕ) (positional : List String)
    (map_type name : String) (key_size value_size max_entries : ℕ)
    (resolved : resolve_create_map_args map_type_flag name_flag key_size_flag value_size_flag
        max_entries_flag positional
      ≡ ok (map_type, name, key_size, value_size, max_entries)) where
  -- The command prints the result of one `create_map` on a new connection.
  main-create_map :
      (result : Result ℤ String) (s : sys.State)
      → client_create_map codec
          (proxy sys codec ns policy link conn_of s₀)
          map_type
          name
          key_size
          value_size
          max_entries
          s₀
        ≡ (result, s)
      → main codec (proxy sys codec ns policy link conn_of s₀) (
          create_map map_type_flag name_flag key_size_flag value_size_flag max_entries_flag
            positional)
        ≡ printed result
  unfolding main request_map connect
  main-create_map (ok fd) s done = rw (resolved, main, request_map, done) refl
  main-create_map (err e) s done = rw (resolved, main, request_map, done) refl

  -- The command create-map prints the client's own number of the descriptor that the daemon's bpf() call
  -- returned, if its arguments resolve to a request to create a map of a supported type, the user's groups
  -- give a role that is allowed it, the call returns a number that is not negative, and the daemon's
  -- message of at most 4096 bytes is sent.
  pub main_granted :
      (uid num n : ℕ) (groups : List String) (role_name : String) (bytes answer : List ℕ)
      (s s' : sys.State)
      → Delivers (conn_of bytes) uid bytes
      → get_user_groups ns uid ≡ ok groups
      → get_role_for_groups policy groups ≡ some role_name
      → codec.serialize_request (create_map_request map_type name key_size value_size max_entries)
        ≡ ok bytes
      → is_allowed policy role_name
          (create_map_request map_type name key_size value_size max_entries)
        ≡ true
      → map_type_num map_type ≡ some num
      → sys.bpf 0 (map_attr num name key_size value_size max_entries) s₀ ≡ (pos n, s)
      → codec.serialize_response (success (some (as_raw_fd (pos n)))) ≡ ok answer
      → length answer ≤ 4096
      → sys.sendmsg link.socket answer (as_raw_fd (pos n)) s ≡ (ok tt, s')
      → main codec (proxy sys codec ns policy link conn_of s₀) (
          create_map map_type_flag name_flag key_size_flag value_size_flag max_entries_flag
            positional)
        ≡ ok (success_fd (link.number (as_raw_fd (pos n))))
  main_granted uid num n groups role bytes answer s s' d user holds asked allowed supported called
        answered fits sent =
      main-create_map (ok (link.number (as_raw_fd (pos n)))) s' (
        create_map_granted sys codec laws ns policy link conn_of reads s₀ map_type name key_size
          value_size max_entries uid num n groups role bytes answer s₀ s s' d user holds asked
          allowed supported called answered fits sent)

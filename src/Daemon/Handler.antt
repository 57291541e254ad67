-- ===== src/Daemon/Handler.antt =====
-- `handle_client` of src/main.rs.
pub mod Authority
pub mod Descriptors
pub mod Serves
use bpf_rbacd.Base.{
  ℕ, String, ◌<>◌, Bool, Option, none, some, List, [], ◌∷◌, if◌then◌else◌, Result, ok, err, ◌>>=◌,
}
use bpf_rbacd.Base.Int.{ℤ}
use bpf_rbacd.Protocol.{Codec, Request, Response, success, denied, error}
use bpf_rbacd.Policy.{Policy}
use bpf_rbacd.Policy.Check.{is_allowed}
use bpf_rbacd.Policy.Roles.{get_role_for_groups}
use bpf_rbacd.Daemon.Groups.{NameService, get_user_groups}
use bpf_rbacd.Daemon.System.{System}
use bpf_rbacd.Daemon.Syscall.{execute_bpf}

-- The socket of one client, by its descriptor, and what it gives: the outcomes of its conversions,
-- the user of `SO_PEERCRED`, and the bytes of the one `read` into the buffer of 4096.
pub record Connection : Type 0 where
  pub socket : ℕ
  pub into_std : Result (Unit {0}) String
  pub peer_uid : Result ℕ String
  pub set_nonblocking : Result (Unit {0}) String
  pub from_std : Result (Unit {0}) String
  pub read : Result (List ℕ) String

module _ (sys : System) (codec : Codec) (ns : NameService) (policy : Policy) where
  -- No request if the client closed the connection.
  unfoldable pub parse : List ℕ → Result (Option Request) String
  parse [] = ok none
  parse (b ∷ bytes) = codec.deserialize_request (b ∷ bytes) >>= λ request. ok (some request)

  -- Up to the request: the client's role, and the request if there is one.
  unfoldable pub receive : Connection → Result (Option String × Option Request) String
  unfolding parse
  receive conn = do
    _ ← conn.into_std
    uid ← conn.peer_uid
    groups ← get_user_groups ns uid
    _ ← conn.set_nonblocking
    _ ← conn.from_std
    bytes ← conn.read
    request ← parse bytes
    ok (get_role_for_groups policy groups, request)

  -- The response to the outcome of the operation.
  abbrev pub outcome : Result ℤ String → Response
  outcome (ok fd) = success (some fd)
  outcome (err e) = error e

  unfoldable pub respond : Option String → Request → sys.State → Response × sys.State
  respond none request s = (denied "User not in any BPF RBAC group", s)
  respond (some role_name) request s =
      if is_allowed policy role_name request
      then (let (result, s') = execute_bpf sys request s in (outcome result, s'))
      else (
        denied ("Role '" <> role_name <> "' not allowed for " <> codec.debug_request request),
        s,
      )

  -- One message of the bytes, with the descriptor under `SCM_RIGHTS`.
  abbrev pub send_fd_with_data : ℕ → ℤ → List ℕ → sys.State → Result (Unit {0}) String × sys.State
  send_fd_with_data socket fd data_bytes s = sys.sendmsg socket data_bytes fd s

  -- The bytes go out with the descriptor for a success, and plainly for all else.
  unfoldable pub transmit : ℕ → Response → List ℕ → sys.State → Result (Unit {0}) String × sys.State
  transmit socket (success (some fd)) bytes s = send_fd_with_data socket fd bytes s
  transmit socket (success none) bytes s = sys.write_all socket bytes s
  transmit socket (denied reason) bytes s = sys.write_all socket bytes s
  transmit socket (error message) bytes s = sys.write_all socket bytes s

  unfoldable pub reply : ℕ → Response → sys.State → Result (Unit {0}) String × sys.State
  unfolding transmit
  reply socket response s = elim (codec.serialize_response response) [
    | ok bytes ↦ transmit socket response bytes s
    | err e ↦ (err e, s)
  ]

  -- The rest of the handler, from the request on.
  unfoldable pub serve :
      ℕ → Option String × Option Request → sys.State → Result (Unit {0}) String × sys.State
  unfolding respond reply
  serve socket (role, none) s = (ok tt, s)
  serve socket (role, some request) s =
      let (response, s') = respond role request s in reply socket response s'

  unfoldable pub handle_client : Connection → sys.State → Result (Unit {0}) String × sys.State
  handle_client conn s = elim (receive conn) [
    | ok received ↦ serve conn.socket received s
    | err e ↦ (err e, s)
  ]

-- ===== src/Proxy.antt =====
-- Proxy mode from end to end: the client of src/protocol.rs, whose socket leads to the daemon of
-- src/main.rs.
pub mod Arrives
pub mod Inbox
pub mod Outcome
pub mod Served
pub mod CommandLine
use bpf_rbacd.Base.{ℕ, ◌≤◌, String, Option, none, some, List, [], ◌∷◌, take, Result, ok, err, ◌≡◌}
use bpf_rbacd.Base.Int.{ℤ, pos}
use bpf_rbacd.Protocol.{Codec, Response, success, denied, error}
use bpf_rbacd.Protocol.Client.{scm_rights, Received, Socket}
use bpf_rbacd.Policy.{Policy}
use bpf_rbacd.Daemon.Groups.{NameService}
use bpf_rbacd.Daemon.System.{BpfAttr, System}
use bpf_rbacd.Daemon.Handler.{Connection, handle_client}

-- What Linux documents of a connected pair of sockets, `socket` being the daemon's end: what the daemon sends is what the client
-- receives, up to the 4096 bytes of its buffer, a descriptor under a number of the client's own; a
-- send that fails, and a call of another kind, delivers nothing.
pub record Link (sys : System) : Type 0 where
  pub socket : ℕ
  pub inbox : sys.State → Result Received String
  pub number : ℤ → ℤ
  pub sendmsg_delivers :
      (bytes : List ℕ) (fd : ℤ) (s s' : sys.State)
      → sys.sendmsg socket bytes fd s ≡ (ok tt, s')
      → inbox s' ≡ ok (record { bytes = take 4096 bytes; cmsgs = scm_rights (number fd ∷ []) ∷ [] })
  pub write_all_delivers :
      (bytes : List ℕ) (s s' : sys.State)
      → sys.write_all socket bytes s ≡ (ok tt, s')
      → inbox s' ≡ ok (record { bytes = take 4096 bytes; cmsgs = [] })
  pub sendmsg_fails :
      (bytes : List ℕ) (fd : ℤ) (e : String) (s s' : sys.State)
      → sys.sendmsg socket bytes fd s ≡ (err e, s')
      → inbox s' ≡ inbox s
  pub write_all_fails :
      (bytes : List ℕ) (e : String) (s s' : sys.State)
      → sys.write_all socket bytes s ≡ (err e, s')
      → inbox s' ≡ inbox s
  pub bpf_keeps :
      (cmd : ℕ) (attr : BpfAttr) (s : sys.State) → inbox (sys.bpf cmd attr s).1 ≡ inbox s

-- The daemon's end of the connection, for what the client has written: the daemon reads at most
-- 4096 bytes of it.
pub record Reads (sys : System) (link : Link sys) (conn_of : List ℕ → Connection) : Type 0 where
  pub end : (bytes : List ℕ) → (conn_of bytes).socket ≡ link.socket
  pub read : (bytes : List ℕ) → (conn_of bytes).read ≡ ok (take 4096 bytes)

-- The number under which the client gets the descriptor of a response.
abbrev pub number_of : (sys : System) → Link sys → Response → ℤ
number_of sys link (success (some fd)) = link.number fd
number_of sys link (success none) = pos 0
number_of sys link (denied reason) = pos 0
number_of sys link (error message) = pos 0

module _ (sys : System) (codec : Codec) (ns : NameService) (policy : Policy) (link : Link sys)
    (conn_of : List ℕ → Connection) (s₀ : sys.State) where
  -- The client's socket: what it writes is handled, and what it receives is what has arrived.
  abbrev pub proxy : Socket
  proxy = record {
    State = sys.State;
    connect = (λ _. ok s₀);
    write_all = (λ bytes s. (ok tt, (handle_client sys codec ns policy (conn_of bytes) s).1));
    recvmsg = (λ s. (link.inbox s, s));
  }

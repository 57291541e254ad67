-- ===== src/Daemon/Server/History.antt =====
-- What the clients of `main` in src/main.rs can bring about, however they are interleaved.
use bpf_rbacd.Base.{ℕ, none, some, List, [], ◌∷◌, All, ◌≡◌, ok, true}
use bpf_rbacd.Protocol.{Codec, Request, Response, success, denied, error}
use bpf_rbacd.Policy.{Policy}
use bpf_rbacd.Daemon.Groups.{NameService}
use bpf_rbacd.Daemon.System.{System}
use bpf_rbacd.Daemon.Syscall.{execute_bpf}
use bpf_rbacd.Daemon.Handler.{Connection, receive, transmit}
use bpf_rbacd.Daemon.Handler.Authority.{Authorised, Created}
use bpf_rbacd.Daemon.Server.{
  Task, connected, received, answered, finished, Event, accept, Server, is_plain, writing, run,
  Reachable, after,
}

module _ (sys : System) (codec : Codec) (ns : NameService) (policy : Policy) where
  -- A response has a descriptor only if a request of the same client that was authorised has created
  -- it.
  abbrev pub Earned : Connection → Response → Type 0
  Earned conn (success (some fd)) =
      (request : Request) × (t : sys.State) × (t' : sys.State) × Authorised ns policy conn request
      × Created sys request fd t t'
  Earned conn (success none) = Unit
  Earned conn (denied reason) = Unit
  Earned conn (error message) = Unit

  -- The bytes are those of a whole that writes to the socket have left.
  pub data Left (socket : ℕ) (whole : List ℕ) : List ℕ → Type 0 where
    all : Left socket whole whole
    less :
        {bytes : List ℕ}
        → Left socket whole bytes
        → (s : sys.State) → Left socket whole (sys.write socket bytes s).0

  -- The bytes are what is left of an encoded response that has no descriptor.
  pub record Encoded (socket : ℕ) (bytes : List ℕ) : Type 0 where
    pub response : Response
    pub whole : List ℕ
    pub plain : is_plain sys codec ns policy response ≡ true
    pub encodes : codec.serialize_response response ≡ ok whole
    pub left : Left socket whole bytes

  -- How a state came about: by the operations of authorised requests, by messages that carry
  -- encoded responses to the clients that they are for, and by the opening and closing of the
  -- clients' sockets.
  pub data History (s₀ : sys.State) : sys.State → Type 0 where
    nothing : History s₀ s₀
    executed :
        {s : sys.State}
        → History s₀ s
        → (conn : Connection) (request : Request) → Authorised ns policy conn request
        → History s₀ (execute_bpf sys request s).1
    sent :
        {s : sys.State}
        → History s₀ s
        → (conn : Connection) (response : Response) (bytes : List ℕ) → Earned conn response
        → codec.serialize_response response ≡ ok bytes
        → History s₀ (transmit sys codec ns policy conn.socket response bytes s).1
    wrote :
        {s : sys.State}
        → History s₀ s
        → (conn : Connection) (bytes : List ℕ) → Encoded conn.socket bytes
        → History s₀ (sys.write conn.socket bytes s).1
    wrote_all :
        {s : sys.State}
        → History s₀ s
        → (conn : Connection) (bytes : List ℕ) → Encoded conn.socket bytes
        → History s₀ (sys.write_all conn.socket bytes s).1
    opened :
        {s : sys.State} → History s₀ s → (conn : Connection) → History s₀ (sys.accept conn.socket s)
    closed :
        {s : sys.State} → History s₀ s → (conn : Connection) → History s₀ (sys.close conn.socket s)

  -- A task that holds a request has it from its client, with the role of the client's groups; one that
  -- holds a response with a descriptor has earned it; one that writes has an encoded response.
  abbrev pub IsHonest : Task → Type 0
  IsHonest (connected conn) = Unit
  IsHonest (received conn role request) = receive sys codec ns policy conn ≡ ok (role, some request)
  IsHonest (answered conn response) = Earned conn response
  IsHonest (writing conn bytes) = Encoded conn.socket bytes
  IsHonest (finished result) = Unit

  -- The invariant of a task and of the state.
  abbrev Sound : sys.State → Task × sys.State → Type 0
  Sound s₀ (task, s) = IsHonest task × History s₀ s

  -- The invariant of the loop.
  abbrev Invariant : sys.State → List Task → sys.State → Type 0
  Invariant s₀ tasks s = All IsHonest tasks × History s₀ s

  -- A run of events leads from a state that the loop reaches to another.
  pub run-Reachable :
      {s₀ : sys.State} (events : List Event) {server : Server sys codec ns policy}
      → Reachable sys codec ns policy s₀ server
      → Reachable sys codec ns policy s₀ (run sys codec ns policy events server)
  unfolding run
  run-Reachable [] r = r
  run-Reachable (event ∷ events) r = run-Reachable events (after r event)

-- ===== src/Proxy/Outcome.antt =====
-- What `create_map` of the client of src/protocol.rs comes to in proxy mode.
use bpf_rbacd.Base.{
  ℕ, ◌≤◌, String, Option, none, some, List, [], take, length, ◌≡◌, refl, sym, ap, ◌∙◌, subst, arith,
  Result, ok, ok_injective,
}
use bpf_rbacd.Base.Int.{ℤ}
use bpf_rbacd.Protocol.{
  Codec, RoundTrips, Request, create_map as create_map_request, Response, success, denied, error,
}
use bpf_rbacd.Protocol.Client.{Received, create_map, received_fd}
use bpf_rbacd.Protocol.Client.Proxy.{arrival}
use bpf_rbacd.Policy.{Policy}
use bpf_rbacd.Policy.Check.Grants.{IsWellFormed}
use bpf_rbacd.Daemon.Groups.{NameService}
use bpf_rbacd.Daemon.System.{System}
use bpf_rbacd.Daemon.Handler.{Connection, receive, respond, handle_client}
use bpf_rbacd.Daemon.Handler.Authority.{
  Authorised, authorise, Created, respond-success, respond-allowed, receive-parsed,
}
use bpf_rbacd.Daemon.Handler.Serves.{parse-serialize_request}
use bpf_rbacd.Proxy.{Link, Reads, proxy, number_of}
use bpf_rbacd.Proxy.Inbox.{take-length, create_map-received_fd}
use bpf_rbacd.Proxy.Arrives.{Arrives, silence, arrives, handle_client-Arrives}

-- A descriptor arrives with a success that has one, and with nothing else.
arrival-received_fd :
    (response : Response) (bytes : List ℕ) (fd fd' : ℤ)
    → received_fd (arrival response bytes fd).cmsgs none ≡ some fd'
    → (sent : ℤ) × (response ≡ success (some sent)) × (fd ≡ fd')
unfolding received_fd
arrival-received_fd (success (some sent)) bytes fd fd' h = (sent, refl, ground arith)
arrival-received_fd (success none) bytes fd fd' h = ground arith
arrival-received_fd (denied reason) bytes fd fd' h = ground arith
arrival-received_fd (error message) bytes fd fd' h = ground arith

-- Nothing has arrived that has a descriptor.
abbrev pub NoDescriptor : Result Received String → Type 0
NoDescriptor inbox = (message : Received) → inbox ≡ ok message → message.cmsgs ≡ []

-- What stands behind a descriptor that the client has: a request that was authorised, and the one
-- bpf() call that it stands for, whose descriptor the client's number is.
pub record Obtained (sys : System) (codec : Codec) (ns : NameService) (policy : Policy)
    (link : Link sys) (conn_of : List ℕ → Connection) (request : Request) (fd' : ℤ) (s : sys.State)
    : Type 0 where
  pub bytes : List ℕ
  pub fd : ℤ
  pub after_call : sys.State
  pub encoded : codec.serialize_request request ≡ ok bytes
  pub authorised : Authorised ns policy (conn_of bytes) request
  pub created : Created sys request fd s after_call
  pub number : fd' ≡ link.number fd

module _ (sys : System) (codec : Codec) (laws : RoundTrips codec) (ns : NameService)
    (policy : Policy) (link : Link sys) (conn_of : List ℕ → Connection)
    (reads : Reads sys link conn_of) (s₀ : sys.State) where
  -- The request that was received is the one that was sent, if it fits the daemon's buffer.
  same_request :
      (request received : Request) (role : Option String) (bytes : List ℕ)
      → codec.serialize_request request ≡ ok bytes
      → length bytes ≤ 4096
      → receive sys codec ns policy (conn_of bytes) ≡ ok (role, some received)
      → received ≡ request
  same_request request received role bytes encoded fits h =
      let read : (conn_of bytes).read ≡ ok bytes =
        reads.read bytes ∙ ap (λ (b : List ℕ). ok b) (take-length bytes 4096 fits) in
      let parsed =
        receive-parsed sys codec ns policy (conn_of bytes) role (some received) bytes h read in
      let expected = parse-serialize_request sys codec laws ns policy request bytes encoded in
      cc (parsed, expected)

  Arrives-Obtained :
      (request : Request) (bytes : List ℕ) (message : Received) (fd' : ℤ) (s s' : sys.State)
      → IsWellFormed policy
      → NoDescriptor (link.inbox s)
      → codec.serialize_request request ≡ ok bytes
      → length bytes ≤ 4096
      → link.inbox s' ≡ ok message
      → received_fd message.cmsgs none ≡ some fd'
      → Arrives sys codec ns policy link (conn_of bytes) s s'
      → Obtained sys codec ns policy link conn_of request fd' s
  unfolding received_fd
  Arrives-Obtained request' bytes message fd' s s' w empty encoded fits there found
        (silence quiet) =
      let bare = empty message (sym quiet ∙ there) in absurd (cc (rw bare at found))
  Arrives-Obtained request' bytes message fd' s s' w empty encoded fits there found
        (arrives role request response answer u received answered serialized sent) =
      let number' = number_of sys link response in
      let same_message : arrival response (take 4096 answer) number' ≡ message =
        ok_injective (arrival response (take 4096 answer) number') message (sym sent ∙ there) in
      let (fd, is_success, number) =
        arrival-received_fd response (take 4096 answer) number' fd'
          (ap (λ (m : Received). received_fd m.cmsgs none) same_message ∙ found) in
      let done : respond sys codec ns policy role request s ≡ (success (some fd), u) =
        answered ∙ ap (λ (r : Response). (r, u)) is_success in
      let (role_name, named, allowed) =
        respond-allowed sys codec ns policy role request fd s u done in
      let same = same_request request' request role bytes encoded fits received in
      let authorised =
        authorise sys codec ns policy (conn_of bytes) role_name request w
          (received ∙ ap (λ (r : Option String). ok (r, some request)) named) allowed in
      record {
        bytes = bytes;
        fd = fd;
        after_call = u;
        encoded = encoded;
        authorised =
            subst (λ (r : Request). Authorised ns policy (conn_of bytes) r) same authorised;
        created =
            subst (λ (r : Request). Created sys r fd s u) same
              (respond-success sys codec ns policy role request fd s u done);
        number = sym number ∙ ap (λ (r : Response). number_of sys link r) is_success;
      }

  -- A client that gets a descriptor from `create_map` is authorised for its request: its user is
  -- the one of SO_PEERCRED, a role of the policy shares a group with that user, and the policy
  -- grants that role the request. The descriptor is the one of the bpf() call that the request
  -- stands for. The request fits the daemon's buffer, no descriptor had arrived at the client
  -- before, and the policy's maps are maps.
  pub create_map-Obtained :
      (map_type name : String) (key_size value_size max_entries : ℕ) (fd' : ℤ) (s s' : sys.State)
      → IsWellFormed policy
      → NoDescriptor (link.inbox s)
      → ((bytes : List ℕ)
          → codec.serialize_request
              (create_map_request map_type name key_size value_size max_entries)
            ≡ ok bytes
          → length bytes ≤ 4096)
      → create_map codec
          (proxy sys codec ns policy link conn_of s₀)
          map_type
          name
          key_size
          value_size
          max_entries
          s
        ≡ (ok fd', s')
      → Obtained sys codec ns policy link conn_of
          (create_map_request map_type name key_size value_size max_entries)
          fd'
          s
  create_map-Obtained t name ks vs me fd' s s' w empty fits h =
      let (bytes, encoded, message, there, found) =
        create_map-received_fd sys codec laws ns policy link conn_of s₀ t name ks vs me fd' s s'
          h in
      Arrives-Obtained (create_map_request t name ks vs me) bytes message fd' s
        (handle_client sys codec ns policy (conn_of bytes) s).1 w empty encoded (fits bytes encoded)
        there found
        (handle_client-Arrives sys codec ns policy link (conn_of bytes) s (reads.end bytes))

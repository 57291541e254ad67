-- ===== src/Daemon/Handler/Serves.antt =====
-- What `handle_client` of src/main.rs does for a client that asks for a map it may have.
use bpf_rbacd.Base.{ℕ, String, true, Option, some, List, [], ◌∷◌, ◌≡◌, refl, ap, ◌∙◌, ok}
use bpf_rbacd.Base.Int.{ℤ, pos}
use bpf_rbacd.Protocol.{Codec, RoundTrips, Request, Response, create_map, success}
use bpf_rbacd.Policy.{Policy}
use bpf_rbacd.Policy.Check.{is_allowed}
use bpf_rbacd.Policy.Roles.{get_role_for_groups}
use bpf_rbacd.Daemon.Groups.{NameService, get_user_groups}
use bpf_rbacd.Daemon.System.{System}
use bpf_rbacd.Daemon.Syscall.{
  map_type_num, map_attr, as_raw_fd, check_fd, create_bpf_map, execute_bpf,
}
use bpf_rbacd.Daemon.Handler.{
  Connection, parse, receive, respond, reply, transmit, serve, handle_client,
}

-- The socket gives all that the handler asks of it.
pub record Delivers (conn : Connection) (uid : ℕ) (bytes : List ℕ) : Type 0 where
  pub std : conn.into_std ≡ ok tt
  pub peer : conn.peer_uid ≡ ok uid
  pub nonblocking : conn.set_nonblocking ≡ ok tt
  pub tokio : conn.from_std ≡ ok tt
  pub sent : conn.read ≡ ok bytes

module _ (sys : System) (codec : Codec) (laws : RoundTrips codec) (ns : NameService)
    (policy : Policy) where
  pub parse-serialize_request :
      (request : Request) (bytes : List ℕ)
      → codec.serialize_request request ≡ ok bytes
      → parse sys codec ns policy bytes ≡ ok (some request)
  unfolding parse
  parse-serialize_request request [] e = absurd (laws.tagged request e)
  parse-serialize_request request (b ∷ bytes) e = rw (laws.requests request (b ∷ bytes) e)

  pub receive-serialize_request :
      (conn : Connection) (uid : ℕ) (groups : List String) (request : Request) (bytes : List ℕ)
      → Delivers conn uid bytes
      → get_user_groups ns uid ≡ ok groups
      → codec.serialize_request request ≡ ok bytes
      → receive sys codec ns policy conn ≡ ok (get_role_for_groups policy groups, some request)
  unfolding receive
  receive-serialize_request conn uid groups request bytes d user e =
      rw (
        d.std,
        d.peer,
        user,
        d.nonblocking,
        d.tokio,
        d.sent,
        parse-serialize_request request bytes e,
      )

  execute_bpf-create_map :
      (map_type name : String) (key_size value_size max_entries num n : ℕ) (s s' : sys.State)
      → map_type_num map_type ≡ some num
      → sys.bpf 0 (map_attr num name key_size value_size max_entries) s ≡ (pos n, s')
      → execute_bpf sys (create_map map_type name key_size value_size max_entries) s
        ≡ (ok (as_raw_fd (pos n)), s')
  unfolding execute_bpf
  execute_bpf-create_map t name ks vs me num n s s' supported result =
      rw (supported, create_bpf_map, result, check_fd) refl

  respond-execute_bpf :
      (role_name : String) (request : Request) (fd : ℤ) (s s' : sys.State)
      → is_allowed policy role_name request ≡ true
      → execute_bpf sys request s ≡ (ok fd, s')
      → respond sys codec ns policy (some role_name) request s ≡ (success (some fd), s')
  unfolding respond
  respond-execute_bpf role request fd s s' allowed done = rw (allowed, done) refl

  serve-respond :
      (socket : ℕ) (role : Option String) (request : Request) (fd : ℤ) (answer : List ℕ)
      (s s' : sys.State)
      → respond sys codec ns policy role request s ≡ (success (some fd), s')
      → codec.serialize_response (success (some fd)) ≡ ok answer
      → serve sys codec ns policy socket (role, some request) s ≡ sys.sendmsg socket answer fd s'
  unfolding serve transmit
  serve-respond socket role request fd answer s s' answered encoded =
      ap (λ (r : Response × sys.State). reply sys codec ns policy socket r.0 r.1) answered
      ∙ rw (encoded, reply) refl

  -- Where the client's bytes are those of a request to create a map of a supported type, the user's
  -- groups give a role that is allowed it, and the bpf() call returns a number that is not negative,
  -- the handler sends that descriptor with the bytes of the success that names it.
  pub handle_client_creates :
      (conn : Connection) (uid : ℕ) (groups : List String) (role_name : String)
      (map_type name : String) (key_size value_size max_entries num n : ℕ) (bytes answer : List ℕ)
      (s s' : sys.State)
      → Delivers conn uid bytes
      → get_user_groups ns uid ≡ ok groups
      → get_role_for_groups policy groups ≡ some role_name
      → codec.serialize_request (create_map map_type name key_size value_size max_entries)
        ≡ ok bytes
      → is_allowed policy role_name (create_map map_type name key_size value_size max_entries)
        ≡ true
      → map_type_num map_type ≡ some num
      → sys.bpf 0 (map_attr num name key_size value_size max_entries) s ≡ (pos n, s')
      → codec.serialize_response (success (some (as_raw_fd (pos n)))) ≡ ok answer
      → handle_client sys codec ns policy conn s
        ≡ sys.sendmsg conn.socket answer (as_raw_fd (pos n)) s'
  unfolding handle_client
  handle_client_creates conn uid groups role t name ks vs me num n bytes answer s s' d user resolved
        asked allowed supported result encoded =
      let request = create_map t name ks vs me in
      let fd = as_raw_fd (pos n) in
      let received =
        rw resolved at (receive-serialize_request conn uid groups request bytes d user asked) in
      let done = execute_bpf-create_map t name ks vs me num n s s' supported result in
      rw (received, handle_client)
        (serve-respond conn.socket (some role) request fd answer s s'
          (respond-execute_bpf role request fd s s' allowed done) encoded)

-- ===== src/Proxy/Served.antt =====
-- When `create_map` of the client of src/protocol.rs, in proxy mode, gets its map, and when it is
-- denied one.
use bpf_rbacd.Base.{
  ℕ, String, ◌<>◌, true, false, some, List, length, ◌≤◌, ◌≡◌, refl, ap, ◌∙◌, Result, ok, err,
}
use bpf_rbacd.Base.Int.{pos}
use bpf_rbacd.Protocol.{
  Codec, RoundTrips, create_map as create_map_request, Response, success, denied,
}
use bpf_rbacd.Protocol.Client.{create_map}
use bpf_rbacd.Protocol.Client.Proxy.{verdict}
use bpf_rbacd.Policy.{Policy}
use bpf_rbacd.Policy.Check.{is_allowed}
use bpf_rbacd.Policy.Roles.{get_role_for_groups}
use bpf_rbacd.Daemon.Groups.{NameService, get_user_groups}
use bpf_rbacd.Daemon.System.{System}
use bpf_rbacd.Daemon.Syscall.{map_type_num, map_attr, as_raw_fd}
use bpf_rbacd.Daemon.Handler.{Connection, transmit, reply, handle_client}
use bpf_rbacd.Daemon.Handler.Authority.{allowed_for, denial, handle_client_denied}
use bpf_rbacd.Daemon.Handler.Serves.{Delivers, receive-serialize_request, handle_client_creates}
use bpf_rbacd.Proxy.{Link, Reads, proxy, number_of}
use bpf_rbacd.Proxy.Arrives.{transmit_arrives}
use bpf_rbacd.Proxy.Inbox.{create_map-arrival}

module _ (sys : System) (codec : Codec) (laws : RoundTrips codec) (ns : NameService)
    (policy : Policy) (link : Link sys) (conn_of : List ℕ → Connection)
    (reads : Reads sys link conn_of) (s₀ : sys.State) where
  -- The client's result is its verdict on the response whose message is sent.
  create_map-transmit :
      (map_type name : String) (key_size value_size max_entries : ℕ) (bytes answer : List ℕ)
      (response : Response) (s t s' : sys.State)
      → codec.serialize_request (create_map_request map_type name key_size value_size max_entries)
        ≡ ok bytes
      → codec.serialize_response response ≡ ok answer
      → length answer ≤ 4096
      → handle_client sys codec ns policy (conn_of bytes) s
        ≡ transmit sys codec ns policy link.socket response answer t
      → transmit sys codec ns policy link.socket response answer t ≡ (ok tt, s')
      → create_map codec
          (proxy sys codec ns policy link conn_of s₀)
          map_type
          name
          key_size
          value_size
          max_entries
          s
        ≡ (verdict response (number_of sys link response), s')
  create_map-transmit t name ks vs me bytes answer response s u s' asked answered fits handled
        sent =
      let after : (handle_client sys codec ns policy (conn_of bytes) s).1 ≡ s' =
        ap (λ (r : Result (Unit {0}) String × sys.State). r.1) (handled ∙ sent) in
      let there = transmit_arrives sys codec ns policy link response answer u s' sent in
      create_map-arrival sys codec laws ns policy link conn_of s₀ t name ks vs me bytes answer
        response s asked answered fits (ap (λ (w : sys.State). link.inbox w) after ∙ there)
      ∙ ap (λ (w : sys.State). (verdict response (number_of sys link response), w)) after

  -- A client whose groups give a role that is allowed its request to create a map of a supported
  -- type gets, from its call of `create_map`, its own number of the descriptor that the bpf() call
  -- returned, if that call returns a number that is not negative and the message, of at most 4096
  -- bytes, is sent.
  pub create_map_granted :
      (map_type name : String) (key_size value_size max_entries uid num n : ℕ)
      (groups : List String) (role_name : String) (bytes answer : List ℕ) (s s' s'' : sys.State)
      → Delivers (conn_of bytes) uid bytes
      → get_user_groups ns uid ≡ ok groups
      → get_role_for_groups policy groups ≡ some role_name
      → codec.serialize_request (create_map_request map_type name key_size value_size max_entries)
        ≡ ok bytes
      → is_allowed policy role_name
          (create_map_request map_type name key_size value_size max_entries)
        ≡ true
      → map_type_num map_type ≡ some num
      → sys.bpf 0 (map_attr num name key_size value_size max_entries) s ≡ (pos n, s')
      → codec.serialize_response (success (some (as_raw_fd (pos n)))) ≡ ok answer
      → length answer ≤ 4096
      → sys.sendmsg link.socket answer (as_raw_fd (pos n)) s' ≡ (ok tt, s'')
      → create_map codec
          (proxy sys codec ns policy link conn_of s₀)
          map_type
          name
          key_size
          value_size
          max_entries
          s
        ≡ (ok (link.number (as_raw_fd (pos n))), s'')
  unfolding transmit
  create_map_granted t name ks vs me uid num n groups role bytes answer s s' s'' d user resolved
        asked allowed supported called answered fits sent =
      create_map-transmit t name ks vs me bytes answer (success (some (as_raw_fd (pos n)))) s s' s''
        asked answered fits
        (handle_client_creates sys codec laws ns policy (conn_of bytes) uid groups role t name ks vs
            me num n bytes answer s s' d user resolved asked allowed supported called answered
          ∙ ap (λ (k : ℕ). sys.sendmsg k answer (as_raw_fd (pos n)) s') (reads.end bytes))
        sent

  reply-transmit :
      (response : Response) (answer : List ℕ) (s : sys.State)
      → codec.serialize_response response ≡ ok answer
      → reply sys codec ns policy link.socket response s
        ≡ transmit sys codec ns policy link.socket response answer s
  unfolding reply
  reply-transmit response answer s answered = rw (answered, reply) refl

  -- A client whose groups give no role, or one that is not allowed its request to create a map,
  -- gets, from its call of `create_map`, an error with the reason of the denial, if the message, of
  -- at most 4096 bytes, is written. The state is the one that the writing leaves: no bpf() call is
  -- made.
  pub create_map_denied :
      (map_type name : String) (key_size value_size max_entries uid : ℕ) (groups : List String)
      (bytes answer : List ℕ) (s s' : sys.State)
      → Delivers (conn_of bytes) uid bytes
      → get_user_groups ns uid ≡ ok groups
      → codec.serialize_request (create_map_request map_type name key_size value_size max_entries)
        ≡ ok bytes
      → allowed_for policy
          (get_role_for_groups policy groups)
          (create_map_request map_type name key_size value_size max_entries)
        ≡ false
      → codec.serialize_response (
          denied (
            denial sys codec ns policy
              (get_role_for_groups policy groups)
              (create_map_request map_type name key_size value_size max_entries)))
        ≡ ok answer
      → length answer ≤ 4096
      → sys.write_all link.socket answer s ≡ (ok tt, s')
      → create_map codec
          (proxy sys codec ns policy link conn_of s₀)
          map_type
          name
          key_size
          value_size
          max_entries
          s
        ≡ (
          err (
              "Denied: "
              <> denial sys codec ns policy
                  (get_role_for_groups policy groups)
                  (create_map_request map_type name key_size value_size max_entries)),
          s',
        )
  unfolding transmit
  create_map_denied t name ks vs me uid groups bytes answer s s' d user asked refused answered fits
        sent =
      let request = create_map_request t name ks vs me in
      let role = get_role_for_groups policy groups in
      let response = denied (denial sys codec ns policy role request) in
      let received =
        receive-serialize_request sys codec laws ns policy (conn_of bytes) uid groups request bytes
          d user asked in
      create_map-transmit t name ks vs me bytes answer response s s s' asked answered fits
        (handle_client_denied sys codec ns policy (conn_of bytes) role request s received refused
          ∙ ap (λ (k : ℕ). reply sys codec ns policy k response s) (reads.end bytes)
          ∙ reply-transmit response answer s answered)
        sent

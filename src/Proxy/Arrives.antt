-- ===== src/Proxy/Arrives.antt =====
-- What arrives at the client once its request is handled.
use bpf_rbacd.Base.{
  subst, sym, ℕ, String, Option, none, some, List, take, ◌≡◌, refl, ap, ◌∙◌, inl, inr, Bool-cases,
  Option-cases, Result-cases, ◌⊎◌, Result, ok, err,
}
use bpf_rbacd.Base.Effects.{outcome-cases}
use bpf_rbacd.Base.Int.{ℤ, pos, negsuc}
use bpf_rbacd.Protocol.{
  Codec, Request, load_program, create_map, attach, Response, success, denied, error,
}
use bpf_rbacd.Protocol.Client.Proxy.{arrival}
use bpf_rbacd.Policy.{Policy}
use bpf_rbacd.Policy.Check.{is_allowed}
use bpf_rbacd.Daemon.Groups.{NameService}
use bpf_rbacd.Daemon.System.{System}
use bpf_rbacd.Daemon.Syscall.{map_type_num, map_attr, check_fd, create_bpf_map, execute_bpf}
use bpf_rbacd.Daemon.Handler.{Connection, receive, respond, transmit, reply, serve, handle_client}
use bpf_rbacd.Proxy.{Link, number_of}

module _ (sys : System) (codec : Codec) (ns : NameService) (policy : Policy) (link : Link sys) where
  check_fd_keeps : (r : ℤ × sys.State) → (check_fd sys r).1 ≡ r.1
  unfolding check_fd
  check_fd_keeps (pos n, s) = refl
  check_fd_keeps (negsuc n, s) = refl

  execute_bpf_keeps :
      (request : Request) (s : sys.State) → link.inbox (execute_bpf sys request s).1 ≡ link.inbox s
  unfolding execute_bpf
  execute_bpf_keeps (load_program _ _ _) s = refl
  execute_bpf_keeps (attach _ _ _) s = refl
  execute_bpf_keeps (create_map t name ks vs me) s = elim (Option-cases (map_type_num t)) [
    | inl unsupported ↦ rw (unsupported, create_bpf_map) refl
    | inr (num, supported) ↦
        rw (supported, create_bpf_map)
          (ap (λ (u : sys.State). link.inbox u)
              (check_fd_keeps (sys.bpf 0 (map_attr num name ks vs me) s))
            ∙ link.bpf_keeps 0 (map_attr num name ks vs me) s)
  ]

  respond_keeps :
      (role : Option String) (request : Request) (s : sys.State)
      → link.inbox (respond sys codec ns policy role request s).1 ≡ link.inbox s
  unfolding respond
  respond_keeps none request s = refl
  respond_keeps (some name) request s = elim (Bool-cases (is_allowed policy name request)) [
    | inl allowed ↦ rw (allowed, respond) (execute_bpf_keeps request s)
    | inr refused ↦ rw (refused, respond) refl
  ]

  -- After a client is handled: nothing has arrived, or the response to its request has.
  pub data Arrives (conn : Connection) (s s' : sys.State) : Type 0 where
    silence : link.inbox s' ≡ link.inbox s → Arrives conn s s'
    arrives :
        (role : Option String) (request : Request) (response : Response) (bytes : List ℕ)
        (t : sys.State)
        → receive sys codec ns policy conn ≡ ok (role, some request)
        → respond sys codec ns policy role request s ≡ (response, t)
        → codec.serialize_response response ≡ ok bytes
        → link.inbox s' ≡ ok (arrival response (take 4096 bytes) (number_of sys link response))
        → Arrives conn s s'

  -- A message that is sent arrives.
  pub transmit_arrives :
      (response : Response) (bytes : List ℕ) (s s' : sys.State)
      → transmit sys codec ns policy link.socket response bytes s ≡ (ok tt, s')
      → link.inbox s' ≡ ok (arrival response (take 4096 bytes) (number_of sys link response))
  unfolding transmit
  transmit_arrives (success (some fd)) bytes s s' h = link.sendmsg_delivers bytes fd s s' h
  transmit_arrives (success none) bytes s s' h = link.write_all_delivers bytes s s' h
  transmit_arrives (denied reason) bytes s s' h = link.write_all_delivers bytes s s' h
  transmit_arrives (error message) bytes s s' h = link.write_all_delivers bytes s s' h

  transmit_fails :
      (response : Response) (bytes : List ℕ) (e : String) (s s' : sys.State)
      → transmit sys codec ns policy link.socket response bytes s ≡ (err e, s')
      → link.inbox s' ≡ link.inbox s
  unfolding transmit
  transmit_fails (success (some fd)) bytes e s s' h = link.sendmsg_fails bytes fd e s s' h
  transmit_fails (success none) bytes e s s' h = link.write_all_fails bytes e s s' h
  transmit_fails (denied reason) bytes e s s' h = link.write_all_fails bytes e s s' h
  transmit_fails (error message) bytes e s s' h = link.write_all_fails bytes e s s' h

  -- The state that a call with its result leaves.
  state_of :
      (r : Result (Unit {0}) String × sys.State) (result : Result (Unit {0}) String) (t : sys.State)
      → r ≡ (result, t)
      → link.inbox r.1 ≡ link.inbox t
  state_of r result t e = ap (λ (u : Result (Unit {0}) String × sys.State). link.inbox u.1) e

  reply_arrives :
      (response : Response) (s : sys.State)
      → (link.inbox (reply sys codec ns policy link.socket response s).1 ≡ link.inbox s)
        ⊎ ((bytes : List ℕ) × (codec.serialize_response response ≡ ok bytes)
            × (link.inbox (reply sys codec ns policy link.socket response s).1
                ≡ ok (arrival response (take 4096 bytes) (number_of sys link response))))
  unfolding reply
  reply_arrives response s = elim (Result-cases (codec.serialize_response response)) [
    | inr (e, failed) ↦ inl (rw (failed, reply) refl)
    | inl (bytes, encoded) ↦
        elim (outcome-cases (transmit sys codec ns policy link.socket response bytes s)) [
          | inl (_, t, done) ↦ inr (
            bytes,
            encoded,
            rw (encoded, reply)
                (state_of _ (ok tt) t done ∙ transmit_arrives response bytes s t done),
          )
          | inr (e, t, failed) ↦ inl (
              rw (encoded, reply)
                (state_of _ (err e) t failed ∙ transmit_fails response bytes e s t failed))
        ]
  ]

  serve-Arrives :
      (conn : Connection) (role : Option String) (request : Option Request) (s : sys.State)
      → receive sys codec ns policy conn ≡ ok (role, request)
      → Arrives conn s (serve sys codec ns policy link.socket (role, request) s).1
  unfolding serve
  serve-Arrives conn role none s received = silence refl
  serve-Arrives conn role (some request) s received =
      let (response, t) = respond sys codec ns policy role request s in
      elim (reply_arrives response t) [
        | inl quiet ↦ silence (quiet ∙ respond_keeps role request s)
        | inr (bytes, encoded, there) ↦
            arrives role request response bytes t received refl encoded there
      ]

  pub handle_client-Arrives :
      (conn : Connection) (s : sys.State)
      → conn.socket ≡ link.socket
      → Arrives conn s (handle_client sys codec ns policy conn s).1
  unfolding handle_client
  handle_client-Arrives conn s same = elim (Result-cases (receive sys codec ns policy conn)) [
    | inl ((role, request), received) ↦
        rw (received, handle_client)
          (subst (λ (k : ℕ). Arrives conn s (serve sys codec ns policy k (role, request) s).1)
            (sym same) (serve-Arrives conn role request s received))
    | inr (e, failed) ↦ rw (failed, handle_client) (silence refl)
  ]

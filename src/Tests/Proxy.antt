-- ===== src/Tests/Proxy.antt =====
-- The client of src/protocol.rs and the daemon of src/main.rs over one small system.
use bpf_rbacd.Base.{
  none, ℕ, ◌≤◌, String, ok_injective, subst, List, [], ◌∷◌, length, take, ◌≡◌, refl, sym, ap, ◌∙◌,
  arith, Result, ok, err, string_eq, nat_eq, get,
}
use bpf_rbacd.Base.Int.{pos}
use bpf_rbacd.Protocol.Client.{
  scm_rights, Received, create_map, await_response, recv_response_with_fd, decode_received, decode,
  received_fd, finish, map_result,
}
use bpf_rbacd.Policy.Check.{is_allowed}
use bpf_rbacd.Policy.Roles.{get_role_for_groups}
use bpf_rbacd.Daemon.Groups.{has_nul, get_user_groups}
use bpf_rbacd.Daemon.System.{System}
use bpf_rbacd.Daemon.Syscall.{map_attr, map_type_num, execute_bpf, create_bpf_map, check_fd}
use bpf_rbacd.Daemon.Handler.{
  Connection, handle_client, serve, parse, receive, respond, reply, transmit,
}
use bpf_rbacd.Daemon.Handler.Authority.{denial}
use bpf_rbacd.Daemon.Handler.Serves.{Delivers}
use bpf_rbacd.Proxy.{Link, Reads, proxy}
use bpf_rbacd.Proxy.Outcome.{NoDescriptor, Obtained, create_map-Obtained}
use bpf_rbacd.Cli.{resolve_create_map_args}
use bpf_rbacd.Cli.Main.{success_fd, create_map as create_map_command, main}
use bpf_rbacd.Base.Format.{parse_u32}
use bpf_rbacd.Proxy.CommandLine.{main_granted}
use bpf_rbacd.Proxy.Served.{create_map_denied}
use bpf_rbacd.Tests.Sample.{sample}
use bpf_rbacd.Tests.Policies.{sample-IsWellFormed}
use bpf_rbacd.Tests.Machine.{codec, codec_laws, Kernel, idle, system, client, encode_request}
use bpf_rbacd.Tests.Daemon.{
  names, outsiders, hash_request, groups_of_alice, resolved_role, encoded_request, allowed_request,
  hash_supported,
}

-- The kernel, and what the client's next `recvmsg` gives.
record Wire : Type 0 where
  kernel : Kernel
  inbox : Result Received String

-- A message arrives as it is sent, a descriptor as 9.
abbrev deliver : Received → Wire → Wire
deliver message w = record w { inbox = ok message }

abbrev plain : List ℕ → Received
plain bytes = record { bytes = take 4096 bytes; cmsgs = [] }

abbrev with_fd : List ℕ → Received
with_fd bytes = record { bytes = take 4096 bytes; cmsgs = scm_rights (pos 9 ∷ []) ∷ [] }

abbrev wired : System
wired = record {
  State = Wire;
  bpf = (λ cmd attr w. let (r, k) = system.bpf cmd attr w.kernel in (r, record w { kernel = k }));
  last_os_error = (λ w. system.last_os_error w.kernel);
  write_all = (λ socket bytes w. (ok tt, deliver (plain bytes) w));
  sendmsg = (λ socket bytes fd w. (ok tt, deliver (with_fd bytes) w));
  accept = (λ socket w. record w { kernel = system.accept socket w.kernel });
  close = (λ socket w. record w { kernel = system.close socket w.kernel });
  write = (λ socket bytes w. (bytes, w));
}

sent_state :
    (s s' : Wire)
    → Path (Result (Unit {0}) String × Wire) (ok tt, s) (ok tt, s')
    → s'.inbox ≡ s.inbox
sent_state s s' h = sym (ap (λ (r : Result (Unit {0}) String × Wire). r.1.inbox) h)

not_failed :
    (s s' t : Wire) (e : String)
    → Path (Result (Unit {0}) String × Wire) (ok tt, s) (err e, s')
    → s'.inbox ≡ t.inbox
not_failed s s' t e h = cc

abbrev link : Link wired
link = record {
  socket = 1001;
  inbox = (λ w. w.inbox);
  number = (λ _. pos 9);
  sendmsg_delivers = (λ bytes fd s s' h. sent_state (deliver (with_fd bytes) s) s' h);
  write_all_delivers = (λ bytes s s' h. sent_state (deliver (plain bytes) s) s' h);
  sendmsg_fails = (λ bytes fd e s s' h. not_failed (deliver (with_fd bytes) s) s' s e h);
  write_all_fails = (λ bytes e s s' h. not_failed (deliver (plain bytes) s) s' s e h);
  bpf_keeps = (λ _ _ _. refl);
}

-- Alice's connection, as the daemon has it.
abbrev alice_asks : List ℕ → Connection
alice_asks bytes = client 1000 (take 4096 bytes)

alice-Reads : Reads wired link alice_asks
unfolding nat_eq
alice-Reads = record { end = (λ _. refl); read = (λ _. refl) }

-- The connection before the first message: a `recvmsg` would say that there is nothing.
abbrev quiet : Wire
quiet = record { kernel = idle; inbox = err "Resource temporarily unavailable" }

quiet-NoDescriptor : NoDescriptor quiet.inbox
quiet-NoDescriptor message h = cc

-- What alice writes: the request for a hash map, in bytes.
abbrev asked : List ℕ
asked = 4 ∷ 8 ∷ 16 ∷ []

alice-Delivers : Delivers (alice_asks asked) 1000 asked
alice-Delivers = record { std = refl; peer = refl; nonblocking = refl; tokio = refl; sent = refl }

abbrev called : Wire
called = record quiet { kernel = record { next = 6; open_fds = pos 5 ∷ []; sent = [] } }

map_called : wired.bpf 0 (map_attr 1 "m" 4 8 16) quiet ≡ (pos 5, called)
unfolding map_attr nat_eq
map_called = refl

abbrev answered : Wire
answered = record called {
  inbox = ok (record { bytes = 5 ∷ []; cmsgs = scm_rights (pos 9 ∷ []) ∷ [] });
}

abbrev words : List String
words = "hash" ∷ "m" ∷ "4" ∷ "8" ∷ "16" ∷ []

arguments : resolve_create_map_args none none none none none words ≡ ok ("hash", "m", 4, 8, 16)
unfolding resolve_create_map_args parse_u32 string_eq nat_eq
arguments = refl

main_granted_example :
    main codec
      (proxy wired codec names sample link alice_asks quiet)
      (create_map_command none none none none none words)
    ≡ ok (success_fd (pos 9))
main_granted_example =
    main_granted wired codec codec_laws names sample link alice_asks alice-Reads quiet none none
      none none none words "hash" "m" 4 8 16 arguments 1000 1 5 ("users" ∷ "test" ∷ []) "test" asked
      (5 ∷ []) called answered alice-Delivers groups_of_alice resolved_role encoded_request
      allowed_request hash_supported map_called refl (omega arith) refl

fits_buffer : (bytes : List ℕ) → encode_request hash_request ≡ ok bytes → length bytes ≤ 4096
fits_buffer bytes e =
    let same : asked ≡ bytes = ok_injective asked bytes (sym encoded_request ∙ e) in
    subst (λ (b : List ℕ). length b ≤ 4096) same (omega arith)

obtained_run :
    create_map codec (proxy wired codec names sample link alice_asks quiet) "hash" "m" 4 8 16 quiet
    ≡ (ok (pos 9), answered)
unfolding create_map await_response recv_response_with_fd decode_received decode received_fd finish
    map_result handle_client serve receive parse respond reply transmit execute_bpf create_bpf_map
    check_fd map_attr map_type_num is_allowed get_user_groups has_nul get_role_for_groups get
    string_eq nat_eq
obtained_run = refl

create_map-Obtained_example :
    Obtained wired codec names sample link alice_asks hash_request (pos 9) quiet
create_map-Obtained_example =
    create_map-Obtained wired codec codec_laws names sample link alice_asks alice-Reads quiet "hash"
      "m" 4 8 16 (pos 9) quiet answered sample-IsWellFormed quiet-NoDescriptor fits_buffer
      obtained_run

abbrev refused : Wire
refused = record quiet { inbox = ok (record { bytes = 0 ∷ 0 ∷ 0 ∷ []; cmsgs = [] }) }

groups_of_outsider : get_user_groups outsiders 1000 ≡ ok ("users" ∷ [])
unfolding get_user_groups has_nul nat_eq string_eq
groups_of_outsider = refl

create_map_denied_example :
    create_map codec
      (proxy wired codec outsiders sample link alice_asks quiet)
      "hash"
      "m"
      4
      8
      16
      quiet
    ≡ (err "Denied: User not in any BPF RBAC group", refused)
unfolding denial get_role_for_groups get string_eq
create_map_denied_example =
    create_map_denied wired codec codec_laws outsiders sample link alice_asks alice-Reads quiet
      "hash" "m" 4 8 16 1000 ("users" ∷ []) asked (0 ∷ 0 ∷ 0 ∷ []) quiet refused alice-Delivers
      groups_of_outsider encoded_request refl refl (omega arith) refl

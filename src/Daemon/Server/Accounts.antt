-- ===== src/Daemon/Server/Accounts.antt =====
-- The table of open descriptors over the life of the daemon of src/main.rs.
use mathlib.Core.List.{append_assoc, Perm, perm_middle, perm_append_comm}
use mathlib.Core.List.Perm
use bpf_rbacd.Base.{
  ℕ, zero, suc, String, Option, none, some, List, [], ◌∷◌, ◌++◌, ◌≡◌, refl, sym, ap, ◌∙◌, inl, inr,
  subst, Result, ok, err, Bool-cases, Option-cases, Result-cases,
}
use bpf_rbacd.Base.Int.{ℤ, pos, negsuc}
use bpf_rbacd.Protocol.{
  Codec, Request, load_program, create_map, attach, Response, success, denied, error,
}
use bpf_rbacd.Policy.{Policy}
use bpf_rbacd.Policy.Check.{is_allowed}
use bpf_rbacd.Daemon.Groups.{NameService}
use bpf_rbacd.Daemon.System.{BpfAttr, System}
use bpf_rbacd.Daemon.Syscall.{map_type_num, map_attr, check_fd, create_bpf_map, execute_bpf}
use bpf_rbacd.Daemon.Handler.{Connection, respond, reply, outcome}
use bpf_rbacd.Daemon.Handler.Descriptors.{Descriptors, reply_keeps}
use bpf_rbacd.Daemon.Server.{
  Task, connected, received, answered, finished, Event, accept, accept_error, wake, Server, advance,
  turn_at, wait, write_some, is_plain, finish, begin, writing, poll, listening, handle_event, run,
}

-- The socket of a client whose task is not at its end.
abbrev pub socket_of : Task → List ℤ
socket_of (connected conn) = pos conn.socket ∷ []
socket_of (received conn role request) = pos conn.socket ∷ []
socket_of (answered conn response) = pos conn.socket ∷ []
socket_of (writing conn bytes) = pos conn.socket ∷ []
socket_of (finished result) = []

abbrev pub sockets : List Task → List ℤ
sockets [] = []
sockets (task ∷ tasks) = socket_of task ++ sockets tasks

sockets-append :
    (conn : Connection) (tasks : List Task) (rest : List ℤ)
    → sockets (tasks ++ (connected conn ∷ [])) ++ rest ≡ sockets tasks ++ (pos conn.socket ∷ rest)
sockets-append conn [] rest = refl
sockets-append conn (task ∷ tasks) rest =
    append_assoc (socket_of task) (sockets (tasks ++ (connected conn ∷ []))) rest
    ∙ ap (λ (l : List ℤ). socket_of task ++ l) (sockets-append conn tasks rest)
    ∙ sym (append_assoc (socket_of task) (sockets tasks) (pos conn.socket ∷ rest))

Perm-exchange : (xs ys zs : List ℤ) → Perm (xs ++ (ys ++ zs)) (ys ++ (xs ++ zs))
Perm-exchange xs ys zs =
    subst (λ l. Perm l (ys ++ (xs ++ zs))) (append_assoc xs ys zs)
      (subst (λ l. Perm ((xs ++ ys) ++ zs) l) (append_assoc ys xs zs)
        (Perm.append_right zs (perm_append_comm xs ys)))

-- The descriptors that a response names.
abbrev pub fds_of : Response → List ℤ
fds_of (success (some fd)) = fd ∷ []
fds_of (success none) = []
fds_of (denied reason) = []
fds_of (error message) = []

module _ (sys : System) (codec : Codec) (ns : NameService) (policy : Policy) where
  -- The descriptors of the response that a task comes to when it goes on.
  abbrev pub granted_to : Task → sys.State → List ℤ
  granted_to (connected conn) s = []
  granted_to (received conn role request) s = fds_of (respond sys codec ns policy role request s).0
  granted_to (answered conn response) s = []
  granted_to (writing conn bytes) s = []
  granted_to (finished result) s = []

  abbrev pub granted_at : ℕ → List Task → sys.State → List ℤ
  granted_at n [] s = []
  granted_at zero (task ∷ tasks) s = granted_to task s
  granted_at (suc n) (task ∷ tasks) s = granted_at n tasks s

  abbrev pub granted_by : Event → Server sys codec ns policy → List ℤ
  granted_by (accept conn) server = []
  granted_by (accept_error e) server = []
  granted_by (wake n) server = granted_at n server.tasks server.system
  granted_by (poll n) server = []

  -- The descriptors of all responses that events lead to, the last first.
  abbrev pub granted : List Event → Server sys codec ns policy → List ℤ
  granted [] server = []
  granted (event ∷ events) server =
      granted events (handle_event sys codec ns policy event server) ++ granted_by event server

  module _ (fds : Descriptors sys) where
    check_fd-fds :
        (attr : BpfAttr) (s : sys.State) (r : ℤ × sys.State)
        → sys.bpf 0 attr s ≡ r
        → fds.open_fds (check_fd sys r).1
          ≡ fds_of (outcome sys codec ns policy (check_fd sys r).0) ++ fds.open_fds s
    unfolding check_fd
    check_fd-fds attr s (pos n, t) e = fds.bpf_opens attr s t n e
    check_fd-fds attr s (negsuc n, t) e = fds.bpf_fails attr s t n e

    execute_bpf-fds :
        (request : Request) (s : sys.State)
        → fds.open_fds (execute_bpf sys request s).1
          ≡ fds_of (outcome sys codec ns policy (execute_bpf sys request s).0) ++ fds.open_fds s
    unfolding execute_bpf
    execute_bpf-fds (load_program _ _ _) s = refl
    execute_bpf-fds (attach _ _ _) s = refl
    execute_bpf-fds (create_map t name ks vs me) s = elim (Option-cases (map_type_num t)) [
      | inl unsupported ↦ rw (unsupported, create_bpf_map) refl
      | inr (num, supported) ↦
          rw (supported, create_bpf_map) (check_fd-fds (map_attr num name ks vs me) s _ refl)
    ]

    respond-fds :
        (role : Option String) (request : Request) (s : sys.State)
        → fds.open_fds (respond sys codec ns policy role request s).1
          ≡ fds_of (respond sys codec ns policy role request s).0 ++ fds.open_fds s
    unfolding respond
    respond-fds none request s = refl
    respond-fds (some name) request s = elim (Bool-cases (is_allowed policy name request)) [
      | inl allowed ↦ rw (allowed, respond) (execute_bpf-fds request s)
      | inr refused ↦ rw (refused, respond) refl
    ]

    -- The table has the socket of the task, and these.
    abbrev Holds : List ℤ → Task × sys.State → Type 0
    Holds others (task, s) = Perm (fds.open_fds s) (socket_of task ++ others)

    begin-fds :
        (conn : Connection) (r : Result (Option String × Option Request) String) (s : sys.State)
        (others : List ℤ)
        → Perm (fds.open_fds s) (pos conn.socket ∷ others)
        → Holds others (begin sys codec ns policy conn r s)
    begin-fds conn (ok (role, none)) s others h = fds.close_drops conn.socket s others h
    begin-fds conn (ok (role, some request)) s others h = h
    begin-fds conn (err e) s others h = fds.close_drops conn.socket s others h

    finish-fds :
        (conn : Connection) (r : Result (Unit {0}) String × sys.State) (s : sys.State)
        (others : List ℤ)
        → fds.open_fds r.1 ≡ fds.open_fds s
        → Perm (fds.open_fds s) (pos conn.socket ∷ others)
        → Holds others (finish sys codec ns policy conn r)
    finish-fds conn r s others same h =
        fds.close_drops conn.socket r.1 others
          (subst (λ l. Perm l (pos conn.socket ∷ others)) (sym same) h)

    advance-fds :
        (task : Task) (s : sys.State) (others : List ℤ)
        → Holds others (task, s)
        → Holds (granted_to task s ++ others) (advance sys codec ns policy task s)
    unfolding advance
    advance-fds (connected conn) s others h = begin-fds conn _ s others h
    advance-fds (received conn role request) s others h =
        let new = granted_to (received conn role request) s in
        subst (λ l. Perm l (pos conn.socket ∷ (new ++ others))) (sym (respond-fds role request s))
          (Perm.trans (Perm.append_left new h) (perm_middle new others))
    advance-fds (answered conn response) s others h =
        finish-fds conn (reply sys codec ns policy conn.socket response s) s others
          (reply_keeps sys codec ns policy fds conn.socket response s) h
    advance-fds (writing conn bytes) s others h =
        finish-fds conn (sys.write_all conn.socket bytes s) s others
          (fds.write_all_keeps conn.socket bytes s) h
    advance-fds (finished result) s others h = h

    write_some-fds :
        (conn : Connection) (bytes : List ℕ) (s : sys.State) (others : List ℤ)
        → Perm (fds.open_fds s) (pos conn.socket ∷ others)
        → Holds others (write_some sys codec ns policy conn bytes s)
    write_some-fds conn bytes s others h =
        subst (λ l. Perm l (pos conn.socket ∷ others)) (sym (fds.write_keeps conn.socket bytes s)) h

    wait-fds :
        (task : Task) (s : sys.State) (others : List ℤ)
        → Holds others (task, s)
        → Holds others (wait sys codec ns policy task s)
    unfolding wait
    wait-fds (connected conn) s others h = h
    wait-fds (received conn role request) s others h = h
    wait-fds (answered conn response) s others h =
        elim (Result-cases (codec.serialize_response response)) [
          | inr (e, failed) ↦ rw (failed, wait) h
          | inl (bytes, encoded) ↦ elim (Bool-cases (is_plain sys codec ns policy response)) [
            | inr fd ↦ rw (encoded, wait, fd) h
            | inl plain ↦ rw (encoded, wait, plain) (write_some-fds conn bytes s others h)
          ]
        ]
    wait-fds (writing conn bytes) s others h = write_some-fds conn bytes s others h
    wait-fds (finished result) s others h = h

    -- The table has the sockets of the tasks, and these.
    abbrev AllHold : List ℤ → List Task × sys.State → Type 0
    AllHold others (tasks, s) = Perm (fds.open_fds s) (sockets tasks ++ others)

    first-fds :
        (task : Task) (tasks : List Task) (s : sys.State) (others : List ℤ)
        → AllHold others (task ∷ tasks, s)
        → AllHold (socket_of task ++ others) (tasks, s)
    first-fds task tasks s others h = Perm.trans h (
        subst (λ l. Perm l (sockets tasks ++ (socket_of task ++ others)))
          (sym (append_assoc (socket_of task) (sockets tasks) others))
          (Perm-exchange (socket_of task) (sockets tasks) others))

    last-fds :
        (task : Task) (tasks : List Task) (s : sys.State) (new others : List ℤ)
        → Perm (fds.open_fds s) (sockets tasks ++ (new ++ (socket_of task ++ others)))
        → AllHold (new ++ others) (task ∷ tasks, s)
    last-fds task tasks s new others h =
        subst (λ l. Perm (fds.open_fds s) l)
          (sym (append_assoc (socket_of task) (sockets tasks) (new ++ others)))
          (Perm.trans h (
            Perm.trans
              (Perm.append_left (sockets tasks) (Perm-exchange new (socket_of task) others))
              (Perm-exchange (sockets tasks) (socket_of task) (new ++ others))))

    turned-fds :
        (task : Task) (tasks : List Task) (s : sys.State) (new others : List ℤ)
        → Holds (new ++ (sockets tasks ++ others)) (task, s)
        → AllHold (new ++ others) (task ∷ tasks, s)
    turned-fds task tasks s new others h =
        subst (λ l. Perm (fds.open_fds s) l)
          (sym (append_assoc (socket_of task) (sockets tasks) (new ++ others)))
          (Perm.trans h
            (Perm.append_left (socket_of task) (Perm-exchange new (sockets tasks) others)))

    turn-fds :
        (task : Task) (tasks : List Task) (s : sys.State) (others : List ℤ)
        → AllHold others (task ∷ tasks, s)
        → Holds (sockets tasks ++ others) (task, s)
    turn-fds task tasks s others h =
        subst (λ l. Perm (fds.open_fds s) l) (append_assoc (socket_of task) (sockets tasks) others)
          h

    wake-fds :
        (n : ℕ) (tasks : List Task) (s : sys.State) (others : List ℤ)
        → AllHold others (tasks, s)
        → AllHold
            (granted_at n tasks s ++ others)
            (turn_at sys codec ns policy (advance sys codec ns policy) n tasks s)
    unfolding turn_at
    wake-fds n [] s others h = h
    wake-fds zero (task ∷ tasks) s others h =
        let (task', s') = advance sys codec ns policy task s in
        turned-fds task' tasks s' (granted_to task s) others
          (advance-fds task s (sockets tasks ++ others) (turn-fds task tasks s others h))
    wake-fds (suc n) (task ∷ tasks) s others h =
        let (tasks', s') = turn_at sys codec ns policy (advance sys codec ns policy) n tasks s in
        last-fds task tasks' s' (granted_at n tasks s) others
          (wake-fds n tasks s (socket_of task ++ others) (first-fds task tasks s others h))

    poll-fds :
        (n : ℕ) (tasks : List Task) (s : sys.State) (others : List ℤ)
        → AllHold others (tasks, s)
        → AllHold others (turn_at sys codec ns policy (wait sys codec ns policy) n tasks s)
    unfolding turn_at
    poll-fds n [] s others h = h
    poll-fds zero (task ∷ tasks) s others h =
        let (task', s') = wait sys codec ns policy task s in
        turned-fds task' tasks s' [] others
          (wait-fds task s (sockets tasks ++ others) (turn-fds task tasks s others h))
    poll-fds (suc n) (task ∷ tasks) s others h =
        let (tasks', s') = turn_at sys codec ns policy (wait sys codec ns policy) n tasks s in
        last-fds task tasks' s' [] others
          (poll-fds n tasks s (socket_of task ++ others) (first-fds task tasks s others h))

    handle_event-fds :
        (event : Event) (server : Server sys codec ns policy) (others : List ℤ)
        → AllHold others (server.tasks, server.system)
        → (let server' = handle_event sys codec ns policy event server in
            AllHold (granted_by event server ++ others) (server'.tasks, server'.system))
    unfolding handle_event
    handle_event-fds (accept conn) server others h =
        subst (λ l. Perm (fds.open_fds (sys.accept conn.socket server.system)) l)
          (sym (sockets-append conn server.tasks others))
          (subst (λ l. Perm l (sockets server.tasks ++ (pos conn.socket ∷ others)))
            (sym (fds.accept_opens conn.socket server.system))
            (Perm.trans (Perm.cons (pos conn.socket) h)
              (Perm.symm (perm_middle (sockets server.tasks) others))))
    handle_event-fds (accept_error e) server others h = h
    handle_event-fds (wake n) server others h = wake-fds n server.tasks server.system others h
    handle_event-fds (poll n) server others h = poll-fds n server.tasks server.system others h

    run-fds :
        (events : List Event) (server : Server sys codec ns policy) (others : List ℤ)
        → AllHold others (server.tasks, server.system)
        → (let server' = run sys codec ns policy events server in
            AllHold (granted events server ++ others) (server'.tasks, server'.system))
    unfolding run
    run-fds [] server others h = h
    run-fds (event ∷ events) server others h =
        let next = handle_event sys codec ns policy event server in
        let last = run sys codec ns policy events next in
        subst (λ l. Perm (fds.open_fds last.system) (sockets last.tasks ++ l))
          (sym (append_assoc (granted events next) (granted_by event server) others))
          (run-fds events next (granted_by event server ++ others)
            (handle_event-fds event server others h))

    -- Over any events from the start of the loop, the daemon's table of open descriptors has, besides
    -- those that it had, exactly the sockets of the clients whose tasks are not at their end and the
    -- descriptors of the responses that the clients' requests came to: a client's socket is closed at
    -- the end of its task, but the descriptor of a map that it was granted stays open.
    pub run-granted :
        (events : List Event) (s : sys.State)
        → (let server = run sys codec ns policy events (listening sys codec ns policy s) in
            Perm (fds.open_fds server.system) (
              sockets server.tasks
              ++ (granted events (listening sys codec ns policy s) ++ fds.open_fds s)))
    run-granted events s =
        run-fds events (listening sys codec ns policy s) (fds.open_fds s)
          (Perm.refl (fds.open_fds s))

-- ===== src/Daemon/Server.antt =====
-- The accept loop of `main` in src/main.rs. Each accepted client is a task of its own, which runs
-- `handle_client`; the runtime interleaves the tasks between their calls of the system.
pub mod History
pub mod Accounts
use bpf_rbacd.Base.{
  ℕ, zero, suc, String, Bool, true, false, if◌then◌else◌, Option, none, some, List, [], ◌∷◌, ◌++◌,
  Result, ok, err,
}
use bpf_rbacd.Protocol.{Codec, Request, Response, success, denied, error}
use bpf_rbacd.Policy.{Policy}
use bpf_rbacd.Daemon.Groups.{NameService}
use bpf_rbacd.Daemon.System.{System}
use bpf_rbacd.Daemon.Handler.{Connection, receive, respond, reply}

-- Where a client's task stands in `handle_client`: before its read, with its request, with its
-- response, with the bytes that `write_all` has not written yet, and at its end.
pub data Task : Type 0 where
  connected : Connection → Task
  received : Connection → (role : Option String) → Request → Task
  answered : Connection → Response → Task
  writing : Connection → List ℕ → Task
  finished : Result (Unit {0}) String → Task

-- What `accept` gives, and which task the runtime polls next: `wake` when what the task waits for is
-- ready, `poll` when it is not.
pub data Event : Type 0 where
  accept : Connection → Event
  accept_error : String → Event
  wake : ℕ → Event
  poll : ℕ → Event

module _ (sys : System) (codec : Codec) (ns : NameService) (policy : Policy) where
  pub record Server : Type 0 where
    pub tasks : List Task
    pub system : sys.State

  -- The end of a task drops its stream, which closes the client's socket.
  abbrev pub finish : Connection → Result (Unit {0}) String × sys.State → Task × sys.State
  finish conn (result, s) = (finished result, sys.close conn.socket s)

  -- The task once the request is there, or is not.
  abbrev pub begin :
      Connection → Result (Option String × Option Request) String → sys.State → Task × sys.State
  begin conn (ok (role, none)) s = finish conn (ok tt, s)
  begin conn (ok (role, some request)) s = (received conn role request, s)
  begin conn (err e) s = finish conn (err e, s)

  -- The task goes on with what it waits for.
  unfoldable pub advance : Task → sys.State → Task × sys.State
  unfolding receive respond reply
  advance (connected conn) s = begin conn (receive sys codec ns policy conn) s
  advance (received conn role request) s =
      let (response, s') = respond sys codec ns policy role request s in
      (answered conn response, s')
  advance (answered conn response) s =
      finish conn (reply sys codec ns policy conn.socket response s)
  advance (writing conn bytes) s = finish conn (sys.write_all conn.socket bytes s)
  advance (finished result) s = (finished result, s)

  -- `write_all` writes some of the bytes, and waits.
  abbrev pub write_some : Connection → List ℕ → sys.State → Task × sys.State
  write_some conn bytes s =
      let (rest, s') = sys.write conn.socket bytes s in (writing conn rest, s')

  -- The response has no descriptor, so that it goes out by `write_all`.
  abbrev pub is_plain : Response → Bool
  is_plain (success (some fd)) = false
  is_plain (success none) = true
  is_plain (denied reason) = true
  is_plain (error message) = true

  -- The task cannot go on: its `read` has nothing, or its `write_all` has written no more than some of
  -- the bytes. `sendmsg` does not wait.
  unfoldable pub wait : Task → sys.State → Task × sys.State
  wait (connected conn) s = (connected conn, s)
  wait (received conn role request) s = (received conn role request, s)
  wait (answered conn response) s = elim (codec.serialize_response response) [
    | ok bytes ↦ if is_plain response then write_some conn bytes s else (answered conn response, s)
    | err e ↦ (answered conn response, s)
  ]
  wait (writing conn bytes) s = write_some conn bytes s
  wait (finished result) s = (finished result, s)

  -- The task at an index takes its turn; nothing happens at the index of no task.
  unfoldable pub turn_at :
      (Task → sys.State → Task × sys.State) → ℕ → List Task → sys.State → List Task × sys.State
  turn_at turn n [] s = ([], s)
  turn_at turn zero (task ∷ tasks) s = let (task', s') = turn task s in (task' ∷ tasks, s')
  turn_at turn (suc n) (task ∷ tasks) s =
      let (tasks', s') = turn_at turn n tasks s in (task ∷ tasks', s')

  -- `tokio::spawn` on `Ok`, a log line on `Err`.
  unfoldable pub handle_event : Event → Server → Server
  unfolding turn_at advance wait
  handle_event (accept conn) server = record {
    tasks = server.tasks ++ (connected conn ∷ []);
    system = sys.accept conn.socket server.system;
  }
  handle_event (accept_error e) server = server
  handle_event (wake n) server =
      let (tasks, s) = turn_at advance n server.tasks server.system in
      record { tasks = tasks; system = s }
  handle_event (poll n) server =
      let (tasks, s) = turn_at wait n server.tasks server.system in
      record { tasks = tasks; system = s }

  unfoldable pub run : List Event → Server → Server
  unfolding handle_event
  run [] server = server
  run (event ∷ events) server = run events (handle_event event server)

  -- Before the first client.
  abbrev pub listening : sys.State → Server
  listening s = record { tasks = []; system = s }

  -- The states that the loop comes through, in any interleaving.
  pub data Reachable (s : sys.State) : Server → Type 0 where
    start : Reachable s (listening s)
    after :
        {server : Server}
        → Reachable s server
        → (event : Event) → Reachable s (handle_event event server)

-- ===== src/Daemon/Handler/Descriptors.antt =====
-- The descriptors that the daemon of src/main.rs holds open: no call closes the one that a request
-- has created.
use mathlib.Core.List.{Perm}
use bpf_rbacd.Base.{ℕ, String, Option, none, some, List, ◌∷◌, ◌≡◌, refl, ap, ◌∙◌, Result, ok, err}
use bpf_rbacd.Base.Int.{ℤ, pos, negsuc}
use bpf_rbacd.Protocol.{Codec, Request, Response, success, denied, error}
use bpf_rbacd.Policy.{Policy}
use bpf_rbacd.Daemon.Groups.{NameService}
use bpf_rbacd.Daemon.System.{BpfAttr, System}
use bpf_rbacd.Daemon.Syscall.{as_raw_fd}
use bpf_rbacd.Daemon.Handler.{Connection, receive, respond, transmit, reply, serve, handle_client}
use bpf_rbacd.Daemon.Handler.Authority.{Created, created, respond-success}

-- What Linux documents of the daemon's table of open descriptors: a bpf() call that creates a map
-- adds the descriptor that it returns, one that fails adds none, and sending a message, with a descriptor or without, leaves
-- the sender's table as it was; `accept` adds the client's socket, and `close` takes one descriptor of
-- that number away. The order of the table does not matter.
pub record Descriptors (sys : System) : Type 0 where
  pub open_fds : sys.State → List ℤ
  pub bpf_opens :
      (attr : BpfAttr) (s s' : sys.State) (n : ℕ)
      → sys.bpf 0 attr s ≡ (pos n, s')
      → open_fds s' ≡ as_raw_fd (pos n) ∷ open_fds s
  pub bpf_fails :
      (attr : BpfAttr) (s s' : sys.State) (n : ℕ)
      → sys.bpf 0 attr s ≡ (negsuc n, s')
      → open_fds s' ≡ open_fds s
  pub sendmsg_keeps :
      (socket : ℕ) (bytes : List ℕ) (fd : ℤ) (s : sys.State)
      → open_fds (sys.sendmsg socket bytes fd s).1 ≡ open_fds s
  pub write_all_keeps :
      (socket : ℕ) (bytes : List ℕ) (s : sys.State)
      → open_fds (sys.write_all socket bytes s).1 ≡ open_fds s
  pub write_keeps :
      (socket : ℕ) (bytes : List ℕ) (s : sys.State)
      → open_fds (sys.write socket bytes s).1 ≡ open_fds s
  pub accept_opens :
      (socket : ℕ) (s : sys.State) → open_fds (sys.accept socket s) ≡ pos socket ∷ open_fds s
  pub close_drops :
      (socket : ℕ) (s : sys.State) (others : List ℤ)
      → Perm (open_fds s) (pos socket ∷ others)
      → Perm (open_fds (sys.close socket s)) others

module _ (sys : System) (codec : Codec) (ns : NameService) (policy : Policy)
    (fds : Descriptors sys) where
  transmit_keeps :
      (socket : ℕ) (response : Response) (bytes : List ℕ) (s : sys.State)
      → fds.open_fds (transmit sys codec ns policy socket response bytes s).1 ≡ fds.open_fds s
  unfolding transmit
  transmit_keeps socket (success (some fd)) bytes s = fds.sendmsg_keeps socket bytes fd s
  transmit_keeps socket (success none) bytes s = fds.write_all_keeps socket bytes s
  transmit_keeps socket (denied reason) bytes s = fds.write_all_keeps socket bytes s
  transmit_keeps socket (error message) bytes s = fds.write_all_keeps socket bytes s

  pub reply_keeps :
      (socket : ℕ) (response : Response) (s : sys.State)
      → fds.open_fds (reply sys codec ns policy socket response s).1 ≡ fds.open_fds s
  unfolding reply
  reply_keeps socket response s = after (codec.serialize_response response)
    where
      after :
          (encoded : Result (List ℕ) String)
          → fds.open_fds
              (elim encoded as (λ _. Result (Unit {0}) String × sys.State) [
                | ok bytes ↦ transmit sys codec ns policy socket response bytes s
                | err e ↦ (err e, s)
              ]).1
            ≡ fds.open_fds s
      after (ok bytes) = transmit_keeps socket response bytes s
      after (err e) = refl

  fd_opened :
      (request : Request) (fd : ℤ) (s s' : sys.State)
      → Created sys request fd s s'
      → fds.open_fds s' ≡ fd ∷ fds.open_fds s
  fd_opened request fd s s' (created t name ks vs me num n e supported result word) =
      fds.bpf_opens _ s s' n result ∙ rw word

  -- A request that was granted a descriptor leaves it open in the daemon once the client is served:
  -- the daemon's table has grown by it, whether or not the reply was sent.
  pub handle_client_leaks :
      (conn : Connection) (role : Option String) (request : Request) (fd : ℤ) (s s' : sys.State)
      → receive sys codec ns policy conn ≡ ok (role, some request)
      → respond sys codec ns policy role request s ≡ (success (some fd), s')
      → fds.open_fds (handle_client sys codec ns policy conn s).1 ≡ fd ∷ fds.open_fds s
  unfolding handle_client serve
  handle_client_leaks conn role request fd s s' received answered =
      rw (received, handle_client)
        (ap
            (λ (r : Response × sys.State).
              fds.open_fds (reply sys codec ns policy conn.socket r.0 r.1).1)
            answered
          ∙ reply_keeps conn.socket (success (some fd)) s'
          ∙ fd_opened request fd s s'
              (respond-success sys codec ns policy role request fd s s' answered))

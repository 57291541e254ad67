-- ===== src/Tests/Machine.antt =====
-- A small system for the runs of the daemon and the client: a codec that encodes the requests and
-- responses of the tests, and a kernel that numbers descriptors.
use mathlib.Core.List.{Perm, erase, erase-cons-head}
use mathlib.Core.List.Perm
use native.Mathlib.Decide.{ℕ_discrete}
use bpf_rbacd.Base.{
  ap, subst, take, ℕ, ◌+◌, suc, String, true, false, none, some, List, [], ◌∷◌, ◌≡◌, ◌≢◌, refl,
  arith, Result, ok, err, string_eq, nat_eq, ◌==◌,
}
use bpf_rbacd.Base.Int.{ℤ, pos, negsuc}
use bpf_rbacd.Protocol.{
  Codec, RoundTrips, Request, Response, load_program, create_map, attach, success, denied, error,
}
use bpf_rbacd.Daemon.System.{BpfAttr, System}
use bpf_rbacd.Daemon.Syscall.{as_raw_fd}
use bpf_rbacd.Daemon.Handler.{Connection}
use bpf_rbacd.Daemon.Handler.Descriptors.{Descriptors}

abbrev pub no_role : String
no_role = "User not in any BPF RBAC group"

abbrev pub encode_request : Request → Result (List ℕ) String
encode_request (create_map t name ks vs me) = elim (t == "hash") [
  | true ↦ elim (name == "m") [ true ↦ ok (ks ∷ vs ∷ me ∷ []) | false ↦ err "name" ]
  | false ↦ err "type"
]
encode_request (load_program _ _ _) = err "load"
encode_request (attach _ _ _) = err "attach"

abbrev pub decode_request : List ℕ → Result Request String
decode_request (ks ∷ vs ∷ me ∷ []) = ok (create_map "hash" "m" ks vs me)
decode_request _ = err "unexpected end of file"

abbrev pub encode_response : Response → Result (List ℕ) String
encode_response (success none) = ok []
encode_response (success (some (pos n))) = ok (n ∷ [])
encode_response (success (some (negsuc n))) = ok (n ∷ 0 ∷ [])
encode_response (denied reason) = elim (reason == no_role) [
  | true ↦ ok (0 ∷ 0 ∷ 0 ∷ [])
  | false ↦ err "reason"
]
encode_response (error message) = err "message"

abbrev pub decode_response : List ℕ → Result Response String
decode_response [] = ok (success none)
decode_response (n ∷ []) = ok (success (some (pos n)))
decode_response (n ∷ _ ∷ []) = ok (success (some (negsuc n)))
decode_response _ = ok (denied no_role)

abbrev pub codec : Codec
codec = record {
  serialize_request = encode_request;
  deserialize_request = decode_request;
  serialize_response = encode_response;
  deserialize_response = decode_response;
  debug_request = λ _. "CreateMap";
}

requests_decode :
    (request : Request) (bytes : List ℕ)
    → encode_request request ≡ ok bytes
    → decode_request bytes ≡ ok request
requests_decode (create_map t name ks vs me) bytes e = ground arith
requests_decode (load_program _ _ _) bytes e = ground arith
requests_decode (attach _ _ _) bytes e = ground arith

responses_decode :
    (response : Response) (bytes : List ℕ)
    → encode_response response ≡ ok bytes
    → decode_response bytes ≡ ok response
responses_decode (success none) bytes e = ground arith
responses_decode (success (some (pos n))) bytes e = ground arith
responses_decode (success (some (negsuc n))) bytes e = ground arith
responses_decode (denied reason) bytes e = ground arith
responses_decode (error message) bytes e = ground arith

requests_tagged : (request : Request) → encode_request request ≢ ok []
requests_tagged (create_map t name ks vs me) e = ground arith
requests_tagged (load_program _ _ _) e = ground arith
requests_tagged (attach _ _ _) e = ground arith

pub codec_laws : RoundTrips codec
codec_laws = record {
  requests = requests_decode;
  responses = responses_decode;
  tagged = requests_tagged;
}

abbrev number_of : ℤ → ℕ
number_of (pos n) = n
number_of (negsuc n) = n

unfoldable pub ℤ_discrete : Discrete ℤ
unfolding ℕ_discrete
ℤ_discrete (pos m) (pos n) = elim (ℕ_discrete m n) [
  | yes same ↦ yes (ap pos same)
  | no differ ↦ no (λ e. differ (ap number_of e))
]
ℤ_discrete (negsuc m) (negsuc n) = elim (ℕ_discrete m n) [
  | yes same ↦ yes (ap negsuc same)
  | no differ ↦ no (λ e. differ (ap number_of e))
]
ℤ_discrete (pos m) (negsuc n) = no (λ e. cc)
ℤ_discrete (negsuc m) (pos n) = no (λ e. cc)

-- The next descriptor, the open ones, and what was sent, by the socket.
pub record Kernel : Type 0 where
  pub next : ℕ
  pub open_fds : List ℤ
  pub sent : List (ℕ × List ℕ)

abbrev pub idle : Kernel
idle = record { next = 5; open_fds = []; sent = [] }

abbrev pub all_but_first : List ℕ → List ℕ
all_but_first [] = []
all_but_first (b ∷ bytes) = bytes

-- A map with no entries is refused, and a write that has to wait takes one byte.
abbrev pub system : System
system = record {
  State = Kernel;
  bpf = (λ cmd attr k. elim (attr.max_entries == 0) [
    | true ↦ (negsuc 21, k)
    | false ↦ (
      pos k.next,
      record { next = suc k.next; open_fds = as_raw_fd (pos k.next) ∷ k.open_fds; sent = k.sent },
    )
  ]);
  last_os_error = (λ _. "Invalid argument (os error 22)");
  write_all = (λ socket bytes k. (ok tt, record k { sent = (socket, bytes) ∷ k.sent }));
  sendmsg = (λ socket bytes fd k. (ok tt, record k { sent = (socket, bytes) ∷ k.sent }));
  accept = (λ socket k. record k { open_fds = pos socket ∷ k.open_fds });
  close = (λ socket k. record k { open_fds = erase ℤ_discrete k.open_fds (pos socket) });
  write = (λ socket bytes k.
      (all_but_first bytes, record k { sent = (socket, take 1 bytes) ∷ k.sent }));
}

pub bpf_opens :
    (attr : BpfAttr) (k k' : Kernel) (n : ℕ)
    → system.bpf 0 attr k ≡ (pos n, k')
    → k'.open_fds ≡ as_raw_fd (pos n) ∷ k.open_fds
bpf_opens attr k k' n e = ground arith

pub bpf_fails :
    (attr : BpfAttr) (k k' : Kernel) (n : ℕ)
    → system.bpf 0 attr k ≡ (negsuc n, k')
    → k'.open_fds ≡ k.open_fds
bpf_fails attr k k' n e = ground arith

pub close_drops :
    (socket : ℕ) (k : Kernel) (others : List ℤ)
    → Perm k.open_fds (pos socket ∷ others)
    → Perm (erase ℤ_discrete k.open_fds (pos socket)) others
close_drops socket k others h =
    subst (λ l. Perm (erase ℤ_discrete k.open_fds (pos socket)) l)
      (erase-cons-head ℤ_discrete (pos socket) others) (Perm.erase ℤ_discrete (pos socket) h)

unfoldable pub system_fds : Descriptors system
system_fds = record {
  open_fds = λ k. k.open_fds;
  bpf_opens = bpf_opens;
  bpf_fails = bpf_fails;
  sendmsg_keeps = (λ _ _ _ _. refl);
  write_all_keeps = (λ _ _ _. refl);
  write_keeps = (λ _ _ _. refl);
  accept_opens = (λ _ _. refl);
  close_drops = close_drops;
}

-- A client of this user that sends these bytes, on a socket of its own.
abbrev pub client : ℕ → List ℕ → Connection
client uid bytes = record {
  socket = uid + 1;
  into_std = ok tt;
  peer_uid = ok uid;
  set_nonblocking = ok tt;
  from_std = ok tt;
  read = ok bytes;
}

-- ===== src/Proxy/Inbox.antt =====
-- What the client of src/protocol.rs makes, in proxy mode, of what has arrived.
use bpf_rbacd.Base.{
  ℕ, zero, suc, ◌≤◌, String, Option, none, some, List, [], ◌∷◌, take, length, ◌≡◌, refl, ap, ◌∙◌,
  inl, inr, arith, Result-cases, Result, ok, err,
}
use bpf_rbacd.Base.Int.{ℤ}
use bpf_rbacd.Protocol.{
  Codec, RoundTrips, create_map as create_map_request, Response, success, denied, error,
}
use bpf_rbacd.Protocol.Client.{
  Received, create_map, finish, decode, decode_received, received_fd, map_result,
}
use bpf_rbacd.Protocol.Client.Proxy.{arrival, verdict, create_map-verdict}
use bpf_rbacd.Policy.{Policy}
use bpf_rbacd.Daemon.Groups.{NameService}
use bpf_rbacd.Daemon.System.{System}
use bpf_rbacd.Daemon.Handler.{Connection, handle_client}
use bpf_rbacd.Proxy.{Link, proxy, number_of}

pub take-length : (xs : List ℕ) (n : ℕ) → length xs ≤ n → take n xs ≡ xs
take-length [] zero h = refl
take-length [] (suc n) h = refl
take-length (x ∷ xs) zero h = absurd (omega arith)
take-length (x ∷ xs) (suc n) h = ap (λ (ys : List ℕ). x ∷ ys) (take-length xs n (omega arith))

map_result-ok :
    (response : Response) (fd : Option ℤ) (fd' : ℤ)
    → map_result response fd ≡ ok fd'
    → fd ≡ some fd'
unfolding map_result
map_result-ok (success (some _)) (some fd) fd' h = ground arith
map_result-ok (success (some _)) none fd' h = ground arith
map_result-ok (success none) fd fd' h = ground arith
map_result-ok (denied reason) fd fd' h = ground arith
map_result-ok (error message) fd fd' h = ground arith

module _ (sys : System) (codec : Codec) (laws : RoundTrips codec) (ns : NameService)
    (policy : Policy) (link : Link sys) (conn_of : List ℕ → Connection) (s₀ : sys.State) where
  -- A request is written, and the state after it is handled is the one that the client receives in.
  abbrev pub handled : List ℕ → sys.State → sys.State
  handled bytes s = (handle_client sys codec ns policy (conn_of bytes) s).1

  -- With a response there, the client's result is its verdict on it.
  pub create_map-arrival :
      (map_type name : String) (key_size value_size max_entries : ℕ) (bytes answer : List ℕ)
      (response : Response) (s : sys.State)
      → codec.serialize_request (create_map_request map_type name key_size value_size max_entries)
        ≡ ok bytes
      → codec.serialize_response response ≡ ok answer
      → length answer ≤ 4096
      → link.inbox (handled bytes s)
        ≡ ok (arrival response (take 4096 answer) (number_of sys link response))
      → create_map codec
          (proxy sys codec ns policy link conn_of s₀)
          map_type
          name
          key_size
          value_size
          max_entries
          s
        ≡ (verdict response (number_of sys link response), handled bytes s)
  create_map-arrival t name ks vs me bytes answer response s encoded answered fits there =
      let whole =
        there
        ∙ ap (λ (b : List ℕ). ok (arrival response b (number_of sys link response)))
            (take-length answer 4096 fits) in
      create_map-verdict codec laws (proxy sys codec ns policy link conn_of s₀) t name ks vs me
        bytes answer response (number_of sys link response) s (handled bytes s) (handled bytes s)
        encoded refl answered (ap (λ (r : Result Received String). (r, handled bytes s)) whole)

  abbrev awaited : Result (Response × Option ℤ) String × sys.State → Result ℤ String × sys.State
  awaited (answer, s) = (finish codec (proxy sys codec ns policy link conn_of s₀) answer, s)

  decoded-fd :
      (received : Result Received String) (fd' : ℤ) (s s' : sys.State)
      → awaited (decode_received codec (proxy sys codec ns policy link conn_of s₀) (received, s))
        ≡ (ok fd', s')
      → (message : Received) × (received ≡ ok message) × (received_fd message.cmsgs none ≡ some fd')
  unfolding decode_received finish decode
  decoded-fd (err e) fd' s s' h = ground arith
  decoded-fd (ok message) fd' s s' h =
      elim (Result-cases (codec.deserialize_response message.bytes)) [
        | inl (response, decoded) ↦ (
          message,
          refl,
          map_result-ok response (received_fd message.cmsgs none) fd'
              (ap (λ (r : Result ℤ String × sys.State). r.0) (rw (decoded, decode) at h)),
        )
        | inr (e, failed) ↦ absurd (cc (rw (failed, decode) at h))
      ]

  -- With a descriptor for result, one has arrived.
  pub create_map-received_fd :
      (map_type name : String) (key_size value_size max_entries : ℕ) (fd' : ℤ) (s s' : sys.State)
      → create_map codec
          (proxy sys codec ns policy link conn_of s₀)
          map_type
          name
          key_size
          value_size
          max_entries
          s
        ≡ (ok fd', s')
      → (bytes : List ℕ) × (codec.serialize_request
            (create_map_request map_type name key_size value_size max_entries)
          ≡ ok bytes)
        × (message : Received) × (link.inbox (handled bytes s) ≡ ok message)
        × (received_fd message.cmsgs none ≡ some fd')
  unfolding create_map finish
  create_map-received_fd t name ks vs me fd' s s' h =
      elim (Result-cases (codec.serialize_request (create_map_request t name ks vs me))) [
        | inl (bytes, encoded) ↦
            let (message, there, found) =
              decoded-fd (link.inbox (handled bytes s)) fd' (handled bytes s) s'
                (rw (encoded, create_map) at h) in
            (bytes, encoded, message, there, found)
        | inr (e, failed) ↦ absurd (cc (rw (failed, create_map) at h))
      ]

-- ===== src/Protocol/Client/Proxy.antt =====
-- The client of src/protocol.rs against the daemon of src/main.rs.
use bpf_rbacd.Base.{ℕ, String, ◌<>◌, none, some, List, [], ◌∷◌, ◌≡◌, ap, Result, ok, err}
use bpf_rbacd.Base.Int.{ℤ}
use bpf_rbacd.Protocol.{
  Codec, RoundTrips, create_map as create_map_request, Response, success, denied, error,
}
use bpf_rbacd.Protocol.Client.{scm_rights, Received, Socket, decode, finish, create_map}

-- What arrives of the message that the daemon sends for a response with these bytes: a descriptor
-- sent under `SCM_RIGHTS` has a number of its own in the client.
abbrev pub arrival : Response → List ℕ → ℤ → Received
arrival (success (some fd)) bytes fd' = record { bytes = bytes; cmsgs = scm_rights (fd' ∷ []) ∷ [] }
arrival _ bytes fd' = record { bytes = bytes; cmsgs = [] }

-- What the client makes of a response.
abbrev pub verdict : Response → ℤ → Result ℤ String
verdict (success (some fd)) fd' = ok fd'
verdict (success none) fd' = err "No FD in response"
verdict (denied reason) fd' = err ("Denied: " <> reason)
verdict (error message) fd' = err ("Error: " <> message)

module _ (codec : Codec) (laws : RoundTrips codec) (socket : Socket) where
  finish-decode :
      (response : Response) (bytes : List ℕ) (fd' : ℤ)
      → codec.serialize_response response ≡ ok bytes
      → finish codec socket (decode codec socket (arrival response bytes fd'))
        ≡ verdict response fd'
  unfolding finish decode
  finish-decode (success (some fd)) bytes fd' e = rw (laws.responses _ bytes e, decode)
  finish-decode (success none) bytes fd' e = rw (laws.responses _ bytes e, decode)
  finish-decode (denied reason) bytes fd' e = rw (laws.responses _ bytes e, decode)
  finish-decode (error message) bytes fd' e = rw (laws.responses _ bytes e, decode)

  -- If the request is written and the daemon's message for a response arrives whole, the client's
  -- `create_map` returns its number of the descriptor for a success with one, and the daemon's
  -- reason or message as an error otherwise.
  pub create_map-verdict :
      (map_type name : String) (key_size value_size max_entries : ℕ) (request_bytes bytes : List ℕ)
      (response : Response) (fd' : ℤ) (s s₁ s₂ : socket.State)
      → codec.serialize_request (create_map_request map_type name key_size value_size max_entries)
        ≡ ok request_bytes
      → socket.write_all request_bytes s ≡ (ok tt, s₁)
      → codec.serialize_response response ≡ ok bytes
      → socket.recvmsg s₁ ≡ (ok (arrival response bytes fd'), s₂)
      → create_map codec socket map_type name key_size value_size max_entries s
        ≡ (verdict response fd', s₂)
  unfolding create_map
  create_map-verdict t name ks vs me rb bytes response fd' s s₁ s₂ asked sent encoded arrived =
      rw (asked, create_map, sent, arrived)
        (ap (λ (r : Result ℤ String). (r, s₂)) (finish-decode response bytes fd' encoded))

-- ===== src/Protocol/Client.antt =====
-- The client library of src/protocol.rs. The socket is a parameter.
pub mod Proxy
use bpf_rbacd.Base.{ℕ, String, ◌<>◌, Option, none, some, List, [], ◌∷◌, Result, ok, err, ok_or}
use bpf_rbacd.Base.Int.{ℤ}
use bpf_rbacd.Protocol.{
  Codec, Request, create_map as create_map_request, Response, success, denied, error,
}

-- `ControlMessageOwned`: the descriptors of one message, or another kind.
pub data ControlMessage : Type 0 where
  scm_rights : List ℤ → ControlMessage
  other : ControlMessage

-- What one `recvmsg` gives: the bytes in the buffer, and the control messages.
pub record Received : Type 0 where
  pub bytes : List ℕ
  pub cmsgs : List ControlMessage

-- `connect` is `UnixStream::connect`.
pub record Socket : Type 1 where
  pub State : Type 0
  pub connect : String → Result State String
  pub write_all : List ℕ → State → Result (Unit {0}) String × State
  pub recvmsg : State → Result Received String × State

abbrev pub socket_path : String
socket_path = "/run/bpf-rbac.sock"

-- The loop over the control messages: the first descriptor of the last that has one.
unfoldable pub received_fd : List ControlMessage → Option ℤ → Option ℤ
received_fd [] fd = fd
received_fd (scm_rights (f ∷ fds) ∷ cmsgs) fd = received_fd cmsgs (some f)
received_fd (scm_rights [] ∷ cmsgs) fd = received_fd cmsgs fd
received_fd (other ∷ cmsgs) fd = received_fd cmsgs fd

-- The `match` at the end of `create_map`.
unfoldable pub map_result : Response → Option ℤ → Result ℤ String
map_result (success (some _)) fd = ok_or fd "Expected FD but none received"
map_result (success none) fd = err "No FD in response"
map_result (denied reason) fd = err ("Denied: " <> reason)
map_result (error message) fd = err ("Error: " <> message)

-- `BpfRbacClient::connect`
unfoldable pub connect : (socket : Socket) → Result socket.State String
connect socket = socket.connect socket_path

module _ (codec : Codec) (socket : Socket) where
  unfoldable pub decode : Received → Result (Response × Option ℤ) String
  unfolding received_fd
  decode message = elim (codec.deserialize_response message.bytes) [
    | ok response ↦ ok (response, received_fd message.cmsgs none)
    | err e ↦ err e
  ]

  unfoldable pub decode_received :
      Result Received String × socket.State → Result (Response × Option ℤ) String × socket.State
  unfolding decode
  decode_received (ok message, s) = (decode message, s)
  decode_received (err e, s) = (err e, s)

  unfoldable pub recv_response_with_fd :
      socket.State → Result (Response × Option ℤ) String × socket.State
  unfolding decode_received
  recv_response_with_fd s = decode_received (socket.recvmsg s)

  unfoldable pub finish : Result (Response × Option ℤ) String → Result ℤ String
  unfolding map_result
  finish (ok (response, fd)) = map_result response fd
  finish (err e) = err e

  -- After `write_all`.
  unfoldable pub await_response :
      Result (Unit {0}) String × socket.State → Result ℤ String × socket.State
  unfolding recv_response_with_fd finish
  await_response (ok _, s) = let (answer, s') = recv_response_with_fd s in (finish answer, s')
  await_response (err e, s) = (err e, s)

  unfoldable pub create_map :
      String → String → ℕ → ℕ → ℕ → socket.State → Result ℤ String × socket.State
  unfolding await_response
  create_map map_type name key_size value_size max_entries s =
      elim (codec.serialize_request
        (create_map_request map_type name key_size value_size max_entries)) [
          | ok bytes ↦ await_response (socket.write_all bytes s)
          | err e ↦ (err e, s)
        ]

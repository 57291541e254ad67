-- ===== src/Protocol.antt =====
-- src/protocol.rs: the messages of the proxy mode.
pub mod Client
use bpf_rbacd.Base.{Result, List, ℕ, String, Option, ◌≡◌, ◌≢◌, ok, []}
use bpf_rbacd.Base.Int.{ℤ}

-- `RawFd` is an `i32`; the sizes are `u32`.
pub data Request : Type 0 where
  load_program : (prog_type object_path program_name : String) → Request
  create_map : (map_type name : String) (key_size value_size max_entries : ℕ) → Request
  attach : (attach_type : String) (prog_fd : ℤ) (target : String) → Request

pub data Response : Type 0 where
  success : (fd : Option ℤ) → Response
  denied : (reason : String) → Response
  error : (message : String) → Response

-- `bincode` on the two message types, and the derived `{:?}` of a request.
pub record Codec : Type 0 where
  pub serialize_request : Request → Result (List ℕ) String
  pub deserialize_request : List ℕ → Result Request String
  pub serialize_response : Response → Result (List ℕ) String
  pub deserialize_response : List ℕ → Result Response String
  pub debug_request : Request → String

-- What the two ends rely on: what was encoded decodes to what it was. A request has at least one
-- byte, its tag.
pub record RoundTrips (codec : Codec) : Type 0 where
  pub requests :
      (request : Request) (bytes : List ℕ)
      → codec.serialize_request request ≡ ok bytes
      → codec.deserialize_request bytes ≡ ok request
  pub responses :
      (response : Response) (bytes : List ℕ)
      → codec.serialize_response response ≡ ok bytes
      → codec.deserialize_response bytes ≡ ok response
  pub tagged : (request : Request) → codec.serialize_request request ≢ ok []

-- ===== src/Cli/Main.antt =====
-- `main` of src/bin/bpf-rbac.rs, from the parsed command on. What is printed is kept as far as it
-- tells the outcomes apart.
use bpf_rbacd.Base.{ℕ, String, Option, List, Result, ok, err}
use bpf_rbacd.Base.Int.{ℤ}
use bpf_rbacd.Protocol.{Codec}
use bpf_rbacd.Protocol.Client.{Socket, connect, create_map as client_create_map}
use bpf_rbacd.Cli.{MapArgs, resolve_create_map_args}

pub data Commands : Type 0 where
  create_map :
      (map_type name : Option String) (key_size value_size max_entries : Option ℕ)
      (positional : List String)
      → Commands
  status : Commands

pub data Printed : Type 0 where
  success_fd : ℤ → Printed
  is_running : Printed
  not_available : String → Printed

module _ (codec : Codec) (socket : Socket) where
  unfoldable pub request_map : MapArgs → Result Printed String
  unfolding connect
  request_map (map_type, name, key_size, value_size, max_entries) = elim (connect socket) [
    | err e ↦ err e
    | ok s ↦
        elim (client_create_map codec socket map_type name key_size value_size max_entries s).0 [
          | ok fd ↦ ok (success_fd fd)
          | err e ↦ err e
        ]
  ]

  unfoldable pub main : Commands → Result Printed String
  unfolding resolve_create_map_args request_map connect
  main (create_map map_type name key_size value_size max_entries positional) =
      elim (resolve_create_map_args map_type name key_size value_size max_entries positional) [
        | ok args ↦ request_map args
        | err e ↦ err e
      ]
  main status = elim (connect socket) [ ok _ ↦ ok is_running | err e ↦ ok (not_available e) ]

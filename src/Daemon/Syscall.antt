-- ===== src/Daemon/Syscall.antt =====
-- `create_bpf_map` and `execute_bpf` of src/main.rs.
pub mod Attributes
use bpf_rbacd.Base.{
  ℕ, zero, suc, ◌-◌, ◌%◌, ◌^◌, String, ◌<>◌, Option, none, some, List, [], ◌∷◌, ◌++◌, HashMap, get,
  take, length, as_bytes, string_eq, ltb, if◌then◌else◌, Result, ok, err,
}
use bpf_rbacd.Base.Int.{ℤ, pos, negsuc, is_negative}
use bpf_rbacd.Protocol.{Request, load_program, create_map, attach}
use bpf_rbacd.Daemon.System.{BpfAttr, System}

-- The arms of the `match` on the map type.
abbrev pub supported_types : List (String × ℕ)
supported_types =
    ("hash", 1) ∷ ("array", 2) ∷ ("perf_event_array", 4) ∷ ("lru_hash", 9) ∷ ("ringbuf", 27) ∷ []

unfoldable pub map_type_num : String → Option ℕ
unfolding get
map_type_num map_type = get map_type supported_types

abbrev pub zeros : ℕ → List ℕ
zeros zero = []
zeros (suc n) = 0 ∷ zeros n

-- `[0u8; 16]` with the first `len.min(15)` bytes written over.
unfoldable pub name_bytes : String → List ℕ
name_bytes name = let bytes = take 15 (as_bytes name) in bytes ++ zeros (16 - length bytes)

unfoldable pub map_attr : ℕ → String → ℕ → ℕ → ℕ → BpfAttr
unfolding name_bytes
map_attr map_type_num name key_size value_size max_entries = record {
  map_type = map_type_num;
  key_size = key_size;
  value_size = value_size;
  max_entries = max_entries;
  map_flags = 0;
  inner_map_fd = 0;
  numa_node = 0;
  map_name = name_bytes name;
  map_ifindex = 0;
  btf_fd = 0;
  btf_key_type_id = 0;
  btf_value_type_id = 0;
  btf_vmlinux_value_type_id = 0;
  map_extra = 0;
}

-- `fd as RawFd`, for an `fd` that is not negative.
abbrev low_word : ℕ → ℤ
low_word n = if ltb n (2 ^ 31) then pos n else negsuc (2 ^ 32 - 1 - n)

abbrev pub as_raw_fd : ℤ → ℤ
as_raw_fd (pos n) = low_word (n % 2 ^ 32)
as_raw_fd (negsuc n) = negsuc n

module _ (sys : System) where
  -- The end of `create_bpf_map`: a negative result is an error.
  unfoldable pub check_fd : ℤ × sys.State → Result ℤ String × sys.State
  check_fd (pos fd, s) = (ok (as_raw_fd (pos fd)), s)
  check_fd (negsuc fd, s) = (err ("BPF_MAP_CREATE failed: " <> sys.last_os_error s), s)

  unfoldable pub create_bpf_map :
      String → String → ℕ → ℕ → ℕ → sys.State → Result ℤ String × sys.State
  unfolding map_type_num map_attr check_fd
  create_bpf_map map_type name key_size value_size max_entries s = elim (map_type_num map_type) [
    | some num ↦ check_fd (sys.bpf 0 (map_attr num name key_size value_size max_entries) s)
    | none ↦ (err ("Unsupported map type: " <> map_type), s)
  ]

  unfoldable pub execute_bpf : Request → sys.State → Result ℤ String × sys.State
  unfolding create_bpf_map
  execute_bpf (create_map map_type name key_size value_size max_entries) s =
      create_bpf_map map_type name key_size value_size max_entries s
  execute_bpf (load_program _ _ _) s = (err "Program loading not implemented in demo", s)
  execute_bpf (attach _ _ _) s = (err "Attach not implemented in demo", s)

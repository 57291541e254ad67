-- ===== src/Common.antt =====
-- bpf-rbacd-common/src/lib.rs: the types that cross the eBPF map boundary, the policy flags, and
-- the kernel's enum values.
pub mod ProgTypes
pub mod MapTypes
pub mod Commands
use bpf_rbacd.Base.{ℕ}
use bpf_rbacd.Base.Bits.{shl_one, all_ones}

-- The field is a `u64`.
pub record PolicyKey : Type 0 where
  pub userns_id : ℕ

-- Every field is a `u32`; `reserved` holds the three words of `_reserved`.
pub record PolicyValue : Type 0 where
  pub allowed_cmds : ℕ
  pub allowed_prog_types : ℕ
  pub allowed_map_types : ℕ
  pub allowed_attach_types : ℕ
  pub flags : ℕ
  pub reserved : ℕ × ℕ × ℕ

abbrev pub empty : PolicyValue
empty = record {
  allowed_cmds = 0;
  allowed_prog_types = 0;
  allowed_map_types = 0;
  allowed_attach_types = 0;
  flags = 0;
  reserved = (0, 0, 0);
}

abbrev pub allow_all : PolicyValue
allow_all = record {
  allowed_cmds = all_ones;
  allowed_prog_types = all_ones;
  allowed_map_types = all_ones;
  allowed_attach_types = all_ones;
  flags = 0;
  reserved = (0, 0, 0);
}

abbrev pub policy_flag_allow_all : ℕ
policy_flag_allow_all = shl_one 0

abbrev pub policy_flag_deny_all : ℕ
policy_flag_deny_all = shl_one 1

abbrev pub max_policy_entries : ℕ
max_policy_entries = 1024

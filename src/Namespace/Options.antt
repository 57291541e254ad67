-- ===== src/Namespace/Options.antt =====
-- `DelegationOpts` of src/namespace.rs.
pub mod Reader
pub mod RoundTrip
use bpf_rbacd.Base.{ℕ, String, ◌<>◌}
use bpf_rbacd.Base.Bits.{all_ones}
use bpf_rbacd.Base.Format.{hex}

-- Each field is a `u32`.
pub record DelegationOpts : Type 0 where
  pub delegate_cmds : ℕ
  pub delegate_progs : ℕ
  pub delegate_maps : ℕ
  pub delegate_attachs : ℕ

abbrev pub allow_all : DelegationOpts
allow_all = record {
  delegate_cmds = all_ones;
  delegate_progs = all_ones;
  delegate_maps = all_ones;
  delegate_attachs = all_ones;
}

abbrev pub from_bitmaps : ℕ → ℕ → ℕ → ℕ → DelegationOpts
from_bitmaps cmds progs maps attachs = record {
  delegate_cmds = cmds;
  delegate_progs = progs;
  delegate_maps = maps;
  delegate_attachs = attachs;
}

unfoldable pub to_mount_data : DelegationOpts → String
unfolding hex
to_mount_data opts =
    "delegate_cmds="
    <> hex opts.delegate_cmds
    <> ",delegate_progs="
    <> hex opts.delegate_progs
    <> ",delegate_maps="
    <> hex opts.delegate_maps
    <> ",delegate_attachs="
    <> hex opts.delegate_attachs

-- ===== src/Common/Commands.antt =====
-- `commands` of bpf-rbacd-common/src/lib.rs: the kernel's `BPF_*` command values.
use bpf_rbacd.Base.{ℕ}

abbrev pub map_create : ℕ
map_create = 0

abbrev pub map_lookup_elem : ℕ
map_lookup_elem = 1

abbrev pub map_update_elem : ℕ
map_update_elem = 2

abbrev pub map_delete_elem : ℕ
map_delete_elem = 3

abbrev pub map_get_next_key : ℕ
map_get_next_key = 4

abbrev pub prog_load : ℕ
prog_load = 5

abbrev pub obj_pin : ℕ
obj_pin = 6

abbrev pub obj_get : ℕ
obj_get = 7

abbrev pub prog_attach : ℕ
prog_attach = 8

abbrev pub prog_detach : ℕ
prog_detach = 9

abbrev pub prog_test_run : ℕ
prog_test_run = 10

abbrev pub obj_get_info_by_fd : ℕ
obj_get_info_by_fd = 15

abbrev pub btf_load : ℕ
btf_load = 18

abbrev pub link_create : ℕ
link_create = 28

abbrev pub link_update : ℕ
link_update = 29

abbrev pub token_create : ℕ
token_create = 33

-- ===== src/Common/MapTypes.antt =====
-- `map_types` of bpf-rbacd-common/src/lib.rs: the kernel's `BPF_MAP_TYPE_*` values.
use bpf_rbacd.Base.{ℕ}

abbrev pub hash : ℕ
hash = 1

abbrev pub array : ℕ
array = 2

abbrev pub prog_array : ℕ
prog_array = 3

abbrev pub perf_event_array : ℕ
perf_event_array = 4

abbrev pub percpu_hash : ℕ
percpu_hash = 5

abbrev pub percpu_array : ℕ
percpu_array = 6

abbrev pub stack_trace : ℕ
stack_trace = 7

abbrev pub cgroup_array : ℕ
cgroup_array = 8

abbrev pub lru_hash : ℕ
lru_hash = 9

abbrev pub lru_percpu_hash : ℕ
lru_percpu_hash = 10

abbrev pub lpm_trie : ℕ
lpm_trie = 11

abbrev pub array_of_maps : ℕ
array_of_maps = 12

abbrev pub hash_of_maps : ℕ
hash_of_maps = 13

abbrev pub devmap : ℕ
devmap = 14

abbrev pub sockmap : ℕ
sockmap = 15

abbrev pub cpumap : ℕ
cpumap = 16

abbrev pub xskmap : ℕ
xskmap = 17

abbrev pub sockhash : ℕ
sockhash = 18

abbrev pub ringbuf : ℕ
ringbuf = 27

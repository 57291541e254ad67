-- ===== src/Policy/Tables.antt =====
-- The three name tables of src/policy.rs. The arms of each `match` are the entries of a list, in
-- order; an arm with several names is several entries, and the last arm `_` is the end of the list.
pub mod Codes
pub mod Kernel
use bpf_rbacd.Base.{ℕ, String, Option, HashMap, get, List, [], ◌∷◌, string_eq}

abbrev pub prog_type_arms : List (String × ℕ)
prog_type_arms =
    ("socket_filter", 1)
    ∷ ("kprobe", 2)
    ∷ ("kretprobe", 2)
    ∷ ("sched_cls", 3)
    ∷ ("sched_act", 4)
    ∷ ("tracepoint", 5)
    ∷ ("xdp", 6)
    ∷ ("perf_event", 7)
    ∷ ("cgroup_skb", 8)
    ∷ ("cgroup_sock", 9)
    ∷ ("lwt_in", 10)
    ∷ ("lwt_out", 11)
    ∷ ("lwt_xmit", 12)
    ∷ ("sock_ops", 13)
    ∷ ("sk_skb", 14)
    ∷ ("cgroup_device", 15)
    ∷ ("sk_msg", 16)
    ∷ ("raw_tracepoint", 17)
    ∷ ("cgroup_sock_addr", 18)
    ∷ ("lwt_seg6local", 19)
    ∷ ("lirc_mode2", 20)
    ∷ ("sk_reuseport", 21)
    ∷ ("flow_dissector", 22)
    ∷ ("cgroup_sysctl", 23)
    ∷ ("raw_tracepoint_writable", 24)
    ∷ ("cgroup_sockopt", 25)
    ∷ ("tracing", 26)
    ∷ ("fentry", 26)
    ∷ ("fexit", 26)
    ∷ ("struct_ops", 27)
    ∷ ("ext", 28)
    ∷ ("lsm", 29)
    ∷ ("sk_lookup", 30)
    ∷ ("uprobe", 2)
    ∷ ("uretprobe", 2)
    ∷ []

unfoldable pub prog_type_to_bit : String → Option ℕ
unfolding get
prog_type_to_bit name = get name prog_type_arms

abbrev pub map_type_arms : List (String × ℕ)
map_type_arms =
    ("hash", 1)
    ∷ ("array", 2)
    ∷ ("prog_array", 3)
    ∷ ("perf_event_array", 4)
    ∷ ("percpu_hash", 5)
    ∷ ("percpu_array", 6)
    ∷ ("stack_trace", 7)
    ∷ ("cgroup_array", 8)
    ∷ ("lru_hash", 9)
    ∷ ("lru_percpu_hash", 10)
    ∷ ("lpm_trie", 11)
    ∷ ("array_of_maps", 12)
    ∷ ("hash_of_maps", 13)
    ∷ ("devmap", 14)
    ∷ ("sockmap", 15)
    ∷ ("cpumap", 16)
    ∷ ("xskmap", 17)
    ∷ ("sockhash", 18)
    ∷ ("cgroup_storage", 19)
    ∷ ("reuseport_sockarray", 20)
    ∷ ("percpu_cgroup_storage", 21)
    ∷ ("queue", 22)
    ∷ ("stack", 23)
    ∷ ("sk_storage", 24)
    ∷ ("devmap_hash", 25)
    ∷ ("struct_ops", 26)
    ∷ ("ringbuf", 27)
    ∷ ("inode_storage", 28)
    ∷ ("task_storage", 29)
    ∷ ("bloom_filter", 30)
    ∷ []

unfoldable pub map_type_to_bit : String → Option ℕ
unfolding get
map_type_to_bit name = get name map_type_arms

abbrev pub command_arms : List (String × ℕ)
command_arms =
    ("MAP_CREATE", 0)
    ∷ ("MAP_LOOKUP_ELEM", 1)
    ∷ ("MAP_UPDATE_ELEM", 2)
    ∷ ("MAP_DELETE_ELEM", 3)
    ∷ ("MAP_GET_NEXT_KEY", 4)
    ∷ ("PROG_LOAD", 5)
    ∷ ("OBJ_PIN", 6)
    ∷ ("OBJ_GET", 7)
    ∷ ("PROG_ATTACH", 8)
    ∷ ("PROG_DETACH", 9)
    ∷ ("PROG_TEST_RUN", 10)
    ∷ ("PROG_GET_NEXT_ID", 11)
    ∷ ("MAP_GET_NEXT_ID", 12)
    ∷ ("PROG_GET_FD_BY_ID", 13)
    ∷ ("MAP_GET_FD_BY_ID", 14)
    ∷ ("OBJ_GET_INFO_BY_FD", 15)
    ∷ ("PROG_QUERY", 16)
    ∷ ("RAW_TRACEPOINT_OPEN", 17)
    ∷ ("BTF_LOAD", 18)
    ∷ ("BTF_GET_FD_BY_ID", 19)
    ∷ ("TASK_FD_QUERY", 20)
    ∷ ("MAP_LOOKUP_AND_DELETE_ELEM", 21)
    ∷ ("MAP_FREEZE", 22)
    ∷ ("BTF_GET_NEXT_ID", 23)
    ∷ ("MAP_LOOKUP_BATCH", 24)
    ∷ ("MAP_LOOKUP_AND_DELETE_BATCH", 25)
    ∷ ("MAP_UPDATE_BATCH", 26)
    ∷ ("MAP_DELETE_BATCH", 27)
    ∷ ("LINK_CREATE", 28)
    ∷ ("LINK_UPDATE", 29)
    ∷ ("LINK_GET_FD_BY_ID", 30)
    ∷ ("LINK_GET_NEXT_ID", 31)
    ∷ []

unfoldable pub command_to_bit : String → Option ℕ
unfolding get
command_to_bit name = get name command_arms

-- ===== src/Policy/Defaults.antt =====
-- `Policy::default()` of src/policy.rs. `HashMap::insert` on the map built so far, in the source's
-- order.
pub mod Access
use bpf_rbacd.Base.{String, none, some, List, [], ◌∷◌, HashMap, insert, string_eq}
use bpf_rbacd.Policy.Config.{SystemPolicy, Role, Policy}

unfoldable pub ebpf_progs : HashMap (List String)
unfolding insert string_eq
ebpf_progs = insert "raw_tracepoint" ("load" ∷ "attach" ∷ []) (
    insert "perf_event" ("load" ∷ "attach" ∷ []) (
      insert "tracepoint" ("load" ∷ "attach" ∷ [])
        (insert "uprobe" ("load" ∷ "attach" ∷ []) (insert "kprobe" ("load" ∷ "attach" ∷ []) []))))

unfoldable pub ebpf_maps : HashMap (List String)
unfolding insert string_eq
ebpf_maps = insert "ringbuf" ("create" ∷ "read" ∷ []) (
    insert "perf_event_array" ("create" ∷ "read" ∷ []) (
      insert "array" ("create" ∷ "read" ∷ "write" ∷ [])
        (insert "hash" ("create" ∷ "read" ∷ "write" ∷ []) [])))

unfoldable pub net_progs : HashMap (List String)
unfolding insert string_eq
net_progs = insert "socket_filter" ("load" ∷ "attach" ∷ []) (
    insert "sched_cls" ("load" ∷ "attach" ∷ "detach" ∷ [])
      (insert "xdp" ("load" ∷ "attach" ∷ "detach" ∷ []) []))

unfoldable pub net_maps : HashMap (List String)
unfolding insert string_eq
net_maps = insert "lru_hash" ("create" ∷ "read" ∷ "write" ∷ []) (
    insert "devmap" ("create" ∷ "read" ∷ "write" ∷ []) (
      insert "array" ("create" ∷ "read" ∷ "write" ∷ [])
        (insert "hash" ("create" ∷ "read" ∷ "write" ∷ []) [])))

unfoldable pub admin_progs : HashMap (List String)
unfolding insert string_eq
admin_progs = insert "any" ("any" ∷ []) []

unfoldable pub admin_maps : HashMap (List String)
unfolding insert string_eq
admin_maps = insert "any" ("any" ∷ []) []

unfoldable pub ebpf_role : Role
unfolding ebpf_progs ebpf_maps
ebpf_role = record {
  description = some "Tracing workloads";
  groups = "ebpf" ∷ [];
  commands =
      "PROG_LOAD" ∷ "MAP_CREATE" ∷ "MAP_LOOKUP_ELEM" ∷ "MAP_UPDATE_ELEM" ∷ "LINK_CREATE"
      ∷ "BTF_LOAD" ∷ [];
  prog_types = ebpf_progs;
  map_types = ebpf_maps;
}

unfoldable pub ebpf_net_role : Role
unfolding net_progs net_maps
ebpf_net_role = record {
  description = some "Networking workloads";
  groups = "ebpf-net" ∷ [];
  commands =
      "PROG_LOAD" ∷ "MAP_CREATE" ∷ "MAP_LOOKUP_ELEM" ∷ "MAP_UPDATE_ELEM" ∷ "LINK_CREATE"
      ∷ "PROG_ATTACH" ∷ "BTF_LOAD" ∷ [];
  prog_types = net_progs;
  map_types = net_maps;
}

unfoldable pub ebpf_admin_role : Role
unfolding admin_progs admin_maps
ebpf_admin_role = record {
  description = some "Full BPF access";
  groups = "ebpf-admin" ∷ [];
  commands = "any" ∷ [];
  prog_types = admin_progs;
  map_types = admin_maps;
}

unfoldable pub default : Policy
unfolding insert string_eq ebpf_role ebpf_net_role ebpf_admin_role
default = record {
  config = record {
    system_policy = none;
    roles =
        insert "ebpf-admin" ebpf_admin_role
          (insert "ebpf-net" ebpf_net_role (insert "ebpf" ebpf_role []));
  };
}

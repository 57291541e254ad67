-- ===== src/Policy/Tables/Kernel.antt =====
-- The constants of bpf-rbacd-common/src/lib.rs against the name tables of src/policy.rs: each
-- constant with the name by which a policy writes it.
use bpf_rbacd.Base.{ℕ, ◌<◌, String, none, some, List, [], ◌∷◌, All, ◌≡◌, refl, arith, string_eq}
use bpf_rbacd.Common.ProgTypes
use bpf_rbacd.Common.MapTypes
use bpf_rbacd.Common.Commands
use bpf_rbacd.Policy.Tables.{prog_type_to_bit, map_type_to_bit, command_to_bit}

abbrev pub prog_type_constants : List (String × ℕ)
prog_type_constants =
    ("socket_filter", ProgTypes.socket_filter)
    ∷ ("kprobe", ProgTypes.kprobe)
    ∷ ("sched_cls", ProgTypes.sched_cls)
    ∷ ("sched_act", ProgTypes.sched_act)
    ∷ ("tracepoint", ProgTypes.tracepoint)
    ∷ ("xdp", ProgTypes.xdp)
    ∷ ("perf_event", ProgTypes.perf_event)
    ∷ ("cgroup_skb", ProgTypes.cgroup_skb)
    ∷ ("cgroup_sock", ProgTypes.cgroup_sock)
    ∷ ("lwt_in", ProgTypes.lwt_in)
    ∷ ("lwt_out", ProgTypes.lwt_out)
    ∷ ("lwt_xmit", ProgTypes.lwt_xmit)
    ∷ ("sock_ops", ProgTypes.sock_ops)
    ∷ ("sk_skb", ProgTypes.sk_skb)
    ∷ ("cgroup_device", ProgTypes.cgroup_device)
    ∷ ("sk_msg", ProgTypes.sk_msg)
    ∷ ("raw_tracepoint", ProgTypes.raw_tracepoint)
    ∷ ("cgroup_sock_addr", ProgTypes.cgroup_sock_addr)
    ∷ ("lwt_seg6local", ProgTypes.lwt_seg6local)
    ∷ ("sk_reuseport", ProgTypes.sk_reuseport)
    ∷ ("flow_dissector", ProgTypes.flow_dissector)
    ∷ ("tracing", ProgTypes.tracing)
    ∷ ("struct_ops", ProgTypes.struct_ops)
    ∷ ("ext", ProgTypes.ext)
    ∷ ("lsm", ProgTypes.lsm)
    ∷ ("sk_lookup", ProgTypes.sk_lookup)
    ∷ []

abbrev pub map_type_constants : List (String × ℕ)
map_type_constants =
    ("hash", MapTypes.hash)
    ∷ ("array", MapTypes.array)
    ∷ ("prog_array", MapTypes.prog_array)
    ∷ ("perf_event_array", MapTypes.perf_event_array)
    ∷ ("percpu_hash", MapTypes.percpu_hash)
    ∷ ("percpu_array", MapTypes.percpu_array)
    ∷ ("stack_trace", MapTypes.stack_trace)
    ∷ ("cgroup_array", MapTypes.cgroup_array)
    ∷ ("lru_hash", MapTypes.lru_hash)
    ∷ ("lru_percpu_hash", MapTypes.lru_percpu_hash)
    ∷ ("lpm_trie", MapTypes.lpm_trie)
    ∷ ("array_of_maps", MapTypes.array_of_maps)
    ∷ ("hash_of_maps", MapTypes.hash_of_maps)
    ∷ ("devmap", MapTypes.devmap)
    ∷ ("sockmap", MapTypes.sockmap)
    ∷ ("cpumap", MapTypes.cpumap)
    ∷ ("xskmap", MapTypes.xskmap)
    ∷ ("sockhash", MapTypes.sockhash)
    ∷ ("ringbuf", MapTypes.ringbuf)
    ∷ []

abbrev pub command_constants : List (String × ℕ)
command_constants =
    ("MAP_CREATE", Commands.map_create)
    ∷ ("MAP_LOOKUP_ELEM", Commands.map_lookup_elem)
    ∷ ("MAP_UPDATE_ELEM", Commands.map_update_elem)
    ∷ ("MAP_DELETE_ELEM", Commands.map_delete_elem)
    ∷ ("MAP_GET_NEXT_KEY", Commands.map_get_next_key)
    ∷ ("PROG_LOAD", Commands.prog_load)
    ∷ ("OBJ_PIN", Commands.obj_pin)
    ∷ ("OBJ_GET", Commands.obj_get)
    ∷ ("PROG_ATTACH", Commands.prog_attach)
    ∷ ("PROG_DETACH", Commands.prog_detach)
    ∷ ("PROG_TEST_RUN", Commands.prog_test_run)
    ∷ ("OBJ_GET_INFO_BY_FD", Commands.obj_get_info_by_fd)
    ∷ ("BTF_LOAD", Commands.btf_load)
    ∷ ("LINK_CREATE", Commands.link_create)
    ∷ ("LINK_UPDATE", Commands.link_update)
    ∷ []

-- Every constant of the three modules but `TOKEN_CREATE` is the code of its name in the policy
-- engine's tables. `TOKEN_CREATE` is no name of the table of commands, and has no bit in a `u32`.
pub constants_agree :
    All (λ ((name, code) : String × ℕ). prog_type_to_bit name ≡ some code) prog_type_constants
    × All (λ ((name, code) : String × ℕ). map_type_to_bit name ≡ some code) map_type_constants
    × All (λ ((name, code) : String × ℕ). command_to_bit name ≡ some code) command_constants
    × (command_to_bit "TOKEN_CREATE" ≡ none)
    × (32 < Commands.token_create)
unfolding prog_type_to_bit map_type_to_bit command_to_bit string_eq
constants_agree = (prog_types, map_types, commands, refl, omega arith)
  where
    prog_types :
        All (λ ((name, code) : String × ℕ). prog_type_to_bit name ≡ some code) prog_type_constants
    prog_types = (
      refl,
      (
        refl,
        (
          refl,
          (
            refl,
            (
              refl,
              (
                refl,
                (
                  refl,
                  (
                    refl,
                    (
                      refl,
                      (
                        refl,
                        (
                          refl,
                          (
                            refl,
                            (
                              refl,
                              (
                                refl,
                                (
                                  refl,
                                  (
                                    refl,
                                    (
                                      refl,
                                      (
                                        refl,
                                        (
                                          refl,
                                          (
                                            refl,
                                            (refl, (refl, (refl, (refl, (refl, (refl, tt)))))),
                                          ),
                                        ),
                                      ),
                                    ),
                                  ),
                                ),
                              ),
                            ),
                          ),
                        ),
                      ),
                    ),
                  ),
                ),
              ),
            ),
          ),
        ),
      ),
    )

    map_types :
        All (λ ((name, code) : String × ℕ). map_type_to_bit name ≡ some code) map_type_constants
    map_types = (
      refl,
      (
        refl,
        (
          refl,
          (
            refl,
            (
              refl,
              (
                refl,
                (
                  refl,
                  (
                    refl,
                    (
                      refl,
                      (
                        refl,
                        (refl, (refl, (refl, (refl, (refl, (refl, (refl, (refl, (refl, tt))))))))),
                      ),
                    ),
                  ),
                ),
              ),
            ),
          ),
        ),
      ),
    )

    commands :
        All (λ ((name, code) : String × ℕ). command_to_bit name ≡ some code) command_constants
    commands = (
      refl,
      (
        refl,
        (
          refl,
          (
            refl,
            (
              refl,
              (refl, (refl, (refl, (refl, (refl, (refl, (refl, (refl, (refl, (refl, tt)))))))))),
            ),
          ),
        ),
      ),
    )

-- ===== src/Common/ProgTypes.antt =====
-- `prog_types` of bpf-rbacd-common/src/lib.rs: the kernel's `BPF_PROG_TYPE_*` values.
use bpf_rbacd.Base.{ℕ}

abbrev pub socket_filter : ℕ
socket_filter = 1

abbrev pub kprobe : ℕ
kprobe = 2

abbrev pub sched_cls : ℕ
sched_cls = 3

abbrev pub sched_act : ℕ
sched_act = 4

abbrev pub tracepoint : ℕ
tracepoint = 5

abbrev pub xdp : ℕ
xdp = 6

abbrev pub perf_event : ℕ
perf_event = 7

abbrev pub cgroup_skb : ℕ
cgroup_skb = 8

abbrev pub cgroup_sock : ℕ
cgroup_sock = 9

abbrev pub lwt_in : ℕ
lwt_in = 10

abbrev pub lwt_out : ℕ
lwt_out = 11

abbrev pub lwt_xmit : ℕ
lwt_xmit = 12

abbrev pub sock_ops : ℕ
sock_ops = 13

abbrev pub sk_skb : ℕ
sk_skb = 14

abbrev pub cgroup_device : ℕ
cgroup_device = 15

abbrev pub sk_msg : ℕ
sk_msg = 16

abbrev pub raw_tracepoint : ℕ
raw_tracepoint = 17

abbrev pub cgroup_sock_addr : ℕ
cgroup_sock_addr = 18

abbrev pub lwt_seg6local : ℕ
lwt_seg6local = 19

abbrev pub sk_reuseport : ℕ
sk_reuseport = 21

abbrev pub flow_dissector : ℕ
flow_dissector = 22

abbrev pub tracing : ℕ
tracing = 26

abbrev pub struct_ops : ℕ
struct_ops = 27

abbrev pub ext : ℕ
ext = 28

abbrev pub lsm : ℕ
lsm = 29

abbrev pub sk_lookup : ℕ
sk_lookup = 30

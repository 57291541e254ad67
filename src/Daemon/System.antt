-- ===== src/Daemon/System.antt =====
-- What the daemon of src/main.rs asks of the system: the bpf() system call and the socket of the
-- client. All of it is code that the repository only calls.
use bpf_rbacd.Base.{ℕ, String, List, Result}
use bpf_rbacd.Base.Int.{ℤ}

-- `struct BpfAttr`; `map_name` holds 16 bytes.
pub record BpfAttr : Type 0 where
  pub map_type : ℕ
  pub key_size : ℕ
  pub value_size : ℕ
  pub max_entries : ℕ
  pub map_flags : ℕ
  pub inner_map_fd : ℕ
  pub numa_node : ℕ
  pub map_name : List ℕ
  pub map_ifindex : ℕ
  pub btf_fd : ℕ
  pub btf_key_type_id : ℕ
  pub btf_value_type_id : ℕ
  pub btf_vmlinux_value_type_id : ℕ
  pub map_extra : ℕ

-- `bpf` is `libc::syscall(SYS_bpf, cmd, &attr, size)`; `write_all` and `sendmsg` take the
-- descriptor of the socket first, and `sendmsg` sends the bytes with one descriptor under
-- `SCM_RIGHTS`. `accept` and `close` put the descriptor of a client's socket into the daemon's table
-- and take it away. `write` is a write of a `write_all` that has to wait: it gives the bytes that the
-- socket has not taken. An error is its message.
pub record System : Type 1 where
  pub State : Type 0
  pub bpf : ℕ → BpfAttr → State → ℤ × State
  pub last_os_error : State → String
  pub write_all : ℕ → List ℕ → State → Result (Unit {0}) String × State
  pub sendmsg : ℕ → List ℕ → ℤ → State → Result (Unit {0}) String × State
  pub accept : ℕ → State → State
  pub close : ℕ → State → State
  pub write : ℕ → List ℕ → State → List ℕ × State

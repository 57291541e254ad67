-- ===== src/Tests/Daemon.antt =====
-- The daemon of src/main.rs and the client of src/protocol.rs on a small system.
use bpf_rbacd.Base.{
  arith, String, true, false, none, some, List, [], ◌∷◌, any, length, take, as_bytes, ◌≡◌, refl, ok,
  err, string_eq, nat_eq, get, ◌==◌,
}
use bpf_rbacd.Base.Int.{pos}
use bpf_rbacd.Protocol.{Request, create_map, success}
use bpf_rbacd.Policy.Check.{is_allowed}
use bpf_rbacd.Policy.Roles.{get_role_for_groups}
use bpf_rbacd.Daemon.Groups.{User, NameService, has_nul, group_name, get_user_groups}
use bpf_rbacd.Daemon.Groups.Names.{Distinct, has, is_name, get_user_groups_names}
use bpf_rbacd.Daemon.Syscall.{map_type_num, name_bytes, execute_bpf}
use bpf_rbacd.Daemon.Syscall.Attributes.{byte_at, name_bytes_lem}
use bpf_rbacd.Daemon.Handler.{Connection, receive, respond, serve, handle_client}
use bpf_rbacd.Tests.Sample.{sample}
use bpf_rbacd.Tests.Machine.{codec, Kernel, idle, system, client, encode_request}

-- User 1000 has group 100 as primary group, and 7, 100 and 9 in the list; 9 has no name.
abbrev pub alice : User
alice = record { name = "alice"; gid = 100 }

abbrev pub names : NameService
names = record {
  user_from_uid = (λ uid. elim (uid == 1000) [ true ↦ ok (some alice) | false ↦ ok none ]);
  group_from_gid = (λ gid. elim (gid == 100) [
    | true ↦ ok (some "users")
    | false ↦ elim (gid == 7) [ true ↦ ok (some "test") | false ↦ ok none ]
  ]);
  getgrouplist = (λ _ _. ok (7 ∷ 100 ∷ 9 ∷ []));
}

pub groups_of_alice : get_user_groups names 1000 ≡ ok ("users" ∷ "test" ∷ [])
unfolding get_user_groups has_nul nat_eq string_eq
groups_of_alice = refl

no_bob : get_user_groups names 1001 ≡ err "User not found"
unfolding get_user_groups nat_eq
no_bob = refl

plain_name : has_nul "alice" ≡ false
unfolding has_nul nat_eq
plain_name = refl

alice_found : names.user_from_uid 1000 ≡ ok (some alice)
unfolding nat_eq
alice_found = refl

get_user_groups_names_example :
    (groups : List String) × (get_user_groups names 1000 ≡ ok groups)
    × Distinct groups
    × (has "test" groups
        ≡ any (λ gid. is_name "test" (group_name names gid)) (100 ∷ 7 ∷ 100 ∷ 9 ∷ []))
get_user_groups_names_example =
    get_user_groups_names names 1000 alice (7 ∷ 100 ∷ 9 ∷ []) "test" alice_found plain_name refl

short_name : name_bytes "ab" ≡ 97 ∷ 98 ∷ 0 ∷ 0 ∷ 0 ∷ 0 ∷ 0 ∷ 0 ∷ 0 ∷ 0 ∷ 0 ∷ 0 ∷ 0 ∷ 0 ∷ 0 ∷ 0 ∷ []
unfolding name_bytes as_bytes
short_name = refl

abbrev long_name : String
long_name = "a_name_of_twenty_two_c"

name_bytes_lem_example :
    (length (name_bytes "ab") ≡ 16)
    × (take 2 (name_bytes "ab") ≡ 97 ∷ 98 ∷ [])
    × (byte_at 9 (name_bytes "ab") ≡ 0)
    × (byte_at 15 (name_bytes "ab") ≡ 0)
unfolding as_bytes
name_bytes_lem_example = name_bytes_lem "ab" 9 (omega arith)

pub hash_supported : map_type_num "hash" ≡ some 1
unfolding map_type_num get string_eq
hash_supported = refl

-- A request that the role `test` is allowed.
abbrev pub hash_request : Request
hash_request = create_map "hash" "m" 4 8 16

abbrev pub asks : Connection
asks = client 1000 (4 ∷ 8 ∷ 16 ∷ [])

abbrev granted : Kernel
granted = record { next = 6; open_fds = pos 5 ∷ []; sent = [] }

received_request : receive system codec names sample asks ≡ ok (some "test", some hash_request)
unfolding receive get_user_groups has_nul get_role_for_groups get string_eq nat_eq
received_request = refl

answered_request :
    respond system codec names sample (some "test") hash_request idle
    ≡ (success (some (pos 5)), granted)
unfolding respond is_allowed execute_bpf map_type_num get string_eq nat_eq
answered_request = refl

-- User 1001 is unknown.
no_user : receive system codec names sample (client 1001 []) ≡ err "User not found"
unfolding receive get_user_groups nat_eq
no_user = refl

hung_up : handle_client system codec names sample (client 1000 []) idle ≡ (ok tt, idle)
unfolding handle_client serve receive get_user_groups has_nul get_role_for_groups get string_eq
    nat_eq
hung_up = refl

-- Without the list, alice has only her primary group, and no role.
abbrev pub outsiders : NameService
outsiders = record names { getgrouplist = λ _ _. err "no list" }

received_outsider : receive system codec outsiders sample asks ≡ ok (none, some hash_request)
unfolding receive get_user_groups has_nul get_role_for_groups get string_eq nat_eq
received_outsider = refl

outsider_denied :
    handle_client system codec outsiders sample asks idle
    ≡ (ok tt, record idle { sent = (1001, 0 ∷ 0 ∷ 0 ∷ []) ∷ [] })
unfolding handle_client serve receive get_user_groups has_nul get_role_for_groups get string_eq
    nat_eq
outsider_denied = refl

pub resolved_role : get_role_for_groups sample ("users" ∷ "test" ∷ []) ≡ some "test"
unfolding get_role_for_groups get string_eq
resolved_role = refl

pub encoded_request : encode_request hash_request ≡ ok (4 ∷ 8 ∷ 16 ∷ [])
unfolding string_eq
encoded_request = refl

pub allowed_request : is_allowed sample "test" hash_request ≡ true
unfolding is_allowed get string_eq
allowed_request = refl

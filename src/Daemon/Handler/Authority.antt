-- ===== src/Daemon/Handler/Authority.antt =====
-- Whom `handle_client` of src/main.rs serves.
use bpf_rbacd.Base.{
  ℕ, String, ◌<>◌, Bool, true, false, Option, none, some, List, In, get_of_In, ◌≡◌, ◌≢◌, refl, inl,
  inr, arith, ok, ok_of_bind, ok_injective, sym, ap, ◌∙◌, Bool-cases, Option-cases,
}
use bpf_rbacd.Base.Int.{ℤ, pos, negsuc}
use bpf_rbacd.Protocol.{Codec, Request, load_program, create_map, attach, success, denied}
use bpf_rbacd.Policy.{Role, Policy}
use bpf_rbacd.Policy.Check.{is_allowed}
use bpf_rbacd.Policy.Check.Grants.{RequestGranted, IsWellFormed}
use bpf_rbacd.Policy.Check.Decides.{is_allowed_iff}
use bpf_rbacd.Policy.Roles.{get_role_for_groups}
use bpf_rbacd.Policy.Roles.Choice.{Shares, get_role_for_groups-some}
use bpf_rbacd.Daemon.Groups.{NameService, get_user_groups}
use bpf_rbacd.Daemon.System.{System}
use bpf_rbacd.Daemon.Syscall.{
  map_type_num, map_attr, as_raw_fd, check_fd, create_bpf_map, execute_bpf,
}
use bpf_rbacd.Daemon.Handler.{Connection, parse, receive, respond, reply, serve, handle_client}

-- The kernel's word for the client's user, the user's groups, and a role of the policy that shares
-- a group with the user, by whose name the policy grants the request.
pub record Authorised (ns : NameService) (policy : Policy) (conn : Connection) (request : Request)
    : Type 0 where
  pub uid : ℕ
  pub groups : List String
  pub role_name : String
  pub role : Role
  pub peer : conn.peer_uid ≡ ok uid
  pub user : get_user_groups ns uid ≡ ok groups
  pub listed : In (role_name, role) policy.config.roles
  pub shared : Shares groups role
  pub granted : RequestGranted policy role request

-- Whether the policy allows the request to the role, if there is one.
abbrev pub allowed_for : Policy → Option String → Request → Bool
allowed_for policy none request = false
allowed_for policy (some name) request = is_allowed policy name request

-- A map was created: the one system call that the request stands for.
pub data Created (sys : System) (request : Request) (fd : ℤ) (s s' : sys.State) : Type 0 where
  created :
      (map_type name : String) (key_size value_size max_entries num n : ℕ)
      → request ≡ create_map map_type name key_size value_size max_entries
      → map_type_num map_type ≡ some num
      → sys.bpf 0 (map_attr num name key_size value_size max_entries) s ≡ (pos n, s')
      → fd ≡ as_raw_fd (pos n)
      → Created sys request fd s s'

module _ (sys : System) (s s' : sys.State) (fd : ℤ) where
  check_fd-ok :
      (r : ℤ × sys.State)
      → check_fd sys r ≡ (ok fd, s')
      → (n : ℕ) × (r ≡ (pos n, s')) × (fd ≡ as_raw_fd (pos n))
  unfolding check_fd
  check_fd-ok (pos n, t) h = (n, ground arith, ground arith)
  check_fd-ok (negsuc n, t) h = ground arith

  execute_bpf-Created :
      (request : Request) → execute_bpf sys request s ≡ (ok fd, s') → Created sys request fd s s'
  unfolding execute_bpf
  execute_bpf-Created (load_program _ _ _) h = ground arith
  execute_bpf-Created (attach _ _ _) h = ground arith
  execute_bpf-Created (create_map t name ks vs me) h = elim (Option-cases (map_type_num t)) [
    | inl unsupported ↦ cc (rw (unsupported, create_bpf_map) at h)
    | inr (num, supported) ↦
        let (n, result, word) =
          check_fd-ok (sys.bpf 0 (map_attr num name ks vs me) s)
            (rw (supported, create_bpf_map) at h) in
        created t name ks vs me num n refl supported result word
  ]

module _ (sys : System) (codec : Codec) (ns : NameService) (policy : Policy) where
  -- The role is one that the client's groups give.
  receive-role :
      (conn : Connection) (role : Option String) (request : Option Request)
      → receive sys codec ns policy conn ≡ ok (role, request)
      → (uid : ℕ) × (groups : List String) × (conn.peer_uid ≡ ok uid)
        × (get_user_groups ns uid ≡ ok groups)
        × (get_role_for_groups policy groups ≡ role)
  unfolding receive
  receive-role conn role request h =
      let (_, _, h₁) = ok_of_bind conn.into_std _ _ h in
      let (uid, peer, h₂) = ok_of_bind conn.peer_uid _ _ h₁ in
      let (groups, user, h₃) = ok_of_bind (get_user_groups ns uid) _ _ h₂ in
      let (_, _, h₄) = ok_of_bind conn.set_nonblocking _ _ h₃ in
      let (_, _, h₅) = ok_of_bind conn.from_std _ _ h₄ in
      let (bytes, _, h₆) = ok_of_bind conn.read _ _ h₅ in
      let (parsed, _, h₇) = ok_of_bind (parse sys codec ns policy bytes) _ _ h₆ in
      (uid, groups, peer, user, cc)

  -- The request is what the bytes that were read parse to.
  pub receive-parsed :
      (conn : Connection) (role : Option String) (request : Option Request) (bytes : List ℕ)
      → receive sys codec ns policy conn ≡ ok (role, request)
      → conn.read ≡ ok bytes
      → parse sys codec ns policy bytes ≡ ok request
  unfolding receive
  receive-parsed conn role request bytes h sent =
      let (_, _, h₁) = ok_of_bind conn.into_std _ _ h in
      let (uid, _, h₂) = ok_of_bind conn.peer_uid _ _ h₁ in
      let (groups, _, h₃) = ok_of_bind (get_user_groups ns uid) _ _ h₂ in
      let (_, _, h₄) = ok_of_bind conn.set_nonblocking _ _ h₃ in
      let (_, _, h₅) = ok_of_bind conn.from_std _ _ h₄ in
      let (bytes', read, h₆) = ok_of_bind conn.read _ _ h₅ in
      let (parsed, there, h₇) = ok_of_bind (parse sys codec ns policy bytes') _ _ h₆ in
      let same : bytes' ≡ bytes = ok_injective bytes' bytes (sym read ∙ sent) in
      let given : parsed ≡ request =
        ap (λ (r : Option String × Option Request). r.1)
          (ok_injective (get_role_for_groups policy groups, parsed) (role, request) h₇) in
      ap (λ (b : List ℕ). parse sys codec ns policy b) (sym same)
      ∙ there
      ∙ ap (λ (r : Option Request). ok r) given

  -- A success goes to a role that is allowed the request.
  pub respond-allowed :
      (role : Option String) (request : Request) (fd : ℤ) (s s' : sys.State)
      → respond sys codec ns policy role request s ≡ (success (some fd), s')
      → (name : String) × (role ≡ some name) × (is_allowed policy name request ≡ true)
  unfolding respond
  respond-allowed none request fd s s' h = ground arith
  respond-allowed (some name) request fd s s' h =
      elim (Bool-cases (is_allowed policy name request)) [
        | inl allowed ↦ (name, refl, allowed)
        | inr refused ↦ ground arith
      ]

  -- A client whose role, as received, is allowed the request is authorised.
  pub authorise :
      (conn : Connection) (name : String) (request : Request)
      → IsWellFormed policy
      → receive sys codec ns policy conn ≡ ok (some name, some request)
      → is_allowed policy name request ≡ true
      → Authorised ns policy conn request
  authorise conn name request w received allowed =
      let (uid, groups, peer, user, resolved) =
        receive-role conn (some name) (some request) received in
      let (held, listed, shared) = get_role_for_groups-some policy groups name resolved in
      let (granting, listed', granted) = (is_allowed_iff policy name request w).0 allowed in
      let same : held ≡ granting = cc (
        get_of_In name held policy.config.roles w.names_distinct listed,
        get_of_In name granting policy.config.roles w.names_distinct listed',
      ) in
      record {
        uid = uid;
        groups = groups;
        role_name = name;
        role = granting;
        peer = peer;
        user = user;
        listed = listed';
        shared = rw same at shared;
        granted = granted;
      }

  respond-changed :
      (role : Option String) (request : Request) (s : sys.State)
      → (respond sys codec ns policy role request s).1 ≢ s
      → (name : String) × (role ≡ some name) × (is_allowed policy name request ≡ true)
  unfolding respond
  respond-changed none request s changed = absurd (changed refl)
  respond-changed (some name) request s changed =
      elim (Bool-cases (is_allowed policy name request)) [
        | inl allowed ↦ (name, refl, allowed)
        | inr refused ↦ absurd (changed (rw (refused, respond)))
      ]

  -- Until the reply, the state of the system changes only for an authorised client.
  pub handle_client-Authorised :
      (conn : Connection) (role : Option String) (request : Request) (s : sys.State)
      → IsWellFormed policy
      → receive sys codec ns policy conn ≡ ok (role, some request)
      → (respond sys codec ns policy role request s).1 ≢ s
      → Authorised ns policy conn request
  handle_client-Authorised conn role request s w received changed =
      let (name, named, allowed) = respond-changed role request s changed in
      authorise conn name request w (cc (received, named)) allowed

  -- The reason that the handler gives.
  unfoldable pub denial : Option String → Request → String
  denial none request = "User not in any BPF RBAC group"
  denial (some name) request =
      "Role '" <> name <> "' not allowed for " <> codec.debug_request request

  -- A request that is not allowed, or of a user with no role, is answered with a denial in the
  -- state that it found: no bpf() call is made.
  pub handle_client_denied :
      (conn : Connection) (role : Option String) (request : Request) (s : sys.State)
      → receive sys codec ns policy conn ≡ ok (role, some request)
      → allowed_for policy role request ≡ false
      → handle_client sys codec ns policy conn s
        ≡ reply sys codec ns policy conn.socket (denied (denial role request)) s
  unfolding handle_client serve denial
  handle_client_denied conn role request s received refused =
      rw (received, handle_client) (serve_denied role refused)
    where
      serve_denied :
          (role : Option String)
          → allowed_for policy role request ≡ false
          → serve sys codec ns policy conn.socket (role, some request) s
            ≡ reply sys codec ns policy conn.socket (denied (denial role request)) s
      serve_denied none refused = refl
      serve_denied (some name) refused = rw (refused, respond)

  -- A success comes from one bpf() call alone: the request is to create a map of a supported type,
  -- and the call with its attributes gave the descriptor and the state.
  pub respond-success :
      (role : Option String) (request : Request) (fd : ℤ) (s s' : sys.State)
      → respond sys codec ns policy role request s ≡ (success (some fd), s')
      → Created sys request fd s s'
  unfolding respond
  respond-success none request fd s s' h = ground arith
  respond-success (some name) request fd s s' h =
      elim (Bool-cases (is_allowed policy name request)) [
        | inl allowed ↦
            let done = rw (allowed, respond) at h in
            execute_bpf-Created sys s s' fd request (ground arith)
        | inr refused ↦ ground arith
      ]

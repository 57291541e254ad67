-- ===== src/Policy/Tables/Codes.antt =====
-- The codes of the name tables of src/policy.rs: all below 32, and which names share one.
use bpf_rbacd.Base.{ℕ, suc, ◌≤◌, ◌<◌, String, some, [], ◌∷◌, HashMap, get, ◌≡◌, arith, string_eq}
use bpf_rbacd.Policy.Tables.{
  prog_type_to_bit, prog_type_arms, map_type_to_bit, map_type_arms, command_to_bit, command_arms,
}

-- Each entry's code is above the one before it.
abbrev Ascending : ℕ → HashMap ℕ → Type 0
Ascending low [] = Unit
Ascending low ((_, code) ∷ arms) = (low ≤ code) × Ascending (suc code) arms

abbrev CodesBelow : ℕ → HashMap ℕ → Type 0
CodesBelow bound [] = Unit
CodesBelow bound ((_, code) ∷ arms) = (code < bound) × CodesBelow bound arms

get-lt :
    (bound : ℕ) (arms : HashMap ℕ) (name : String) (code : ℕ)
    → CodesBelow bound arms
    → get name arms ≡ some code
    → code < bound
unfolding get
get-lt bound [] name code h e = cc
get-lt bound ((j, c) ∷ arms) name code h e = ground (arith, get-lt bound arms name code h.1)

le-get :
    (low : ℕ) (arms : HashMap ℕ) (name : String) (code : ℕ)
    → Ascending low arms
    → get name arms ≡ some code
    → low ≤ code
unfolding get
le-get low [] name code h e = cc
le-get low ((j, c) ∷ arms) name code h e = ground (arith, le-get (suc c) arms name code h.1)

get_injective :
    (low : ℕ) (arms : HashMap ℕ) (a b : String) (code : ℕ)
    → Ascending low arms
    → get a arms ≡ some code
    → get b arms ≡ some code
    → a ≡ b
unfolding get
get_injective low [] a b code h p q = cc
get_injective low ((j, c) ∷ arms) a b code h p q = ground (
  arith,
  get_injective (suc c) arms a b code h.1,
  le-get (suc c) arms a code h.1,
  le-get (suc c) arms b code h.1,
)

pub prog_type_to_bit-lt : (name : String) (k : ℕ) → prog_type_to_bit name ≡ some k → k < 32
unfolding prog_type_to_bit
prog_type_to_bit-lt name k h = get-lt 32 prog_type_arms name k (omega arith) h

pub map_type_to_bit-lt : (name : String) (k : ℕ) → map_type_to_bit name ≡ some k → k < 32
unfolding map_type_to_bit
map_type_to_bit-lt name k h = get-lt 32 map_type_arms name k (omega arith) h

pub command_to_bit-lt : (name : String) (k : ℕ) → command_to_bit name ≡ some k → k < 32
unfolding command_to_bit
command_to_bit-lt name k h = get-lt 32 command_arms name k (omega arith) h

-- No two commands share a bit.
pub command_to_bit_injective :
    (a b : String) (k : ℕ) → command_to_bit a ≡ some k → command_to_bit b ≡ some k → a ≡ b
unfolding command_to_bit
command_to_bit_injective a b k p q = get_injective 0 command_arms a b k (omega arith) p q

-- No two map types share a bit.
pub map_type_to_bit_injective :
    (a b : String) (k : ℕ) → map_type_to_bit a ≡ some k → map_type_to_bit b ≡ some k → a ≡ b
unfolding map_type_to_bit
map_type_to_bit_injective a b k p q = get_injective 0 map_type_arms a b k (omega arith) p q

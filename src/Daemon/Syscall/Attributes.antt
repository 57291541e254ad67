-- ===== src/Daemon/Syscall/Attributes.antt =====
-- The attributes that `create_bpf_map` of src/main.rs passes to the kernel.
use bpf_rbacd.Base.{
  ℕ, zero, suc, ◌+◌, ◌-◌, ◌≤◌, String, some, List, [], ◌∷◌, ◌++◌, HashMap, get, take, length,
  as_bytes, All, ◌≡◌, refl, ◌∙◌, arith, string_eq,
}
use bpf_rbacd.Policy.Tables.{map_type_to_bit}
use bpf_rbacd.Daemon.Syscall.{supported_types, map_type_num, zeros, name_bytes}

-- The first byte at an index; 0 past the end.
abbrev pub byte_at : ℕ → List ℕ → ℕ
byte_at i [] = 0
byte_at zero (x ∷ xs) = x
byte_at (suc i) (x ∷ xs) = byte_at i xs

length-zeros : (n : ℕ) → length (zeros n) ≡ n
length-zeros zero = refl
length-zeros (suc n) = omega (arith, length-zeros n)

length-padded : (xs : List ℕ) (n : ℕ) → length (xs ++ zeros n) ≡ length xs + n
length-padded [] n = omega (arith, length-zeros n)
length-padded (x ∷ xs) n = omega (arith, length-padded xs n)

byte_at-zeros : (n i : ℕ) → byte_at i (zeros n) ≡ 0
byte_at-zeros zero i = refl
byte_at-zeros (suc n) zero = refl
byte_at-zeros (suc n) (suc i) = byte_at-zeros n i

byte_at-padded : (xs : List ℕ) (n i : ℕ) → length xs ≤ i → byte_at i (xs ++ zeros n) ≡ 0
byte_at-padded [] n i h = byte_at-zeros n i
byte_at-padded (x ∷ xs) n zero h = absurd (omega arith)
byte_at-padded (x ∷ xs) n (suc i) h = byte_at-padded xs n i (omega arith)

length-take : (n : ℕ) (xs : List ℕ) → length (take n xs) ≤ n
length-take zero xs = omega arith
length-take (suc n) [] = omega arith
length-take (suc n) (x ∷ xs) = omega (arith, length-take n xs)

take-padded : (xs : List ℕ) (n : ℕ) → take (length xs) (xs ++ zeros n) ≡ xs
take-padded [] n = refl
take-padded (x ∷ xs) n = rw (take-padded xs n)

-- The name field has 16 bytes. It begins with the name's bytes, as many as there are up to 15, and
-- every byte from there on is 0; the last one is 0 for every name.
pub name_bytes_lem :
    (name : String) (i : ℕ)
    → length (take 15 (as_bytes name)) ≤ i
    → let kept = take 15 (as_bytes name) in
      (length (name_bytes name) ≡ 16)
      × (take (length kept) (name_bytes name) ≡ kept)
      × (byte_at i (name_bytes name) ≡ 0)
      × (byte_at 15 (name_bytes name) ≡ 0)
unfolding name_bytes
name_bytes_lem name i past =
    let kept = take 15 (as_bytes name) in
    let bound = length-take 15 (as_bytes name) in
    (
      length-padded kept (16 - length kept) ∙ omega arith,
      take-padded kept (16 - length kept),
      byte_at-padded kept (16 - length kept) i past,
      byte_at-padded kept (16 - length kept) 15 bound,
    )

get_agrees :
    (arms : HashMap ℕ) (name : String) (code : ℕ)
    → All (λ ((j, c) : String × ℕ). map_type_to_bit j ≡ some c) arms
    → get name arms ≡ some code
    → map_type_to_bit name ≡ some code
unfolding get
get_agrees [] name code h e = cc
get_agrees ((j, c) ∷ arms) name code h e = ground (arith, get_agrees arms name code h.1)

supported_codes : All (λ ((j, c) : String × ℕ). map_type_to_bit j ≡ some c) supported_types
unfolding map_type_to_bit string_eq
supported_codes = (refl, (refl, (refl, (refl, (refl, tt)))))

-- The daemon's numbers for map types are those by which the policy engine sets its bits.
pub map_type_num-map_type_to_bit :
    (map_type : String) (num : ℕ)
    → map_type_num map_type ≡ some num
    → map_type_to_bit map_type ≡ some num
unfolding map_type_num
map_type_num-map_type_to_bit map_type num h =
    get_agrees supported_types map_type num supported_codes h

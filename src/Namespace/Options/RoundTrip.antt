-- ===== src/Namespace/Options/RoundTrip.antt =====
-- What a reader of the mount data of src/namespace.rs gets back.
use Prim.Native.Char.{Char, code}
use text.Mathlib.TextLemmas.{nil-append, append-nil, cons-append, append_assoc}
use bpf_rbacd.Base.{
  ℕ, suc, ◌<◌, ◌^◌, String, ◌<>◌, Bool, ◌||◌, true, false, inl, inr, Bool-cases, none, List, [],
  ◌∷◌, ◌≡◌, refl, sym, ap, ◌∙◌, arith, nat_eq, ◌==◌,
}
use bpf_rbacd.Base.Format.{digits, strip, digits_text, hex}
use bpf_rbacd.Namespace.Options.{DelegationOpts, to_mount_data}
use bpf_rbacd.Namespace.Options.Reader.{
  digit_value, read_hex, after_x, read_name, read_options, value_from-strip, All-strip, All-digits,
  value_from-digits, Ends, read_hex-digits_text,
}

abbrev has_x : String → Bool
has_x String.[] = false
has_x (String.◌∷◌ c s) = code c == 120 || has_x s

after_x-cons :
    (c : Char) (s : String) → (code c == 120) ≡ false → after_x (String.◌∷◌ c s) ≡ after_x s
unfolding after_x
after_x-cons c s e = rw (e, after_x) refl

after_x-skip : (p s : String) → has_x p ≡ false → after_x (p <> s) ≡ after_x s
after_x-skip String.[] s h = rw (nil-append s)
after_x-skip (String.◌∷◌ c p) s h =
    ap (λ (t : String). after_x t) (cons-append c p s)
    ∙ after_x-cons c (p <> s) (ground arith)
    ∙ after_x-skip p s (ground arith)

after_x-x : (t : String) → after_x ("x" <> t) ≡ t
unfolding after_x nat_eq
after_x-x t = ap (λ (u : String). after_x u) (cons-append "x" "" t) ∙ nil-append t

not_x : has_x "0" ≡ false
unfolding nat_eq
not_x = refl

after_x-hex : (n : ℕ) (s : String) → after_x (hex n <> s) ≡ digits_text (strip (digits 16 8 n)) <> s
unfolding hex
after_x-hex n s =
    let d = digits_text (strip (digits 16 8 n)) in
    ap (λ (t : String). after_x t) (append_assoc "0x" d s ∙ append_assoc "0" "x" (d <> s))
    ∙ after_x-skip "0" ("x" <> d <> s) not_x
    ∙ after_x-x (d <> s)

read_hex-hex :
    (p : String) (n : ℕ) (s : String)
    → has_x p ≡ false
    → n < 2 ^ 32
    → Ends s
    → read_hex 0 (after_x (p <> hex n <> s)) ≡ (n, s)
read_hex-hex p n s plain h ends =
    let ds = strip (digits 16 8 n) in
    ap (λ (t : String). read_hex 0 t) (after_x-skip p (hex n <> s) plain ∙ after_x-hex n s)
    ∙ read_hex-digits_text ds 0 s (All-strip (digits 16 8 n) (All-digits 8 n)) ends
    ∙ ap (λ (v : ℕ). (v, s)) (value_from-strip (digits 16 8 n) ∙ value_from-digits n h)

Ends-nil : Ends ""
unfolding read_hex
Ends-nil acc = refl

Ends-cons : (c : Char) (p s : String) → digit_value (code c) ≡ none → Ends (String.◌∷◌ c p <> s)
unfolding read_hex
Ends-cons c p s e acc =
    ap (λ (t : String). read_hex acc t) (cons-append c p s)
    ∙ rw (e, read_hex) (ap (λ (t : String). (acc, t)) (sym (cons-append c p s)))

abbrev has_equals : String → Bool
has_equals String.[] = false
has_equals (String.◌∷◌ c s) = code c == 61 || has_equals s

read_name-cons :
    (c : Char) (s t : String)
    → ((code c == 61) ≡ false → read_name s ≡ read_name t)
    → read_name (String.◌∷◌ c s) ≡ read_name (String.◌∷◌ c t)
unfolding read_name
read_name-cons c s t same = elim (Bool-cases (code c == 61)) [
  | inl equals ↦ rw (equals, read_name) refl
  | inr other ↦ rw (other, read_name, same other) refl
]

read_name-append : (p s : String) → has_equals p ≡ true → read_name (p <> s) ≡ read_name p
read_name-append String.[] s h = cc
read_name-append (String.◌∷◌ c p) s h =
    ap (λ (t : String). read_name t) (cons-append c p s)
    ∙ read_name-cons c (p <> s) p (λ other. read_name-append p s (ground arith))

-- The text before the number of an option of this name.
record Names (p name : String) : Type 0 where
  plain : has_x p ≡ false
  equals : has_equals p ≡ true
  reads : read_name p ≡ name

read_options-hex :
    (k : ℕ) (p name : String) (n : ℕ) (s : String)
    → Names p name
    → n < 2 ^ 32
    → Ends s
    → read_options (suc k) (p <> hex n <> s) ≡ (name, n) ∷ read_options k s
unfolding read_options
read_options-hex k p name n s names h ends =
    ap (λ (r : ℕ × String). (read_name (p <> hex n <> s), r.0) ∷ read_options k r.1)
      (read_hex-hex p n s names.plain h ends)
    ∙ ap (λ (t : String). (t, n) ∷ read_options k s)
        (read_name-append p (hex n <> s) names.equals ∙ names.reads)

read_options-last :
    (p name : String) (n : ℕ)
    → Names p name
    → n < 2 ^ 32
    → read_options 1 (p <> hex n) ≡ (name, n) ∷ []
unfolding read_options
read_options-last p name n names h =
    ap (λ (t : String). read_options 1 (p <> t)) (sym (append-nil (hex n)))
    ∙ read_options-hex 0 p name n "" names h Ends-nil

cmds_named : Names "delegate_cmds=" "delegate_cmds"
unfolding nat_eq read_name
cmds_named = record { plain = refl; equals = refl; reads = refl }

progs_named : Names ",delegate_progs=" "delegate_progs"
unfolding nat_eq read_name
progs_named = record { plain = refl; equals = refl; reads = refl }

maps_named : Names ",delegate_maps=" "delegate_maps"
unfolding nat_eq read_name
maps_named = record { plain = refl; equals = refl; reads = refl }

attachs_named : Names ",delegate_attachs=" "delegate_attachs"
unfolding nat_eq read_name
attachs_named = record { plain = refl; equals = refl; reads = refl }

-- The four options with these numbers.
abbrev pub four_options : ℕ → ℕ → ℕ → ℕ → List (String × ℕ)
four_options cmds progs maps attachs =
    ("delegate_cmds", cmds)
    ∷ ("delegate_progs", progs)
    ∷ ("delegate_maps", maps)
    ∷ ("delegate_attachs", attachs)
    ∷ []

-- A reader of the mount data, which takes the name before each equals sign and the hexadecimal number
-- after the x that follows, finds the four options, each bitmap under its own name, for bitmaps below
-- 2^32.
pub read_options-to_mount_data :
    (opts : DelegationOpts)
    → opts.delegate_cmds < 2 ^ 32
    → opts.delegate_progs < 2 ^ 32
    → opts.delegate_maps < 2 ^ 32
    → opts.delegate_attachs < 2 ^ 32
    → read_options 4 (to_mount_data opts)
      ≡ four_options opts.delegate_cmds opts.delegate_progs opts.delegate_maps opts.delegate_attachs
unfolding to_mount_data
read_options-to_mount_data opts c p m a =
    read_options-hex 3 "delegate_cmds=" "delegate_cmds" opts.delegate_cmds _ cmds_named c
      (Ends-cons "," "delegate_progs=" _ refl)
    ∙ ap (λ (ns : List (String × ℕ)). ("delegate_cmds", opts.delegate_cmds) ∷ ns)
        (read_options-hex 2 ",delegate_progs=" "delegate_progs" opts.delegate_progs _ progs_named p
            (Ends-cons "," "delegate_maps=" _ refl)
          ∙ ap (λ (ns : List (String × ℕ)). ("delegate_progs", opts.delegate_progs) ∷ ns)
              (read_options-hex 1 ",delegate_maps=" "delegate_maps" opts.delegate_maps _ maps_named
                  m (Ends-cons "," "delegate_attachs=" _ refl)
                ∙ ap (λ (ns : List (String × ℕ)). ("delegate_maps", opts.delegate_maps) ∷ ns)
                    (read_options-last ",delegate_attachs=" "delegate_attachs" opts.delegate_attachs
                      attachs_named a)))

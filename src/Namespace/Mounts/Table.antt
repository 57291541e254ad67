-- ===== src/Namespace/Mounts/Table.antt =====
-- `is_bpffs_mounted` of src/namespace.rs on a mount table as the kernel prints it.
use Prim.Native.Char.{Char, code}
use text.Mathlib.TextLemmas.{nil-append, append-nil, cons-append, append_assoc}
use bpf_rbacd.Base.{
  ℕ, String, ◌<>◌, Bool, true, false, not, ◌&&◌, ◌||◌, List, [], ◌∷◌, any, All, ok, ◌≡◌, refl, sym,
  ap, ◌∙◌, arith, ◌==◌, string_eq, nat_eq,
}
use bpf_rbacd.Namespace.Mounts.{
  is_whitespace, before_words, words_from, lines_from, is_bpffs_at, is_bpffs_mounted,
}

-- A line of /proc/mounts: three fields, and the rest of the line.
pub record Mount : Type 0 where
  pub device : String
  pub dir : String
  pub fstype : String
  pub rest : String

abbrev pub print_mount : Mount → String
print_mount m = m.device <> " " <> m.dir <> " " <> m.fstype <> " " <> m.rest

abbrev pub print_table : List Mount → String
print_table [] = ""
print_table (m ∷ ms) = print_mount m <> "\n" <> print_table ms

abbrev pub all_chars : (ℕ → Bool) → String → Bool
all_chars p String.[] = true
all_chars p (String.◌∷◌ c s) = p (code c) && all_chars p s

abbrev pub in_word : ℕ → Bool
in_word c = not (is_whitespace c)

abbrev pub in_line : ℕ → Bool
in_line c = not (c == 10)

-- A text that stands as one word.
abbrev pub is_word : String → Bool
is_word String.[] = false
is_word (String.◌∷◌ c s) = in_word (code c) && all_chars in_word s

-- The fields have no white space, as the kernel escapes it, and the rest has no line break.
pub record IsPrinted (m : Mount) : Type 0 where
  pub device : is_word m.device ≡ true
  pub dir : is_word m.dir ≡ true
  pub fstype : is_word m.fstype ≡ true
  pub rest : all_chars in_line m.rest ≡ true

all_chars-append :
    (p : ℕ → Bool) (s t : String) → all_chars p (s <> t) ≡ (all_chars p s && all_chars p t)
all_chars-append p String.[] t = ap (λ (u : String). all_chars p u) (nil-append t)
all_chars-append p (String.◌∷◌ c s) t =
    ap (λ (u : String). all_chars p u) (cons-append c s t) ∙ ground (arith, all_chars-append p s t)

regroup : (w : String) (c : Char) (x : String) → (w <> String.◌∷◌ c "") <> x ≡ w <> String.◌∷◌ c x
regroup w c x =
    append_assoc w (String.◌∷◌ c "") x
    ∙ ap (λ (t : String). w <> t)
        (cons-append c "" x ∙ ap (λ (t : String). String.◌∷◌ c t) (nil-append x))

words_from-cons :
    (w : String) (c : Char) (s : String)
    → is_whitespace (code c) ≡ false
    → words_from w (String.◌∷◌ c s) ≡ words_from (w <> String.◌∷◌ c "") s
unfolding words_from
words_from-cons w c s e = rw (e, words_from) refl

words_from-skip :
    (x w s : String) → all_chars in_word x ≡ true → words_from w (x <> s) ≡ words_from (w <> x) s
words_from-skip String.[] w s h =
    ap (λ (t : String). words_from w t) (nil-append s)
    ∙ ap (λ (t : String). words_from t s) (sym (append-nil w))
words_from-skip (String.◌∷◌ c x) w s h =
    ap (λ (t : String). words_from w t) (cons-append c x s)
    ∙ words_from-cons w c (x <> s) (ground arith)
    ∙ words_from-skip x (w <> String.◌∷◌ c "") s (ground arith)
    ∙ ap (λ (t : String). words_from t s) (regroup w c x)

words_from-space : (w s : String) → words_from w (" " <> s) ≡ before_words w (words_from "" s)
unfolding words_from nat_eq
words_from-space w s =
    ap (λ (t : String). words_from w t) (cons-append " " "" s)
    ∙ ap (λ (t : String). before_words w (words_from "" t)) (nil-append s)

words_from-word :
    (x s : String) → is_word x ≡ true → words_from "" (x <> " " <> s) ≡ x ∷ words_from "" s
words_from-word String.[] s h = ground arith
words_from-word (String.◌∷◌ c x) s h =
    words_from-skip (String.◌∷◌ c x) "" (" " <> s) h
    ∙ ap (λ (t : String). words_from t (" " <> s)) (nil-append (String.◌∷◌ c x))
    ∙ words_from-space (String.◌∷◌ c x) s

lines_from-cons :
    (l : String) (c : Char) (s : String)
    → (code c == 10) ≡ false
    → lines_from l (String.◌∷◌ c s) ≡ lines_from (l <> String.◌∷◌ c "") s
unfolding lines_from
lines_from-cons l c s e = rw (e, lines_from) refl

lines_from-skip :
    (x l s : String) → all_chars in_line x ≡ true → lines_from l (x <> s) ≡ lines_from (l <> x) s
lines_from-skip String.[] l s h =
    ap (λ (t : String). lines_from l t) (nil-append s)
    ∙ ap (λ (t : String). lines_from t s) (sym (append-nil l))
lines_from-skip (String.◌∷◌ c x) l s h =
    ap (λ (t : String). lines_from l t) (cons-append c x s)
    ∙ lines_from-cons l c (x <> s) (ground arith)
    ∙ lines_from-skip x (l <> String.◌∷◌ c "") s (ground arith)
    ∙ ap (λ (t : String). lines_from t s) (regroup l c x)

lines_from-break : (l s : String) → lines_from l ("\n" <> s) ≡ l ∷ lines_from "" s
unfolding lines_from nat_eq
lines_from-break l s =
    ap (λ (t : String). lines_from l t) (cons-append "\n" "" s)
    ∙ ap (λ (t : String). l ∷ lines_from "" t) (nil-append s)

lines_from-line :
    (x s : String)
    → all_chars in_line x ≡ true
    → lines_from "" (x <> "\n" <> s) ≡ x ∷ lines_from "" s
lines_from-line x s h =
    lines_from-skip x "" ("\n" <> s) h
    ∙ ap (λ (t : String). lines_from t ("\n" <> s)) (nil-append x)
    ∙ lines_from-break x s

-- A line break is white space.
char_in_line : (n : ℕ) → in_word n ≡ true → in_line n ≡ true
char_in_line n h = ground arith

all_in_line : (x : String) → all_chars in_word x ≡ true → all_chars in_line x ≡ true
all_in_line String.[] h = refl
all_in_line (String.◌∷◌ c x) h = ground (arith, char_in_line (code c), all_in_line x)

word_in_line : (x : String) → is_word x ≡ true → all_chars in_line x ≡ true
word_in_line String.[] h = refl
word_in_line (String.◌∷◌ c x) h = ground (arith, char_in_line (code c), all_in_line x)

space_in_line : all_chars in_line " " ≡ true
unfolding nat_eq
space_in_line = refl

field_in_line :
    (x s : String)
    → is_word x ≡ true
    → all_chars in_line s ≡ true
    → all_chars in_line (x <> " " <> s) ≡ true
field_in_line x s h g =
    all_chars-append in_line x (" " <> s)
    ∙ ground (arith, word_in_line x h, all_chars-append in_line " " s, space_in_line, g)

print_mount_one_line : (m : Mount) → IsPrinted m → all_chars in_line (print_mount m) ≡ true
print_mount_one_line m p =
    field_in_line m.device _ p.device
      (field_in_line m.dir _ p.dir (field_in_line m.fstype m.rest p.fstype p.rest))

print_mount_words :
    (m : Mount)
    → IsPrinted m
    → words_from "" (print_mount m) ≡ m.device ∷ m.dir ∷ m.fstype ∷ words_from "" m.rest
print_mount_words m p =
    words_from-word m.device _ p.device
    ∙ ap (λ (ws : List String). m.device ∷ ws)
        (words_from-word m.dir _ p.dir
          ∙ ap (λ (ws : List String). m.dir ∷ ws) (words_from-word m.fstype m.rest p.fstype))

abbrev pub is_bpffs : String → Mount → Bool
is_bpffs path m = m.dir == path && m.fstype == "bpf"

lines_lem :
    (ms : List Mount) (path : String)
    → All IsPrinted ms
    → any (λ line. is_bpffs_at path (words_from "" line)) (lines_from "" (print_table ms))
      ≡ any (is_bpffs path) ms
unfolding lines_from
lines_lem [] path p = refl
lines_lem (m ∷ ms) path (printed, p) =
    ap (λ (lines : List String). any (λ line. is_bpffs_at path (words_from "" line)) lines)
      (lines_from-line (print_mount m) (print_table ms) (print_mount_one_line m printed))
    ∙ ap
        (λ (words : List String).
          is_bpffs_at path words
          || any (λ line. is_bpffs_at path (words_from "" line)) (lines_from "" (print_table ms)))
        (print_mount_words m printed)
    ∙ ap (λ (b : Bool). is_bpffs path m || b) (lines_lem ms path p)

-- On the kernel's table of any mounts whose fields have no white space, the path counts as mounted
-- exactly if one of the mounts is at the path and of type bpf.
pub is_bpffs_mounted-print_table :
    (ms : List Mount) (path : String)
    → All IsPrinted ms
    → is_bpffs_mounted (ok (print_table ms)) path ≡ any (is_bpffs path) ms
unfolding is_bpffs_mounted
is_bpffs_mounted-print_table ms path p = lines_lem ms path p

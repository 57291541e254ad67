-- ===== src/Namespace/Mounts.antt =====
-- `is_bpffs_mounted` of src/namespace.rs, with the standard library's `lines` and
-- `split_whitespace`.
pub mod Table
use Prim.Native.Char.{code}
use bpf_rbacd.Base.{
  ℕ, String, ◌<>◌, Bool, true, false, ◌&&◌, ◌||◌, List, [], ◌∷◌, any, Result, ok, err, ◌==◌,
  string_eq, nat_eq, ltb,
}

-- `char::is_whitespace`, on a code.
abbrev pub is_whitespace : ℕ → Bool
is_whitespace c =
    ltb 8 c && ltb c 14
    || any (λ w. w == c)
        (0x20 ∷ 0x85 ∷ 0xa0 ∷ 0x1680 ∷ 0x2028 ∷ 0x2029 ∷ 0x202f ∷ 0x205f ∷ 0x3000 ∷ [])
    || ltb 0x1fff c && ltb c 0x200b

-- A word, if there is one, before the others.
abbrev pub before_words : String → List String → List String
before_words String.[] words = words
before_words (String.◌∷◌ c s) words = String.◌∷◌ c s ∷ words

-- The words of a text after the part of the first that is read.
unfoldable pub words_from : String → String → List String
words_from word String.[] = before_words word []
words_from word (String.◌∷◌ c s) = elim (is_whitespace (code c)) [
  | true ↦ before_words word (words_from "" s)
  | false ↦ words_from (word <> String.◌∷◌ c "") s
]

-- The lines of a text after the part of the first that is read. A carriage return at the end of a
-- line is left there: it is white space to what reads the line.
unfoldable pub lines_from : String → String → List String
lines_from line String.[] = before_words line []
lines_from line (String.◌∷◌ c s) = elim (code c == 10) [
  | true ↦ line ∷ lines_from "" s
  | false ↦ lines_from (line <> String.◌∷◌ c "") s
]

-- `parts.len() >= 3 && parts[1] == path && parts[2] == "bpf"`
abbrev pub is_bpffs_at : String → List String → Bool
is_bpffs_at path (_ ∷ mount_path ∷ fstype ∷ _) = mount_path == path && fstype == "bpf"
is_bpffs_at path _ = false

-- With the outcome of reading /proc/mounts, and the path as text.
unfoldable pub is_bpffs_mounted : Result String String → String → Bool
unfolding words_from lines_from
is_bpffs_mounted (ok contents) path =
    any (λ line. is_bpffs_at path (words_from "" line)) (lines_from "" contents)
is_bpffs_mounted (err _) path = false

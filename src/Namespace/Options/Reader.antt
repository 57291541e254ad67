-- ===== src/Namespace/Options/Reader.antt =====
-- A reader of the mount data of src/namespace.rs, and what it makes of digits.
use Prim.Native.Char.{Char, code}
use text.Mathlib.TextLemmas.{nil-append, cons-append, append_assoc}
use bpf_rbacd.Base.{
  ℕ, zero, suc, ◌+◌, ◌-◌, ◌*◌, ◌<◌, ◌^◌, String, ◌<>◌, ◌&&◌, Option, none, some, List, [], ◌∷◌, All,
  length, ◌≡◌, refl, ap, ◌∙◌, arith, ltb, nat_eq, ◌==◌, if◌then◌else◌,
}
use bpf_rbacd.Base.Format.{digits, strip, digit_texts, text_at, digits_text}

-- The value of a hexadecimal digit, by its code.
abbrev pub digit_value : ℕ → Option ℕ
digit_value c =
    if ltb 47 c && ltb c 58
    then some (c - 48)
    else if ltb 96 c && ltb c 103
    then some (c - 87)
    else none

-- Reads digits up to the first character that is none, and gives the rest.
unfoldable pub read_hex : ℕ → String → ℕ × String
read_hex acc String.[] = (acc, "")
read_hex acc (String.◌∷◌ c s) = elim (digit_value (code c)) [
  | some d ↦ read_hex (acc * 16 + d) s
  | none ↦ (acc, String.◌∷◌ c s)
]

-- What follows the first x.
unfoldable pub after_x : String → String
after_x String.[] = ""
after_x (String.◌∷◌ c s) = if code c == 120 then s else after_x s

-- The name before the first equals sign, without the comma that ends the option before.
unfoldable pub read_name : String → String
read_name String.[] = ""
read_name (String.◌∷◌ c s) =
    let rest = read_name s in
    if code c == 61 then "" else if code c == 44 then rest else String.◌∷◌ c rest

-- The first options of a text, as many as are asked for, each with its name and its number.
unfoldable pub read_options : ℕ → String → List (String × ℕ)
unfolding read_hex after_x read_name
read_options zero s = []
read_options (suc n) s =
    let (value, rest) = read_hex 0 (after_x s) in (read_name s, value) ∷ read_options n rest

-- The texts stand for the numbers from this one on.
abbrev Reads : ℕ → List String → Type 0
Reads i [] = Unit
Reads i (t ∷ ts) =
    ((acc : ℕ) (s : String) → read_hex acc (t <> s) ≡ read_hex (acc * 16 + i) s) × Reads (suc i) ts

read_digit :
    (c : Char) (d : ℕ)
    → digit_value (code c) ≡ some d
    → (acc : ℕ) (s : String) → read_hex acc (String.◌∷◌ c "" <> s) ≡ read_hex (acc * 16 + d) s
unfolding read_hex
read_digit c d e acc s =
    ap (λ (t : String). read_hex acc t)
      (cons-append c "" s ∙ ap (λ (t : String). String.◌∷◌ c t) (nil-append s))
    ∙ rw (e, read_hex) refl

digit_texts-Reads : Reads 0 digit_texts
digit_texts-Reads = (
  read_digit "0" _ refl,
  (
    read_digit "1" _ refl,
    (
      read_digit "2" _ refl,
      (
        read_digit "3" _ refl,
        (
          read_digit "4" _ refl,
          (
            read_digit "5" _ refl,
            (
              read_digit "6" _ refl,
              (
                read_digit "7" _ refl,
                (
                  read_digit "8" _ refl,
                  (
                    read_digit "9" _ refl,
                    (
                      read_digit "a" _ refl,
                      (
                        read_digit "b" _ refl,
                        (
                          read_digit "c" _ refl,
                          (
                            read_digit "d" _ refl,
                            (read_digit "e" _ refl, (read_digit "f" _ refl, tt)),
                          ),
                        ),
                      ),
                    ),
                  ),
                ),
              ),
            ),
          ),
        ),
      ),
    ),
  ),
)

text_at-Reads :
    (d i : ℕ) (ts : List String)
    → Reads i ts
    → d < length ts
    → (acc : ℕ) (s : String) → read_hex acc (text_at d ts <> s) ≡ read_hex (acc * 16 + (d + i)) s
text_at-Reads d i [] r h acc s = absurd (omega arith)
text_at-Reads zero i (t ∷ ts) r h acc s =
    r.0 acc s ∙ ap (λ (n : ℕ). read_hex (acc * 16 + n) s) (omega arith)
text_at-Reads (suc d) i (t ∷ ts) r h acc s =
    text_at-Reads d (suc i) ts r.1 (omega arith) acc s
    ∙ ap (λ (n : ℕ). read_hex (acc * 16 + n) s) (omega arith)

-- The value of digits, the highest first, after those read so far.
abbrev pub value_from : ℕ → List ℕ → ℕ
value_from acc [] = acc
value_from acc (d ∷ ds) = value_from (acc * 16 + d) ds

pub value_from-strip : (ds : List ℕ) → value_from 0 (strip ds) ≡ value_from 0 ds
value_from-strip [] = refl
value_from-strip (d ∷ []) = refl
value_from-strip (zero ∷ d ∷ ds) = value_from-strip (d ∷ ds)
value_from-strip (suc n ∷ d ∷ ds) = refl

pub All-strip : (ds : List ℕ) → All (λ d. d < 16) ds → All (λ d. d < 16) (strip ds)
All-strip [] h = h
All-strip (d ∷ []) h = h
All-strip (zero ∷ d ∷ ds) h = All-strip (d ∷ ds) h.1
All-strip (suc n ∷ d ∷ ds) h = h

pub All-digits : (w n : ℕ) → All (λ d. d < 16) (digits 16 w n)
All-digits zero n = tt
All-digits (suc w) n = (omega arith, All-digits w n)

pub value_from-digits : (n : ℕ) → n < 2 ^ 32 → value_from 0 (digits 16 8 n) ≡ n
value_from-digits n h = omega arith

-- No digit begins the text.
abbrev pub Ends : String → Type 0
Ends s = (acc : ℕ) → read_hex acc s ≡ (acc, s)

pub read_hex-digits_text :
    (ds : List ℕ) (acc : ℕ) (s : String)
    → All (λ d. d < 16) ds
    → Ends s
    → read_hex acc (digits_text ds <> s) ≡ (value_from acc ds, s)
read_hex-digits_text [] acc s small ends = rw (nil-append s) (ends acc)
read_hex-digits_text (d ∷ ds) acc s small ends =
    rw (append_assoc (text_at d digit_texts) (digits_text ds) s) (
      text_at-Reads d 0 digit_texts digit_texts-Reads small.0 acc (digits_text ds <> s)
      ∙ ap (λ (n : ℕ). read_hex (acc * 16 + n) (digits_text ds <> s)) (omega arith)
      ∙ read_hex-digits_text ds (acc * 16 + d) s small.1 ends)

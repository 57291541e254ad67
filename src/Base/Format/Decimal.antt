-- ===== src/Base/Format/Decimal.antt =====
-- `parse` after `to_string`.
use Prim.Native.Char.{Char, code}
use text.Mathlib.TextLemmas.{nil-append, cons-append}
use Prim.Native.String.{String, ◌++◌ as ◌<>◌}
use Prim.Native.Nat.{ℕ, zero, suc, ◌+◌, ◌*◌, ◌^◌, ◌<◌, ◌≤◌}
use native.Mathlib.Omega.{arith}
use mathlib.Core.Path.{◌≡◌, refl, sym, ap, subst, ◌∙◌}
use mathlib.Core.Bool.{true, false}
use mathlib.Core.Option.{some}
use mathlib.Core.List.{List, [], ◌∷◌}
use bpf_rbacd.Base.Equality.{◌==◌, nat_eq}
use bpf_rbacd.Base.Number.{ltb}
use bpf_rbacd.Base.Lists.{All}
use bpf_rbacd.Base.Format.{
  digits, strip, digit_texts, text_at, digits_text, to_string, to_digit, parse_digits, parse_u32,
}

below_passes : (m n : ℕ) → m < n → ltb m n ≡ true
below_passes m n h = ground arith

-- Reading the text first is reading the digit.
abbrev ReadsAs : String → ℕ → Type 0
ReadsAs t d =
    ((acc : ℕ) (s : String)
      → acc * 10 + d < 2 ^ 32
      → parse_digits acc (t <> s) ≡ parse_digits (acc * 10 + d) s)
    × ((s : String) → parse_u32 (t <> s) ≡ parse_digits 0 (t <> s))

char-ReadsAs :
    (c : Char) (d : ℕ)
    → to_digit (code c) ≡ some d
    → (code c == 43) ≡ false
    → ReadsAs (String.◌∷◌ c "") d
unfolding parse_digits parse_u32
char-ReadsAs c d e unsigned = (
  (λ acc s small.
      ap (λ (t : String). parse_digits acc t)
        (cons-append c "" s ∙ ap (λ (t : String). String.◌∷◌ c t) (nil-append s))
      ∙ rw (e, parse_digits, below_passes (acc * 10 + d) (2 ^ 32) small) refl),
  (λ s.
      ap (λ (t : String). parse_u32 t) (cons-append c "" s)
      ∙ rw (unsigned, parse_u32)
          (ap (λ (t : String). parse_digits 0 t) (sym (cons-append c "" s)))),
)

-- So many texts stand for the numbers from this one on.
abbrev Digits : ℕ → ℕ → List String → Type 0
Digits zero i ts = Unit
Digits (suc k) i [] = ⊥
Digits (suc k) i (t ∷ ts) = ReadsAs t i × Digits k (suc i) ts

digit_texts-Digits : Digits 10 0 digit_texts
unfolding nat_eq
digit_texts-Digits = (
  char-ReadsAs "0" _ refl refl,
  (
    char-ReadsAs "1" _ refl refl,
    (
      char-ReadsAs "2" _ refl refl,
      (
        char-ReadsAs "3" _ refl refl,
        (
          char-ReadsAs "4" _ refl refl,
          (
            char-ReadsAs "5" _ refl refl,
            (
              char-ReadsAs "6" _ refl refl,
              (
                char-ReadsAs "7" _ refl refl,
                (char-ReadsAs "8" _ refl refl, (char-ReadsAs "9" _ refl refl, tt)),
              ),
            ),
          ),
        ),
      ),
    ),
  ),
)

text_at-ReadsAs :
    (k d i n : ℕ) (ts : List String) → Digits k i ts → d < k → n ≡ d + i → ReadsAs (text_at d ts) n
text_at-ReadsAs zero d i n ts r h e = absurd (omega arith)
text_at-ReadsAs (suc k) d i n [] r h e = absurd r
text_at-ReadsAs (suc k) zero i n (t ∷ ts) r h e = subst (λ (m : ℕ). ReadsAs t m) (omega arith) r.0
text_at-ReadsAs (suc k) (suc d) i n (t ∷ ts) r h e =
    text_at-ReadsAs k d (suc i) n ts r.1 (omega arith) (omega arith)

digit-ReadsAs : (d : ℕ) → d < 10 → ReadsAs (text_at d digit_texts) d
digit-ReadsAs d h = text_at-ReadsAs 10 d 0 d digit_texts digit_texts-Digits h (omega arith)

-- The value of digits, the highest first, after those read so far.
abbrev value_from : ℕ → List ℕ → ℕ
value_from acc [] = acc
value_from acc (d ∷ ds) = value_from (acc * 10 + d) ds

value_from-ge : (acc : ℕ) (ds : List ℕ) → acc ≤ value_from acc ds
value_from-ge acc [] = omega arith
value_from-ge acc (d ∷ ds) = omega (arith, value_from-ge (acc * 10 + d) ds)

parse_digits-digits_text :
    (ds : List ℕ) (acc : ℕ)
    → All (λ d. d < 10) ds
    → value_from acc ds < 2 ^ 32
    → parse_digits acc (digits_text ds) ≡ some (value_from acc ds)
unfolding parse_digits
parse_digits-digits_text [] acc small fits = refl
parse_digits-digits_text (d ∷ ds) acc small fits =
    let (step, _) = digit-ReadsAs d small.0 in
    step acc (digits_text ds) (omega (arith, value_from-ge (acc * 10 + d) ds, fits))
    ∙ parse_digits-digits_text ds (acc * 10 + d) small.1 fits

value_from-strip : (ds : List ℕ) → value_from 0 (strip ds) ≡ value_from 0 ds
value_from-strip [] = refl
value_from-strip (d ∷ []) = refl
value_from-strip (zero ∷ d ∷ ds) = value_from-strip (d ∷ ds)
value_from-strip (suc n ∷ d ∷ ds) = refl

-- Decimal digits, at least one.
abbrev Decimal : List ℕ → Type 0
Decimal [] = ⊥
Decimal (d ∷ ds) = (d < 10) × All (λ d. d < 10) ds

strip-Decimal : (ds : List ℕ) → Decimal ds → Decimal (strip ds)
strip-Decimal [] h = h
strip-Decimal (d ∷ []) h = h
strip-Decimal (zero ∷ d ∷ ds) h = strip-Decimal (d ∷ ds) h.1
strip-Decimal (suc n ∷ d ∷ ds) h = h

All-digits : (w n : ℕ) → All (λ d. d < 10) (digits 10 w n)
All-digits zero n = tt
All-digits (suc w) n = (omega arith, All-digits w n)

value_from-digits : (n : ℕ) → n < 2 ^ 32 → value_from 0 (digits 10 10 n) ≡ n
value_from-digits n h = omega arith

parse_u32-digits_text :
    (ds : List ℕ)
    → Decimal ds
    → value_from 0 ds < 2 ^ 32
    → parse_u32 (digits_text ds) ≡ some (value_from 0 ds)
parse_u32-digits_text [] small fits = absurd small
parse_u32-digits_text (d ∷ ds) small fits =
    let (_, start) = digit-ReadsAs d small.0 in
    start (digits_text ds) ∙ parse_digits-digits_text (d ∷ ds) 0 small fits

pub parse_u32-to_string : (n : ℕ) → n < 2 ^ 32 → parse_u32 (to_string n) ≡ some n
unfolding to_string
parse_u32-to_string n h =
    let value = value_from-strip (digits 10 10 n) ∙ value_from-digits n h in
    parse_u32-digits_text (strip (digits 10 10 n))
      (strip-Decimal (digits 10 10 n) (All-digits 10 n)) (omega (arith, value, h))
    ∙ ap (λ (v : ℕ). some v) value

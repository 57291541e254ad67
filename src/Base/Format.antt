-- ===== src/Base/Format.antt =====
-- The formats of a `u32`: `to_string`, `{:#x}`, and `str::parse`.
pub mod Decimal
use Prim.Native.Char.{code}
use Prim.Native.String.{String, ◌++◌ as ◌<>◌}
use Prim.Native.Nat.{ℕ, zero, suc, ◌+◌, ◌-◌, ◌*◌, ◌/◌, ◌%◌, ◌^◌}
use mathlib.Core.Bool.{Bool, true, false, ◌&&◌}
use mathlib.Core.Option.{Option, none, some}
use mathlib.Core.List.{List, [], ◌∷◌}
use bpf_rbacd.Base.Equality.{◌==◌, nat_eq, if◌then◌else◌}
use bpf_rbacd.Base.Number.{ltb}

-- The digits of a number to a base, the highest first, in a fixed width.
abbrev pub digits : ℕ → ℕ → ℕ → List ℕ
digits base zero n = []
digits base (suc w) n = n / base ^ w % base ∷ digits base w n

-- Without leading zeros, but for the last digit.
abbrev pub strip : List ℕ → List ℕ
strip [] = []
strip (d ∷ []) = d ∷ []
strip (zero ∷ d ∷ ds) = strip (d ∷ ds)
strip (suc n ∷ d ∷ ds) = suc n ∷ d ∷ ds

abbrev pub digit_texts : List String
digit_texts =
    "0" ∷ "1" ∷ "2" ∷ "3" ∷ "4" ∷ "5" ∷ "6" ∷ "7" ∷ "8" ∷ "9" ∷ "a" ∷ "b" ∷ "c" ∷ "d" ∷ "e" ∷ "f"
    ∷ []

abbrev pub text_at : ℕ → List String → String
text_at n [] = ""
text_at zero (t ∷ ts) = t
text_at (suc n) (t ∷ ts) = text_at n ts

abbrev pub digits_text : List ℕ → String
digits_text [] = ""
digits_text (d ∷ ds) = text_at d digit_texts <> digits_text ds

-- `to_string` of a `u32`: 10 digits are enough.
unfoldable pub to_string : ℕ → String
to_string n = digits_text (strip (digits 10 10 n))

-- `{:#x}` of a `u32`: 8 digits are enough.
unfoldable pub hex : ℕ → String
hex n = "0x" <> digits_text (strip (digits 16 8 n))

-- `char::to_digit(10)`, on a code.
abbrev pub to_digit : ℕ → Option ℕ
to_digit c = if ltb 47 c && ltb c 58 then some (c - 48) else none

-- The value of the digits after those read so far; nothing on another character, nor on a value
-- that does not fit a `u32`.
unfoldable pub parse_digits : ℕ → String → Option ℕ
parse_digits acc String.[] = some acc
parse_digits acc (String.◌∷◌ c s) = elim (to_digit (code c)) [
  | none ↦ none
  | some d ↦ elim (ltb (acc * 10 + d) (2 ^ 32)) [
    | true ↦ parse_digits (acc * 10 + d) s
    | false ↦ none
  ]
]

-- After a sign: at least one digit.
unfoldable pub parse_signed : String → Option ℕ
unfolding parse_digits
parse_signed String.[] = none
parse_signed (String.◌∷◌ c s) = parse_digits 0 (String.◌∷◌ c s)

-- `str::parse::<u32>`: one leading `+` is taken.
unfoldable pub parse_u32 : String → Option ℕ
unfolding parse_signed
parse_u32 String.[] = none
parse_u32 (String.◌∷◌ c s) =
    if code c == 43 then parse_signed s else parse_digits 0 (String.◌∷◌ c s)

-- ===== src/Xtask/Text.antt =====
-- `str::contains`, and where a text is found in another.
use Prim.Native.Char.{code}
use text.Mathlib.TextLemmas.{nil-append, cons-append}
use bpf_rbacd.Base.{
  String, ◌<>◌, Bool, true, false, ◌&&◌, ◌||◌, ◌≡◌, refl, ap, ◌∙◌, arith, ◌==◌, nat_eq,
}

abbrev pub starts_with : String → String → Bool
starts_with s String.[] = true
starts_with String.[] (String.◌∷◌ c needle) = false
starts_with (String.◌∷◌ d s) (String.◌∷◌ c needle) = code d == code c && starts_with s needle

unfoldable pub contains : String → String → Bool
contains String.[] needle = starts_with String.[] needle
contains (String.◌∷◌ c s) needle = starts_with (String.◌∷◌ c s) needle || contains s needle

starts_with-append : (needle s : String) → starts_with (needle <> s) needle ≡ true
starts_with-append String.[] s = refl
starts_with-append (String.◌∷◌ c needle) s =
    ap (λ (t : String). starts_with t (String.◌∷◌ c needle)) (cons-append c needle s)
    ∙ ground (arith, starts_with-append needle s)

starts_with-contains : (s needle : String) → starts_with s needle ≡ true → contains s needle ≡ true
unfolding contains
starts_with-contains String.[] needle h = h
starts_with-contains (String.◌∷◌ c s) needle h = ground arith

-- A text that stands in another is found there.
pub contains-append :
    (before needle after : String) → contains (before <> needle <> after) needle ≡ true
unfolding contains
contains-append String.[] needle after =
    ap (λ (t : String). contains t needle) (nil-append (needle <> after))
    ∙ starts_with-contains (needle <> after) needle (starts_with-append needle after)
contains-append (String.◌∷◌ c before) needle after =
    ap (λ (t : String). contains t needle) (cons-append c before (needle <> after))
    ∙ ground (arith, contains-append before needle after)

-- ===== src/Base/Paths.antt =====
-- `Path::parent` of the standard library on Unix, on a path as text.
use Prim.Native.Char.{Char, code}
use Prim.Native.String.{String, ◌++◌ as ◌<>◌}
use mathlib.Core.Path.{◌≡◌, refl, ap, ◌∙◌}
use mathlib.Core.Bool.{Bool, true, false, not, ◌&&◌, ◌||◌}
use mathlib.Core.Option.{Option, none, some}
use mathlib.Core.List.{List, [], ◌∷◌, ◌++◌}
use native.Mathlib.Omega.{arith}
use text.Mathlib.TextLemmas.{nil-append, cons-append}
use bpf_rbacd.Base.Equality.{◌==◌, string_eq, nat_eq}
use bpf_rbacd.Base.Lists.{All}

-- A character before a text that is cut into segments.
abbrev pub before_segments : Char → List String → List String
before_segments c [] = String.◌∷◌ c "" ∷ []
before_segments c (w ∷ ws) = String.◌∷◌ c w ∷ ws

-- The text cut at each slash.
unfoldable pub segments : String → List String
segments String.[] = "" ∷ []
segments (String.◌∷◌ c s) = elim (code c == 47) [
  | true ↦ "" ∷ segments s
  | false ↦ before_segments c (segments s)
]

abbrev pub join : List String → String
join [] = ""
join (w ∷ []) = w
join (w ∷ v ∷ ws) = w <> "/" <> join (v ∷ ws)

abbrev pub drop_last : List String → List String
drop_last [] = []
drop_last (w ∷ []) = []
drop_last (w ∷ v ∷ ws) = w ∷ drop_last (v ∷ ws)

-- A segment that is kept before the segments that are.
abbrev pub keep_before : Bool → String → List String → List String
keep_before skipped w (v ∷ vs) = w ∷ v ∷ vs
keep_before true w [] = []
keep_before false w [] = w ∷ []

-- Without the empty segments and those of one dot at the end, which are no components.
unfoldable pub trimmed : List String → List String
trimmed [] = []
trimmed (w ∷ ws) = keep_before (w == "" || w == ".") w (trimmed ws)

-- So too in a relative path, where a first dot is a component.
unfoldable pub trimmed_relative : List String → List String
unfolding trimmed
trimmed_relative [] = []
trimmed_relative (w ∷ ws) = keep_before (w == "") w (trimmed ws)

-- The parent from the components, up to the last of them.
abbrev pub up_to_last : (List String → List String) → String → List String → Option String
up_to_last trim root [] = none
up_to_last trim root (w ∷ ws) = some (root <> join (trim (drop_last (w ∷ ws))))

unfoldable pub parent : String → Option String
unfolding segments trimmed trimmed_relative
parent String.[] = none
parent (String.◌∷◌ c s) = elim (code c == 47) [
  | true ↦ up_to_last trimmed "/" (trimmed (segments s))
  | false ↦ up_to_last trimmed_relative "" (trimmed_relative (segments (String.◌∷◌ c s)))
]

abbrev pub no_slash : String → Bool
no_slash String.[] = true
no_slash (String.◌∷◌ c s) = not (code c == 47) && no_slash s

-- A directory's or a file's own name.
abbrev pub is_component : String → Bool
is_component w = not (w == "" || w == ".") && no_slash w

segments-no_slash : (w : String) → no_slash w ≡ true → segments w ≡ w ∷ []
unfolding segments
segments-no_slash String.[] h = refl
segments-no_slash (String.◌∷◌ c w) h = ground (arith, segments-no_slash w)

segments-slash : (w s : String) → no_slash w ≡ true → segments (w <> "/" <> s) ≡ w ∷ segments s
unfolding segments nat_eq
segments-slash String.[] s h =
    ap (λ (t : String). segments t) (nil-append ("/" <> s) ∙ cons-append "/" "" s)
    ∙ ap (λ (t : String). "" ∷ segments t) (nil-append s)
segments-slash (String.◌∷◌ c w) s h =
    ap (λ (t : String). segments t) (cons-append c w ("/" <> s))
    ∙ ground (arith, segments-slash w s)

abbrev pub Components : List String → Type 0
Components ws = All (λ w. is_component w ≡ true) ws

segments-join :
    (w : String) (ws : List String) → Components (w ∷ ws) → segments (join (w ∷ ws)) ≡ w ∷ ws
segments-join w [] h = segments-no_slash w (ground (arith, h.0))
segments-join w (v ∷ ws) h =
    segments-slash w (join (v ∷ ws)) (ground (arith, h.0))
    ∙ ap (λ (vs : List String). w ∷ vs) (segments-join v ws h.1)

trimmed-Components : (ws : List String) → Components ws → trimmed ws ≡ ws
unfolding trimmed
trimmed-Components [] h = refl
trimmed-Components (w ∷ []) h = ground (arith, h.0)
trimmed-Components (w ∷ v ∷ ws) h =
    ap (λ (vs : List String). keep_before (w == "" || w == ".") w vs)
      (trimmed-Components (v ∷ ws) h.1)

drop_last-append : (ws : List String) (w : String) → drop_last (ws ++ (w ∷ [])) ≡ ws
drop_last-append [] w = refl
drop_last-append (v ∷ []) w = refl
drop_last-append (v ∷ u ∷ ws) w = ap (λ (vs : List String). v ∷ vs) (drop_last-append (u ∷ ws) w)

Components-append :
    (ws : List String) (w : String)
    → Components ws
    → is_component w ≡ true
    → Components (ws ++ (w ∷ []))
Components-append [] w h g = (g, tt)
Components-append (v ∷ ws) w h g = (h.0, Components-append ws w h.1 g)

-- A list with a last element has a first one.
segments-join_last :
    (ws : List String) (w : String)
    → Components (ws ++ (w ∷ []))
    → segments (join (ws ++ (w ∷ []))) ≡ ws ++ (w ∷ [])
segments-join_last [] w h = segments-join w [] h
segments-join_last (v ∷ ws) w h = segments-join v (ws ++ (w ∷ [])) h

up_to_last-append :
    (ws : List String) (w : String)
    → Components ws
    → up_to_last trimmed "/" (ws ++ (w ∷ [])) ≡ some ("/" <> join ws)
up_to_last-append [] w h =
    ap (λ (vs : List String). some ("/" <> join vs)) (trimmed-Components [] h)
up_to_last-append (v ∷ ws) w h =
    ap (λ (vs : List String). some ("/" <> join (trimmed vs))) (drop_last-append (v ∷ ws) w)
    ∙ ap (λ (vs : List String). some ("/" <> join vs)) (trimmed-Components (v ∷ ws) h)

-- The parent of an absolute path with plain names is the path without the last of them.
pub parent-join :
    (ws : List String) (name : String)
    → Components ws
    → is_component name ≡ true
    → parent ("/" <> join (ws ++ (name ∷ []))) ≡ some ("/" <> join ws)
unfolding parent nat_eq
parent-join ws name h g =
    let all = Components-append ws name h g in
    let text = join (ws ++ (name ∷ [])) in
    ap (λ (t : String). parent t) (cons-append "/" "" text)
    ∙ ap (λ (t : String). up_to_last trimmed "/" (trimmed (segments t))) (nil-append text)
    ∙ ap (λ (vs : List String). up_to_last trimmed "/" (trimmed vs))
        (segments-join_last ws name all)
    ∙ ap (λ (vs : List String). up_to_last trimmed "/" vs)
        (trimmed-Components (ws ++ (name ∷ [])) all)
    ∙ up_to_last-append ws name h

-- ===== src/Base/Utf8.antt =====
-- `str::as_bytes`: the UTF-8 bytes of a text.
use Prim.Native.Char.{code}
use Prim.Native.String.{String}
use Prim.Native.Nat.{ℕ, ◌+◌, ◌/◌, ◌%◌}
use mathlib.Core.List.{List, [], ◌∷◌, ◌++◌}
use bpf_rbacd.Base.Equality.{if◌then◌else◌}
use bpf_rbacd.Base.Number.{ltb}

-- The last six bits that lie k groups of six above the lowest, as a continuation byte.
abbrev continuation : ℕ → ℕ
continuation c = 0x80 + c % 64

abbrev char_bytes : ℕ → List ℕ
char_bytes c =
    if ltb c 0x80
    then c ∷ []
    else if ltb c 0x800
    then (0xc0 + c / 64) ∷ continuation c ∷ []
    else if ltb c 0x10000
    then (0xe0 + c / 4096) ∷ continuation (c / 64) ∷ continuation c ∷ []
    else (0xf0 + c / 262144) ∷ continuation (c / 4096) ∷ continuation (c / 64) ∷ continuation c ∷ []

unfoldable pub as_bytes : String → List ℕ
as_bytes String.[] = []
as_bytes (String.◌∷◌ c s) = char_bytes (code c) ++ as_bytes s

-- ===== src/Prelude/Text.antt =====
-- Texts: what the source uses of `str` and `String`.
use Prim.Native.Char.{Char, code}
use Prim.Native.Nat.{ℕ, ◌+◌}
use Prim.Native.String
use Prim.Native.String.{String}
use mathlib.Core.Bool.{Bool, false, ◌||◌}
use mathlib.Core.Option.{Option, none, some}
use mathlib.Core.List.{List, [], ◌∷◌}
use text.Mathlib.Text.{◌==◌}
use apcore_mcp_rust.Prelude.Tests.{eqb, if◌then◌else◌}

infixr 65 ◌<>◌
-- `format!` and `+` on texts
abbrev pub ◌<>◌ : String → String → String
s <> t = String.◌++◌ s t

-- `slice.join(separator)`
unfoldable pub join : String → List String → String
join separator [] = ""
join separator (s ∷ []) = s
join separator (s ∷ t ∷ rest) = s <> separator <> join separator (t ∷ rest)

-- `list.contains(&s)`
abbrev pub contains : List String → String → Bool
contains [] s = false
contains (t ∷ ts) s = t == s || contains ts s

-- `str::is_empty`
abbrev pub is_blank : String → Bool
is_blank s = s == ""

-- `str::replace` of one character by another
unfoldable pub replace : Char → Char → String → String
replace from to String.[] = ""
replace from to (String.◌∷◌ c s) =
    String.◌∷◌ (if eqb (code c) (code from) then to else c) (replace from to s)

-- `str::strip_prefix`, `str::split_once` and `str::split`
unfoldable pub strip_prefix : String → String → Option String
strip_prefix String.[] s = some s
strip_prefix (String.◌∷◌ c p) String.[] = none
strip_prefix (String.◌∷◌ c p) (String.◌∷◌ d s) =
    let rest = strip_prefix p s in if eqb (code c) (code d) then rest else none

abbrev pub before : Char → Option (String × String) → Option (String × String)
before c none = none
before c (some (s, t)) = some (String.◌∷◌ c s, t)

unfoldable pub split_once : Char → String → Option (String × String)
split_once d String.[] = none
split_once d (String.◌∷◌ c s) =
    let rest = split_once d s in if eqb (code c) (code d) then some ("", s) else before c rest

abbrev pub onto_first : Char → List String → List String
onto_first c [] = []
onto_first c (s ∷ ss) = String.◌∷◌ c s ∷ ss

unfoldable pub split : Char → String → List String
split d String.[] = "" ∷ []
split d (String.◌∷◌ c s) =
    let rest = split d s in if eqb (code c) (code d) then "" ∷ rest else onto_first c rest

-- `chars().count()`, and `len()` of a text of ASCII alone
abbrev pub count : String → ℕ
count String.[] = 0
count (String.◌∷◌ c s) = count s + 1

-- ===== src/ModuleId/Pattern.antt =====
-- The pattern of src/constants.rs as a regular expression, with the texts that one matches whole.
use apcore_mcp_rust.Prelude.{String, Char, code, ◌≡◌, ◌↔◌, Bool, true, ◌&&◌, ◌||◌, leb, eqb, ◌<>◌}

-- The constructs that the pattern uses; `^` and `$` are the whole match.
pub data Regex : Type 0 where
  class : (Char → Bool) → Regex
  seq : Regex → Regex → Regex
  star : Regex → Regex

pub data Matches : Regex → String → Type 0 where
  one :
      {p : Char → Bool} {s : String} (c : Char)
      → p c ≡ true
      → s ≡ String.◌∷◌ c ""
      → Matches (class p) s
  both :
      {r q : Regex} {u : String} (s t : String)
      → Matches r s
      → Matches q t
      → u ≡ s <> t
      → Matches (seq r q) u
  none_left : {r : Regex} {u : String} → u ≡ "" → Matches (star r) u
  again :
      {r : Regex} {u : String} (s t : String)
      → Matches r s
      → Matches (star r) t
      → u ≡ s <> t
      → Matches (star r) u

abbrev pub is_lower : Char → Bool
is_lower c = leb b'a' (code c) && leb (code c) b'z'

abbrev pub is_digit : Char → Bool
is_digit c = leb b'0' (code c) && leb (code c) b'9'

-- [a-z0-9_]
abbrev pub is_word : Char → Bool
is_word c = is_lower c || is_digit c || eqb (code c) b'_'

abbrev pub is_dot : Char → Bool
is_dot c = eqb (code c) b'.'

-- [a-z][a-z0-9_]*
abbrev pub segment : Regex
segment = seq (class is_lower) (star (class is_word))

-- ^[a-z][a-z0-9_]*(\.[a-z][a-z0-9_]*)*$
abbrev pub module_id_pattern : Regex
module_id_pattern = seq segment (star (seq (class is_dot) segment))

-- What the program relies on of the engine: it decides the language of the pattern.
pub record IsEngine (is_match : Regex → String → Bool) : Type 0 where
  pub decides : (s : String) → (is_match module_id_pattern s ≡ true) ↔ Matches module_id_pattern s

-- ===== src/ModuleId/Chars.antt =====
-- Character facts of the pattern and of `replace`.
use apcore_mcp_rust.Prelude.{String, Char, code, ◌≡◌, true, false, ◌||◌, arith, eqb, ◌<>◌}
use text.Mathlib.TextLemmas.{nil-append, cons-append}
use apcore_mcp_rust.ModuleId.Pattern.{
  Regex, class, seq, star, Matches, one, both, none_left, again, is_word, is_dot, module_id_pattern,
}

-- Every character of a text satisfies `P`.
abbrev pub AllChars : (Char → Type 0) → String → Type 0
AllChars P String.[] = Unit
AllChars P (String.◌∷◌ c s) = P c × AllChars P s

pub AllChars-append :
    (P : Char → Type 0) (s t : String) → AllChars P s → AllChars P t → AllChars P (s <> t)
AllChars-append P String.[] t h k = rw nil-append k
AllChars-append P (String.◌∷◌ c s) t (p, h) k = rw cons-append (p, AllChars-append P s t h k)

-- Every class of the expression lies in `P`.
abbrev pub Classes : (Char → Type 0) → Regex → Type 0
Classes P (class p) = (c : Char) → p c ≡ true → P c
Classes P (seq r q) = Classes P r × Classes P q
Classes P (star r) = Classes P r

pub Matches-AllChars :
    (P : Char → Type 0) {r : Regex} {s : String} → Matches r s → Classes P r → AllChars P s
Matches-AllChars P (one c h e) k = rw e (k c h, tt)
Matches-AllChars P (both s t m n e) (k, l) =
    rw e (AllChars-append P s t (Matches-AllChars P m k) (Matches-AllChars P n l))
Matches-AllChars P (none_left e) k = rw e tt
Matches-AllChars P (again s t m n e) k =
    rw e (AllChars-append P s t (Matches-AllChars P m k) (Matches-AllChars P n k))

-- The characters of a module ID: those of a word, and dots.
abbrev pub IsIdChar : Char → Type 0
IsIdChar c = (is_word c || is_dot c) ≡ true

pub module_id_pattern-Classes : Classes IsIdChar module_id_pattern
module_id_pattern-Classes = (
  (λ c h. ground arith, λ c h. ground arith),
  (λ c h. ground arith, (λ c h. ground arith, λ c h. ground arith)),
)

abbrev pub NotDash : Char → Type 0
NotDash c = eqb (code c) b'-' ≡ false

pub IsIdChar-NotDash : (c : Char) → IsIdChar c → NotDash c
IsIdChar-NotDash c h = ground arith

pub AllChars-mono :
    (P Q : Char → Type 0) → ((c : Char) → P c → Q c) → (s : String) → AllChars P s → AllChars Q s
AllChars-mono P Q f String.[] h = tt
AllChars-mono P Q f (String.◌∷◌ c s) (p, h) = (f c p, AllChars-mono P Q f s h)

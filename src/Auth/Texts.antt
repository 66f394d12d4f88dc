-- ===== src/Auth/Texts.antt =====
-- What src/auth/jwt.rs uses of `str`, by the bytes and characters of UTF-8.
use apcore_mcp_rust.Prelude.{
  ℕ, ◌+◌, ◌-◌, String, Char, code, Bool, true, false, ◌&&◌, ◌||◌, Option, none, some, ltb, leb, eqb,
  if◌then◌else◌, is_blank,
}

-- `char::len_utf8`
abbrev pub width : Char → ℕ
width c =
    if ltb (code c) 128
    then 1
    else if ltb (code c) 2048
    then 2
    else if ltb (code c) 65536
    then 3
    else 4

-- `str::len`
unfoldable pub len : String → ℕ
len String.[] = 0
len (String.◌∷◌ c s) = width c + len s

abbrev pub push_front : Char → Option (String × String) → Option (String × String)
push_front c none = none
push_front c (some (s, t)) = some (String.◌∷◌ c s, t)

-- `s[..n]` and `s[n..]`; none where n is not at a character's start.
unfoldable pub split_at : ℕ → String → Option (String × String)
split_at n String.[] = if eqb n 0 then some ("", "") else none
split_at n (String.◌∷◌ c s) =
    let rest = push_front c (split_at (n - width c) s) in
    if eqb n 0 then some ("", String.◌∷◌ c s) else if leb (width c) n then rest else none

abbrev pub lower : ℕ → ℕ
lower n = if leb 65 n && leb n 90 then n + 32 else n

unfoldable pub eq_ignore_ascii_case : String → String → Bool
eq_ignore_ascii_case String.[] String.[] = true
eq_ignore_ascii_case (String.◌∷◌ c s) (String.◌∷◌ d t) =
    eqb (lower (code c)) (lower (code d)) && eq_ignore_ascii_case s t
eq_ignore_ascii_case String.[] (String.◌∷◌ d t) = false
eq_ignore_ascii_case (String.◌∷◌ c s) String.[] = false

-- `char::is_whitespace`
abbrev pub is_whitespace : ℕ → Bool
is_whitespace n =
    (leb 9 n && leb n 13)
    || eqb n 32
    || eqb n 133
    || eqb n 160
    || eqb n 5760
    || (leb 8192 n && leb n 8202)
    || eqb n 8232
    || eqb n 8233
    || eqb n 8239
    || eqb n 8287
    || eqb n 12288

unfoldable pub trim_start : String → String
trim_start String.[] = ""
trim_start (String.◌∷◌ c s) = if is_whitespace (code c) then trim_start s else String.◌∷◌ c s

unfoldable pub trim_end : String → String
trim_end String.[] = ""
trim_end (String.◌∷◌ c s) =
    let rest = trim_end s in
    if is_whitespace (code c) && is_blank rest then "" else String.◌∷◌ c rest

unfoldable pub trim : String → String
unfolding trim_start trim_end
trim s = trim_end (trim_start s)

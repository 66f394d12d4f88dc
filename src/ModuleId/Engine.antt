-- ===== src/ModuleId/Engine.antt =====
-- A concrete engine for the pattern: an automaton that reads a segment's first letter in one
-- state and the rest of a segment in the other. The examples take it for the engine.
use apcore_mcp_rust.Prelude.{
  String, Char, ◌≡◌, refl, sym, ap, ◌∙◌, ◌⊎◌, inl, inr, Bool, true, false, ◌&&◌, ◌||◌, arith, ◌<>◌,
}
use text.Mathlib.TextLemmas.{nil-append, cons-append}
use apcore_mcp_rust.ModuleId.Pattern.{
  Regex, class, seq, star, Matches, one, both, none_left, again, IsEngine, is_lower, is_word,
  is_dot, segment, module_id_pattern,
}

mutual
  at_start : String → Bool
  at_start String.[] = false
  at_start (String.◌∷◌ c s) = is_lower c && inside s

  inside : String → Bool
  inside String.[] = true
  inside (String.◌∷◌ c s) = (is_word c && inside s) || (is_dot c && at_start s)

-- The regular expressions of the two states.
abbrev Rest : Regex
Rest = seq (star (class is_word)) (star (seq (class is_dot) segment))

letter_first :
    (c : Char) (s : String)
    → is_lower c ≡ true
    → Matches Rest s
    → Matches module_id_pattern (String.◌∷◌ c s)
letter_first c s h (both t u m n e) =
    both (String.◌∷◌ c t) u
      (both (String.◌∷◌ c "") t (one c h refl) m
        (sym (cons-append c "" t ∙ ap (String.◌∷◌ c) (nil-append t))))
      n (ap (String.◌∷◌ c) e ∙ sym (cons-append c t u))

word_next :
    (c : Char) (s : String) → is_word c ≡ true → Matches Rest s → Matches Rest (String.◌∷◌ c s)
word_next c s h (both t u m n e) =
    both (String.◌∷◌ c t) u
      (again (String.◌∷◌ c "") t (one c h refl) m
        (sym (cons-append c "" t ∙ ap (String.◌∷◌ c) (nil-append t))))
      n (ap (String.◌∷◌ c) e ∙ sym (cons-append c t u))

dot_next :
    (c : Char) (s : String)
    → is_dot c ≡ true
    → Matches module_id_pattern s
    → Matches Rest (String.◌∷◌ c s)
dot_next c s h (both t u m n e) =
    both "" (String.◌∷◌ c s) (none_left refl)
      (again (String.◌∷◌ c t) u
        (both (String.◌∷◌ c "") t (one c h refl) m
          (sym (cons-append c "" t ∙ ap (String.◌∷◌ c) (nil-append t))))
        n (ap (String.◌∷◌ c) e ∙ sym (cons-append c t u)))
      (sym (nil-append _))

or-cases : (a b : Bool) → (a || b) ≡ true → (a ≡ true) ⊎ (b ≡ true)
or-cases a b h = ground arith

mutual
  unfolding at_start inside

  at_start_sound : (s : String) → at_start s ≡ true → Matches module_id_pattern s
  at_start_sound String.[] h = cc
  at_start_sound (String.◌∷◌ c s) h =
      letter_first c s (ground arith) (inside_sound s (ground arith))

  inside_sound : (s : String) → inside s ≡ true → Matches Rest s
  inside_sound String.[] h = both "" "" (none_left refl) (none_left refl) (sym (nil-append ""))
  inside_sound (String.◌∷◌ c s) h =
      elim (or-cases (is_word c && inside s) (is_dot c && at_start s) h) [
        | inl k ↦ word_next c s (ground arith) (inside_sound s (ground arith))
        | inr k ↦ dot_next c s (ground arith) (at_start_sound s (ground arith))
      ]

inside-dot :
    (c : Char) (s : String) → is_dot c ≡ true → at_start s ≡ true → inside (String.◌∷◌ c s) ≡ true
unfolding inside
inside-dot c s h k = ground arith

inside-word :
    (c : Char) (s : String) → is_word c ≡ true → inside s ≡ true → inside (String.◌∷◌ c s) ≡ true
unfolding inside
inside-word c s h k = ground arith

at_start-lower :
    (c : Char) (s : String) → is_lower c ≡ true → inside s ≡ true → at_start (String.◌∷◌ c s) ≡ true
unfolding at_start
at_start-lower c s h k = ground arith

-- A text that begins with one character.
one-append : (c : Char) (s t u : String) → s ≡ String.◌∷◌ c "" → u ≡ s <> t → u ≡ String.◌∷◌ c t
one-append c s t u e e' =
    e' ∙ ap (λ w. w <> t) e ∙ cons-append c "" t ∙ ap (String.◌∷◌ c) (nil-append t)

inside-words :
    {t : String}
    → Matches (star (class is_word)) t
    → (u : String) → inside u ≡ true
    → inside (t <> u) ≡ true
inside-words (none_left e) u k = rw (e, nil-append u) k
inside-words (again s t (one c h e) m e') u k =
    rw (one-append c s t _ e e', cons-append c t u) (inside-word c (t <> u) h (inside-words m u k))

at_start-segment :
    {t : String} → Matches segment t → (u : String) → inside u ≡ true → at_start (t <> u) ≡ true
at_start-segment (both s t (one c h e) m e') u k =
    rw (one-append c s t _ e e', cons-append c t u)
      (at_start-lower c (t <> u) h (inside-words m u k))

inside-segments : {u : String} → Matches (star (seq (class is_dot) segment)) u → inside u ≡ true
unfolding inside
inside-segments (none_left e) = rw e refl
inside-segments (again s t (both a b (one c h e) m e') n e'') =
    let front = one-append c a b s e e' in
    rw (e'', front, cons-append c b t)
      (inside-dot c (b <> t) h (at_start-segment m t (inside-segments n)))

at_start_complete : {s : String} → Matches module_id_pattern s → at_start s ≡ true
at_start_complete (both s t m n e) = rw e (at_start-segment m t (inside-segments n))

pub engine : Regex → String → Bool
engine r s = at_start s

pub engine-IsEngine : IsEngine engine
unfolding engine
engine-IsEngine = record { decides = λ s. (at_start_sound s, at_start_complete) }

pub engine_accepts : engine module_id_pattern "image.resize" ≡ true
unfolding engine at_start inside
engine_accepts = refl

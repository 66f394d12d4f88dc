-- ===== src/Router/Paths.antt =====
-- The merge of src/server/router.rs, read path by path.
use apcore_mcp_rust.Prelude.{
  ℕ, zero, suc, ◌+◌, ◌≤◌, String, ◌≡◌, refl, sym, ◌∙◌, subst, inl, inr, Bool, true, false, Option,
  none, some, List, [], ◌∷◌, arith, ◌==◌, if◌then◌else◌, Bool-cases, some_unique, length,
}
use apcore_mcp_rust.Json.{
  Value, null, bool, number, string, array, object, Fields, end, field, get, get_key,
}
use apcore_mcp_rust.Rpc.{is_object}
use apcore_mcp_rust.Router.Merge.{deep_merge, merged_value, IsDistinct, get-merge_fields}

-- The keys of each object are distinct, at every depth of objects.
unfoldable mutual
  pub IsMap : Value → Type 0
  IsMap (object fs) = AreMaps fs
  IsMap _ = Unit

  pub AreMaps : Fields → Type 0
  AreMaps end = Unit
  AreMaps (field k v fs) = (get k fs ≡ none) × IsMap v × AreMaps fs

-- What there is at a path through objects: nothing, an object, or another value.
pub data Seen : Type 0 where
  missing : Seen
  inner : Seen
  leaf : Value → Seen

abbrev pub look : Value → Seen
look (object fs) = inner
look v = leaf v

abbrev pub see : List String → Value → Seen
see [] v = look v
see (k ∷ p) v = elim (get_key k v) [ none ↦ missing | some w ↦ see p w ]

-- A value that is no object stands above the path.
abbrev pub is_overridden : List String → Value → Bool
is_overridden [] v = false
is_overridden (k ∷ p) v =
    if is_object v then elim (get_key k v) [ none ↦ false | some w ↦ is_overridden p w ] else true

-- What an overlay shows, else, unless it overrides the path, what was there.
abbrev pub overlaid : Seen → Bool → Seen → Seen
overlaid (leaf v) overridden below = leaf v
overlaid inner overridden below = inner
overlaid missing overridden below = if overridden then missing else below

overlaid-missing : (s : Seen) (b : Bool) → overlaid s b missing ≡ s
overlaid-missing (leaf v) b = refl
overlaid-missing inner b = refl
overlaid-missing missing true = refl
overlaid-missing missing false = refl

AreMaps-IsDistinct : (fs : Fields) → AreMaps fs → IsDistinct fs
unfolding AreMaps
AreMaps-IsDistinct end h = tt
AreMaps-IsDistinct (field k v fs) (n, m, h) = (n, AreMaps-IsDistinct fs h)

get-IsMap : (k : String) (fs : Fields) (v : Value) → AreMaps fs → get k fs ≡ some v → IsMap v
unfolding get AreMaps
get-IsMap k end v h e = absurd (ground (arith, e))
get-IsMap k (field j w fs) v (n, m, h) e = elim (Bool-cases (j == k)) [
  | inl b ↦ let same : some w ≡ some v = rw (b, get) at e in subst IsMap (some_unique refl same) m
  | inr b ↦ get-IsMap k fs v h (rw (b, get) at e)
]

look-deep_merge :
    (levels : ℕ) (base overlay : Value) → look (deep_merge levels base overlay) ≡ look overlay
unfolding deep_merge
look-deep_merge levels (object b) (object o) = refl
look-deep_merge levels (object b) null = refl
look-deep_merge levels (object b) (bool x) = refl
look-deep_merge levels (object b) (number x) = refl
look-deep_merge levels (object b) (string x) = refl
look-deep_merge levels (object b) (array x) = refl
look-deep_merge levels null o = refl
look-deep_merge levels (bool x) o = refl
look-deep_merge levels (number x) o = refl
look-deep_merge levels (string x) o = refl
look-deep_merge levels (array x) o = refl

-- An overlay on a base that is no object is all there is.
see-overlay :
    (k : String) (p : List String) (base overlay : Value)
    → is_object base ≡ false
    → see (k ∷ p) overlay
      ≡ overlaid (see (k ∷ p) overlay) (is_overridden (k ∷ p) overlay) (see (k ∷ p) base)
unfolding get_key
see-overlay k p null o h = sym (overlaid-missing (see (k ∷ p) o) (is_overridden (k ∷ p) o))
see-overlay k p (bool x) o h = sym (overlaid-missing (see (k ∷ p) o) (is_overridden (k ∷ p) o))
see-overlay k p (number x) o h = sym (overlaid-missing (see (k ∷ p) o) (is_overridden (k ∷ p) o))
see-overlay k p (string x) o h = sym (overlaid-missing (see (k ∷ p) o) (is_overridden (k ∷ p) o))
see-overlay k p (array x) o h = sym (overlaid-missing (see (k ∷ p) o) (is_overridden (k ∷ p) o))
see-overlay k p (object x) o h = cc

module _ (k : String) (p : List String) where
  replaced :
      (levels : ℕ) (base overlay : Value)
      → is_object base ≡ false
      → see (k ∷ p) (deep_merge levels base overlay)
        ≡ overlaid (see (k ∷ p) overlay) (is_overridden (k ∷ p) overlay) (see (k ∷ p) base)
  unfolding deep_merge
  replaced levels null o h = see-overlay k p null o h
  replaced levels (bool x) o h = see-overlay k p (bool x) o h
  replaced levels (number x) o h = see-overlay k p (number x) o h
  replaced levels (string x) o h = see-overlay k p (string x) o h
  replaced levels (array x) o h = see-overlay k p (array x) o h
  replaced levels (object x) o h = cc

overlaid-look : (v : Value) (s : Seen) → overlaid (look v) false s ≡ look v
overlaid-look null s = refl
overlaid-look (bool x) s = refl
overlaid-look (number x) s = refl
overlaid-look (string x) s = refl
overlaid-look (array x) s = refl
overlaid-look (object x) s = refl

abbrev see_in : List String → Option Value → Seen
see_in p o = elim o [ none ↦ missing | some w ↦ see p w ]

abbrev IsPathwise : List String → ℕ → Value → Value → Type 0
IsPathwise p levels base overlay =
    see p (deep_merge levels base overlay)
    ≡ overlaid (see p overlay) (is_overridden p overlay) (see p base)

see_in-merged_value :
    (p : List String)
    → ((levels : ℕ) (base overlay : Value)
        → IsMap overlay
        → length p ≤ levels + 1
        → IsPathwise p levels base overlay)
    → (levels : ℕ) → (x y : Option Value) → ((w : Value) → y ≡ some w → IsMap w)
    → length p + 1 ≤ levels + 1
    → see_in p (merged_value levels x y)
      ≡ overlaid (see_in p y) (elim y [ none ↦ false | some w ↦ is_overridden p w ]) (see_in p x)
see_in-merged_value p ih levels x none m l = refl
see_in-merged_value [] ih zero x (some w) m l = sym (overlaid-look w (see_in [] x))
see_in-merged_value (k ∷ p) ih zero x (some w) m l = absurd (omega (arith, l))
see_in-merged_value p ih (suc n) none (some w) m l =
    sym (overlaid-missing (see p w) (is_overridden p w))
see_in-merged_value p ih (suc n) (some e) (some w) m l = ih n e w (m w refl) (omega (arith, l))

-- The merge, read at any path as deep as the levels that are left, shows what the overlay shows
-- there, and where that shows nothing it shows what was there before, unless the overlay has a
-- value that is no object above the path.
pub see-deep_merge :
    (p : List String) (levels : ℕ) (base overlay : Value)
    → IsMap overlay
    → length p ≤ levels + 1
    → see p (deep_merge levels base overlay)
      ≡ overlaid (see p overlay) (is_overridden p overlay) (see p base)
unfolding deep_merge IsMap get_key
see-deep_merge [] levels base overlay m l =
    look-deep_merge levels base overlay ∙ sym (overlaid-look overlay (look base))
see-deep_merge (k ∷ p) levels null overlay m l = replaced k p levels null overlay refl
see-deep_merge (k ∷ p) levels (bool x) overlay m l = replaced k p levels (bool x) overlay refl
see-deep_merge (k ∷ p) levels (number x) overlay m l = replaced k p levels (number x) overlay refl
see-deep_merge (k ∷ p) levels (string x) overlay m l = replaced k p levels (string x) overlay refl
see-deep_merge (k ∷ p) levels (array x) overlay m l = replaced k p levels (array x) overlay refl
see-deep_merge (k ∷ p) levels (object b) null m l = refl
see-deep_merge (k ∷ p) levels (object b) (bool x) m l = refl
see-deep_merge (k ∷ p) levels (object b) (number x) m l = refl
see-deep_merge (k ∷ p) levels (object b) (string x) m l = refl
see-deep_merge (k ∷ p) levels (object b) (array x) m l = refl
see-deep_merge (k ∷ p) levels (object b) (object o) m l =
    rw (get-merge_fields levels k b o (AreMaps-IsDistinct o m)) (
      see_in-merged_value p (λ n b' o' m' l'. see-deep_merge p n b' o' m' l') levels (get k b)
        (get k o) (λ w e. get-IsMap k o w m e) (omega (arith, l)))

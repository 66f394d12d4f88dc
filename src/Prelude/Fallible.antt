-- ===== src/Prelude/Fallible.antt =====
-- Rust's `Result`, its `?` as a bind, and what a successful chain says of its parts.
use mathlib.Core.Path.{◌≡◌, refl, ap}
use mathlib.Core.Logic.{◌⊎◌, inl, inr}
use mathlib.Core.Option.{Option, none, some}

-- `Result<A, E>`.
pub data Fallible {ℓ κ} (E : Type κ) (A : Type ℓ) : Type (ℓ ⊔ κ) where
  err : E → Fallible E A
  ok : A → Fallible E A

module _ {κ} {E : Type κ} where
  infixl 5 ◌>>=◌
  abbrev pub ◌>>=◌ {ℓ ℓ'} :
      {A : Type ℓ} {B : Type ℓ'} → Fallible E A → (A → Fallible E B) → Fallible E B
  err e >>= next = err e
  ok a >>= next = next a

  module _ {ℓ} {A : Type ℓ} where
    -- `ok_or_else`
    abbrev pub ok_or : Option A → E → Fallible E A
    ok_or (some a) e = ok a
    ok_or none e = err e

    abbrev value_or : Fallible E A → A → A
    value_or (err e) d = d
    value_or (ok a) d = a

    pub Fallible-cases : (x : Fallible E A) → ((e : E) × (x ≡ err e)) ⊎ ((a : A) × (x ≡ ok a))
    Fallible-cases (err e) = inl (e, refl)
    Fallible-cases (ok a) = inr (a, refl)

    pub err-ne-ok : {a : A} {e : E} → ◌≡◌ {A = Fallible E A} (err e) (ok a) → ⊥
    err-ne-ok p = cc

    pub ok_unique : {a b : A} → ◌≡◌ {A = Fallible E A} (ok a) (ok b) → a ≡ b
    ok_unique {a} p = ap (λ r. value_or r a) p

    pub ok_or-eq-ok : (o : Option A) (e : E) (a : A) → ok_or o e ≡ ok a → o ≡ some a
    ok_or-eq-ok none e a h = cc
    ok_or-eq-ok (some b) e a h = ap some (ok_unique h)

    pub bind-eq-ok {ℓ'} :
        {B : Type ℓ'} (step : Fallible E A) (next : A → Fallible E B) {b : B}
        → ◌≡◌ {A = Fallible E B} (step >>= next) (ok b)
        → (a : A) × (step ≡ ok a) × (next a ≡ ok b)
    bind-eq-ok (err e) next h = cc
    bind-eq-ok (ok a) next h = (a, refl, h)

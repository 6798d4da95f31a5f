-- ===== src/Base/Outcome.antt =====
-- What is known of the value that an operation returns, and of the parts of a sequence that returns.
use rust_fatfs.Base.{◌≡◌, refl, ap}
use rust_fatfs.Base.Result.{Result, ok, err, panic, stuck, M, and_then}

abbrev pub Gives : {A : Type 0} → (A → Type 0) → Result A → Type 0
Gives P (ok a) = P a
Gives P _ = Unit

-- A property of the value and of the state that it is returned with.
abbrev pub Leaves : {A S : Type 0} → (A → S → Type 0) → Result A × S → Type 0
Leaves P (ok a, s) = P a s
Leaves P (_, s) = Unit

module _ {A B S : Type 0} where
  pub and_then-Leaves :
      (P : B → S → Type 0) (r : Result A × S) (f : A → M S B)
      → ((a : A) (s : S) → r ≡ (ok a, s) → Leaves P (f a s))
      → Leaves P (and_then r f)
  and_then-Leaves P (ok a, s) f h = h a s refl
  and_then-Leaves P (err e, s) f h = tt
  and_then-Leaves P (panic, s) f h = tt
  and_then-Leaves P (stuck, s) f h = tt

  -- The first part of a sequence that returns.
  pub and_then-ok :
      (r : Result A × S) (f : A → M S B) {b : B} {s' : S}
      → and_then r f ≡ (ok b, s')
      → (a : A) × ((s : S) × (r ≡ (ok a, s)) × (f a s ≡ (ok b, s')))
  and_then-ok (ok a, s) f e = (a, (s, refl, e))
  and_then-ok (err e', s) f e = absurd (cc)
  and_then-ok (panic, s) f e = absurd (cc)
  and_then-ok (stuck, s) f e = absurd (cc)

pub Leaves-map :
    {A S : Type 0} {P Q : A → S → Type 0} (r : Result A × S)
    → ((a : A) (s : S) → P a s → Q a s)
    → Leaves P r
    → Leaves Q r
Leaves-map (ok a, s) f h = f a s h
Leaves-map (err e, s) f h = tt
Leaves-map (panic, s) f h = tt
Leaves-map (stuck, s) f h = tt

abbrev pub value_of : {A : Type 0} → A → Result A → A
value_of d (ok a) = a
value_of d _ = d

pub ok-parts :
    {A S : Type 0} {a b : A} {s s' : S}
    → ◌≡◌ {A = Result A × S} (ok a, s) (ok b, s')
    → (a ≡ b) × (s ≡ s')
ok-parts {a} e = (ap (λ p. value_of a p.0) e, ap (λ p. p.1) e)

-- ===== src/Python/Exec.antt =====
-- A method that changes a state and may raise. What was written before a raise stays written.
use quant_factory.Prelude.{◌≡◌, refl, ap}
use quant_factory.Python.{Exn, Result, ok, err}

abbrev pub Exec : Type 0 → Type 0 → Type 0
Exec S A = S → Result A × S

abbrev pub pure : {S A : Type 0} → A → Exec S A
pure a s = (ok a, s)

abbrev pub raise : {S A : Type 0} → Exn → Exec S A
raise e s = (err e, s)

abbrev pub lift : {S A : Type 0} → Result A → Exec S A
lift r s = (r, s)

abbrev pub gets : {S A : Type 0} → (S → A) → Exec S A
gets f s = (ok (f s), s)

abbrev pub continue : {S A B : Type 0} → Result A → (A → Exec S B) → Exec S B
continue (ok a) f s = f a s
continue (err e) f s = (err e, s)

infixl 5 ◌>>=◌ ◌>>◌
abbrev pub ◌>>=◌ : {S A B : Type 0} → Exec S A → (A → Exec S B) → Exec S B
◌>>=◌ m f s = let (r, s') = m s in continue r f s'

abbrev pub ◌>>◌ : {S A B : Type 0} → Exec S A → Exec S B → Exec S B
m >> k = m >>= λ _. k

-- Inversion of a bind that returned.
pub bind-eq-ok :
    {S A B : Type 0} (m : Exec S A) (step : A → Exec S B) (start : S) {last : B} {stop : S}
    → (m >>= step) start ≡ (ok last, stop)
    → (a : A) × (middle : S) × (m start ≡ (ok a, middle)) × (step a middle ≡ (ok last, stop))
bind-eq-ok {S} {A} {B} m step start {last} {stop} h = go (m start) refl h
  where
    go :
        (r : Result A × S)
        → m start ≡ r
        → continue r.0 step r.1 ≡ (ok last, stop)
        → (a : A) × (middle : S) × (m start ≡ (ok a, middle)) × (step a middle ≡ (ok last, stop))
    go (ok a, middle) e h' = (a, middle, e, h')
    go (err x, middle) e h' = absurd cc

-- Binds of equal starts and equal continuations are equal.
pub bind-same :
    {S A B : Type 0} (m m' : Exec S A) (f g : A → Exec S B) (start : S)
    → m start ≡ m' start
    → ((a : A) (middle : S) → f a middle ≡ g a middle)
    → (m >>= f) start ≡ (m' >>= g) start
bind-same {S} {A} {B} m m' f g start e same = rw e (go (m' start))
  where
    go : (r : Result A × S) → continue r.0 f r.1 ≡ continue r.0 g r.1
    go (ok a, middle) = same a middle
    go (err x, middle) = refl

-- Equal returns have equal values and states.
pub pure-same :
    {S A : Type 0} {x y : A} {s t : S}
    → ◌≡◌ {A = Result A × S} (ok x, s) (ok y, t)
    → (x ≡ y) × (s ≡ t)
pure-same h = (cc h, ap (λ m. m.1) h)

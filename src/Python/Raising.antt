-- ===== src/Python/Raising.antt =====
-- A function that may raise, as a `do` block of `Result`.
use quant_factory.Prelude.{◌≡◌, refl}
use quant_factory.Python.{Result, ok, err}

infixl 5 ◌>>◌ ◌>>=◌
abbrev pub ◌>>=◌ : {A B : Type 0} → Result A → (A → Result B) → Result B
r >>= step = elim r [ ok a ↦ step a | err e ↦ err e ]

abbrev pub ◌>>◌ : {B : Type 0} → Result (Unit {0}) → Result B → Result B
first >> rest = first >>= λ _. rest

-- Inversion of a successful bind, for proofs where the parts stay shut.
pub >>=-eq-ok :
    {A B : Type 0} (r : Result A) (step : A → Result B) {last : B}
    → (r >>= step) ≡ ok last
    → (first : A) × (r ≡ ok first) × (step first ≡ ok last)
>>=-eq-ok (ok first) step ended = (first, refl, ended)
>>=-eq-ok (err e) step ended = absurd (cc ended)

pub ok-injective : {A : Type 0} {a b : A} → Result.ok a ≡ ok b → a ≡ b
ok-injective h = cc h

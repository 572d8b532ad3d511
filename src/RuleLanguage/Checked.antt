-- ===== src/RuleLanguage/Checked.antt =====
-- What a check of `_Validator` returns, adds to `used` and raises.
use quant_factory.Prelude.{
  if◌then◌else◌, refl, ◌≡◌, Bool, true, false, String, List, [], ◌++◌, Option, none, some,
}

-- `overflow` is the `OverflowError` of `math.isfinite` on an integer that no float can hold.
pub data CheckError : Type 0 where
  invalid overflow out_of_fuel : CheckError

pub data Checked (A : Type 0) : Type 0 where
  ok : A → (used : List String) → Checked A
  err : CheckError → Checked A

abbrev pub used_too : {A : Type 0} → List String → Checked A → Checked A
used_too us (ok a vs) = ok a (us ++ vs)
used_too us (err e) = err e

infixl 5 ◌>>=◌ ◌>>◌
unfoldable pub ◌>>=◌ : {A B : Type 0} → Checked A → (A → Checked B) → Checked B
ok a us >>= f = used_too us (f a)
err e >>= f = err e

abbrev pub ◌>>◌ : {A B : Type 0} → Checked A → Checked B → Checked B
m >> k = m >>= λ _. k

abbrev pub pure : {A : Type 0} → A → Checked A
pure a = ok a []

unfoldable pub need : Bool → Checked (Unit {0})
need true = ok tt []
need false = err invalid

unfoldable pub need_some : {A : Type 0} → Option A → Checked A
need_some none = err invalid
need_some (some a) = ok a []

-- A check that returns ends with the postcondition, and it never runs out of fuel.
unfoldable pub Ensures : {A : Type 0} → (A → List String → Type 0) → Checked A → Type 0
Ensures P (ok a us) = P a us
Ensures P (err invalid) = Unit
Ensures P (err overflow) = Unit
Ensures P (err out_of_fuel) = ⊥

module _ {A : Type 0} where
  pub Ensures-weaker :
      (P Q : A → List String → Type 0) (m : Checked A)
      → ((a : A) (us : List String) → P a us → Q a us)
      → Ensures P m
      → Ensures Q m
  unfolding Ensures
  Ensures-weaker P Q (ok a us) weaker h = weaker a us h
  Ensures-weaker P Q (err invalid) weaker h = tt
  Ensures-weaker P Q (err overflow) weaker h = tt
  Ensures-weaker P Q (err out_of_fuel) weaker h = h

  pub Ensures-used_too :
      (P : A → List String → Type 0) (us : List String) (m : Checked A)
      → Ensures (λ a vs. P a (us ++ vs)) m
      → Ensures P (used_too us m)
  unfolding Ensures
  Ensures-used_too P us (ok a vs) h = h
  Ensures-used_too P us (err invalid) h = tt
  Ensures-used_too P us (err overflow) h = tt
  Ensures-used_too P us (err out_of_fuel) h = h

pub Ensures-bind :
    {A B : Type 0} (P : A → List String → Type 0) (Q : B → List String → Type 0) (m : Checked A)
    (f : A → Checked B)
    → Ensures P m
    → ((a : A) (us : List String) → P a us → Ensures (λ b vs. Q b (us ++ vs)) (f a))
    → Ensures Q (m >>= f)
unfolding Ensures ◌>>=◌
Ensures-bind P Q (ok a us) f h next = Ensures-used_too Q us (f a) (next a us h)
Ensures-bind P Q (err invalid) f h next = tt
Ensures-bind P Q (err overflow) f h next = tt
Ensures-bind P Q (err out_of_fuel) f h next = h

-- A test adds nothing to `used`.
pub Ensures-need :
    {B : Type 0} (Q : B → List String → Type 0) (b : Bool) (f : Unit {0} → Checked B)
    → (b ≡ true → Ensures Q (f tt))
    → Ensures Q (need b >>= f)
unfolding Ensures ◌>>=◌ need
Ensures-need Q true f h = Ensures-used_too Q [] (f tt) (h refl)
Ensures-need Q false f h = tt

pub Ensures-ok :
    {A : Type 0} (P : A → List String → Type 0) (a : A) (us : List String)
    → P a us
    → Ensures P (ok a us)
unfolding Ensures
Ensures-ok P a us h = h

pub Ensures-invalid : {A : Type 0} (P : A → List String → Type 0) → Ensures P (err invalid)
unfolding Ensures
Ensures-invalid P = tt

Ensures-overflow : {A : Type 0} (P : A → List String → Type 0) → Ensures P (err overflow)
unfolding Ensures
Ensures-overflow P = tt

pub Ensures-some :
    {A B : Type 0} (Q : B → List String → Type 0) (o : Option A) (f : A → Checked B)
    → ((a : A) → o ≡ some a → Ensures Q (f a))
    → Ensures Q (need_some o >>= f)
unfolding Ensures ◌>>=◌ need_some
Ensures-some Q none f h = tt
Ensures-some Q (some a) f h = Ensures-used_too Q [] (f a) (h a refl)

pub Ensures-if :
    {A : Type 0} (P : A → List String → Type 0) (b : Bool) (m n : Checked A)
    → (b ≡ true → Ensures P m)
    → (b ≡ false → Ensures P n)
    → Ensures P (if b then m else n)
Ensures-if P true m n h k = h refl
Ensures-if P false m n h k = k refl

-- ===== src/Persistence/Tables.antt =====
-- Tables with a text for primary key: SELECT, UPDATE and INSERT by that key.
use quant_factory.Prelude.{
  ◌≡◌, refl, Bool, true, false, any, Option, none, some, List, [], ◌∷◌, ◌++◌, String, arith,
  string_eq, ◌==◌, if◌then◌else◌,
}
use text.Mathlib.TextEquality.{eq_iff}

-- the first row that passes a test
abbrev pub find : {A : Type 0} → (A → Bool) → List A → Option A
find p [] = none
find p (a ∷ rows) = if p a then some a else find p rows

abbrev pub passes : {A : Type 0} → (A → Bool) → Option A → Bool
passes q none = false
passes q (some a) = q a

abbrev pub apply_if : {A : Type 0} → (A → Bool) → (A → A) → Option A → Option A
apply_if q f none = none
apply_if q f (some a) = some (if q a then f a else a)

abbrev pub first_of_two : {A : Type 0} → Option A → Option A → Option A
first_of_two none o = o
first_of_two (some a) o = some a

module _ {A : Type 0} (key : A → String) where
  -- SELECT * FROM rows WHERE key=?
  unfoldable pub get : String → List A → Option A
  get k [] = none
  get k (a ∷ rows) = if key a == k then some a else get k rows

  -- UPDATE rows SET ... WHERE key=? AND ...: the row of a primary key is the only one.
  unfoldable pub update : String → (A → Bool) → (A → A) → List A → List A
  update k q f [] = []
  update k q f (a ∷ rows) =
      if key a == k then (if q a then f a else a) ∷ rows else a ∷ update k q f rows

  -- `cursor.rowcount == 1` after that UPDATE
  unfoldable pub is_updated : String → (A → Bool) → List A → Bool
  unfolding get
  is_updated k q rows = passes q (get k rows)

  pub get-update :
      (k j : String) (q : A → Bool) (f : A → A) (rows : List A)
      → ((a : A) → key (f a) ≡ key a)
      → get j (update k q f rows) ≡ (if k == j then apply_if q f (get j rows) else get j rows)
  unfolding get update
  get-update k j q f [] same = ground arith
  get-update k j q f (a ∷ rows) same = ground (
    arith,
    same a,
    get-update k j q f rows same,
    eq_iff (key a) k,
    eq_iff (key a) j,
    eq_iff k j,
    eq_iff (key (f a)) j,
  )

  pub get-append :
      (j : String) (a : A) (rows : List A)
      → get j (rows ++ a ∷ []) ≡ first_of_two (get j rows) (if key a == j then some a else none)
  unfolding get
  get-append j a [] = refl
  get-append j a (b ∷ rows) = ground (arith, get-append j a rows)

  -- A row that is found has the key that was asked for.
  pub key-get : (k : String) (a : A) (rows : List A) → get k rows ≡ some a → key a ≡ k
  unfolding get
  key-get k a [] h = cc
  key-get k a (b ∷ rows) h = ground (arith, key-get k a rows, eq_iff (key b) k)

  -- Two updates of one row are one.
  pub update-update :
      (k : String) (q : A → Bool)
      → ((a : A) → q a ≡ true)
      → (f g : A → A) (rows : List A) → ((a : A) → key (g a) ≡ key a)
      → update k q f (update k q g rows) ≡ update k q (λ a. f (g a)) rows
  unfolding update
  update-update k q all f g [] same = refl
  update-update k q all f g (a ∷ rows) same =
      ground (arith, same a, all a, all (g a), update-update k q all f g rows same)

  -- A row that is found fails a test that no row passes.
  pub get-any :
      (k : String) (a : A) (p : A → Bool) (rows : List A)
      → get k rows ≡ some a
      → any p rows ≡ false
      → p a ≡ false
  unfolding get
  get-any k a p [] e none_passes = cc
  get-any k a p (b ∷ rows) e none_passes = ground (arith, get-any k a p rows)

  pub is_updated-get :
      (k : String) (q : A → Bool) (rows : List A) → is_updated k q rows ≡ passes q (get k rows)
  unfolding is_updated
  is_updated-get k q rows = refl

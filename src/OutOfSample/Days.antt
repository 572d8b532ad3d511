-- ===== src/OutOfSample/Days.antt =====
-- The unique days of sorted rows: each once, in increasing order.
use quant_factory.Prelude.{
  ℕ, ◌≤◌, ◌<◌, true, false, ◌||◌, List, [], ◌∷◌, ◌++◌, ◌≡◌, refl, arith, All, nat_eq, ◌==◌,
  Bool-cases, inl, inr,
}
use quant_factory.WalkForward.{occurs}
use quant_factory.WalkForward.Cuts.{IsSorted}
use quant_factory.OutOfSample.{without, unique}

abbrev pub IsIncreasing : List ℕ → Type 0
IsIncreasing [] = Unit
IsIncreasing (d ∷ ds) = All (λ e. d < e) ds × IsIncreasing ds

pub All-weaker : (P Q : ℕ → Type 0) (xs : List ℕ) → ((x : ℕ) → P x → Q x) → All P xs → All Q xs
All-weaker P Q [] f h = tt
All-weaker P Q (x ∷ xs) f h = (f x h.0, All-weaker P Q xs f h.1)

All-occurs : (P : ℕ → Type 0) (xs : List ℕ) (x : ℕ) → All P xs → occurs x xs ≡ true → P x
All-occurs P [] x h e = absurd (cc e)
All-occurs P (y ∷ ys) x h e = elim (Bool-cases (x == y)) [
  | inl same ↦ let eq : x ≡ y = ground arith in rw eq h.0
  | inr other ↦ All-occurs P ys x h.1 (ground arith)
]

All-without : (P : ℕ → Type 0) (d : ℕ) (xs : List ℕ) → All P xs → All P (without d xs)
All-without P d [] h = tt
All-without P d (x ∷ xs) h = elim (Bool-cases (d == x)) [
  | inl same ↦ rw same (All-without P d xs h.1)
  | inr other ↦ rw other (h.0, All-without P d xs h.1)
]

All-unique : (P : ℕ → Type 0) (xs : List ℕ) → All P xs → All P (unique xs)
All-unique P [] h = tt
All-unique P (x ∷ xs) h = (h.0, All-without P x (unique xs) (All-unique P xs h.1))

-- Without the least day, the others are later.
without-later : (d : ℕ) (xs : List ℕ) → All (λ e. d ≤ e) xs → All (λ e. d < e) (without d xs)
without-later d [] h = tt
without-later d (x ∷ xs) h = elim (Bool-cases (d == x)) [
  | inl same ↦ rw same (without-later d xs h.1)
  | inr other ↦ rw other (ground arith, without-later d xs h.1)
]

without-IsIncreasing : (d : ℕ) (xs : List ℕ) → IsIncreasing xs → IsIncreasing (without d xs)
without-IsIncreasing d [] h = tt
without-IsIncreasing d (x ∷ xs) h = elim (Bool-cases (d == x)) [
  | inl same ↦ rw same (without-IsIncreasing d xs h.1)
  | inr other ↦ rw other (All-without (λ e. x < e) d xs h.0, without-IsIncreasing d xs h.1)
]

pub unique-IsIncreasing : (ds : List ℕ) → IsSorted ds → IsIncreasing (unique ds)
unique-IsIncreasing [] h = tt
unique-IsIncreasing (d ∷ ds) h = (
  without-later d (unique ds) (All-unique (λ e. d ≤ e) ds h.0),
  without-IsIncreasing d (unique ds) (unique-IsIncreasing ds h.1),
)

occurs-without :
    (d x : ℕ) (xs : List ℕ) → (d == x) ≡ false → occurs x xs ≡ true → occurs x (without d xs) ≡ true
occurs-without d x [] other h = h
occurs-without d x (y ∷ ys) other h = elim (Bool-cases (d == y)) [
  | inl same ↦ rw same (occurs-without d x ys other (ground arith))
  | inr differs ↦ rw differs (ground (arith, occurs-without d x ys))
]

pub occurs-unique : (x : ℕ) (xs : List ℕ) → occurs x xs ≡ true → occurs x (unique xs) ≡ true
occurs-unique x [] h = h
occurs-unique x (y ∷ ys) h = elim (Bool-cases (x == y)) [
  | inl same ↦ rw same refl
  | inr other ↦
      rw other (occurs-without y x (unique ys) (ground arith) (occurs-unique x ys (ground arith)))
]

pub occurs-append_or : (ps bs : List ℕ) (b : ℕ) → occurs b (ps ++ bs) ≡ (occurs b ps || occurs b bs)
occurs-append_or [] bs b = refl
occurs-append_or (a ∷ ps) bs b = ground (arith, occurs-append_or ps bs b)

occurs-append : (ps bs : List ℕ) (b : ℕ) → occurs b bs ≡ true → occurs b (ps ++ bs) ≡ true
occurs-append ps bs b h = ground (arith, occurs-append_or ps bs b)

-- The days of a first part come before those of the rest.
pub parts-lt :
    (ps bs : List ℕ) (a b : ℕ)
    → IsIncreasing (ps ++ bs)
    → occurs a ps ≡ true
    → occurs b bs ≡ true
    → a < b
parts-lt [] bs a b h p q = absurd (cc p)
parts-lt (x ∷ ps) bs a b h p q = elim (Bool-cases (a == x)) [
  | inl same ↦
      let eq : a ≡ x = ground arith in
      rw eq (All-occurs (λ e. x < e) (ps ++ bs) b h.0 (occurs-append ps bs b q))
  | inr other ↦ parts-lt ps bs a b h.1 (ground arith) q
]

pub later-IsIncreasing : (ps bs : List ℕ) → IsIncreasing (ps ++ bs) → IsIncreasing bs
later-IsIncreasing [] bs h = h
later-IsIncreasing (a ∷ ps) bs h = later-IsIncreasing ps bs h.1

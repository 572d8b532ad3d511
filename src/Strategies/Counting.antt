-- ===== src/Strategies/Counting.antt =====
-- How often a combination stands among the combinations of some lists of values.
use quant_factory.Prelude.{
  all, ℕ, ◌+◌, ◌*◌, ◌≤◌, Bool, true, false, ◌&&◌, List, [], ◌∷◌, ◌++◌, map, length, HasEq, nat_eq,
  ◌==◌, nat_beq_iff, &&-parts, if◌then◌else◌, Bool-cases, inl, inr, ◌≡◌, refl, arith,
}
use quant_factory.Strategies.{contains, to_set, has_no_repeat}
use quant_factory.Strategies.Products.{each_before, product}

abbrev pub one_if : Bool → ℕ
one_if b = if b then 1 else 0

one_if-and : (b c : Bool) → one_if b * one_if c ≡ one_if (b && c)
one_if-and true c = omega arith
one_if-and false c = omega arith

-- the number of the elements that pass a test
abbrev pub tally : {A : Type 0} → (A → Bool) → List A → ℕ
tally p [] = 0
tally p (x ∷ xs) = (if p x then 1 else 0) + tally p xs

tally-append :
    {A : Type 0} (p : A → Bool) (xs ys : List A) → tally p (xs ++ ys) ≡ tally p xs + tally p ys
tally-append p [] ys = omega arith
tally-append p (x ∷ xs) ys = omega (arith, tally-append p xs ys)

module _ {A : Type 0} ⦃e : HasEq A⦄ where
  abbrev pub same_list : List A → List A → Bool
  same_list [] [] = true
  same_list [] (_ ∷ _) = false
  same_list (_ ∷ _) [] = false
  same_list (x ∷ xs) (y ∷ ys) = (y == x) && same_list xs ys

  -- one value of each list, in the order of the lists
  abbrev pub is_choice : List A → List (List A) → Bool
  is_choice [] [] = true
  is_choice [] (_ ∷ _) = false
  is_choice (_ ∷ _) [] = false
  is_choice (t ∷ ts) (xs ∷ xss) = contains t xs && is_choice ts xss

  tally-none : (t : A) (xs : List A) → contains t xs ≡ false → tally (λ y. y == t) xs ≡ 0
  tally-none t [] absent = refl
  tally-none t (x ∷ xs) absent = elim (Bool-cases (x == t)) [
    | inl here ↦ absurd (cc (absent, here))
    | inr other ↦ let rest = tally-none t xs (rw other at absent) in rw other (omega (arith, rest))
  ]

  length-to_set : (xs : List A) → length (to_set xs) ≤ length xs
  unfolding to_set
  length-to_set [] = omega arith
  length-to_set (x ∷ xs) = elim (Bool-cases (contains x xs)) [
    | inl again ↦ rw again (omega (arith, length-to_set xs))
    | inr new ↦ rw new (omega (arith, length-to_set xs))
  ]

  -- A list that is as long as its set has a value once.
  tally_unique :
      (t : A) (xs : List A)
      → length xs ≡ length (to_set xs)
      → tally (λ y. y == t) xs ≡ one_if (contains t xs)
  unfolding to_set
  tally_unique t [] same = refl
  tally_unique t (x ∷ xs) same = elim (Bool-cases (contains x xs)) [
    | inl again ↦ absurd (omega (arith, length-to_set xs, (rw again at same)))
    | inr new ↦
        let rest = tally_unique t xs (omega (arith, (rw new at same))) in
        elim (Bool-cases (x == t)) [
          | inl here ↦
              let none_left = tally-none t xs (rw ((e.same_iff x t).0 here) at new) in
              rw (here, none_left) (omega arith)
          | inr other ↦ rw (other, rest) (omega arith)
        ]
  ]

  tally-map :
      (t x : A) (ts : List A) (rest : List (List A))
      → tally (same_list (t ∷ ts)) (map (λ us. x ∷ us) rest)
        ≡ one_if (x == t) * tally (same_list ts) rest
  tally-map t x ts [] = omega arith
  tally-map t x ts (us ∷ rest) = elim (Bool-cases (x == t)) [
    | inl here ↦
        let rest_of = rw here at (tally-map t x ts rest) in rw here (omega (arith, rest_of))
    | inr other ↦
        let rest_of = rw other at (tally-map t x ts rest) in rw other (omega (arith, rest_of))
  ]

  tally-none_before :
      (x : A) (rest : List (List A)) → tally (same_list []) (map (λ us. x ∷ us) rest) ≡ 0
  tally-none_before x [] = refl
  tally-none_before x (us ∷ rest) = omega (arith, tally-none_before x rest)

  tally-nil : (xs : List A) (rest : List (List A)) → tally (same_list []) (each_before xs rest) ≡ 0
  tally-nil [] rest = refl
  tally-nil (x ∷ xs) rest =
      rw
        (
          tally-append (same_list []) (map (λ us. x ∷ us) rest) (each_before xs rest),
          tally-nil xs rest,
          tally-none_before x rest,
        )
        refl

  tally-each_before :
      (t : A) (ts xs : List A) (rest : List (List A))
      → tally (same_list (t ∷ ts)) (each_before xs rest)
        ≡ tally (λ y. y == t) xs * tally (same_list ts) rest
  tally-each_before t ts [] rest = omega arith
  tally-each_before t ts (x ∷ xs) rest =
      rw
        (
          tally-append (same_list (t ∷ ts)) (map (λ us. x ∷ us) rest) (each_before xs rest),
          tally-map t x ts rest,
          tally-each_before t ts xs rest,
        )
        (grind arith)

  -- Every combination of lists without repeated values stands among the combinations once.
  pub tally-product :
      (ts : List A) (xss : List (List A))
      → all has_no_repeat xss ≡ true
      → tally (same_list ts) (product xss) ≡ one_if (is_choice ts xss)
  unfolding product
  tally-product [] [] unique = refl
  tally-product (t ∷ ts) [] unique = refl
  tally-product [] (xs ∷ xss) unique = tally-nil xs (product xss)
  tally-product (t ∷ ts) (xs ∷ xss) unique =
      let (first, rest) = &&-parts _ _ unique in
      rw
        (
          tally-each_before t ts xs (product xss),
          tally_unique t xs ((nat_beq_iff (length xs) (length (to_set xs))).0 first),
          tally-product ts xss rest,
        )
        (one_if-and (contains t xs) (is_choice ts xss))

-- ===== src/Chunking/Positions.antt =====
-- Slices, ranges and columns by position.
use quant_factory.Prelude.{
  ℕ, zero, suc, ◌+◌, ◌≤◌, List, [], ◌∷◌, ◌++◌, map, length, arith, ◌≡◌, refl, ap, ◌∙◌,
}
use quant_factory.Chunking.{positions, take, drop}
use native.Mathlib.Numerals.{unary_clauses}
use native.Mathlib.Nat.{zero-add}
use mathlib.Core.List.{append_assoc}

module _ {A : Type 0} where
  pub append-take-drop : (n : ℕ) (xs : List A) → take n xs ++ drop n xs ≡ xs
  append-take-drop zero xs = refl
  append-take-drop (suc n) [] = refl
  append-take-drop (suc n) (x ∷ xs) = ap (λ r. x ∷ r) (append-take-drop n xs)

  pub drop-drop : (m n : ℕ) (xs : List A) → drop n (drop m xs) ≡ drop (m + n) xs
  drop-drop zero n xs = rw (zero-add n)
  drop-drop (suc m) zero [] = simp unary_clauses
  drop-drop (suc m) (suc n) [] = simp unary_clauses
  drop-drop (suc m) n (x ∷ xs) =
      drop-drop m n xs ∙ ap (λ k. drop k (x ∷ xs)) {x = suc (m + n)} {y = suc m + n} (omega arith)

  pub drop-all : (n : ℕ) (xs : List A) → length xs ≤ n → drop n xs ≡ []
  drop-all zero [] le = refl
  drop-all (suc n) [] le = refl
  drop-all zero (x ∷ xs) le = absurd (omega arith)
  drop-all (suc n) (x ∷ xs) le = drop-all n xs (omega arith)

  pub length-map : {B : Type 0} (f : A → B) (xs : List A) → length (map f xs) ≡ length xs
  length-map f [] = refl
  length-map f (x ∷ xs) = ap suc (length-map f xs)

  length-snoc : (xs : List A) (x : A) → length (xs ++ x ∷ []) ≡ suc (length xs)
  length-snoc [] x = refl
  length-snoc (y ∷ xs) x = ap suc (length-snoc xs x)

module _ {A B : Type 0} (at : List A → ℕ → B) (value : A → B)
    (column : (xs : List A) (x : A) (ys : List A) → at (xs ++ x ∷ ys) (length xs) ≡ value x) where
  columns_after :
      (xs ys : List A) → map (at (xs ++ ys)) (positions (length xs) (length ys)) ≡ map value ys
  columns_after xs [] = refl
  columns_after xs (y ∷ ys) =
      let moved = columns_after (xs ++ y ∷ []) ys in
      let rest : map (at (xs ++ y ∷ ys)) (positions (suc (length xs)) (length ys)) ≡ map value ys =
        rw (length-snoc xs y) at (rw (append_assoc xs (y ∷ []) ys) at moved) in
      rw (column xs y ys) (ap (λ r. value y ∷ r) rest)

  -- The columns of a chunk, one by one, are those of its settings.
  pub map-positions : (xs : List A) → map (at xs) (positions 0 (length xs)) ≡ map value xs
  map-positions xs = columns_after [] xs

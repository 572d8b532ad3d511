-- ===== src/Strategies/Products.antt =====
-- `itertools.product`: the combinations of the values of some parameters, and their number.
use quant_factory.Prelude.{ℕ, ◌+◌, ◌*◌, List, [], ◌∷◌, ◌++◌, map, length, ◌≡◌, refl, arith}
use quant_factory.Chunking.Positions.{length-map}

length-append : {A : Type 0} (xs ys : List A) → length (xs ++ ys) ≡ length xs + length ys
length-append [] ys = omega arith
length-append (x ∷ xs) ys = omega (arith, length-append xs ys)

module _ {A : Type 0} where
  abbrev pub each_before : List A → List (List A) → List (List A)
  each_before [] rest = []
  each_before (x ∷ xs) rest = map (λ ts. x ∷ ts) rest ++ each_before xs rest

  -- `itertools.product(*choices)`
  unfoldable pub product : List (List A) → List (List A)
  product [] = [] ∷ []
  product (xs ∷ xss) = each_before xs (product xss)

  abbrev pub number_of : List (List A) → ℕ
  number_of [] = 1
  number_of (xs ∷ xss) = length xs * number_of xss

  length-each_before :
      (xs : List A) (rest : List (List A)) → length (each_before xs rest) ≡ length xs * length rest
  length-each_before [] rest = omega arith
  length-each_before (x ∷ xs) rest =
      rw
        (
          length-append (map (λ ts. x ∷ ts) rest) (each_before xs rest),
          length-map (λ ts. x ∷ ts) rest,
          length-each_before xs rest,
        )
        (grind arith)

  pub length-product : (xss : List (List A)) → length (product xss) ≡ number_of xss
  unfolding product
  length-product [] = refl
  length-product (xs ∷ xss) = rw (length-each_before xs (product xss), length-product xss)

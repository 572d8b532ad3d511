-- ===== src/WalkForward/Days.antt =====
-- backtesting/walk_forward/sessions.py, `session_of`, and pandas' `normalize`: the days of the rows.
use quant_factory.Prelude.{
  inl, suc, Bool-cases, inr, ◌⊎◌, ℕ, ◌-◌, ◌≤◌, ◌≡◌, refl, Option, none, some, List, [], ◌∷◌, map,
  arith, length, true, All, leb,
}
use quant_factory.WalkForward.{
  session_grid, windows_from, out_of_fuel, Window, Config, no_sessions, err,
  build_walk_forward_windows, ok, at, search_right, is_monotonic, session_of, row_days, Result,
}
use quant_factory.WalkForward.Cuts.{IsSorted}

-- A later timestamp has no earlier day.
abbrev pub KeepsOrder : (ℕ → ℕ) → Type 0
KeepsOrder f = (s t : ℕ) → s ≤ t → f s ≤ f t

search_right-KeepsOrder : (opens : List ℕ) → KeepsOrder (search_right opens)
unfolding search_right
search_right-KeepsOrder [] s t le = omega arith
search_right-KeepsOrder (o ∷ opens) s t le = ground (arith, search_right-KeepsOrder opens s t le)

map-All :
    (f : ℕ → ℕ) (v t : ℕ) (ts : List ℕ)
    → KeepsOrder f
    → v ≤ t
    → is_monotonic (t ∷ ts) ≡ true
    → All (λ x. f v ≤ x) (map f ts)
map-All f v t [] keeps le sorted = tt
map-All f v t (u ∷ ts) keeps le sorted =
    let (first, rest) : (t ≤ u) × (is_monotonic (u ∷ ts) ≡ true) = ground arith in
    (keeps v u (omega arith), map-All f v u ts keeps (omega arith) rest)

map-IsSorted :
    (f : ℕ → ℕ) (ts : List ℕ) → KeepsOrder f → is_monotonic ts ≡ true → IsSorted (map f ts)
map-IsSorted f [] keeps sorted = tt
map-IsSorted f (t ∷ []) keeps sorted = (tt, tt)
map-IsSorted f (t ∷ u ∷ ts) keeps sorted =
    let (_, rest) : (t ≤ u) × (is_monotonic (u ∷ ts) ≡ true) = ground arith in
    (map-All f t t (u ∷ ts) keeps (omega arith) sorted, map-IsSorted f (u ∷ ts) keeps rest)

length-map : (f : ℕ → ℕ) (ts : List ℕ) → length (map f ts) ≡ length ts
length-map f [] = refl
length-map f (t ∷ ts) = omega (arith, length-map f ts)

-- The days of rows in order are in order, and there are as many as rows.
pub row_days-IsSorted :
    (normalize : ℕ → ℕ) (alignment : Option (ℕ → ℕ → List ℕ)) (index dates : List ℕ)
    → KeepsOrder normalize
    → is_monotonic index ≡ true
    → row_days normalize alignment index ≡ ok dates
    → IsSorted dates × (length dates ≡ length index)
unfolding row_days session_grid session_of
row_days-IsSorted normalize none index dates keeps sorted h =
    let same : map normalize index ≡ dates = cc h in
    rw (← same) (map-IsSorted normalize index keeps sorted, length-map normalize index)
row_days-IsSorted normalize (some schedule) index dates keeps sorted h =
    let opens = schedule (at index 0) (at index (length index - 1)) in
    let same : map (search_right opens) index ≡ dates = ground arith in
    rw (← same) (
      map-IsSorted (search_right opens) index (search_right-KeepsOrder opens) sorted,
      length-map (search_right opens) index,
    )

row_days-cases :
    (normalize : ℕ → ℕ) (alignment : Option (ℕ → ℕ → List ℕ)) (index : List ℕ)
    → (row_days normalize alignment index ≡ err no_sessions)
      ⊎ ((dates : List ℕ) × (row_days normalize alignment index ≡ ok dates))
unfolding row_days session_grid session_of
row_days-cases normalize none index = inr (map normalize index, refl)
row_days-cases normalize (some schedule) index =
    let opens = schedule (at index 0) (at index (length index - 1)) in
    elim (Bool-cases (leb (length opens) 0)) [
      | inl closed ↦ inl (ground arith)
      | inr some_opens ↦ inr (map (search_right opens) index, ground arith)
    ]

-- A call that gets to the loop has found the days of its rows, which do not go back.
pub build_walk_forward_windows-days :
    (label normalize : ℕ → ℕ) (alignment : Option (ℕ → ℕ → List ℕ)) (index : List ℕ) (c : Config)
    (r : Result (List Window))
    → KeepsOrder normalize
    → build_walk_forward_windows label normalize alignment index c ≡ r
    → ((ws : List Window) × (r ≡ ok ws)) ⊎ (r ≡ err out_of_fuel)
    → (dates : List ℕ) × (row_days normalize alignment index ≡ ok dates)
      × IsSorted dates
      × (length dates ≡ length index)
      × (windows_from label index dates c (suc (length index)) c.training_window_size 1 ≡ r)
unfolding build_walk_forward_windows
build_walk_forward_windows-days label normalize alignment index c r keeps h looped =
    elim (row_days-cases normalize alignment index) [
      | inl closed ↦ absurd (ground arith)
      | inr (dates, e) ↦
          let sorted : is_monotonic index ≡ true = ground arith in
          let loop : windows_from label index dates c (suc (length index)) c.training_window_size 1
              ≡ r =
            ground arith in
          let (in_order, as_many) =
            row_days-IsSorted normalize alignment index dates keeps sorted e in
          (dates, e, in_order, as_many, loop)
    ]

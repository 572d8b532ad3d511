-- ===== src/WalkForward/Cuts.antt =====
-- backtesting/walk_forward/splitter.py, `_day_start` and `_session_floor`: where a cut lands.
use quant_factory.Prelude.{
  ℕ, zero, suc, ◌-◌, ◌≤◌, ◌<◌, ◌≡◌, inl, inr, List, [], ◌∷◌, arith, leb, Bool-cases, length, All,
}
use quant_factory.WalkForward.{at, search_right, search_left, day_start, session_floor}

-- The days of the rows never go back.
abbrev pub IsSorted : List ℕ → Type 0
IsSorted [] = Unit
IsSorted (d ∷ ds) = All (λ x. d ≤ x) ds × IsSorted ds

All-at : (P : ℕ → Type 0) (ds : List ℕ) (i : ℕ) → All P ds → i < length ds → P (at ds i)
All-at P [] i h lt = elim lt [ ]
All-at P (d ∷ ds) zero h lt = h.0
All-at P (d ∷ ds) (suc i) h lt = All-at P ds i h.1 (omega arith)

-- A cut at the first row later than `v` leaves no later row before it ...
search_right-below : (ds : List ℕ) (v i : ℕ) → i < search_right ds v → at ds i ≤ v
unfolding search_right
search_right-below [] v i h = elim h [ ]
search_right-below (d ∷ ds) v zero h = ground arith
search_right-below (d ∷ ds) v (suc i) h = ground (arith, search_right-below ds v i)

-- ... and none that is as early after it.
search_right-above :
    (ds : List ℕ) (v i : ℕ) → IsSorted ds → search_right ds v ≤ i → i < length ds → v < at ds i
unfolding search_right
search_right-above [] v i s h lt = elim lt [ ]
search_right-above (d ∷ ds) v zero s h lt = ground arith
search_right-above (d ∷ ds) v (suc i) s h lt = elim (Bool-cases (leb d v)) [
  | inl early ↦ ground (arith, search_right-above ds v i s.1)
  | inr late ↦ ground (arith, All-at (λ x. d ≤ x) ds i s.0)
]

search_right-le-length : (ds : List ℕ) (v : ℕ) → search_right ds v ≤ length ds
unfolding search_right
search_right-le-length [] v = omega arith
search_right-le-length (d ∷ ds) v = ground (arith, search_right-le-length ds v)

-- The first row later than row `i` comes after row `i`.
lt-search_right :
    (ds : List ℕ) (i : ℕ) → IsSorted ds → i < length ds → i < search_right ds (at ds i)
unfolding search_right
lt-search_right [] i s lt = elim lt [ ]
lt-search_right (d ∷ ds) zero s lt = ground arith
lt-search_right (d ∷ ds) (suc i) s lt =
    ground (arith, lt-search_right ds i s.1, All-at (λ x. d ≤ x) ds i s.0)

search_left-le : (ds : List ℕ) (i : ℕ) → i < length ds → search_left ds (at ds i) ≤ i
unfolding search_left
search_left-le [] i lt = elim lt [ ]
search_left-le (d ∷ ds) zero lt = ground arith
search_left-le (d ∷ ds) (suc i) lt = ground (arith, search_left-le ds i)

pub session_floor-le : (ds : List ℕ) (i : ℕ) → i < length ds → session_floor ds i ≤ i
unfolding session_floor
session_floor-le = search_left-le

-- A cut only moves forward, and stays within the data.
pub day_start_bounds :
    (ds : List ℕ) (p : ℕ)
    → IsSorted ds
    → (p ≤ day_start ds p) × (p ≤ length ds → day_start ds p ≤ length ds)
unfolding day_start
day_start_bounds ds p s =
    ground (arith, lt-search_right ds (p - 1) s, search_right-le-length ds (at ds (p - 1)))

-- No day has rows on both sides of the cut `c`.
abbrev pub NoStraddle : List ℕ → ℕ → Type 0
NoStraddle ds c = (i j : ℕ) → i < c → c ≤ j → j < length ds → at ds i < at ds j

search_right-NoStraddle : (ds : List ℕ) (v : ℕ) → IsSorted ds → NoStraddle ds (search_right ds v)
search_right-NoStraddle ds v s i j before after lt =
    omega (arith, search_right-below ds v i before, search_right-above ds v j s after lt)

pub day_start-NoStraddle : (ds : List ℕ) (p : ℕ) → IsSorted ds → NoStraddle ds (day_start ds p)
unfolding day_start
day_start-NoStraddle ds p s i j before after lt =
    ground (arith, search_right-NoStraddle ds (at ds (p - 1)) s i j)

-- A cut that splits no day stays where it is.
pub day_start_fixed : (ds : List ℕ) (p : ℕ) → IsSorted ds → NoStraddle ds p → day_start ds p ≡ p
unfolding day_start
day_start_fixed ds p s split =
    ground (
      arith,
      lt-search_right ds (p - 1) s,
      search_right-below ds (at ds (p - 1)) p,
      split (p - 1) p,
    )

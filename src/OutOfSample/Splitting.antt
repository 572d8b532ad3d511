-- ===== src/OutOfSample/Splitting.antt =====
-- `split_chronologically`: three parts of the history, in order.
use quant_factory.OutOfSample.Joining.{
  IsSplit, Judged, monotonic-All, Judged-weaker, split_frames-Judged, frames-Ordered, parts_whole,
}
use quant_factory.Prelude.{
  ℕ, ◌≤◌, ◌<◌, true, List, [], ◌∷◌, ◌++◌, map, ◌≡◌, ◌≢◌, refl, arith, All, nat_eq, Bool-cases, inl,
  inr, length, sym,
}
use quant_factory.WalkForward.{occurs, is_monotonic, is_unique}
use quant_factory.OutOfSample.{
  out_of_order, SplitResult, ok, err, SplitConfig, ChronologicalSplit, frame, days_of, train_days,
  selection_days, test_days, split_frames, split_chronologically,
}
use quant_factory.OutOfSample.Days.{
  IsIncreasing, parts-lt, occurs-append_or, later-IsIncreasing, unique-IsIncreasing, occurs-unique,
}
use quant_factory.OutOfSample.Frames.{AreSorted, frame-append, frame_whole}

module _ (day : ℕ → ℕ) (forward : (t u : ℕ) → t ≤ u → day t ≤ day u) where
  All-day : (t : ℕ) (ts : List ℕ) → All (λ u. t ≤ u) ts → All (λ d. day t ≤ d) (map day ts)
  All-day t [] h = tt
  All-day t (u ∷ us) h = (forward t u h.0, All-day t us h.1)

  monotonic-AreSorted : (index : List ℕ) → is_monotonic index ≡ true → AreSorted day index
  monotonic-AreSorted [] h = tt
  monotonic-AreSorted (t ∷ []) h = (tt, tt)
  monotonic-AreSorted (t ∷ u ∷ us) h =
      (All-day t (u ∷ us) (monotonic-All t (u ∷ us) h), monotonic-AreSorted (u ∷ us) (ground arith))

  rows-occur :
      (rows others : List ℕ)
      → ((t : ℕ) → occurs (day t) (map day rows) ≡ true → occurs (day t) others ≡ true)
      → All (λ t. occurs (day t) others ≡ true) rows
  rows-occur [] others f = tt
  rows-occur (r ∷ rows) others f =
      (f r (ground arith), rows-occur rows others (λ t h. f t (ground arith)))

  frames_whole :
      (index ps bs cs days : List ℕ)
      → ps ++ (bs ++ cs) ≡ days
      → IsIncreasing days
      → AreSorted day index
      → All (λ t. occurs (day t) days ≡ true) index
      → frame day index ps ++ (frame day index bs ++ frame day index cs) ≡ index
  frames_whole index ps bs cs days parts increasing sorted inside =
      let all = rw (sym parts) at increasing in
      rw (frame-append day index bs cs (later-IsIncreasing ps (bs ++ cs) all) sorted) (
        rw (frame-append day index ps (bs ++ cs) all sorted)
          (rw parts (frame_whole day index days inside)))

  days-IsIncreasing :
      (index : List ℕ) → is_monotonic index ≡ true → IsIncreasing (days_of day index)
  days-IsIncreasing index sorted =
      unique-IsIncreasing (map day index) (monotonic-AreSorted index sorted)

  split-whole :
      (index : List ℕ) (c : SplitConfig)
      → is_monotonic index ≡ true
      → frame day index (train_days c (days_of day index))
          ++ (frame day index (selection_days c (days_of day index))
              ++ frame day index (test_days c (days_of day index)))
        ≡ index
  split-whole index c sorted =
      frames_whole index (train_days c (days_of day index)) (selection_days c (days_of day index))
        (test_days c (days_of day index)) (days_of day index) (parts_whole c (days_of day index))
        (days-IsIncreasing index sorted) (monotonic-AreSorted index sorted)
        (rows-occur index (days_of day index) (λ t h. occurs-unique (day t) (map day index) h))

  -- The parts of a split of `index`, and the parts together.
  abbrev IsSplitOf : List ℕ → SplitConfig → ChronologicalSplit → Type 0
  IsSplitOf index c s =
      (s.train.rows ++ (s.selection.rows ++ s.test.rows) ≡ index)
      × IsSplit c.minimum_rows_per_partition (frame day index (train_days c (days_of day index)))
          (frame day index (selection_days c (days_of day index)))
          (frame day index (test_days c (days_of day index))) s

  sorted-Judged :
      (index : List ℕ) (c : SplitConfig)
      → is_monotonic index ≡ true
      → Judged (IsSplitOf index c) (
          split_frames day c.minimum_rows_per_partition
            (frame day index (train_days c (days_of day index)))
            (frame day index (selection_days c (days_of day index)))
            (frame day index (test_days c (days_of day index))))
  sorted-Judged index c sorted =
      let days = days_of day index in
      let increasing : IsIncreasing
          (train_days c days ++ (selection_days c days ++ test_days c days)) =
        rw (parts_whole c days) (days-IsIncreasing index sorted) in
      Judged-weaker
        (IsSplit c.minimum_rows_per_partition (frame day index (train_days c days))
          (frame day index (selection_days c days)) (frame day index (test_days c days)))
        (IsSplitOf index c)
        (split_frames day c.minimum_rows_per_partition (frame day index (train_days c days))
          (frame day index (selection_days c days)) (frame day index (test_days c days)))
        (λ s h.
          (rw h.train_rows (rw h.selection_rows (rw h.test_rows (split-whole index c sorted))), h))
        (split_frames-Judged day c.minimum_rows_per_partition _ _ _
          (frames-Ordered day index (train_days c days) (selection_days c days) (λ d e p q.
            parts-lt (train_days c days) (selection_days c days ++ test_days c days) d e increasing
              p (rw (occurs-append_or (selection_days c days) (test_days c days) e) (rw q refl))))
          (frames-Ordered day index (selection_days c days) (test_days c days) (λ d e p q.
            parts-lt (selection_days c days) (test_days c days) d e
              (later-IsIncreasing (train_days c days) _ increasing) p q)))

  split-Judged :
      (index : List ℕ) (c : SplitConfig)
      → Judged (IsSplitOf index c) (split_chronologically day index c)
  unfolding split_chronologically
  split-Judged [] c = λ e. cc e
  split-Judged (t ∷ ts) c = elim (Bool-cases (is_monotonic (t ∷ ts))) [
    | inr unsorted ↦ rw unsorted (λ e. cc e)
    | inl sorted ↦ rw sorted (elim (Bool-cases (is_unique (t ∷ ts))) [
      | inr repeated ↦ rw repeated (λ e. cc e)
      | inl single ↦ rw single (sorted-Judged (t ∷ ts) c sorted)
    ])
  ]

Judged-ok :
    (P : ChronologicalSplit → Type 0) (r : SplitResult ChronologicalSplit) (s : ChronologicalSplit)
    → Judged P r
    → r ≡ ok s
    → P s
Judged-ok P r s h e = rw e at h

Judged-err :
    (P : ChronologicalSplit → Type 0) (r : SplitResult ChronologicalSplit)
    → Judged P r
    → r ≢ err out_of_order
Judged-err P (ok s) h e = cc e
Judged-err P (err e') h e = h (cc e)

-- Where days go forward with timestamps, the three parts of a split, one after the other, are all
-- the rows in their order; each has the minimum of rows; and each ends on a day before the first day
-- of the next, so that no day is divided.
pub split_chronologically-parts :
    (day : ℕ → ℕ)
    → ((t u : ℕ) → t ≤ u → day t ≤ day u)
    → (index : List ℕ) (c : SplitConfig) (s : ChronologicalSplit)
    → split_chronologically day index c ≡ ok s
    → (s.train.rows ++ (s.selection.rows ++ s.test.rows) ≡ index)
      × (c.minimum_rows_per_partition ≤ length s.train.rows)
      × (c.minimum_rows_per_partition ≤ length s.selection.rows)
      × (c.minimum_rows_per_partition ≤ length s.test.rows)
      × (s.train.last_day < s.selection.first_day)
      × (s.selection.last_day < s.test.first_day)
split_chronologically-parts day forward index c s found =
    let h = Judged-ok _ _ s (split-Judged day forward index c) found in
    (
      h.0,
      rw h.1.train_rows h.1.train_enough,
      rw h.1.selection_rows h.1.selection_enough,
      rw h.1.test_rows h.1.test_enough,
      h.1.train_before,
      h.1.selection_before,
    )

-- The last check of `split_chronologically`, that the parts are in order, never fails where days go
-- forward with timestamps.
pub split_chronologically-ordered :
    (day : ℕ → ℕ)
    → ((t u : ℕ) → t ≤ u → day t ≤ day u)
    → (index : List ℕ) (c : SplitConfig) → split_chronologically day index c ≢ err out_of_order
split_chronologically-ordered day forward index c =
    Judged-err _ _ (split-Judged day forward index c)

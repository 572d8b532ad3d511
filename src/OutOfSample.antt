-- ===== src/OutOfSample.antt =====
-- backtesting/out_of_sample: the split of a history into training, selection and test.
--
-- A row is its timestamp. `day` is `normalize()`, the calendar day of a timestamp; the texts of two
-- dates compare like their days. `train_share` and `selection_share` are `int(n * fraction)` of the
-- configuration's fractions, which are floats.
mod Days
mod Frames
mod Joining
pub mod Splitting
mod Samples
use quant_factory.Prelude.{
  ℕ, zero, suc, ◌+◌, Bool, true, false, not, ◌&&◌, ◌||◌, List, [], ◌∷◌, map, length, keep, ltb,
  nat_eq, ◌==◌, if◌then◌else◌,
}
use quant_factory.WalkForward.{is_monotonic, is_unique, occurs}
use quant_factory.Chunking.{take, drop}

pub data SplitError : Type 0 where
  empty_data unsorted_data duplicate_index too_few_rows empty_partition out_of_order : SplitError

pub data SplitResult (A : Type 0) : Type 0 where
  ok : A → SplitResult A
  err : SplitError → SplitResult A

infixl 5 ◌>>=◌ ◌>>◌
abbrev pub ◌>>=◌ : {A B : Type 0} → SplitResult A → (A → SplitResult B) → SplitResult B
ok a >>= f = f a
err e >>= f = err e

abbrev pub ◌>>◌ : {B : Type 0} → SplitResult (Unit {0}) → SplitResult B → SplitResult B
m >> k = m >>= λ _. k

abbrev refuse_if : Bool → SplitError → SplitResult (Unit {0})
refuse_if true e = err e
refuse_if false e = ok tt

pub record SplitConfig : Type 0 where
  pub train_share : ℕ → ℕ
  pub selection_share : ℕ → ℕ
  pub minimum_rows_per_partition : ℕ

-- `DataPartition`: its rows, and the days of the first and of the last.
pub record Slice : Type 0 where
  pub rows : List ℕ
  pub first_day : ℕ
  pub last_day : ℕ

pub record ChronologicalSplit : Type 0 where
  pub train : Slice
  pub selection : Slice
  pub test : Slice

abbrev is_empty_list : List ℕ → Bool
is_empty_list [] = true
is_empty_list (_ ∷ _) = false

abbrev pub without : ℕ → List ℕ → List ℕ
without d [] = []
without d (e ∷ es) = if d == e then without d es else e ∷ without d es

-- `days.unique()`, in the order of the first appearance
abbrev pub unique : List ℕ → List ℕ
unique [] = []
unique (d ∷ ds) = d ∷ without d (unique ds)

abbrev first_or : ℕ → List ℕ → ℕ
first_or d [] = d
first_or d (e ∷ es) = e

abbrev pub last_or : ℕ → List ℕ → ℕ
last_or d [] = d
last_or d (e ∷ es) = last_or e es

-- `unique_days[:train_end]`, `[train_end:selection_end]` and `[selection_end:]`
abbrev pub train_days : SplitConfig → List ℕ → List ℕ
train_days c days = take (c.train_share (length days)) days

abbrev pub later_days : SplitConfig → List ℕ → List ℕ
later_days c days = drop (c.train_share (length days)) days

abbrev pub selection_days : SplitConfig → List ℕ → List ℕ
selection_days c days = take (c.selection_share (length days)) (later_days c days)

abbrev pub test_days : SplitConfig → List ℕ → List ℕ
test_days c days = drop (c.selection_share (length days)) (later_days c days)

module _ (day : ℕ → ℕ) where
  -- `data[days.isin(part)]`
  abbrev pub frame : List ℕ → (part : List ℕ) → List ℕ
  frame index part = keep (λ t. occurs (day t) part) index

  -- `_partition`; `index[0]` of no rows raises.
  unfoldable pub partition : List ℕ → SplitResult Slice
  partition [] = err empty_partition
  partition (t ∷ ts) =
      ok (record { rows = t ∷ ts; first_day = day t; last_day = day (last_or t ts) })

  abbrev refuse_short : ℕ → List ℕ → SplitResult (Unit {0})
  refuse_short minimum rows = refuse_if (ltb (length rows) minimum) too_few_rows

  -- the partitions of the frames, and the check of their order
  unfoldable pub join_frames : (train selection test : List ℕ) → SplitResult ChronologicalSplit
  join_frames train selection test = do
    first ← partition train
    second ← partition selection
    third ← partition test
    refuse_if (not (ltb first.last_day second.first_day && ltb second.first_day third.first_day))
        out_of_order
    ok (record { train = first; selection = second; test = third })

  -- the end of `split_chronologically`, on the three frames
  unfoldable pub split_frames :
      (minimum : ℕ) → (train selection test : List ℕ) → SplitResult ChronologicalSplit
  split_frames minimum train selection test = do
    refuse_short minimum train
    refuse_short minimum selection
    refuse_short minimum test
    join_frames train selection test

  abbrev pub days_of : List ℕ → List ℕ
  days_of index = unique (map day index)

  -- `split_chronologically`
  unfoldable pub split_chronologically : List ℕ → SplitConfig → SplitResult ChronologicalSplit
  split_chronologically index c = do
    refuse_if (is_empty_list index) empty_data
    refuse_if (not (is_monotonic index)) unsorted_data
    refuse_if (not (is_unique index)) duplicate_index
    split_frames c.minimum_rows_per_partition (frame index (train_days c (days_of index)))
        (frame index (selection_days c (days_of index))) (frame index (test_days c (days_of index)))

  -- `in_sample_slice`: the rows before the first row of the test.
  unfoldable pub in_sample_slice : List ℕ → SplitConfig → SplitResult (List ℕ)
  in_sample_slice index c = do
    split ← split_chronologically index c
    ok (keep (λ t. ltb t (first_or 0 split.test.rows)) index)

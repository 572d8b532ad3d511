-- ===== src/OutOfSample/Samples.antt =====
-- Tests of the chronological split, and the theorems at a small history.
use quant_factory.Prelude.{
  ℕ, ◌*◌, ◌/◌, ◌≤◌, ◌<◌, List, [], ◌∷◌, ◌++◌, length, ◌≡◌, ◌≢◌, refl, arith,
}
use quant_factory.OutOfSample.{
  SplitConfig, ChronologicalSplit, ok, err, too_few_rows, out_of_order, split_chronologically,
  in_sample_slice, split_frames, join_frames, partition,
}
use quant_factory.OutOfSample.Splitting.{split_chronologically-parts, split_chronologically-ordered}

-- Ten timestamps to a day; ten rows on five days.
abbrev day : ℕ → ℕ
day t = t / 10

day_forward : (t u : ℕ) → t ≤ u → day t ≤ day u
day_forward t u h = omega arith

abbrev rows : List ℕ
rows = 10 ∷ 15 ∷ 20 ∷ 25 ∷ 30 ∷ 35 ∷ 40 ∷ 45 ∷ 50 ∷ 55 ∷ []

-- Three fifths, one fifth and the rest.
abbrev fifths : (minimum : ℕ) → SplitConfig
fifths minimum = record {
  train_share = λ n. n * 3 / 5;
  selection_share = λ n. n / 5;
  minimum_rows_per_partition = minimum;
}

abbrev parts : ChronologicalSplit
parts = record {
  train = record { rows = 10 ∷ 15 ∷ 20 ∷ 25 ∷ 30 ∷ 35 ∷ []; first_day = 1; last_day = 3 };
  selection = record { rows = 40 ∷ 45 ∷ []; first_day = 4; last_day = 4 };
  test = record { rows = 50 ∷ 55 ∷ []; first_day = 5; last_day = 5 };
}

split_rows : split_chronologically day rows (fifths 2) ≡ ok parts
unfolding split_chronologically split_frames join_frames partition
split_rows = refl

split_short : split_chronologically day rows (fifths 3) ≡ err too_few_rows
unfolding split_chronologically split_frames join_frames partition
split_short = refl

in_sample_rows :
    in_sample_slice day rows (fifths 2) ≡ ok (10 ∷ 15 ∷ 20 ∷ 25 ∷ 30 ∷ 35 ∷ 40 ∷ 45 ∷ [])
unfolding in_sample_slice split_chronologically split_frames join_frames partition
in_sample_rows = refl

split_chronologically-parts_example :
    (parts.train.rows ++ (parts.selection.rows ++ parts.test.rows) ≡ rows)
    × (2 ≤ length parts.train.rows)
    × (2 ≤ length parts.selection.rows)
    × (2 ≤ length parts.test.rows)
    × (parts.train.last_day < parts.selection.first_day)
    × (parts.selection.last_day < parts.test.first_day)
split_chronologically-parts_example =
    split_chronologically-parts day day_forward rows (fifths 2) parts split_rows

split_chronologically-ordered_example : split_chronologically day rows (fifths 3) ≢ err out_of_order
split_chronologically-ordered_example =
    split_chronologically-ordered day day_forward rows (fifths 3)

-- ===== src/WalkForward/Samples.antt =====
-- Tests of the walk-forward windows, and the theorems at a small history.
use quant_factory.WalkForward.Days.{KeepsOrder}
use quant_factory.Prelude.{none, ◌/◌, ℕ, ◌≡◌, ◌≢◌, refl, some, List, [], ◌∷◌, arith}
use quant_factory.WalkForward.{
  session_grid, no_sessions, session_of, row_days, Config, check_config, ok, err, out_of_fuel,
  bad_config, rolling, include, Partition, Window, build_walk_forward_windows, windows_from,
  day_start, search_right, build_window, session_floor, search_left,
}
use quant_factory.WalkForward.Windows.{IsChain, build_walk_forward_windows-IsChain}
use quant_factory.WalkForward.Termination.{build_walk_forward_windows_terminates}

-- Twelve rows on six days; a window of three rows is moved on to the end of a day.
abbrev index : List ℕ
index = 10 ∷ 11 ∷ 20 ∷ 21 ∷ 30 ∷ 31 ∷ 40 ∷ 41 ∷ 50 ∷ 51 ∷ 60 ∷ 61 ∷ []

abbrev config : Config
config = record {
  training_window_size = 3;
  selection_window_size = some 1;
  test_window_size = 2;
  step_size = 2;
  training_mode = rolling;
  minimum_rows_per_window = 1;
  shortlist_size = 1;
  incomplete_final_window = include;
}

abbrev rows : ℕ → ℕ → ℕ → ℕ → Partition
rows first stop start_label end_label = record {
  first = first;
  stop = stop;
  start_label = start_label;
  end_label = end_label;
}

abbrev folds : List Window
folds =
    record {
      fold_number = 1;
      train = rows 0 4 10 21;
      selection = some (rows 4 6 30 31);
      test = rows 6 8 40 41;
    }
    ∷ record {
      fold_number = 2;
      train = rows 4 8 30 41;
      selection = some (rows 8 10 50 51);
      test = rows 10 12 60 61;
    }
    ∷ []

-- a day has ten ticks; a session opens every ten ticks from 10 on
abbrev day_of : ℕ → ℕ
day_of t = t / 10

abbrev schedule : ℕ → ℕ → List ℕ
schedule first last = 10 ∷ 20 ∷ 30 ∷ 40 ∷ 50 ∷ 60 ∷ []

day_of-KeepsOrder : KeepsOrder day_of
day_of-KeepsOrder s t le = omega arith

build_folds : build_walk_forward_windows (λ t. t) day_of (some schedule) index config ≡ ok folds
unfolding build_walk_forward_windows row_days session_grid session_of windows_from day_start
    search_right build_window session_floor search_left
build_folds = refl

build_daily_folds : build_walk_forward_windows (λ t. t) day_of none index config ≡ ok folds
unfolding build_walk_forward_windows row_days windows_from day_start search_right build_window
    session_floor search_left
build_daily_folds = refl

no_schedule :
    build_walk_forward_windows (λ t. t) day_of (some (λ s t. [])) index config ≡ err no_sessions
unfolding build_walk_forward_windows row_days session_grid session_of
no_schedule = refl

build_walk_forward_windows-IsChain_example :
    (dates : List ℕ) × (row_days day_of (some schedule) index ≡ ok dates)
    × IsChain config dates 1 4 folds
build_walk_forward_windows-IsChain_example =
    build_walk_forward_windows-IsChain (λ t. t) day_of (some schedule) index config folds
      day_of-KeepsOrder (unfold check_config in refl) build_folds

build_walk_forward_windows_terminates_example :
    build_walk_forward_windows (λ t. t) day_of (some schedule) index config ≢ err out_of_fuel
build_walk_forward_windows_terminates_example =
    build_walk_forward_windows_terminates (λ t. t) day_of (some schedule) index config
      day_of-KeepsOrder (unfold check_config in refl)

-- A step shorter than the test window is refused.
check_config_step : check_config (record config { step_size = 1 }) ≡ err bad_config
unfolding check_config
check_config_step = refl

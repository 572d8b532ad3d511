-- ===== src/WalkForward/Termination.antt =====
-- backtesting/walk_forward/splitter.py: the `while` loop of `build_walk_forward_windows` ends.
use quant_factory.WalkForward.Days.{build_walk_forward_windows-days, KeepsOrder}
use quant_factory.Prelude.{
  Option, ℕ, zero, suc, ◌+◌, ◌<◌, ◌≡◌, refl, ◌≢◌, inl, inr, List, arith, nat_eq, Option-cases,
  length,
}
use quant_factory.WalkForward.{
  Config, check_config, ok, err, out_of_fuel, selection_size, day_start, next_raw, build_window,
  test_end_for, windows_from, build_walk_forward_windows,
}
use quant_factory.WalkForward.Cuts.{IsSorted, day_start_bounds}

module _ (label : ℕ → ℕ) (index dates : List ℕ) (c : Config) where
  build_window-ne-out_of_fuel :
      (k cursor selection_end test_end : ℕ)
      → build_window label index dates c k cursor selection_end test_end ≢ err out_of_fuel
  unfolding build_window
  build_window-ne-out_of_fuel k cursor selection_end test_end = ground arith

  -- Only the rest of the loop can run out.
  out_of_fuel_round :
      (fuel raw_cursor k : ℕ)
      → windows_from label index dates c (suc fuel) raw_cursor k ≡ err out_of_fuel
      → (test_end : ℕ) × (day_start dates raw_cursor + selection_size c < length index)
        × (windows_from label index dates c fuel
              (next_raw label index dates c (day_start dates raw_cursor) test_end)
              (k + 1)
            ≡ err out_of_fuel)
  unfolding windows_from
  out_of_fuel_round fuel raw_cursor k h =
      let apart =
        build_window-ne-out_of_fuel k (day_start dates raw_cursor)
          (day_start dates (day_start dates raw_cursor + selection_size c)) in
      elim (Option-cases (
        test_end_for label index dates c
          (day_start dates (day_start dates raw_cursor + selection_size c)))) [
            | inl done ↦ ground arith
            | inr (test_end, e) ↦
                (test_end, ground (arith, apart test_end), ground (arith, apart test_end))
          ]

  module _ (s : IsSorted dates) (positive : 0 < c.step_size) where
    -- Each round moves the cursor on, and the loop stops at the end of the data.
    windows_from-ne-out_of_fuel :
        (fuel raw_cursor k : ℕ)
        → 0 < fuel
        → length index < raw_cursor + fuel
        → windows_from label index dates c fuel raw_cursor k ≢ err out_of_fuel
    windows_from-ne-out_of_fuel zero raw_cursor k some_fuel enough h = absurd (omega arith)
    windows_from-ne-out_of_fuel (suc fuel) raw_cursor k some_fuel enough h =
        let (test_end, inside, rest) = out_of_fuel_round fuel raw_cursor k h in
        let ahead = (day_start_bounds dates raw_cursor s).0 in
        windows_from-ne-out_of_fuel fuel
          (next_raw label index dates c (day_start dates raw_cursor) test_end) (k + 1) (omega arith)
          (omega arith) rest

-- Under a configuration that passes its checks the loop ends: a call returns folds or raises one of
-- the source's errors, whatever the data and the schedule of the calendar, provided that `normalize`
-- does not reverse the order of two timestamps.
pub build_walk_forward_windows_terminates :
    (label normalize : ℕ → ℕ) (alignment : Option (ℕ → ℕ → List ℕ)) (index : List ℕ) (c : Config)
    → KeepsOrder normalize
    → check_config c ≡ ok tt
    → build_walk_forward_windows label normalize alignment index c ≢ err out_of_fuel
build_walk_forward_windows_terminates label normalize alignment index c keeps valid h =
    let (dates, days, s, e, loop) =
      build_walk_forward_windows-days label normalize alignment index c (err out_of_fuel) keeps h
        (inr refl) in
    windows_from-ne-out_of_fuel label index dates c s positive (suc (length index))
      c.training_window_size 1 (omega arith) (omega arith) loop
  where
    positive : 0 < c.step_size
    positive = unfold check_config in ground arith

    full : 0 < c.training_window_size
    full = unfold check_config in ground arith

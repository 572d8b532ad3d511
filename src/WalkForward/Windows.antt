-- ===== src/WalkForward/Windows.antt =====
-- backtesting/walk_forward/splitter.py, `build_walk_forward_windows`: the folds that one call returns.
use quant_factory.WalkForward.Days.{build_walk_forward_windows-days, KeepsOrder}
use quant_factory.Prelude.{
  ℕ, zero, suc, ◌+◌, ◌-◌, ◌≤◌, ◌<◌, ◌≡◌, refl, ◌⊎◌, sym, inl, inr, Option, none, some, List, [],
  ◌∷◌, arith, nat_eq, length,
}
use quant_factory.WalkForward.{
  row_days, Config, check_config, ok, Window, Partition, selection_size, day_start, train_start,
  next_raw, build_window, test_end_for, windows_from, build_walk_forward_windows,
}
use quant_factory.WalkForward.Cuts.{
  IsSorted, NoStraddle, day_start_bounds, day_start_fixed, day_start-NoStraddle, session_floor-le,
}

-- The rows between training and test are exactly the selection rows.
abbrev Follows : ℕ → Option Partition → ℕ → Type 0
Follows from none to = from ≡ to
Follows from (some s) to = (from ≡ s.first) × (s.first < s.stop) × (s.stop ≡ to)

-- What a fold promises, over the rows' days and their number.
pub record Fits (c : Config) (dates : List ℕ) (w : Window) : Type 0 where
  pub train_nonempty : w.train.first < w.train.stop
  pub train_full : w.train.first + c.training_window_size ≤ w.train.stop
  pub contiguous : Follows w.train.stop w.selection w.test.first
  pub test_nonempty : w.test.first < w.test.stop
  pub within : w.test.stop ≤ length dates
  pub train_cut : NoStraddle dates w.train.stop
  pub selection_cut : NoStraddle dates w.test.first
  pub test_cut : NoStraddle dates w.test.stop

-- Numbered from `k`, and each test window begins at or after the end of the one before.
abbrev pub IsChain : Config → List ℕ → ℕ → ℕ → List Window → Type 0
IsChain c dates k bound [] = Unit
IsChain c dates k bound (w ∷ ws) =
    (w.fold_number ≡ k)
    × (bound ≤ w.test.first)
    × Fits c dates w
    × IsChain c dates (k + 1) w.test.stop ws

IsChain-mono :
    (c : Config) (dates : List ℕ) (k a b : ℕ) (ws : List Window)
    → a ≤ b
    → IsChain c dates k b ws
    → IsChain c dates k a ws
IsChain-mono c dates k a b [] h ch = tt
IsChain-mono c dates k a b (w ∷ ws) h ch = (ch.0, omega arith, ch.2, ch.3)

module _ (label : ℕ → ℕ) (index dates : List ℕ) (c : Config) where
  build_window_fold :
      (k cursor selection_end test_end : ℕ) (w : Window)
      → build_window label index dates c k cursor selection_end test_end ≡ ok w
      → (w.fold_number ≡ k)
        × (w.train.first ≡ train_start label index dates c cursor)
        × (w.train.stop ≡ cursor)
        × (w.test.first ≡ selection_end)
        × (w.test.stop ≡ test_end)
        × (w.train.first < cursor)
        × (selection_end < test_end)
  unfolding build_window
  build_window_fold k cursor selection_end test_end w h = ground arith

  build_window_contiguous :
      (k cursor selection_end test_end : ℕ) (w : Window)
      → (selection_size c ≡ 0 → cursor ≡ selection_end)
      → build_window label index dates c k cursor selection_end test_end ≡ ok w
      → Follows cursor w.selection selection_end
  unfolding build_window
  build_window_contiguous k cursor selection_end test_end w same h = ground arith

  -- The training rows reach back a whole window, or to the beginning.
  train_start_bounds :
      (cursor : ℕ)
      → c.training_window_size ≤ cursor
      → cursor < length dates
      → 0 < c.training_window_size
      → train_start label index dates c cursor + c.training_window_size ≤ cursor
  unfolding train_start
  train_start_bounds cursor full inside positive =
      ground (arith, session_floor-le dates (cursor - c.training_window_size))

  test_end_for_cases :
      (selection_end test_end : ℕ)
      → test_end_for label index dates c selection_end ≡ some test_end
      → (test_end ≡ length index)
        ⊎ ((test_end ≡ day_start dates (selection_end + c.test_window_size))
            × (selection_end + c.test_window_size ≤ length index))
  unfolding test_end_for
  test_end_for_cases selection_end test_end h = ground arith

  module _ (s : IsSorted dates) (e : length dates ≡ length index) where
    test_end_within :
        (selection_end test_end : ℕ)
        → test_end_for label index dates c selection_end ≡ some test_end
        → test_end ≤ length dates
    test_end_within selection_end test_end h = ground (
      arith,
      test_end_for_cases selection_end test_end h,
      day_start_bounds dates (selection_end + c.test_window_size) s,
    )

    test_end_cut :
        (selection_end test_end : ℕ)
        → test_end_for label index dates c selection_end ≡ some test_end
        → NoStraddle dates test_end
    test_end_cut selection_end test_end h = elim (test_end_for_cases selection_end test_end h) [
      | inl all ↦ λ i j before after lt. absurd (omega arith)
      | inr (day, _) ↦ rw day (day_start-NoStraddle dates (selection_end + c.test_window_size) s)
    ]

    -- One fold, built from cuts that split no day.
    build_window-Fits :
        (k cursor selection_end test_end : ℕ) (w : Window)
        → 0 < c.training_window_size
        → c.training_window_size ≤ cursor
        → cursor < length dates
        → (selection_size c ≡ 0 → cursor ≡ selection_end)
        → NoStraddle dates cursor
        → NoStraddle dates selection_end
        → test_end_for label index dates c selection_end ≡ some test_end
        → build_window label index dates c k cursor selection_end test_end ≡ ok w
        → Fits c dates w
    build_window-Fits k cursor selection_end test_end w positive full inside same cut cut' te h =
        let (number, first, stop, test_first, test_stop, train_rows, test_rows) =
          build_window_fold k cursor selection_end test_end w h in
        record {
          train_nonempty = rw stop train_rows;
          train_full = rw (first, stop) (train_start_bounds cursor full inside positive);
          contiguous =
              rw (stop, test_first)
                (build_window_contiguous k cursor selection_end test_end w same h);
          test_nonempty = rw (test_first, test_stop) test_rows;
          within = rw test_stop (test_end_within selection_end test_end te);
          train_cut = rw stop cut;
          selection_cut = rw test_first cut';
          test_cut = rw test_stop (test_end_cut selection_end test_end te);
        }

  -- What a successful round of the loop has done.
  windows_from_round :
      (fuel raw_cursor k : ℕ) (ws : List Window)
      → windows_from label index dates c (suc fuel) raw_cursor k ≡ ok ws
      → let cursor = day_start dates raw_cursor in
        let selection_end = day_start dates (cursor + selection_size c) in
        (ws ≡ [])
        ⊎ ((test_end : ℕ) × (w : Window) × (rest : List Window) × (ws ≡ w ∷ rest)
            × (cursor + selection_size c < length index)
            × (test_end_for label index dates c selection_end ≡ some test_end)
            × (build_window label index dates c k cursor selection_end test_end ≡ ok w)
            × (windows_from label index dates c fuel
                  (next_raw label index dates c cursor test_end)
                  (k + 1)
                ≡ ok rest))
  unfolding windows_from
  windows_from_round fuel raw_cursor k ws h = ground arith

  module _ (s : IsSorted dates) (e : length dates ≡ length index)
      (positive : 0 < c.training_window_size) where
    round-IsChain :
        (raw_cursor k test_end : ℕ) (w : Window) (rest : List Window)
        → c.training_window_size ≤ raw_cursor
        → let cursor = day_start dates raw_cursor in
          let selection_end = day_start dates (cursor + selection_size c) in
          cursor + selection_size c < length index
          → test_end_for label index dates c selection_end ≡ some test_end
          → build_window label index dates c k cursor selection_end test_end ≡ ok w
          → IsChain c dates
              (k + 1)
              (next_raw label index dates c cursor test_end + selection_size c)
              rest
          → IsChain c dates k (raw_cursor + selection_size c) (w ∷ rest)
    round-IsChain raw_cursor k test_end w rest full inside te built more =
        let cursor = day_start dates raw_cursor in
        let selection_end = day_start dates (cursor + selection_size c) in
        let cut = day_start-NoStraddle dates raw_cursor s in
        let ahead = (day_start_bounds dates raw_cursor s).0 in
        let ahead' = (day_start_bounds dates (cursor + selection_size c) s).0 in
        let (number, _, _, test_first, test_stop, _, _) =
          build_window_fold k cursor selection_end test_end w built in
        (
          number,
          rw test_first (omega arith),
          build_window-Fits s e k cursor selection_end test_end w positive (omega arith)
              (omega arith) (λ none_chosen. same_cut cursor cut none_chosen) cut
              (day_start-NoStraddle dates (cursor + selection_size c) s) te built,
          rw test_stop (
              IsChain-mono c dates (k + 1) test_end
                (next_raw label index dates c cursor test_end + selection_size c) rest (omega arith)
                more),
        )
      where
        same_cut :
            (cursor : ℕ)
            → NoStraddle dates cursor
            → selection_size c ≡ 0
            → cursor ≡ day_start dates (cursor + selection_size c)
        same_cut cursor cut none_chosen =
            let stays : cursor + selection_size c ≡ cursor = omega arith in
            rw stays (sym (day_start_fixed dates cursor s cut))

    windows_from-IsChain :
        (fuel raw_cursor k : ℕ) (ws : List Window)
        → c.training_window_size ≤ raw_cursor
        → windows_from label index dates c fuel raw_cursor k ≡ ok ws
        → IsChain c dates k (raw_cursor + selection_size c) ws
    windows_from-IsChain zero raw_cursor k ws full h = unfold windows_from in cc
    windows_from-IsChain (suc fuel) raw_cursor k ws full h =
        elim (windows_from_round fuel raw_cursor k ws h) [
          | inl done ↦ rw done tt
          | inr (test_end, w, rest, shape, inside, te, built, more) ↦ rw shape (
              round-IsChain raw_cursor k test_end w rest full inside te built (
                windows_from-IsChain fuel
                  (next_raw label index dates c (day_start dates raw_cursor) test_end) (k + 1) rest
                  (omega (arith, (day_start_bounds dates raw_cursor s).0)) more))
        ]

-- Under a configuration that passes its checks, the folds of a successful call are numbered from 1;
-- each trains on a full window of rows, selects and tests on the rows that directly follow, within
-- the data; no cut splits a day; and each test begins at or after the end of the test before it. The
-- days are the sessions of the calendar that the rows fall in, whatever its schedule, or the calendar
-- days that `normalize` gives, provided that it does not reverse the order of two timestamps.
pub build_walk_forward_windows-IsChain :
    (label normalize : ℕ → ℕ) (alignment : Option (ℕ → ℕ → List ℕ)) (index : List ℕ) (c : Config)
    (ws : List Window)
    → KeepsOrder normalize
    → check_config c ≡ ok tt
    → build_walk_forward_windows label normalize alignment index c ≡ ok ws
    → (dates : List ℕ) × (row_days normalize alignment index ≡ ok dates)
      × IsChain c dates 1 (c.training_window_size + selection_size c) ws
build_walk_forward_windows-IsChain label normalize alignment index c ws keeps valid h =
    let (dates, days, s, e, loop) =
      build_walk_forward_windows-days label normalize alignment index c (ok ws) keeps h
        (inl (ws, refl)) in
    (
      dates,
      days,
      windows_from-IsChain label index dates c s e positive (suc (length index))
          c.training_window_size 1 ws (omega arith) loop,
    )
  where
    positive : 0 < c.training_window_size
    positive = unfold check_config in ground arith

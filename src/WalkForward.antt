-- ===== src/WalkForward.antt =====
-- backtesting/walk_forward: rolling windows over the rows of one history.
--
-- A row is a position. `index` holds the rows' timestamps, and `dates` the session or calendar day
-- of each row. The schedule of an exchange calendar, which a third-party package makes from the first
-- and the last timestamp, is an argument, and so is pandas' `normalize`, the start of a timestamp's
-- day. `label` is `boundary_label`, the text by which two boundaries are compared.
pub mod Cuts
mod Days
pub mod Windows
pub mod Termination
mod Samples
use quant_factory.Prelude.{
  ℕ, zero, suc, ◌+◌, ◌-◌, ◌≤◌, max, String, Bool, true, false, Option, none, some, List, [], ◌∷◌,
  ◌&&◌, ◌||◌, map, leb, ltb, nat_eq, ◌==◌, length, if◌then◌else◌,
}

pub data TrainingMode : Type 0 where
  rolling expanding : TrainingMode

pub data IncompleteWindowPolicy : Type 0 where
  drop include : IncompleteWindowPolicy

pub record Config : Type 0 where
  pub training_window_size : ℕ
  pub selection_window_size : Option ℕ
  pub test_window_size : ℕ
  pub step_size : ℕ
  pub training_mode : TrainingMode
  pub minimum_rows_per_window : ℕ
  pub shortlist_size : ℕ
  pub incomplete_final_window : IncompleteWindowPolicy

pub data Error : Type 0 where
  empty_data unsorted_data duplicate_index empty_partition out_of_order bad_config no_sessions :
      Error
  out_of_fuel : Error

pub data Result (A : Type 0) : Type 0 where
  ok : A → Result A
  err : Error → Result A

infixl 5 ◌>>◌ ◌>>=◌
abbrev pub ◌>>=◌ : {A B : Type 0} → Result A → (A → Result B) → Result B
r >>= step = elim r [ ok a ↦ step a | err e ↦ err e ]

abbrev pub ◌>>◌ : {B : Type 0} → Result (Unit {0}) → Result B → Result B
first >> rest = first >>= λ _. rest

abbrev guard : Bool → Error → Result (Unit {0})
guard test e = if test then ok tt else err e

abbrev size_or : ℕ → Option ℕ → ℕ
size_or d none = d
size_or d (some n) = n

-- `WalkForwardConfig.__post_init__`; the type tests hold of every value of these types.
unfoldable pub check_config : Config → Result (Unit {0})
check_config c = do
  guard (leb 1 c.training_window_size) bad_config
  guard (leb 1 c.test_window_size) bad_config
  guard (leb 1 c.step_size) bad_config
  guard (leb 1 c.minimum_rows_per_window) bad_config
  guard (leb 1 c.shortlist_size) bad_config
  guard (leb 1 (size_or 1 c.selection_window_size)) bad_config
  guard (leb c.minimum_rows_per_window c.training_window_size) bad_config
  guard (leb c.minimum_rows_per_window c.test_window_size) bad_config
  guard (leb c.minimum_rows_per_window (size_or c.minimum_rows_per_window c.selection_window_size))
      bad_config
  guard (leb c.test_window_size c.step_size) bad_config

-- `dates[position]` at a position inside the list; the callers stay inside.
abbrev pub at : List ℕ → ℕ → ℕ
at [] i = 0
at (d ∷ ds) zero = d
at (d ∷ ds) (suc i) = at ds i

-- `np.searchsorted(dates, value, side="right")` on sorted dates: the rows before the first later one.
pub search_right : List ℕ → ℕ → ℕ
search_right [] v = 0
search_right (d ∷ ds) v = if leb d v then suc (search_right ds v) else 0

-- `np.searchsorted(dates, value, side="left")`.
pub search_left : List ℕ → ℕ → ℕ
search_left [] v = 0
search_left (d ∷ ds) v = if ltb d v then suc (search_left ds v) else 0

pub day_start : List ℕ → ℕ → ℕ
day_start dates position =
    if leb position 0 || leb (length dates) position
    then position
    else search_right dates (at dates (position - 1))

pub session_floor : List ℕ → ℕ → ℕ
session_floor dates position = search_left dates (at dates position)

-- `DataPartition`: the rows from `first` up to `stop`, and the labels of its first and last row.
pub record Partition : Type 0 where
  pub first : ℕ
  pub stop : ℕ
  pub start_label : ℕ
  pub end_label : ℕ

pub record Window : Type 0 where
  pub fold_number : ℕ
  pub train : Partition
  pub selection : Option Partition
  pub test : Partition

-- `data.index.is_monotonic_increasing`
abbrev pub is_monotonic : List ℕ → Bool
is_monotonic [] = true
is_monotonic (t ∷ []) = true
is_monotonic (t ∷ u ∷ ts) = leb t u && is_monotonic (u ∷ ts)

abbrev pub occurs : ℕ → List ℕ → Bool
occurs t [] = false
occurs t (u ∷ us) = (t == u) || occurs t us

-- `data.index.is_unique`
abbrev pub is_unique : List ℕ → Bool
is_unique [] = true
is_unique (t ∷ ts) = (if occurs t ts then false else true) && is_unique ts

-- `config.selection_window_size or 0`
abbrev pub selection_size : Config → ℕ
selection_size c = size_or 0 c.selection_window_size

module _ (label : ℕ → ℕ) (index : List ℕ) (dates : List ℕ) (c : Config) where
  -- `data.index[0]` of an empty slice raises.
  pub partition : ℕ → ℕ → Result Partition
  partition first stop =
      if leb stop first
      then err empty_partition
      else ok (record {
        first = first;
        stop = stop;
        start_label = label (at index first);
        end_label = label (at index (stop - 1));
      })

  -- `selection_size` of `None` is 0, and so is `selection_size if ... else None`.
  selection_partition : ℕ → ℕ → Result (Option Partition)
  unfolding partition
  selection_partition cursor selection_end =
      if selection_size c == 0 then ok none else do s ← partition cursor selection_end; ok (some s)

  abbrev is_ordered : Partition → Option Partition → Partition → Bool
  is_ordered train none test = ltb train.end_label test.start_label
  is_ordered train (some s) test =
      ltb train.end_label s.start_label && ltb s.start_label test.start_label

  pub train_start : ℕ → ℕ
  train_start cursor = elim c.training_mode [
    | rolling ↦ session_floor dates (cursor - c.training_window_size)
    | expanding ↦ 0
  ]

  -- One fold of the loop, from its cuts.
  pub build_window : ℕ → ℕ → ℕ → ℕ → Result Window
  unfolding partition selection_partition train_start
  build_window fold_number cursor selection_end test_end = do
    train ← partition (train_start cursor) cursor
    selection ← selection_partition cursor selection_end
    test ← partition selection_end test_end
    guard (is_ordered train selection test) out_of_order
    ok (record { fold_number = fold_number; train = train; selection = selection; test = test })

  -- The end of the test window that begins at `selection_end`; `none` is the loop's `break`.
  pub test_end_for : ℕ → Option ℕ
  test_end_for selection_end =
      if ltb (length index) (selection_end + c.test_window_size)
      then elim c.incomplete_final_window [
        | drop ↦ none
        | include ↦
            if ltb (length index - selection_end) c.minimum_rows_per_window
            then none
            else some (length index)
      ]
      else some (day_start dates (selection_end + c.test_window_size))

  abbrev pub next_raw : ℕ → ℕ → ℕ
  next_raw cursor test_end = max (cursor + c.step_size) (test_end - selection_size c)

  -- The `while` loop.
  pub windows_from : ℕ → ℕ → ℕ → Result (List Window)
  unfolding test_end_for
  windows_from zero raw_cursor fold_number = err out_of_fuel
  windows_from (suc fuel) raw_cursor fold_number =
      let cursor = day_start dates raw_cursor in
      let selection_end = day_start dates (cursor + selection_size c) in
      elim (ltb (cursor + selection_size c) (length index)) [
        | false ↦ ok []
        | true ↦ elim (test_end_for selection_end) [
          | none ↦ ok []
          | some test_end ↦ do
            window ← build_window fold_number cursor selection_end test_end
            rest ← windows_from fuel (next_raw cursor test_end) (fold_number + 1)
            ok (window ∷ rest)
        ]
      ]

-- `SessionGrid`: the opens of the sessions of the calendar between two timestamps.
unfoldable pub session_grid : (schedule : ℕ → ℕ → List ℕ) → (first last : ℕ) → Result (List ℕ)
session_grid schedule first last =
    let opens = schedule first last in if leb (length opens) 0 then err no_sessions else ok opens

-- `session_of`: an ordinal is one more than in the source, which has -1 for a timestamp before the
-- first open.
unfoldable pub session_of : (opens : List ℕ) → List ℕ → List ℕ
session_of opens index = map (search_right opens) index

-- The session of each row where the rows are aligned with sessions, its calendar day where not.
unfoldable pub row_days :
    (normalize : ℕ → ℕ) → (alignment : Option (ℕ → ℕ → List ℕ)) → List ℕ → Result (List ℕ)
row_days normalize none index = ok (map normalize index)
row_days normalize (some schedule) index = do
  opens ← session_grid schedule (at index 0) (at index (length index - 1))
  ok (session_of opens index)

pub build_walk_forward_windows :
    (label normalize : ℕ → ℕ) (alignment : Option (ℕ → ℕ → List ℕ)) (index : List ℕ) (c : Config)
    → Result (List Window)
build_walk_forward_windows label normalize alignment index c = do
  guard (ltb 0 (length index)) empty_data
  guard (is_monotonic index) unsorted_data
  guard (is_unique index) duplicate_index
  dates ← row_days normalize alignment index
  windows_from label index dates c (suc (length index)) c.training_window_size 1

-- ===== src/OutOfSample/Joining.antt =====
-- `_partition` and the end of `split_chronologically`: the parts of three frames in order.
use native.Mathlib.Nat.{le_trans}
use quant_factory.Prelude.{
  ℕ, ◌≤◌, ◌<◌, true, List, [], ◌∷◌, ◌++◌, ◌≡◌, ◌≢◌, refl, arith, All, nat_eq, Bool-cases, inl, inr,
  length, ltb,
}
use quant_factory.WalkForward.{occurs, is_monotonic}
use quant_factory.Chunking.Positions.{append-take-drop}
use quant_factory.OutOfSample.{
  join_frames, out_of_order, SplitResult, ok, err, SplitConfig, ChronologicalSplit, frame, last_or,
  train_days, later_days, selection_days, test_days, partition, split_frames,
}
use quant_factory.OutOfSample.Days.{All-weaker}
use quant_factory.OutOfSample.Frames.{frame-All, All-last}

-- The parts hold enough rows, and a part ends on a day before the first of the next.
pub record IsSplit (minimum : ℕ) (train selection test : List ℕ) (s : ChronologicalSplit)
    : Type 0 where
  pub train_rows : s.train.rows ≡ train
  pub selection_rows : s.selection.rows ≡ selection
  pub test_rows : s.test.rows ≡ test
  pub train_enough : minimum ≤ length train
  pub selection_enough : minimum ≤ length selection
  pub test_enough : minimum ≤ length test
  pub train_before : s.train.last_day < s.selection.first_day
  pub selection_before : s.selection.last_day < s.test.first_day

-- A result, or an error other than `out_of_order`.
abbrev pub Judged : (P : ChronologicalSplit → Type 0) → SplitResult ChronologicalSplit → Type 0
Judged P (ok s) = P s
Judged P (err e) = e ≢ out_of_order

ltb_of_lt : {a b : ℕ} → a < b → ltb a b ≡ true
ltb_of_lt h = ground arith

pub monotonic-All : (t : ℕ) (ts : List ℕ) → is_monotonic (t ∷ ts) ≡ true → All (λ u. t ≤ u) ts
monotonic-All t [] h = tt
monotonic-All t (u ∷ us) h = (
  ground arith,
  All-weaker _ _ us (λ x later. le_trans (ground arith) later) (monotonic-All u us (ground arith)),
)

pub Judged-weaker :
    (P Q : ChronologicalSplit → Type 0) (r : SplitResult ChronologicalSplit)
    → ((s : ChronologicalSplit) → P s → Q s)
    → Judged P r
    → Judged Q r
Judged-weaker P Q (ok s) f h = f s h
Judged-weaker P Q (err e) f h = h

module _ (day : ℕ → ℕ) where
  -- The days of three frames: those of each part before those of the next.
  abbrev Ordered : List ℕ → List ℕ → Type 0
  Ordered [] later = Unit
  Ordered (t ∷ ts) [] = Unit
  Ordered (t ∷ ts) (u ∷ us) = (day (last_or t ts) < day u) × (day t < day u)

  rows-Ordered :
      (a b ps bs : List ℕ)
      → ((d e : ℕ) → occurs d ps ≡ true → occurs e bs ≡ true → d < e)
      → All (λ t. occurs (day t) ps ≡ true) a
      → All (λ t. occurs (day t) bs ≡ true) b
      → Ordered a b
  rows-Ordered [] b ps bs before h k = tt
  rows-Ordered (t ∷ ts) [] ps bs before h k = tt
  rows-Ordered (t ∷ ts) (u ∷ us) ps bs before h k =
      (before _ _ (All-last (λ x. occurs (day x) ps ≡ true) t ts h.0 h.1) k.0, before _ _ h.0 k.0)

  join_frames-Judged :
      (minimum : ℕ) (a b c : List ℕ)
      → minimum ≤ length a
      → minimum ≤ length b
      → minimum ≤ length c
      → Ordered a b
      → Ordered b c
      → Judged (IsSplit minimum a b c) (join_frames day a b c)
  unfolding join_frames partition
  join_frames-Judged minimum [] b c la lb lc p q = λ e. cc e
  join_frames-Judged minimum (t ∷ ts) [] c la lb lc p q = λ e. cc e
  join_frames-Judged minimum (t ∷ ts) (u ∷ us) [] la lb lc p q = λ e. cc e
  join_frames-Judged minimum (t ∷ ts) (u ∷ us) (v ∷ vs) la lb lc p q = rw (ltb_of_lt p.0) (
      rw (ltb_of_lt q.1) (record {
        train_rows = refl;
        selection_rows = refl;
        test_rows = refl;
        train_enough = la;
        selection_enough = lb;
        test_enough = lc;
        train_before = p.0;
        selection_before = q.0;
      }))

  pub split_frames-Judged :
      (minimum : ℕ) (a b c : List ℕ)
      → Ordered a b
      → Ordered b c
      → Judged (IsSplit minimum a b c) (split_frames day minimum a b c)
  unfolding split_frames
  split_frames-Judged minimum a b c p q = elim (Bool-cases (ltb (length a) minimum)) [
    | inl short ↦ rw short (λ e. cc e)
    | inr train_long ↦ rw train_long (elim (Bool-cases (ltb (length b) minimum)) [
      | inl short ↦ rw short (λ e. cc e)
      | inr selection_long ↦ rw selection_long (elim (Bool-cases (ltb (length c) minimum)) [
        | inl short ↦ rw short (λ e. cc e)
        | inr test_long ↦
            rw test_long
              (join_frames-Judged minimum a b c (ground arith) (ground arith) (ground arith) p q)
      ])
    ])
  ]

  pub frames-Ordered :
      (index ps bs : List ℕ)
      → ((a b : ℕ) → occurs a ps ≡ true → occurs b bs ≡ true → a < b)
      → Ordered (frame day index ps) (frame day index bs)
  frames-Ordered index ps bs before =
      rows-Ordered (frame day index ps) (frame day index bs) ps bs before (frame-All day index ps)
        (frame-All day index bs)

pub parts_whole :
    (c : SplitConfig) (days : List ℕ)
    → train_days c days ++ (selection_days c days ++ test_days c days) ≡ days
parts_whole c days =
    rw (append-take-drop (c.selection_share (length days)) (later_days c days))
      (append-take-drop (c.train_share (length days)) days)

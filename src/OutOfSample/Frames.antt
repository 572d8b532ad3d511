-- ===== src/OutOfSample/Frames.antt =====
-- Frames by parts of the unique days: in order, and together the whole.
use quant_factory.Prelude.{
  ap, ℕ, ◌≤◌, true, List, [], ◌∷◌, ◌++◌, map, ◌≡◌, refl, arith, All, nat_eq, Bool-cases, inl, inr,
}
use quant_factory.WalkForward.{occurs}
use quant_factory.WalkForward.Cuts.{IsSorted}
use quant_factory.OutOfSample.{frame, last_or}
use quant_factory.OutOfSample.Days.{IsIncreasing, parts-lt, occurs-append_or}

module _ (day : ℕ → ℕ) where
  -- The days of the rows never go back.
  abbrev pub AreSorted : List ℕ → Type 0
  AreSorted rows = IsSorted (map day rows)

  keep_none :
      (rows ps bs : List ℕ) (t : ℕ)
      → IsIncreasing (ps ++ bs)
      → occurs (day t) bs ≡ true
      → All (λ d. day t ≤ d) (map day rows)
      → frame day rows ps ≡ []
  keep_none [] ps bs t increasing later h = refl
  keep_none (r ∷ rows) ps bs t increasing later h = elim (Bool-cases (occurs (day r) ps)) [
    | inl early ↦ absurd (omega (arith, h.0, parts-lt ps bs (day r) (day t) increasing early later))
    | inr other ↦ rw other (keep_none rows ps bs t increasing later h.1)
  ]

  -- The frame of two parts, one after the other, is that of both.
  pub frame-append :
      (rows ps bs : List ℕ)
      → IsIncreasing (ps ++ bs)
      → AreSorted rows
      → frame day rows ps ++ frame day rows bs ≡ frame day rows (ps ++ bs)
  frame-append [] ps bs increasing sorted = refl
  frame-append (r ∷ rows) ps bs increasing sorted =
      let rest = frame-append rows ps bs increasing sorted.1 in
      let both = occurs-append_or ps bs (day r) in
      elim (Bool-cases (occurs (day r) ps)) [
        | inl early ↦ elim (Bool-cases (occurs (day r) bs)) [
          | inl late ↦ absurd (omega (arith, parts-lt ps bs (day r) (day r) increasing early late))
          | inr other ↦ rw early (rw other (rw both (rw early (ap (λ ts. r ∷ ts) rest))))
        ]
        | inr other ↦ elim (Bool-cases (occurs (day r) bs)) [
          | inl late ↦
              let none = keep_none rows ps bs r increasing late sorted.0 in
              rw other (
                rw late
                  (rw both (rw other (rw late (rw none (ap (λ ts. r ∷ ts) (rw none at rest)))))))
          | inr neither ↦ rw other (rw neither (rw both (rw other (rw neither rest))))
        ]
      ]

  pub frame_whole :
      (rows days : List ℕ) → All (λ t. occurs (day t) days ≡ true) rows → frame day rows days ≡ rows
  frame_whole [] days h = refl
  frame_whole (r ∷ rows) days h = rw h.0 (ap (λ ts. r ∷ ts) (frame_whole rows days h.1))

  pub frame-All : (rows days : List ℕ) → All (λ t. occurs (day t) days ≡ true) (frame day rows days)
  frame-All [] days = tt
  frame-All (r ∷ rows) days = elim (Bool-cases (occurs (day r) days)) [
    | inl inside ↦ rw inside (inside, frame-All rows days)
    | inr other ↦ rw other (frame-All rows days)
  ]

pub All-last : (P : ℕ → Type 0) (t : ℕ) (ts : List ℕ) → P t → All P ts → P (last_or t ts)
All-last P t [] h k = h
All-last P t (u ∷ us) h k = All-last P u us k.0 k.1

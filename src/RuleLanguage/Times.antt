-- ===== src/RuleLanguage/Times.antt =====
-- `clock_minutes` and `_hhmm`: a time of day as a text and as minutes.
use quant_factory.Prelude.{
  ◌↔◌, inr, inl, Bool-cases, ℕ, ◌+◌, ◌*◌, ◌≤◌, ◌<◌, true, some, List, [], ◌∷◌, ◌≡◌, arith, nat_eq,
}
use quant_factory.RuleLanguage.Clock.{clock_codes, hhmm, is_hour, two_digits}

-- The minutes of a day survive the text.
clock_codes-hhmm : (minutes : ℕ) → minutes < 1440 → clock_codes (hhmm minutes) ≡ some minutes
unfolding hhmm
clock_codes-hhmm minutes h = ground arith

is_hour_bounds :
    (a b : ℕ)
    → is_hour a b ≡ true
    → (48 ≤ a) × (a ≤ 50) × (48 ≤ b) × (b ≤ 57) × (two_digits a b < 24)
is_hour_bounds a b h = ground arith

-- the parts of an accepted text
matched :
    (a b c d e minutes : ℕ)
    → clock_codes (a ∷ b ∷ c ∷ d ∷ e ∷ []) ≡ some minutes
    → (is_hour a b ≡ true)
      × (c ≡ 58)
      × (48 ≤ d)
      × (d ≤ 53)
      × (48 ≤ e)
      × (e ≤ 57)
      × (two_digits a b * 60 + two_digits d e ≡ minutes)
matched a b c d e minutes h = elim (Bool-cases (is_hour a b)) [
  | inl hour ↦
      let rest = rw hour at h in
      (hour, ground arith, ground arith, ground arith, ground arith, ground arith, ground arith)
  | inr other ↦ absurd (cc (rw other at h))
]

five_codes :
    {a a' b b' c c' d d' e e' : ℕ}
    → a ≡ a'
    → b ≡ b'
    → c ≡ c'
    → d ≡ d'
    → e ≡ e'
    → ◌≡◌ {A = List ℕ} (a ∷ b ∷ c ∷ d ∷ e ∷ []) (a' ∷ b' ∷ c' ∷ d' ∷ e' ∷ [])
five_codes p q r s t = cc

-- A text that is accepted is the text of its minutes, and they are of one day.
hhmm-clock_codes :
    (cs : List ℕ) (minutes : ℕ)
    → clock_codes cs ≡ some minutes
    → (minutes < 1440) × (hhmm minutes ≡ cs)
unfolding hhmm
hhmm-clock_codes (a ∷ b ∷ c ∷ d ∷ e ∷ []) minutes h =
    let parts = matched a b c d e minutes h in
    let hour = is_hour_bounds a b parts.0 in
    (omega arith, five_codes (omega arith) (omega arith) (omega arith) (omega arith) (omega arith))
hhmm-clock_codes _ minutes h = cc

-- `clock_minutes` accepts exactly the texts of the 1440 minutes of a day, `HH:MM` with two digits
-- each, and returns the minute that `_hhmm` writes as that text.
pub clock_codes_iff :
    (cs : List ℕ) (minutes : ℕ)
    → (clock_codes cs ≡ some minutes) ↔ ((minutes < 1440) × (hhmm minutes ≡ cs))
clock_codes_iff cs minutes =
    (hhmm-clock_codes cs minutes, λ h. rw h.1 at (clock_codes-hhmm minutes h.0))

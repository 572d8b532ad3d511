-- ===== src/RuleLanguage/Clock.antt =====
-- Times of day: `clock_minutes`, `_hhmm` and `_clock`, and the geometry of a session.
use Prim.Native.Char.{code}
use quant_factory.Prelude.{
  ℕ, ◌+◌, ◌-◌, ◌*◌, ◌/◌, Bool, ◌&&◌, ◌||◌, Option, none, some, List, [], ◌∷◌, String, leb, nat_eq,
  string_eq, ◌==◌, if◌then◌else◌,
}
use Prim.Native.Nat.{◌%◌}
use quant_factory.Python.Json.{Json, text}
use quant_factory.RuleLanguage.Checked.{Checked, need, need_some, pure, ◌>>=◌, ◌>>◌}

abbrev pub codes : String → List ℕ
codes String.[] = []
codes (String.◌∷◌ c s) = code c ∷ codes s

abbrev is_digit_to : (last c : ℕ) → Bool
is_digit_to last c = leb b'0' c && leb c last

-- `([01][0-9]|2[0-3])` on two characters
abbrev pub is_hour : ℕ → ℕ → Bool
is_hour a b = (is_digit_to b'1' a && is_digit_to b'9' b) || (a == b'2' && is_digit_to b'3' b)

abbrev pub two_digits : ℕ → ℕ → ℕ
two_digits a b = (a - b'0') * 10 + (b - b'0')

-- `_CLOCK.fullmatch`, and the minutes of its two groups
abbrev pub clock_codes : List ℕ → Option ℕ
clock_codes (a ∷ b ∷ c ∷ d ∷ e ∷ []) =
    if is_hour a b && c == b':' && is_digit_to b'5' d && is_digit_to b'9' e
    then some (two_digits a b * 60 + two_digits d e)
    else none
clock_codes _ = none

-- `clock_minutes`, `none` where it raises `ValueError`
unfoldable pub clock_minutes : Json → Option ℕ
clock_minutes (text s) = clock_codes (codes s)
clock_minutes _ = none

-- The codes of `_hhmm(minutes)`, for minutes of one day.
unfoldable pub hhmm : ℕ → List ℕ
hhmm minutes =
    (b'0' + minutes / 60 / 10)
    ∷ (b'0' + minutes / 60 % 10)
    ∷ b':'
    ∷ (b'0' + minutes % 60 / 10)
    ∷ (b'0' + minutes % 60 % 10)
    ∷ []

-- The minutes of a text that has been matched before.
abbrev minutes_or_zero : Option ℕ → ℕ
minutes_or_zero none = 0
minutes_or_zero (some n) = n

abbrev pub minutes_of : String → ℕ
minutes_of s = minutes_or_zero (clock_codes (codes s))

abbrev pub session_open_minutes : ℕ
session_open_minutes = 570

abbrev pub session_close_minutes : ℕ
session_close_minutes = 960

-- `_Validator.set_bar`: what the checks read of the bar size.
pub record Bar : Type 0 where
  pub step : ℕ
  pub bars_per_session : ℕ
  pub first_end : ℕ
  pub last_exit : ℕ

abbrev pub bar_minutes : String → Option ℕ
bar_minutes bar = if bar == "1m" then some 1 else if bar == "5m" then some 5 else none

unfoldable pub set_bar : (step : ℕ) → Bar
set_bar step = record {
  step = step;
  bars_per_session = (session_close_minutes - session_open_minutes) / step;
  first_end = session_open_minutes + step;
  last_exit = session_close_minutes - step;
}

-- the text of a value that `clock_minutes` accepts
abbrev the_text : Json → String
the_text (text s) = s
the_text _ = ""

-- `_clock`
unfoldable pub clock : (earliest latest step : ℕ) → Json → Checked String
clock earliest latest step value = do
  minutes ← need_some (clock_minutes value)
  need (minutes % step == 0)
  need (leb earliest minutes && leb minutes latest)
  pure (the_text value)

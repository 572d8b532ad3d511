-- ===== src/Python/Text.antt =====
-- The operations of `str` that the modelled code uses, over the characters of a text.
use Prim.Native.Char.{code}
use quant_factory.Prelude.{
  ℕ, zero, suc, ◌≡◌, refl, Bool, true, false, ◌&&◌, ◌||◌, String, leb, nat_eq, ◌==◌, if◌then◌else◌,
}

-- `len(text)`, in characters
unfoldable pub length : String → ℕ
length String.[] = 0
length (String.◌∷◌ c s) = suc (length s)

-- `str.isspace` of one character
unfoldable pub is_space : ℕ → Bool
is_space c =
    (leb 9 c && leb c 13)
    || (leb 28 c && leb c 32)
    || c == 0x85
    || c == 0xa0
    || c == 0x1680
    || (leb 0x2000 c && leb c 0x200a)
    || c == 0x2028
    || c == 0x2029
    || c == 0x202f
    || c == 0x205f
    || c == 0x3000

unfoldable pub is_empty : String → Bool
is_empty String.[] = true
is_empty (String.◌∷◌ c s) = false

unfoldable pub left_strip : String → String
left_strip String.[] = String.[]
left_strip (String.◌∷◌ c s) = if is_space (code c) then left_strip s else String.◌∷◌ c s

unfoldable pub right_strip : String → String
right_strip String.[] = String.[]
right_strip (String.◌∷◌ c s) =
    let rest = right_strip s in
    if is_empty rest && is_space (code c) then String.[] else String.◌∷◌ c rest

unfoldable pub strip : String → String
unfolding left_strip right_strip is_space is_empty
strip s = right_strip (left_strip s)

unfoldable pub all_codes : (ℕ → Bool) → String → Bool
all_codes p String.[] = true
all_codes p (String.◌∷◌ c s) = p (code c) && all_codes p s

abbrev pub is_letter : ℕ → Bool
is_letter c = (leb b'A' c && leb c b'Z') || (leb b'a' c && leb c b'z')

abbrev pub is_digit : ℕ → Bool
is_digit c = leb b'0' c && leb c b'9'

abbrev is_hex : ℕ → Bool
is_hex c = is_digit c || (leb b'a' c && leb c b'f') || (leb b'A' c && leb c b'F')

-- `re.fullmatch` of a class of characters repeated between `low` and `high` times
unfoldable pub full_match : (ℕ → Bool) → ℕ → ℕ → String → Bool
unfolding all_codes length
full_match p low high s = all_codes p s && leb low (length s) && leb (length s) high

-- A text of hexadecimal digits in groups that dashes join: `n` digits are due in the current group.
unfoldable pub uuid_groups : ℕ → String → Bool
uuid_groups n String.[] = n == 36
uuid_groups n (String.◌∷◌ c s) =
    (if n == 8 || n == 13 || n == 18 || n == 23 then code c == b'-' else is_hex (code c))
    && uuid_groups (suc n) s

-- `str(UUID(value)) == value.lower()`: eight, four, four, four and twelve digits.
unfoldable pub is_canonical_uuid : String → Bool
unfolding uuid_groups
is_canonical_uuid s = uuid_groups 0 s

-- `text + other`
unfoldable pub append : String → String → String
append String.[] t = t
append (String.◌∷◌ c s) t = String.◌∷◌ c (append s t)

-- `text[:n]`
unfoldable pub left_chars : ℕ → String → String
left_chars zero s = String.[]
left_chars (suc n) String.[] = String.[]
left_chars (suc n) (String.◌∷◌ c s) = String.◌∷◌ c (left_chars n s)

strip_test : strip "  a b \n" ≡ "a b"
unfolding strip
strip_test = refl

uuid_test : is_canonical_uuid "123e4567-e89b-12d3-A456-426614174000" ≡ true
unfolding is_canonical_uuid
uuid_test = refl

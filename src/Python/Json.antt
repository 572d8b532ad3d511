-- ===== src/Python/Json.antt =====
-- JSON documents, and the dictionary operations on them that the modelled code uses.
use quant_factory.Prelude.{
  ℕ, Bool, true, false, ◌&&◌, Option, none, some, List, [], ◌∷◌, String, nat_eq, string_eq, ◌==◌,
  if◌then◌else◌, length,
}

-- An integer is negative or not; a number with a fraction is kept by its text.
mutual
  pub data Json : Type 0 where
    null : Json
    boolean : Bool → Json
    number : ℕ → Json
    negative : ℕ → Json
    fraction : String → Json
    text : String → Json
    array : Items → Json
    object : Fields → Json

  pub data Items : Type 0 where
    nil : Items
    item : Json → Items → Items

  pub data Fields : Type 0 where
    end : Fields
    field : String → Json → Fields → Fields

-- Code outside the repository: `hashlib.sha256(...).hexdigest()`, `json.loads` (`none` where it
-- raises) and `json.dumps` with sorted keys, which together are `canonical_json`.
pub record Codec : Type 0 where
  pub sha256 : String → String
  pub loads : String → Option Json
  pub dumps : Json → String

abbrev pub get_field : String → Fields → Option Json
get_field k end = none
get_field k (field j v fs) = if j == k then some v else get_field k fs

-- `document[key]` of any value: `none` where it raises `KeyError` or `TypeError`.
abbrev pub get_item : String → Json → Option Json
get_item k (object fs) = get_field k fs
get_item k _ = none

-- `fields.get(key)`, where a missing key reads as `None`
abbrev or_null : Option Json → Json
or_null none = null
or_null (some v) = v

abbrev pub get : String → Fields → Json
get k fs = or_null (get_field k fs)

-- `fields.pop(key, None)`
abbrev pub remove_field : String → Fields → Fields
remove_field k end = end
remove_field k (field j v fs) =
    let rest = remove_field k fs in if j == k then rest else field j v rest

-- `fields[key] = value`
abbrev pub set_field : String → Json → Fields → Fields
set_field k v end = field k v end
set_field k v (field j w fs) = if j == k then field j v fs else field j w (set_field k v fs)

abbrev pub has_field : String → Fields → Bool
has_field k fs = elim (get_field k fs) [ none ↦ false | some _ ↦ true ]

-- `value == text`
abbrev pub is_text : Json → String → Bool
is_text (text s) t = s == t
is_text _ t = false

-- `value == text`, where `text` may be `None`
abbrev pub is_optional_text : Json → Option String → Bool
is_optional_text (text s) (some t) = s == t
is_optional_text null none = true
is_optional_text _ _ = false

-- `bool(value)`
abbrev pub is_truthy : Json → Bool
is_truthy null = false
is_truthy (boolean b) = b
is_truthy (number n) = if n == 0 then false else true
is_truthy (negative n) = true
is_truthy (fraction s) = if s == "0.0" then false else if s == "-0.0" then false else true
is_truthy (text s) = if s == "" then false else true
is_truthy (array nil) = false
is_truthy (array _) = true
is_truthy (object end) = false
is_truthy (object _) = true

-- A dictionary from text to text.
abbrev pub Texts : Type 0
Texts = List (String × String)

abbrev lookup : String → Texts → Option String
lookup k [] = none
lookup k ((j, v) ∷ d) = if j == k then some v else lookup k d

abbrev agrees : Option String → String → Bool
agrees none v = false
agrees (some w) v = w == v

-- every entry of the first stands in the second
abbrev is_within : Texts → Texts → Bool
is_within [] e = true
is_within ((k, v) ∷ d) e = agrees (lookup k e) v && is_within d e

-- `d == e`, whatever the order of the entries
unfoldable pub texts_eq : Texts → Texts → Bool
texts_eq d e = (length d == length e) && is_within d e

-- `isinstance(value, dict)` with texts for all values
abbrev fields_to_texts : Fields → Option Texts
fields_to_texts end = some []
fields_to_texts (field k (text v) fs) = elim (fields_to_texts fs) [
  | none ↦ none
  | some d ↦ some ((k, v) ∷ d)
]
fields_to_texts (field k _ fs) = none

abbrev pub to_texts : Json → Option Texts
to_texts (object fs) = fields_to_texts fs
to_texts _ = none

abbrev pub of_texts : Texts → Fields
of_texts [] = end
of_texts ((k, v) ∷ d) = field k (text v) (of_texts d)

-- `value == d` for a dictionary `d` of texts
abbrev pub is_texts : Json → Texts → Bool
is_texts v d = elim (to_texts v) [ none ↦ false | some e ↦ texts_eq e d ]

abbrev pub of_optional_text : Option String → Json
of_optional_text none = null
of_optional_text (some s) = text s

-- ===== src/Campaign/Combinations.antt =====
-- orchestration/auto_campaign.py, `parameter_combinations`: the settings that a rule strategy is
-- tested with.
use Prim.Native.Char.{code}
use quant_factory.Prelude.{
  Bool, true, false, List, [], ◌∷◌, map, String, ltb, nat_eq, ◌==◌, if◌then◌else◌,
}
use quant_factory.Python.{Result, ok, err, key_error, type_error, or_raise}
use quant_factory.Python.Raising.{◌>>=◌}
use quant_factory.Python.Json.{
  Json, text, array, object, Items, nil, item, Fields, end, field, get_field,
}
use quant_factory.RuleLanguage.Nodes.{keys}
use quant_factory.Strategies.Products.{product}

-- `first <= second` of texts, by their characters
abbrev pub text_leb : String → String → Bool
text_leb String.[] t = true
text_leb (String.◌∷◌ c s) String.[] = false
text_leb (String.◌∷◌ c s) (String.◌∷◌ d t) =
    let rest = text_leb s t in if code c == code d then rest else ltb (code c) (code d)

abbrev pub insert_field : String → Json → Fields → Fields
insert_field k v end = field k v end
insert_field k v (field j w fs) =
    if text_leb k j then field k v (field j w fs) else field j w (insert_field k v fs)

-- `sorted(variables)`, each name with its definition: the names of a dictionary differ.
unfoldable pub sorted_fields : Fields → Fields
sorted_fields end = end
sorted_fields (field k v fs) = insert_field k v (sorted_fields fs)

abbrev characters : String → List Json
characters String.[] = []
characters (String.◌∷◌ c s) = text (String.◌∷◌ c String.[]) ∷ characters s

abbrev pub to_list : Items → List Json
to_list nil = []
to_list (item x xs) = x ∷ to_list xs

-- `list(value)`
abbrev pub list_of : Json → Result (List Json)
list_of (array xs) = ok (to_list xs)
list_of (text s) = ok (characters s)
list_of (object fs) = ok (map text (keys fs))
list_of _ = err type_error

-- `list(dict(definition)["values"])`; a definition that is a list of pairs is left out.
abbrev pub values_of : Json → Result (List Json)
values_of (object fs) = do value ← or_raise (get_field "values" fs) key_error; list_of value
values_of _ = err type_error

unfoldable pub all_values : Fields → Result (List (List Json))
all_values end = ok []
all_values (field k v fs) = do values ← values_of v; rest ← all_values fs; ok (values ∷ rest)

-- `dict(zip(names, combination))`
abbrev pub zip_fields : List String → List Json → Fields
zip_fields [] vs = end
zip_fields (k ∷ ks) [] = end
zip_fields (k ∷ ks) (v ∷ vs) = field k v (zip_fields ks vs)

-- Without variables the product is the one empty combination, which the source returns at once.
unfoldable pub parameter_combinations : Fields → Result (List Fields)
parameter_combinations variables = do
  values ← all_values (sorted_fields variables)
  ok (map (zip_fields (keys (sorted_fields variables))) (product values))

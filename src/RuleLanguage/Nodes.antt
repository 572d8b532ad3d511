-- ===== src/RuleLanguage/Nodes.antt =====
-- `_object`, `_pair` and `_operator`: the shape of a node.
use quant_factory.Prelude.{
  Bool, true, false, Option, none, some, List, [], ◌∷◌, ◌++◌, String, any, all, string_eq, ◌==◌,
  if◌then◌else◌,
}
use quant_factory.Python.Json.{
  Json, array, object, boolean, Items, nil, item, Fields, end, field, get_field, has_field,
}
use quant_factory.RuleLanguage.Checked.{
  Checked, ok, err, invalid, need, need_some, pure, ◌>>=◌, ◌>>◌,
}

abbrev pub is_member : String → List String → Bool
is_member name names = any (λ other. other == name) names

abbrev pub keys : Fields → List String
keys end = []
keys (field k v fs) = k ∷ keys fs

-- `isinstance(node, Mapping)`, and the mapping
unfoldable pub mapping : Json → Checked Fields
mapping (object fs) = ok fs []
mapping _ = err invalid

-- `_object`
unfoldable pub object_with : (required optional : List String) → Json → Checked Fields
object_with required optional node = do
  fs ← mapping node
  need (all (λ key. is_member key (required ++ optional)) (keys fs))
  need (all (λ key. has_field key fs) required)
  pure fs

-- `isinstance(value, (list, tuple))`, and the list
unfoldable pub sequence : Json → Checked Items
sequence (array xs) = ok xs []
sequence _ = err invalid

-- `not values`
abbrev pub is_nil : Items → Bool
is_nil nil = true
is_nil (item x xs) = false

abbrev two_items : Items → Checked (Json × Json)
two_items (item a (item b nil)) = ok (a, b) []
two_items _ = err invalid

-- `_pair`
unfoldable pub pair : Json → Checked (Json × Json)
pair node = do xs ← sequence node; two_items xs

-- the keys that are operators
abbrev pub heads : (allowed : List String) → Fields → List String
heads allowed end = []
heads allowed (field k v fs) =
    if is_member k allowed then k ∷ heads allowed fs else heads allowed fs

abbrev pub one_head : List String → Checked String
one_head (head ∷ []) = ok head []
one_head _ = err invalid

-- `_operator`: more than one operator, an empty object and an unknown one are refused alike.
unfoldable pub operator_of : (allowed : List String) → Json → Checked String
operator_of allowed node = do fs ← mapping node; one_head (heads allowed fs)

-- `node[key]` of a mapping in which the key has been found
unfoldable pub item_of : String → Fields → Checked Json
item_of key fs = need_some (get_field key fs)

-- `node.get("across_sessions", False)`, and its type test
unfoldable pub flag_of : Option Json → Checked Bool
flag_of none = ok false []
flag_of (some (boolean b)) = ok b []
flag_of (some _) = err invalid

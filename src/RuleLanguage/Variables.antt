-- ===== src/RuleLanguage/Variables.antt =====
-- The variables that a spec refers to.
use quant_factory.RuleLanguage.Indicators.{join}
use quant_factory.RuleLanguage.Nodes.{is_member}
use quant_factory.Prelude.{
  inr, inl, ◌||◌, true, false, List, [], ◌∷◌, ◌++◌, ◌≡◌, refl, arith, String, string_eq, ◌==◌,
  if◌then◌else◌, Bool-cases,
}
use quant_factory.Python.Json.{
  Json, null, array, object, boolean, number, negative, fraction, text, Items, nil, item, Fields,
  end, field, has_field,
}
use mathlib.Core.List.{append-nil, append_assoc}

is_member-append :
    (name : String) (us vs : List String)
    → is_member name (us ++ vs) ≡ (is_member name us || is_member name vs)
is_member-append name [] vs = refl
is_member-append name (u ∷ us) vs = ground (arith, is_member-append name us vs)

-- The variables of `{"param": name}`, wherever it stands in a document.
abbrev pub name_at : Json → List String
name_at (text s) = s ∷ []
name_at _ = []

unfoldable mutual
  pub params : Json → List String
  params (object fs) = params_fields fs
  params (array xs) = params_items xs
  params null = []
  params (boolean b) = []
  params (number n) = []
  params (negative n) = []
  params (fraction s) = []
  params (text s) = []

  pub params_items : Items → List String
  params_items nil = []
  params_items (item x xs) = params x ++ params_items xs

  pub params_fields : Fields → List String
  params_fields end = []
  params_fields (field k v fs) =
      (if k == "param" then name_at v else []) ++ (params v ++ params_fields fs)

pub params-join :
    (fs gs : Fields) → params_fields (join fs gs) ≡ params_fields fs ++ params_fields gs
unfolding params
params-join end gs = refl
params-join (field k v fs) gs = rw (params-join fs gs) (simp append_assoc)

module _ (variables : Fields) where
  -- The names of the one are those of the other, and each of them is declared.
  abbrev Refers : (ps us : List String) → Type 0
  Refers ps us =
      (name : String)
      → (is_member name ps ≡ is_member name us)
        × (is_member name us ≡ true → has_field name variables ≡ true)

  abbrev pub Tracks : Json → List String → Type 0
  Tracks v us = Refers (params v) us

  abbrev pub TracksItems : Items → List String → Type 0
  TracksItems xs us = Refers (params_items xs) us

  abbrev pub TracksFields : Fields → List String → Type 0
  TracksFields fs us = Refers (params_fields fs) us

  pub Refers-append :
      (ps qs us vs : List String) → Refers ps us → Refers qs vs → Refers (ps ++ qs) (us ++ vs)
  Refers-append ps qs us vs h k name =
      ground (arith, is_member-append name ps qs, is_member-append name us vs, h name, k name)

  pub Refers-nil : Refers [] []
  Refers-nil name = (refl, λ h. cc)

  -- The parts of a copy, where they were checked in the other order.
  pub Refers-crossed :
      (ps qs us vs : List String)
      → Refers ps us
      → Refers qs vs
      → Refers (ps ++ (qs ++ [])) (vs ++ (us ++ []))
  Refers-crossed ps qs us vs h k = rw (append-nil qs) (
      rw (append-nil us) (λ name.
        ground (arith, is_member-append name ps qs, is_member-append name vs us, h name, k name)))

  pub Refers-rotated :
      (ps qs rs us vs ws : List String)
      → Refers ps us
      → Refers qs vs
      → Refers rs ws
      → Refers (ps ++ (qs ++ rs)) (ws ++ (us ++ (vs ++ [])))
  Refers-rotated ps qs rs us vs ws h k l = rw (append-nil vs) (λ name. ground (
    arith,
    is_member-append name ps (qs ++ rs),
    is_member-append name qs rs,
    is_member-append name ws (us ++ vs),
    is_member-append name us vs,
    h name,
    k name,
    l name,
  ))

-- An operator other than `param`.
pub not_param :
    (operator : String) (allowed : List String)
    → is_member "param" allowed ≡ false
    → is_member operator allowed ≡ true
    → (operator == "param") ≡ false
not_param operator allowed out h = elim (Bool-cases (operator == "param")) [
  | inl same ↦ cc (out, h, (string_eq.same_iff operator "param").0 same)
  | inr other ↦ other
]

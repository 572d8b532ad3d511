-- ===== src/RuleLanguage/Rules.antt =====
-- The checks of a node's shape, as rules for what a check ensures.
use Prim.Native.Nat.{◌%◌}
use quant_factory.Prelude.{
  nat_eq, ◌&&◌, leb, ◌==◌, inr, nat_beq_iff, ap, sym, ◌∙◌, inl, Bool-cases, ℕ, ◌≤◌, ◌<◌, Bool, true,
  false, Option, none, some, List, [], ◌∷◌, ◌≡◌, refl, arith, String,
}
use quant_factory.Python.Json.{
  fraction, negative, number, Json, null, array, object, boolean, text, Items, nil, item, Fields,
  end, field, get_field,
}
use quant_factory.RuleLanguage.Checked.{
  Ensures-bind, Ensures-ok, Checked, Ensures, Ensures-need, Ensures-some, Ensures-used_too, need,
  need_some, ◌>>=◌,
}
use quant_factory.RuleLanguage.Nodes.{
  mapping, object_with, sequence, pair, heads, one_head, operator_of, item_of, flag_of, is_member,
}
use quant_factory.RuleLanguage.Clock.{minutes_of, clock_minutes, clock}
use quant_factory.RuleLanguage.Depth.{depth, depth_fields, depth-get_field}

module _ {B : Type 0} (Q : B → List String → Type 0) where
  pub Ensures-object :
      (required optional : List String) (node : Json) (f : Fields → Checked B)
      → ((fs : Fields) → node ≡ object fs → Ensures Q (f fs))
      → Ensures Q (object_with required optional node >>= f)
  unfolding object_with mapping Ensures ◌>>=◌ need
  Ensures-object required optional (object fs) f h = ground (arith, h fs refl)
  Ensures-object required optional _ f h = tt

  pub Ensures-mapping :
      (node : Json) (f : Fields → Checked B)
      → ((fs : Fields) → node ≡ object fs → Ensures Q (f fs))
      → Ensures Q (mapping node >>= f)
  unfolding Ensures mapping ◌>>=◌
  Ensures-mapping (object fs) f h = Ensures-used_too Q [] (f fs) (h fs refl)
  Ensures-mapping _ f h = tt

  pub Ensures-sequence :
      (node : Json) (f : Items → Checked B)
      → ((xs : Items) → node ≡ array xs → Ensures Q (f xs))
      → Ensures Q (sequence node >>= f)
  unfolding Ensures sequence ◌>>=◌
  Ensures-sequence (array xs) f h = Ensures-used_too Q [] (f xs) (h xs refl)
  Ensures-sequence _ f h = tt

  pub Ensures-item :
      (key : String) (fs : Fields) (f : Json → Checked B)
      → ((v : Json) → depth v ≤ depth_fields fs → Ensures Q (f v))
      → Ensures Q (item_of key fs >>= f)
  unfolding item_of
  Ensures-item key fs f h =
      Ensures-some Q (get_field key fs) f (λ v e. h v (depth-get_field key fs v e))

  pub Ensures-flag :
      (o : Option Json) (f : Bool → Checked B)
      → ((b : Bool) → Ensures Q (f b))
      → Ensures Q (flag_of o >>= f)
  unfolding Ensures flag_of ◌>>=◌
  Ensures-flag none f h = Ensures-used_too Q [] (f false) (h false)
  Ensures-flag (some (boolean b)) f h = Ensures-used_too Q [] (f b) (h b)
  Ensures-flag (some _) f h = tt

  -- A check that uses no variable, by a lemma about it alone.
  pub Ensures-plain :
      {A : Type 0} (R : A → Type 0) (m : Checked A) (f : A → Checked B)
      → Ensures (λ a us. (us ≡ []) × R a) m
      → ((a : A) → R a → Ensures Q (f a))
      → Ensures Q (m >>= f)
  Ensures-plain R m f h next =
      Ensures-bind (λ a us. (us ≡ []) × R a) Q m f h (λ a us r. rw r.0 (next a r.1))

-- A time on the grid of the bars, between two limits.
abbrev IsTime : (earliest latest step : ℕ) → String → Type 0
IsTime earliest latest step s =
    (clock_minutes (text s) ≡ some (minutes_of s))
    × (minutes_of s % step ≡ 0)
    × (earliest ≤ minutes_of s)
    × (minutes_of s ≤ latest)

clock_minutes-text : (s : String) (m : ℕ) → clock_minutes (text s) ≡ some m → minutes_of s ≡ m
unfolding clock_minutes
clock_minutes-text s m h = rw h

found-IsTime :
    (earliest latest step : ℕ) (s : String) (m : ℕ)
    → clock_minutes (text s) ≡ some m
    → (m % step == 0) ≡ true
    → (leb earliest m && leb m latest) ≡ true
    → IsTime earliest latest step s
found-IsTime earliest latest step s m e on_grid inside =
    let same = clock_minutes-text s m e in
    (
      e ∙ ap some (sym same),
      rw same ((nat_beq_iff (m % step) 0).0 on_grid),
      rw same (ground arith),
      rw same (ground arith),
    )

pub clock-IsTime :
    (earliest latest step : ℕ) (node : Json)
    → Ensures (λ s us. (us ≡ []) × IsTime earliest latest step s) (clock earliest latest step node)
unfolding clock
clock-IsTime earliest latest step (text s) = Ensures-some _ _ _ (λ m e.
    Ensures-need _ _ _ (λ on_grid.
      Ensures-need _ _ _ (λ inside.
        Ensures-ok _ _ _ (refl, found-IsTime earliest latest step s m e on_grid inside))))
clock-IsTime earliest latest step _ = unfold clock_minutes need_some Ensures ◌>>=◌ in tt

-- Two documents below another.
abbrev AreBelow : Json → Json × Json → Type 0
AreBelow node (a, b) = (depth a < depth node) × (depth b < depth node)

pub pair-depth : (node : Json) → Ensures (λ ab us. (us ≡ []) × AreBelow node ab) (pair node)
unfolding pair sequence depth Ensures ◌>>=◌
pair-depth (array (item a (item b nil))) = (refl, (omega arith, omega arith))
pair-depth (array nil) = tt
pair-depth (array (item a nil)) = tt
pair-depth (array (item a (item b (item c xs)))) = tt
pair-depth null = tt
pair-depth (boolean _) = tt
pair-depth (number _) = tt
pair-depth (negative _) = tt
pair-depth (fraction _) = tt
pair-depth (text _) = tt
pair-depth (object _) = tt

heads-member :
    (allowed : List String) (fs : Fields) (h : String) (rest : List String)
    → heads allowed fs ≡ h ∷ rest
    → is_member h allowed ≡ true
heads-member allowed end h rest e = cc
heads-member allowed (field k v fs) h rest e = elim (Bool-cases (is_member k allowed)) [
  | inl is ↦ let same : k ≡ h = cc (e, is) in rw (sym same) is
  | inr other ↦ heads-member allowed fs h rest (rw other at e)
]

one_head-member :
    (allowed heads : List String)
    → ((h : String) (rest : List String) → heads ≡ h ∷ rest → is_member h allowed ≡ true)
    → Ensures (λ h us. (us ≡ []) × (is_member h allowed ≡ true)) (one_head heads)
unfolding Ensures
one_head-member allowed [] h = tt
one_head-member allowed (a ∷ []) h = (refl, h a [] refl)
one_head-member allowed (a ∷ b ∷ rest) h = tt

pub operator_of-member :
    (allowed : List String) (node : Json)
    → Ensures (λ h us. (us ≡ []) × (is_member h allowed ≡ true)) (operator_of allowed node)
unfolding operator_of
operator_of-member allowed node =
    Ensures-mapping _ node _
      (λ fs _. one_head-member allowed (heads allowed fs) (heads-member allowed fs))

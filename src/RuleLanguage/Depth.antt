-- ===== src/RuleLanguage/Depth.antt =====
-- The depth and the size of a document, and `_check_size`.
use quant_factory.Prelude.{
  inr, inl, Bool-cases, ℕ, zero, suc, ◌+◌, ◌≤◌, max, some, [], ◌∷◌, ◌≡◌, arith, String, ltb,
  string_eq,
}
use quant_factory.Python.Json.{
  Json, null, array, object, boolean, number, negative, fraction, text, Items, nil, item, Fields,
  end, field, get_field,
}
use quant_factory.RuleLanguage.Checked.{Ensures-weaker, Ensures}
use quant_factory.RuleLanguage.Specs.{
  Stack, push_items, push_fields, push, check_stack, check_size, max_rule_depth, max_rule_nodes,
}

-- The levels of a document.
unfoldable mutual
  pub depth : Json → ℕ
  depth (object fs) = suc (depth_fields fs)
  depth (array xs) = suc (depth_items xs)
  depth null = 1
  depth (boolean b) = 1
  depth (number n) = 1
  depth (negative n) = 1
  depth (fraction s) = 1
  depth (text s) = 1

  pub depth_items : Items → ℕ
  depth_items nil = 0
  depth_items (item x xs) = max (depth x) (depth_items xs)

  pub depth_fields : Fields → ℕ
  depth_fields end = 0
  depth_fields (field k v fs) = max (depth v) (depth_fields fs)

-- The elements of a document.
unfoldable mutual
  pub size : Json → ℕ
  size (object fs) = suc (size_fields fs)
  size (array xs) = suc (size_items xs)
  size null = 1
  size (boolean b) = 1
  size (number n) = 1
  size (negative n) = 1
  size (fraction s) = 1
  size (text s) = 1

  size_items : Items → ℕ
  size_items nil = 0
  size_items (item x xs) = size x + size_items xs

  size_fields : Fields → ℕ
  size_fields end = 0
  size_fields (field k v fs) = size v + size_fields fs

pub depth-get_field :
    (k : String) (fs : Fields) (v : Json) → get_field k fs ≡ some v → depth v ≤ depth_fields fs
unfolding depth
depth-get_field k end v h = cc
depth-get_field k (field j w fs) v h = ground (arith, depth-get_field k fs v)

-- A level below the limit for every entry of the stack, and all their elements.
abbrev Fits : Stack → Type 0
Fits [] = Unit
Fits ((v, d) ∷ stack) = (d + depth v ≤ suc max_rule_depth) × Fits stack

abbrev stack_size : Stack → ℕ
stack_size [] = 0
stack_size ((v, d) ∷ stack) = size v + stack_size stack

stack_size-push_items :
    (xs : Items) (d : ℕ) (stack : Stack)
    → stack_size (push_items xs d stack) ≡ size_items xs + stack_size stack
unfolding size
stack_size-push_items nil d stack = omega arith
stack_size-push_items (item x xs) d stack =
    omega (arith, stack_size-push_items xs d ((x, d) ∷ stack))

stack_size-push_fields :
    (fs : Fields) (d : ℕ) (stack : Stack)
    → stack_size (push_fields fs d stack) ≡ size_fields fs + stack_size stack
unfolding size
stack_size-push_fields end d stack = omega arith
stack_size-push_fields (field k v fs) d stack =
    omega (arith, stack_size-push_fields fs d ((v, d) ∷ stack))

push_items-Fits :
    (xs : Items) (d : ℕ) (stack : Stack)
    → d ≤ suc max_rule_depth
    → Fits (push_items xs d stack)
    → (d + depth_items xs ≤ suc max_rule_depth) × Fits stack
unfolding depth
push_items-Fits nil d stack le h = (omega arith, h)
push_items-Fits (item x xs) d stack le h =
    let rest = push_items-Fits xs d ((x, d) ∷ stack) le h in (omega (arith, rest), rest.1.1)

push_fields-Fits :
    (fs : Fields) (d : ℕ) (stack : Stack)
    → d ≤ suc max_rule_depth
    → Fits (push_fields fs d stack)
    → (d + depth_fields fs ≤ suc max_rule_depth) × Fits stack
unfolding depth
push_fields-Fits end d stack le h = (omega arith, h)
push_fields-Fits (field k v fs) d stack le h =
    let rest = push_fields-Fits fs d ((v, d) ∷ stack) le h in (omega (arith, rest), rest.1.1)

push-Fits :
    (v : Json) (d : ℕ) (stack : Stack)
    → d ≤ max_rule_depth
    → Fits (push v (suc d) stack)
    → (d + depth v ≤ suc max_rule_depth) × Fits stack
unfolding depth
push-Fits (object fs) d stack le h = ground (arith, push_fields-Fits fs (suc d) stack)
push-Fits (array xs) d stack le h = ground (arith, push_items-Fits xs (suc d) stack)
push-Fits null d stack le h = (omega arith, h)
push-Fits (boolean _) d stack le h = (omega arith, h)
push-Fits (number _) d stack le h = (omega arith, h)
push-Fits (negative _) d stack le h = (omega arith, h)
push-Fits (fraction _) d stack le h = (omega arith, h)
push-Fits (text _) d stack le h = (omega arith, h)

stack_size-push :
    (v : Json) (d : ℕ) (stack : Stack)
    → suc (stack_size (push v d stack)) ≡ size v + stack_size stack
unfolding size
stack_size-push (object fs) d stack = omega (arith, stack_size-push_fields fs d stack)
stack_size-push (array xs) d stack = omega (arith, stack_size-push_items xs d stack)
stack_size-push null d stack = omega arith
stack_size-push (boolean _) d stack = omega arith
stack_size-push (number _) d stack = omega arith
stack_size-push (negative _) d stack = omega arith
stack_size-push (fraction _) d stack = omega arith
stack_size-push (text _) d stack = omega arith

check_stack-Ensures :
    (fuel : ℕ) (stack : Stack) (nodes : ℕ)
    → nodes ≤ max_rule_nodes
    → max_rule_nodes + 2 ≤ nodes + fuel
    → Ensures
        (λ _ _. Fits stack × (nodes + stack_size stack ≤ max_rule_nodes))
        (check_stack fuel stack nodes)
unfolding check_stack Ensures
check_stack-Ensures zero stack nodes le enough = absurd (omega arith)
check_stack-Ensures (suc fuel) [] nodes le enough = (tt, omega arith)
check_stack-Ensures (suc fuel) ((v, d) ∷ stack) nodes le enough =
    elim (Bool-cases (ltb max_rule_nodes (suc nodes))) [
      | inl many ↦ rw many tt
      | inr few ↦ rw few (elim (Bool-cases (ltb max_rule_depth d)) [
        | inl deep ↦ rw deep tt
        | inr flat ↦ rw flat (
            Ensures-weaker _ _ (check_stack fuel (push v (suc d) stack) (suc nodes))
              (λ _ _ h.
                let fit = push-Fits v d stack (ground arith) h.0 in
                ((fit.0, fit.1), omega (arith, h.1, stack_size-push v (suc d) stack)))
              (check_stack-Ensures fuel (push v (suc d) stack) (suc nodes) (ground arith)
                (omega arith)))
      ])
    ]

-- `_check_size` ends by itself: its rounds are bounded by the nodes that it counts. What it lets
-- through has at most 32 levels and at most 500 elements.
pub check_size-Ensures :
    (spec : Json)
    → Ensures
        (λ _ _. (depth spec ≤ max_rule_depth) × (size spec ≤ max_rule_nodes))
        (check_size spec)
unfolding check_size Ensures
check_size-Ensures spec =
    Ensures-weaker _ _ (check_stack (max_rule_nodes + 2) ((spec, 1) ∷ []) 0)
      (λ _ _ h. (omega (arith, h.0.0), omega (arith, h.1)))
      (check_stack-Ensures (max_rule_nodes + 2) ((spec, 1) ∷ []) 0 (omega arith) (omega arith))

-- ===== src/RuleLanguage/Stops.antt =====
-- `distance` and `exit`: the variables that they use.
use quant_factory.RuleLanguage.Branches.{below-node}
use quant_factory.Prelude.{
  ℕ, suc, ◌≤◌, false, Option, none, some, List, [], ◌++◌, ◌≡◌, refl, String, string_eq, ◌==◌,
}
use quant_factory.Python.Json.{Json, object, Fields, get_field}
use quant_factory.RuleLanguage.Checked.{
  Checked, Ensures, Ensures-need, Ensures-ok, Ensures-bind, Ensures-if,
}
use quant_factory.RuleLanguage.Clock.{Bar}
use quant_factory.RuleLanguage.Parameters.{amount, Floats}
use quant_factory.RuleLanguage.Indicators.{join}
use quant_factory.RuleLanguage.Exits.{
  distance_kinds, if_given, optional_field, atr_distance, plain_distance, signal_bar_distance,
  distance_by, distance, largest, exit_time, exit_when, exit,
}
use quant_factory.RuleLanguage.Rules.{
  Ensures-object, Ensures-item, Ensures-flag, Ensures-plain, clock-IsTime, operator_of-member,
}
use quant_factory.RuleLanguage.Names.{count-Tracks, amount-Tracks}
use quant_factory.RuleLanguage.Variables.{
  Tracks, TracksFields, Refers-nil, Refers-append, not_param, params, params_fields, params-join,
}
use quant_factory.RuleLanguage.Depth.{depth, depth-get_field}
use native.Mathlib.Nat.{le_trans}
use quant_factory.RuleLanguage.Branches.{le-suc}
use mathlib.Core.List.{append-nil}

-- A value that may be missing, under a key that is no `param`.
abbrev TracksGiven : Fields → Option Json → List String → Type 0
TracksGiven variables o us =
    (key : String) → (key == "param") ≡ false → TracksFields variables (optional_field key o) us

pub if_given-Tracks :
    (variables : Fields) (check : Json → Checked Json) (o : Option Json)
    → ((v : Json) → o ≡ some v → Ensures (Tracks variables) (check v))
    → Ensures (TracksGiven variables) (if_given check o)
unfolding if_given params
if_given-Tracks variables check none h = Ensures-ok _ _ _ (λ key other. Refers-nil variables)
if_given-Tracks variables check (some v) h = Ensures-bind _ _ _ _ (h v refl) (λ w us k.
    Ensures-ok _ _ _
      (λ key other. rw other (Refers-append variables _ _ _ _ k (Refers-nil variables))))

join-Tracks :
    (variables : Fields) (key : String) (o : Option Json) (rest : Fields) (us vs : List String)
    → TracksGiven variables o us
    → (key == "param") ≡ false
    → TracksFields variables rest vs
    → TracksFields variables (join (optional_field key o) rest) (us ++ vs)
join-Tracks variables key o rest us vs h other k = rw (params-join (optional_field key o) rest) (
    Refers-append variables (params_fields (optional_field key o)) (params_fields rest) us vs
      (h key other) k)

pub exit_time-Tracks :
    (variables : Fields) (bar : Bar) (flat_at : Option ℕ) (v : Json)
    → Ensures (Tracks variables) (exit_time bar flat_at v)
unfolding exit_time params
exit_time-Tracks variables bar flat_at v =
    Ensures-plain _ _ _ _ (clock-IsTime _ _ _ v) (λ time _. Ensures-ok _ _ _ (Refers-nil variables))

field-below :
    (node : Json) (fs : Fields) (limit : ℕ) (key : String) (v : Json)
    → node ≡ object fs
    → depth node ≤ suc limit
    → get_field key fs ≡ some v
    → depth v ≤ limit
field-below node fs limit key v same le found =
    below-node node fs limit v same le (depth-get_field key fs v found)

module _ (floats : Floats) (variables : Fields) (bar : Bar) (series : Json → Checked Json)
    (limit : ℕ)
    (checked : (v : Json) → depth v ≤ limit → Ensures (Tracks variables) (series v)) where
  atr_distance-Tracks :
      (v : Json) → Ensures (Tracks variables) (atr_distance floats variables bar series v)
  unfolding atr_distance params
  atr_distance-Tracks v = Ensures-object _ _ _ _ _ (λ atr _. Ensures-item _ _ _ _ (λ given _.
      Ensures-bind _ _ _ _ (count-Tracks floats variables _ _ given) (λ length us h.
        Ensures-item _ _ _ _ (λ times _.
          Ensures-bind _ _ _ _ (amount-Tracks floats variables _ times) (λ multiple vs k.
            Ensures-ok _ _ _ (
              rw (append-nil (params length ++ (params multiple ++ []))) (
                Refers-append variables _ _ _ _ h
                  (Refers-append variables _ _ _ _ k (Refers-nil variables)))))))))

  plain_distance-Tracks :
      (kind : String) (v : Json)
      → depth v ≤ limit
      → (kind == "param") ≡ false
      → Ensures (Tracks variables) (plain_distance floats variables bar series kind v)
  unfolding plain_distance params
  plain_distance-Tracks kind v le other =
      Ensures-bind (Tracks variables) _ _ _
        (Ensures-if _ (kind == "level") (series v)
          (amount floats variables (largest floats variables bar series kind) v) (λ _. checked v le)
          (λ _. amount-Tracks floats variables (largest floats variables bar series kind) v))
        (λ w us h.
          Ensures-ok _ _ _ (rw other (Refers-append variables _ _ _ _ h (Refers-nil variables))))

  signal_bar_distance-Tracks :
      (kind : String) (v : Json)
      → (kind == "param") ≡ false
      → Ensures (Tracks variables) (signal_bar_distance floats variables bar series kind v)
  unfolding signal_bar_distance params
  signal_bar_distance-Tracks kind v other =
      Ensures-need _ _ _ (λ _. Ensures-ok _ _ _ (rw other (Refers-nil variables)))

  distance-Tracks :
      (stop : String) (node : Json)
      → depth node ≤ suc limit
      → Ensures (Tracks variables) (distance floats variables bar series stop node)
  unfolding distance distance_by
  distance-Tracks stop node le =
      Ensures-plain _ _ _ _ (operator_of-member distance_kinds node) (λ kind member.
        Ensures-object _ _ _ _ _ (λ fs same. Ensures-item _ _ _ _ (λ v under.
          Ensures-need _ _ _ (λ _.
            Ensures-if _ (kind == "signal_bar") _ _
              (λ _. signal_bar_distance-Tracks kind v (not_param kind distance_kinds refl member))
              (λ _.
                Ensures-if _ (kind == "atr") _ _ (λ _. atr_distance-Tracks v)
                  (λ _.
                    plain_distance-Tracks kind v (below-node node fs limit v same le under)
                      (not_param kind distance_kinds refl member)))))))

  module _ (condition : Json → Checked Json)
      (sound : (v : Json) → depth v ≤ limit → Ensures (Tracks variables) (condition v)) where
    exit_when-Tracks :
        (node : Json)
        → depth node ≤ suc limit
        → Ensures (Tracks variables) (exit_when floats variables bar series condition node)
    unfolding exit_when params
    exit_when-Tracks node le = Ensures-object _ _ _ _ _ (λ fs same. Ensures-need _ _ _ (λ _.
        Ensures-bind _ _ _ _
          (if_given-Tracks variables condition (get_field "long" fs)
            (λ v found. sound v (field-below node fs limit "long" v same le found)))
          (λ long us h.
            Ensures-bind _ _ _ _
              (if_given-Tracks variables condition (get_field "short" fs)
                (λ v found. sound v (field-below node fs limit "short" v same le found)))
              (λ short vs k. Ensures-ok _ _ _ (
                rw (append-nil vs) (
                  rw (params-join (optional_field "long" long) (optional_field "short" short))
                    (Refers-append variables _ _ _ _ (h "long" refl) (k "short" refl))))))))

    stop-Tracks :
        (node : Json) (fs : Fields)
        → node ≡ object fs
        → depth node ≤ suc limit
        → (key : String)
        → Ensures
            (TracksGiven variables)
            (if_given (distance floats variables bar series key) (get_field key fs))
    stop-Tracks node fs same le key =
        if_given-Tracks variables (distance floats variables bar series key) (get_field key fs)
          (λ v found.
            distance-Tracks key v
              (le_trans (field-below node fs limit key v same le found) (le-suc limit)))

    -- `exit`: each part under its own key, in the order of the checks.
    pub exit-Tracks :
        (flat_at : Option ℕ) (node : Json)
        → depth node ≤ suc limit
        → Ensures (Tracks variables) (exit floats variables bar series condition flat_at node)
    unfolding exit params
    exit-Tracks flat_at node le = Ensures-object _ _ _ _ _ (λ fs same.
        Ensures-bind _ _ _ _
          (if_given-Tracks variables _ (get_field "after_bars" fs)
            (λ v _. count-Tracks floats variables _ _ v))
          (λ a us0 h0.
            Ensures-bind _ _ _ _
              (if_given-Tracks variables _ (get_field "at_time" fs)
                (λ v _. exit_time-Tracks variables bar flat_at v))
              (λ b us1 h1. Ensures-flag _ _ _ (λ opposite.
                Ensures-bind _ _ _ _ (stop-Tracks node fs same le "stop_loss") (λ c us2 h2.
                  Ensures-bind _ _ _ _ (stop-Tracks node fs same le "take_profit") (λ d us3 h3.
                    Ensures-bind _ _ _ _ (stop-Tracks node fs same le "trailing_stop") (λ e us4 h4.
                      Ensures-bind _ _ _ _ (stop-Tracks node fs same le "trail_after") (λ f us5 h5.
                        Ensures-need _ _ _ (λ _. Ensures-need _ _ _ (λ _. Ensures-need _ _ _ (λ _.
                          Ensures-bind _ _ _ _
                            (if_given-Tracks variables _ (get_field "exit_when" fs) (λ v found.
                              exit_when-Tracks v (
                                le_trans (field-below node fs limit "exit_when" v same le found)
                                  (le-suc limit))))
                            (λ g us6 h6. Ensures-ok _ _ _ (
                              join-Tracks variables "after_bars" a _ us0 _ h0 refl (
                                join-Tracks variables "at_time" b _ us1 _ h1 refl (
                                  join-Tracks variables "stop_loss" c _ us2 _ h2 refl (
                                    join-Tracks variables "take_profit" d _ us3 _ h3 refl (
                                      join-Tracks variables "trailing_stop" e _ us4 _ h4 refl (
                                        join-Tracks variables "trail_after" f _ us5 _ h5 refl (
                                          rw (append-nil us6)
                                            (h6 "exit_when" refl))))))))))))))))))))

-- ===== src/FilterChain/Gates.antt =====
-- orchestration/filter_chain.py, `_run`: the prerequisites of the protected test, after four stages.
use quant_factory.FilterChain.Justified.{Says-IsJustified, IsJustified, IsGated, qualifies}
use quant_factory.Python.Raising.{ok-injective}
use quant_factory.Prelude.{
  ◌≡◌, refl, sym, ap, ◌∙◌, inl, inr, Bool, true, false, Option, none, some, List, [], ◌∷◌, ◌++◌,
  String, string_eq, Bool-cases,
}
use quant_factory.Python.{ok, key_error, assertion_error, or_raise}
use quant_factory.Python.Exec.{pure-same}
use quant_factory.Python.Json.{Codec}
use quant_factory.Persistence.{RunStage, Database}
use quant_factory.Launch.Steps.{lift-eq-ok}
use quant_factory.FilterChain.{
  Exn, stopped, ready_for_protected_test, validation_stage_order, SourceLock,
  PersistedStageReference, GateResult, FilterChainOutcome, FilterStageHandoff, Surroundings,
}
use quant_factory.FilterChain.Running.{Adapters, gated_outcome, run_of_stage, finish}
use quant_factory.FilterChain.Reached.{references_of, stages_of, Reached, Reached-order}

some-injective : {A : Type 0} {a b : A} → some a ≡ some b → a ≡ b
some-injective h = cc h

or_raise-some : {A : Type 0} (o : Option A) (a : A) (e : Exn) → or_raise o e ≡ ok a → o ≡ some a
or_raise-some none a e h = absurd (cc h)
or_raise-some (some b) a e h = ap some (ok-injective h)

found_again :
    (stage : RunStage) {hs hs' : List FilterStageHandoff} {run run' : String}
    → hs ≡ hs'
    → run_of_stage stage (references_of hs) ≡ some run
    → run_of_stage stage (references_of hs') ≡ some run'
    → run ≡ run'
found_again stage same found found' =
    some-injective (sym found ∙ ap (λ x. run_of_stage stage (references_of x)) same ∙ found')

module _ (codec : Codec) (world : Surroundings) (adapters : Option Adapters)
    (screening_run_id : String) where
  four_stages :
      (start end : Database) (hs : List FilterStageHandoff) (lock : Option SourceLock)
      → Reached codec world adapters screening_run_id start [] hs lock end
      → (oos : FilterStageHandoff) × (wf : FilterStageHandoff) × (rob : FilterStageHandoff)
        × (mc : FilterStageHandoff) × (hs ≡ oos ∷ wf ∷ rob ∷ mc ∷ [])
        × (oos.stage ≡ RunStage.oos)
        × (wf.stage ≡ RunStage.walk_forward)
        × (rob.stage ≡ RunStage.robustness)
        × (mc.stage ≡ RunStage.monte_carlo)
  four_stages start end hs lock reached =
      go hs (Reached-order codec world adapters screening_run_id reached)
    where
      go :
          (hs : List FilterStageHandoff)
          → stages_of hs ++ [] ≡ validation_stage_order
          → (oos : FilterStageHandoff) × (wf : FilterStageHandoff) × (rob : FilterStageHandoff)
            × (mc : FilterStageHandoff) × (hs ≡ oos ∷ wf ∷ rob ∷ mc ∷ [])
            × (oos.stage ≡ RunStage.oos)
            × (wf.stage ≡ RunStage.walk_forward)
            × (rob.stage ≡ RunStage.robustness)
            × (mc.stage ≡ RunStage.monte_carlo)
      go [] e = absurd (cc e)
      go (a ∷ []) e = absurd (cc e)
      go (a ∷ b ∷ []) e = absurd (cc e)
      go (a ∷ b ∷ c ∷ []) e = absurd (cc e)
      go (a ∷ b ∷ c ∷ d ∷ []) e = (a, b, c, d, refl, cc e, cc e, cc e, cc e)
      go (a ∷ b ∷ c ∷ d ∷ f ∷ hs) e = absurd (cc e)

  runs_of :
      (a b c d : FilterStageHandoff)
      → a.stage ≡ RunStage.oos
      → b.stage ≡ RunStage.walk_forward
      → c.stage ≡ RunStage.robustness
      → d.stage ≡ RunStage.monte_carlo
      → (run_of_stage RunStage.walk_forward (references_of (a ∷ b ∷ c ∷ d ∷ [])) ≡ some b.run_id)
        × (run_of_stage RunStage.monte_carlo (references_of (a ∷ b ∷ c ∷ d ∷ [])) ≡ some d.run_id)
        × (run_of_stage RunStage.robustness (references_of (a ∷ b ∷ c ∷ d ∷ [])) ≡ some c.run_id)
  runs_of a b c d ea eb ec ed =
      (rw (ea, eb, ec, ed) refl, rw (ea, eb, ec, ed) refl, rw (ea, eb, ec, ed) refl)

  -- What the end of the chain has read.
  pub record IsFinished (hs : List FilterStageHandoff) (references : List PersistedStageReference)
      (lock : Option SourceLock) (db : Database) (o : FilterChainOutcome) (end : Database)
      : Type 0 where
    held : SourceLock
    gate : GateResult
    wf_run : String
    mc_run : String
    rob_run : String
    is_held : lock ≡ some held
    wf_found : run_of_stage RunStage.walk_forward references ≡ some wf_run
    mc_found : run_of_stage RunStage.monte_carlo references ≡ some mc_run
    rob_found : run_of_stage RunStage.robustness references ≡ some rob_run
    gate_read : world.lockbox_prerequisites wf_run mc_run rob_run held db ≡ ok gate
    shown : gated_outcome codec world screening_run_id hs gate ≡ o
    unchanged : db ≡ end

  pub finish-IsFinished :
      (references : List PersistedStageReference) (hs : List FilterStageHandoff)
      (lock : Option SourceLock) (db end : Database) (o : FilterChainOutcome)
      → finish codec world screening_run_id references hs lock db ≡ (ok o, end)
      → IsFinished hs references lock db o end
  unfolding finish
  finish-IsFinished references hs lock db end o h =
      let (held, e1, h1) = lift-eq-ok db end (or_raise lock assertion_error) _ o h in
      let (wf, e2, h2) =
        lift-eq-ok db end (or_raise (run_of_stage RunStage.walk_forward references) key_error) _ o
          h1 in
      let (mc, e3, h3) =
        lift-eq-ok db end (or_raise (run_of_stage RunStage.monte_carlo references) key_error) _ o
          h2 in
      let (rob, e4, h4) =
        lift-eq-ok db end (or_raise (run_of_stage RunStage.robustness references) key_error) _ o
          h3 in
      let (gate, read, h5) =
        lift-eq-ok db end (world.lockbox_prerequisites wf mc rob held db) _ o h4 in
      let (shown, unchanged) = pure-same h5 in
      record {
        held = held;
        gate = gate;
        wf_run = wf;
        mc_run = mc;
        rob_run = rob;
        is_held = or_raise-some lock held assertion_error e1;
        wf_found = or_raise-some _ wf key_error e2;
        mc_found = or_raise-some _ mc key_error e3;
        rob_found = or_raise-some _ rob key_error e4;
        gate_read = read;
        shown = shown;
        unchanged = unchanged;
      }

  gated_lem :
      (is_open : Bool) (start end : Database) (hs : List FilterStageHandoff)
      (lock : Option SourceLock) (o : FilterChainOutcome)
      (f : IsFinished hs (references_of hs) lock end o end)
      → Reached codec world adapters screening_run_id start [] hs lock end
      → o.completed ≡ hs
      → o.protected_test_gate ≡ some f.gate
      → f.gate.eligible_to_execute_lockbox ≡ is_open
      → IsGated codec world adapters screening_run_id is_open start o end
  gated_lem is_open start end hs lock o f reached completed shown opens =
      let (a, b, c, d, same, ea, eb, ec, ed) = four_stages start end hs lock reached in
      let (wf, mc, rob) = runs_of a b c d ea eb ec ed in
      let wf' = found_again RunStage.walk_forward same f.wf_found wf in
      let mc' = found_again RunStage.monte_carlo same f.mc_found mc in
      let rob' = found_again RunStage.robustness same f.rob_found rob in
      record {
        oos = a;
        walk_forward = b;
        robustness = c;
        monte_carlo = d;
        lock = f.held;
        gate = f.gate;
        all_completed = completed ∙ same;
        passed =
            coe 0 1
              (i. Reached codec world adapters screening_run_id start [] (same i) (f.is_held i) end)
              reached;
        gate_read =
            coe 0 1 (i. world.lockbox_prerequisites (wf' i) (mc' i) (rob' i) f.held end ≡ ok f.gate)
              f.gate_read;
        gate_shown = shown;
        gate_opens = opens;
      }

  gated_opens :
      (hs : List FilterStageHandoff) (gate : GateResult)
      → gate.eligible_to_execute_lockbox ≡ true
      → let o = gated_outcome codec world screening_run_id hs gate in
        (ready_for_protected_test ≡ o.status)
        × (o.completed ≡ hs)
        × (o.protected_test_gate ≡ some gate)
  gated_opens hs gate e = simp e (refl, refl, refl)

  gated_shuts :
      (hs : List FilterStageHandoff) (gate : GateResult)
      → gate.eligible_to_execute_lockbox ≡ false
      → let o = gated_outcome codec world screening_run_id hs gate in
        (stopped ≡ o.status) × (o.completed ≡ hs) × (o.protected_test_gate ≡ some gate)
  gated_shuts hs gate e = simp e (refl, refl, refl)

  gated-IsJustified :
      (start end : Database) (hs : List FilterStageHandoff) (lock : Option SourceLock)
      (o : FilterChainOutcome)
      → qualifies codec world adapters screening_run_id start ≡ true
      → Reached codec world adapters screening_run_id start [] hs lock end
      → IsFinished hs (references_of hs) lock end o end
      → IsJustified codec world adapters screening_run_id start o end
  gated-IsJustified start end hs lock o qualified reached f =
      elim (Bool-cases f.gate.eligible_to_execute_lockbox) [
        | inl opens ↦
            let (ready, completed, shown) = gated_opens hs f.gate opens in
            Says-IsJustified codec world adapters screening_run_id ready_for_protected_test start
              end o (ready ∙ ap (λ x. x.status) f.shown)
              (
                qualified,
                gated_lem true start end hs lock o f reached
                    (sym (ap (λ x. x.completed) f.shown) ∙ completed)
                    (sym (ap (λ x. x.protected_test_gate) f.shown) ∙ shown) opens,
              )
        | inr shuts ↦
            let (stops, completed, shown) = gated_shuts hs f.gate shuts in
            Says-IsJustified codec world adapters screening_run_id stopped start end o
              (stops ∙ ap (λ x. x.status) f.shown)
              (
                qualified,
                inr (
                    gated_lem false start end hs lock o f reached
                      (sym (ap (λ x. x.completed) f.shown) ∙ completed)
                      (sym (ap (λ x. x.protected_test_gate) f.shown) ∙ shown) shuts),
              )
      ]

  pub finished-IsJustified :
      (start : Database) (references : List PersistedStageReference) (hs : List FilterStageHandoff)
      (lock : Option SourceLock) (db end : Database) (o : FilterChainOutcome)
      → qualifies codec world adapters screening_run_id start ≡ true
      → references ≡ references_of hs
      → Reached codec world adapters screening_run_id start [] hs lock db
      → IsFinished hs references lock db o end
      → IsJustified codec world adapters screening_run_id start o end
  finished-IsJustified start references hs lock db end o qualified same reached f =
      gated-IsJustified start end hs lock o qualified
        (coe 0 1 (i. Reached codec world adapters screening_run_id start [] hs lock (f.unchanged i))
          reached)
        (coe 0 1 (i. IsFinished hs (same i) lock (f.unchanged i) o end) f)

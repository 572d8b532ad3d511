-- ===== src/Chunking/Independence.antt =====
-- The figures of a sweep do not depend on how its settings are cut into chunks.
use quant_factory.Prelude.{
  ℕ, zero, suc, ◌+◌, ◌≤◌, ◌<◌, ◌⊎◌, inl, inr, Bool, true, false, Option, none, some, List, [], ◌∷◌,
  ◌++◌, map, length, ltb, nat_eq, nat_beq_iff, if◌then◌else◌, arith, ◌≡◌, refl, sym, ap, ◌∙◌,
}
use quant_factory.Python.{ok}
use quant_factory.Chunking.{
  World, Sweep, simulate_in_chunks, simulate_from, simulate_chunk, extended, daily_values,
  setting_portfolio, positions, drop, slice, range, chunk_size,
}
use quant_factory.Chunking.Positions.{
  append-take-drop, drop-drop, drop-all, length-map, map-positions,
}
use quant_factory.Chunking.Memory.{chunk_settings_for-fits}
use mathlib.Core.List.{append_assoc, append-nil, map-append}

-- What the sweep relies on: the settings are independent columns. `prepare` turns each setting of a
-- chunk into a signal and its extra over one cut of the data; the engine, in whatever state, builds
-- a portfolio of the chunk, whose figures and columns are those of the settings one by one.
pub record IsIndependent
    {Data Setting Signal Extra Config Portfolio Metric Frame Series Engine : Type 0}
    (world : World Data Setting Signal Extra Config Portfolio Metric Frame Series Engine)
    (bar_data cut : Data) (config : Config) (signal : Setting → Signal) (extra : Setting → Extra)
    (metric : Setting → Metric) (series : Setting → Series) (portfolio : Setting → Portfolio)
    : Type 0 where
  pub sweep_of : List Setting → Portfolio
  pub frame_of : List Setting → Frame
  pub columns_of : List Setting → ℕ → Portfolio
  pub prepared :
      (chunk : List Setting)
      → world.prepare bar_data chunk ≡ ok (cut, map signal chunk, map extra chunk)
  pub constructed :
      (chunk : List Setting) (engine : Engine)
      → (world.construct cut (map signal chunk) config engine).0 ≡ ok (sweep_of chunk)
  pub measured :
      (chunk : List Setting)
      → world.extract_sweep_metrics (sweep_of chunk) (length chunk) cut config
        ≡ ok (map metric chunk)
  pub valued : (chunk : List Setting) → world.value (sweep_of chunk) ≡ some (frame_of chunk)
  pub wide : (chunk : List Setting) → world.width (frame_of chunk) ≡ length chunk
  pub daily :
      (xs : List Setting) (x : Setting) (ys : List Setting)
      → world.column (world.last_of_days (frame_of (xs ++ x ∷ ys))) (length xs) ≡ series x
  pub indexed : (chunk : List Setting) → world.indexer (sweep_of chunk) ≡ some (columns_of chunk)
  pub alone :
      (xs : List Setting) (x : Setting) (ys : List Setting)
      → columns_of (xs ++ x ∷ ys) (length xs) ≡ portfolio x

module _ {Portfolio : Type 0} where
  kept-nothing : (keep : Bool) (o : List Portfolio) → (if keep then o else o) ≡ o
  kept-nothing true o = refl
  kept-nothing false o = refl

  kept-append :
      (keep : Bool) (o p q : List Portfolio)
      → (if keep then (if keep then o ++ p else o) ++ q else if keep then o ++ p else o)
        ≡ (if keep then o ++ (p ++ q) else o)
  kept-append true o p q = append_assoc o p q
  kept-append false o p q = refl

ltb_cases : (a b : ℕ) → ((a < b) × (ltb a b ≡ true)) ⊎ ((b ≤ a) × (ltb a b ≡ false))
ltb_cases a b = ground arith

module _ {Data Setting Signal Extra Config Portfolio Metric Frame Series Engine : Type 0}
    (world : World Data Setting Signal Extra Config Portfolio Metric Frame Series Engine)
    (bar_data cut : Data) (config : Config) (signal : Setting → Signal) (extra : Setting → Extra)
    (metric : Setting → Metric) (series : Setting → Series) (portfolio : Setting → Portfolio)
    (independent : IsIndependent world bar_data cut config signal extra metric series portfolio)
    (keep_portfolios : Bool) where
  daily_values-columns :
      (chunk : List Setting)
      → daily_values world (independent.sweep_of chunk) (length chunk)
        ≡ map (λ x. some (series x)) chunk
  unfolding daily_values
  daily_values-columns chunk =
      rw (independent.valued chunk, daily_values)
        (rw (independent.wide chunk) (
          rw ((nat_beq_iff (length chunk) (length chunk)).1 refl) (
            map-positions
              (λ xs i. some (world.column (world.last_of_days (independent.frame_of xs)) i))
              (λ x. some (series x)) (λ xs x ys. ap some (independent.daily xs x ys)) chunk)))

  setting_portfolio-columns :
      (chunk : List Setting)
      → map (setting_portfolio world (independent.sweep_of chunk)) (positions 0 (length chunk))
        ≡ map portfolio chunk
  unfolding setting_portfolio
  setting_portfolio-columns chunk =
      map-positions (λ xs. setting_portfolio world (independent.sweep_of xs)) portfolio
        (λ xs x ys.
          rw (independent.indexed (xs ++ x ∷ ys), setting_portfolio) (independent.alone xs x ys))
        chunk

  -- The figures of settings one by one, after those of a sweep.
  abbrev with_settings :
      List Setting → Sweep Extra Portfolio Metric Series → Sweep Extra Portfolio Metric Series
  with_settings chunk s = record {
    metrics = s.metrics ++ map metric chunk;
    values = s.values ++ map (λ x. some (series x)) chunk;
    observed = if keep_portfolios then s.observed ++ map portfolio chunk else s.observed;
    extras = s.extras ++ map extra chunk;
  }

  simulate_chunk-settings :
      (chunk : List Setting) (s : Sweep Extra Portfolio Metric Series) (engine : Engine)
      → (simulate_chunk world keep_portfolios bar_data config chunk s engine).0
        ≡ ok (with_settings chunk s)
  unfolding simulate_chunk extended
  simulate_chunk-settings chunk s engine =
      rw (independent.prepared chunk, simulate_chunk)
        (rw (independent.constructed chunk engine) (
          rw (length-map signal chunk) (
            rw (independent.measured chunk) (
              rw (length-map signal chunk) (
                rw (daily_values-columns chunk, extended)
                  (rw (setting_portfolio-columns chunk) refl))))))

  with_no_settings : (s : Sweep Extra Portfolio Metric Series) → with_settings [] s ≡ s
  with_no_settings s = simp (append-nil, kept-nothing keep_portfolios)

  with_settings-append :
      (first rest : List Setting) (s : Sweep Extra Portfolio Metric Series)
      → with_settings rest (with_settings first s) ≡ with_settings (first ++ rest) s
  with_settings-append first rest s = simp (map-append, append_assoc, kept-append keep_portfolios)

  one_chunk_more :
      (settings : List Setting) (size start : ℕ) (s : Sweep Extra Portfolio Metric Series)
      → with_settings (drop (start + size) settings) (with_settings (slice start size settings) s)
        ≡ with_settings (drop start settings) s
  one_chunk_more settings size start s =
      with_settings-append (slice start size settings) (drop (start + size) settings) s
      ∙ ap (λ xs. with_settings xs s)
          (rw (← drop-drop start size settings) (append-take-drop size (drop start settings)))

  simulate_from-settings :
      (settings : List Setting) (size fuel start : ℕ) (s : Sweep Extra Portfolio Metric Series)
      (engine : Engine)
      → 1 ≤ size
      → length settings ≤ start + fuel
      → (simulate_from world keep_portfolios bar_data config settings size
          (range fuel start (length settings) size)
          s
          engine).0
        ≡ ok (with_settings (drop start settings) s)
  unfolding simulate_from
  simulate_from-settings settings size zero start s engine positive enough =
      rw (drop-all start settings (omega arith)) (ap ok (sym (with_no_settings s)))
  simulate_from-settings settings size (suc fuel) start s engine positive enough =
      elim (ltb_cases start (length settings)) [
        | inl more ↦ rw (more.1) (
            rw (simulate_chunk-settings (slice start size settings) s engine, simulate_from)
              (simulate_from-settings settings size fuel (start + size)
                  (with_settings (slice start size settings) s) _ positive (omega arith)
                ∙ ap ok (one_chunk_more settings size start s)))
        | inr done ↦
            rw (done.1) (rw (drop-all start settings done.0) (ap ok (sym (with_no_settings s))))
      ]

chunk_size-positive :
    (chunk_settings : Option ℕ) (bars settings : ℕ) → 1 ≤ chunk_size chunk_settings bars settings
chunk_size-positive none bars settings = (chunk_settings_for-fits bars settings).0
chunk_size-positive (some n) bars settings =
    let derived = (chunk_settings_for-fits bars settings).0 in ground arith

module _ {Data Setting Signal Extra Config Portfolio Metric Frame Series Engine : Type 0}
    (world : World Data Setting Signal Extra Config Portfolio Metric Frame Series Engine) where
  -- Where the settings are independent columns, a sweep returns the figures of its settings one by
  -- one, in their order, and the portfolios where they are kept: the same for every size of chunk,
  -- given or derived, and for every state of the engine.
  pub simulate_in_chunks-settings :
      (bar_data cut : Data) (config : Config) (signal : Setting → Signal) (extra : Setting → Extra)
      (metric : Setting → Metric) (series : Setting → Series) (portfolio : Setting → Portfolio)
      → IsIndependent world bar_data cut config signal extra metric series portfolio
      → (keep_portfolios : Bool) (chunk_settings : Option ℕ) (settings : List Setting)
        (engine : Engine)
      → (simulate_in_chunks world keep_portfolios bar_data config chunk_settings settings engine).0
        ≡ ok (record {
          metrics = map metric settings;
          values = map (λ x. some (series x)) settings;
          observed = if keep_portfolios then map portfolio settings else [];
          extras = map extra settings;
        })
  unfolding simulate_in_chunks
  simulate_in_chunks-settings bar_data cut config signal extra metric series portfolio independent
        keep_portfolios chunk_settings settings engine =
      simulate_from-settings world bar_data cut config signal extra metric series portfolio
        independent keep_portfolios settings
        (chunk_size chunk_settings (world.bars bar_data) (length settings)) (length settings) 0 _
        engine (chunk_size-positive chunk_settings (world.bars bar_data) (length settings))
        (omega arith)

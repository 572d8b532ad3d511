-- ===== src/Chunking.antt =====
-- backtesting/experiments/chunking.py: a parameter sweep in chunks of settings.
pub mod Positions
pub mod Independence
pub mod Memory
mod Samples
use quant_factory.Prelude.{
  ℕ, zero, suc, ◌+◌, ◌-◌, ◌*◌, ◌/◌, max, Bool, true, false, Option, none, some, List, [], ◌∷◌, ◌++◌,
  map, length, ltb, nat_eq, ◌==◌, if◌then◌else◌,
}
use quant_factory.Python.{Result, ok, err}

abbrev pub memory_target_bytes : ℕ
memory_target_bytes = 2500000000

abbrev pub base_bytes : ℕ
base_bytes = 1400000000

abbrev pub transient_bytes_per_bar : ℕ
transient_bytes_per_bar = 110

abbrev pub value_bytes_per_bar : ℕ
value_bytes_per_bar = 8

-- A negative budget is 0 here; its quotient is below 1 in both, and `max` makes it 1.
unfoldable pub chunk_settings_for : (bars settings : ℕ) → ℕ
chunk_settings_for bars settings = max 1 (
    (memory_target_bytes - base_bytes - bars * value_bytes_per_bar * settings)
    / max 1 (bars * transient_bytes_per_bar))

-- `chunk_settings or chunk_settings_for(...)`: 0 stands for no size.
abbrev pub chunk_size : Option ℕ → (bars settings : ℕ) → ℕ
chunk_size none bars settings = chunk_settings_for bars settings
chunk_size (some n) bars settings = if n == 0 then chunk_settings_for bars settings else n

-- `range(start, stop, step)`, at most `fuel` numbers of it
abbrev pub range : (fuel start stop step : ℕ) → List ℕ
range zero start stop step = []
range (suc fuel) start stop step =
    let rest = range fuel (start + step) stop step in if ltb start stop then start ∷ rest else []

-- `range(start, start + count)`
abbrev pub positions : (start count : ℕ) → List ℕ
positions start zero = []
positions start (suc count) = start ∷ positions (suc start) count

module _ {ℓ} {A : Type ℓ} where
  abbrev pub take : ℕ → List A → List A
  take zero xs = []
  take (suc n) [] = []
  take (suc n) (x ∷ xs) = x ∷ take n xs

  abbrev pub drop : ℕ → List A → List A
  drop zero xs = xs
  drop (suc n) [] = []
  drop (suc n) (x ∷ xs) = drop n xs

  -- `xs[start : start + size]`
  abbrev pub slice : (start size : ℕ) → List A → List A
  slice start size xs = take size (drop start xs)

-- What the caller and the packages supply: the callbacks `prepare`, `construct` and `release`, the
-- engine's columns, the pandas frames, and the floating-point figures of `extract_sweep_metrics`.
-- `Engine` is what the simulation engine keeps between calls. `value` is `none` where the engine
-- has no frame of values, and `indexer` where its portfolio has no column indexing.
pub record World (Data Setting Signal Extra Config Portfolio Metric Frame Series Engine : Type 0)
    : Type 0 where
  pub bars : Data → ℕ
  pub prepare : Data → List Setting → Result (Data × List Signal × List Extra)
  pub construct : Data → List Signal → Config → Engine → Result Portfolio × Engine
  pub release : Engine → Engine
  pub extract_sweep_metrics : Portfolio → (count : ℕ) → Data → Config → Result (List Metric)
  pub value : Portfolio → Option Frame
  pub width : Frame → ℕ
  pub last_of_days : Frame → Frame
  pub column : Frame → ℕ → Series
  pub indexer : Portfolio → Option (ℕ → Portfolio)

pub record Sweep (Extra Portfolio Metric Series : Type 0) : Type 0 where
  pub metrics : List Metric
  pub values : List (Option Series)
  pub observed : List Portfolio
  pub extras : List Extra

module _ {Data Setting Signal Extra Config Portfolio Metric Frame Series Engine : Type 0}
    (world : World Data Setting Signal Extra Config Portfolio Metric Frame Series Engine) where
  unfoldable pub setting_portfolio : Portfolio → ℕ → Portfolio
  setting_portfolio portfolio position = elim (world.indexer portfolio) [
    | none ↦ portfolio
    | some at ↦ at position
  ]

  unfoldable pub daily_values : Portfolio → (count : ℕ) → List (Option Series)
  daily_values portfolio count = elim (world.value portfolio) [
    | none ↦ map (λ _. none) (positions 0 count)
    | some frame ↦
        if world.width frame == count
        then map (λ i. some (world.column (world.last_of_days frame) i)) (positions 0 count)
        else map (λ _. none) (positions 0 count)
  ]

  -- The lists of a sweep after `+=` of the figures of a chunk.
  unfoldable pub extended :
      (keep_portfolios : Bool)
      → Portfolio
      → (count : ℕ) → List Metric
      → List Extra
      → Sweep Extra Portfolio Metric Series
      → Sweep Extra Portfolio Metric Series
  extended keep_portfolios sweep count figures extras s = record {
    metrics = s.metrics ++ figures;
    values = s.values ++ daily_values sweep count;
    observed =
        if keep_portfolios
        then s.observed ++ map (setting_portfolio sweep) (positions 0 count)
        else s.observed;
    extras = s.extras ++ extras;
  }

  -- One round of the loop; an exception leaves it before `release`.
  unfoldable pub simulate_chunk :
      (keep_portfolios : Bool)
      → Data
      → Config
      → (chunk : List Setting) → Sweep Extra Portfolio Metric Series
      → Engine
      → Result (Sweep Extra Portfolio Metric Series) × Engine
  simulate_chunk keep_portfolios bar_data config chunk s engine =
      elim (world.prepare bar_data chunk) [
        | err e ↦ (err e, engine)
        | ok (chunk_data, aligned, extras) ↦
            let (built, engine') = world.construct chunk_data aligned config engine in
            elim built [
              | err e ↦ (err e, engine')
              | ok sweep ↦
                  elim (world.extract_sweep_metrics sweep (length aligned) chunk_data config) [
                    | err e ↦ (err e, engine')
                    | ok figures ↦ (
                      ok (extended keep_portfolios sweep (length aligned) figures extras s),
                      world.release engine',
                    )
                  ]
            ]
      ]

  unfoldable pub simulate_from :
      (keep_portfolios : Bool)
      → Data
      → Config
      → (settings : List Setting) → (size : ℕ) → (starts : List ℕ)
      → Sweep Extra Portfolio Metric Series
      → Engine
      → Result (Sweep Extra Portfolio Metric Series) × Engine
  simulate_from keep_portfolios bar_data config settings size [] s engine = (ok s, engine)
  simulate_from keep_portfolios bar_data config settings size (start ∷ starts) s engine =
      let (r, engine') =
        simulate_chunk keep_portfolios bar_data config (slice start size settings) s engine in
      elim r [
        | err e ↦ (err e, engine')
        | ok s' ↦ simulate_from keep_portfolios bar_data config settings size starts s' engine'
      ]

  unfoldable pub simulate_in_chunks :
      (keep_portfolios : Bool)
      → Data
      → Config
      → (chunk_settings : Option ℕ) → (settings : List Setting) → Engine
      → Result (Sweep Extra Portfolio Metric Series) × Engine
  simulate_in_chunks keep_portfolios bar_data config chunk_settings settings engine =
      let size = chunk_size chunk_settings (world.bars bar_data) (length settings) in
      simulate_from keep_portfolios bar_data config settings size
        (range (length settings) 0 (length settings) size)
        (record { metrics = []; values = []; observed = []; extras = [] }) engine

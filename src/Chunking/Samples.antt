-- ===== src/Chunking/Samples.antt =====
-- Tests of the chunked sweep, and the theorems at a small sweep.
use quant_factory.Prelude.{
  ap, ℕ, zero, suc, ◌+◌, ◌≤◌, ◌⊎◌, Bool, true, some, List, [], ◌∷◌, ◌++◌, map, length, ◌≡◌, refl,
}
use quant_factory.Python.{ok}
use quant_factory.Chunking.{
  World, simulate_in_chunks, simulate_from, simulate_chunk, extended, daily_values,
  setting_portfolio, chunk_settings_for, memory_target_bytes,
}
use quant_factory.Chunking.Positions.{length-map}
use quant_factory.Chunking.Memory.{peak_bytes, chunk_settings_for-fits}
use quant_factory.Chunking.Independence.{IsIndependent, simulate_in_chunks-settings}

abbrev number_at : List ℕ → ℕ → ℕ
number_at [] i = 0
number_at (x ∷ xs) zero = x
number_at (x ∷ xs) (suc i) = number_at xs i

-- A setting is a number and its signal the next one; the engine counts its calls.
abbrev world : World ℕ ℕ ℕ ℕ Bool (List ℕ) ℕ (List ℕ) ℕ ℕ
world = record {
  bars = λ bar_data. bar_data;
  prepare = λ bar_data chunk. ok (bar_data, map suc chunk, map (λ x. x) chunk);
  construct = λ bar_data signals config calls. (ok signals, calls + 1);
  release = λ calls. calls;
  extract_sweep_metrics = λ sweep count bar_data config. ok sweep;
  value = λ sweep. some sweep;
  width = length;
  last_of_days = λ frame. frame;
  column = number_at;
  indexer = λ sweep. some (λ i. number_at sweep i ∷ []);
}

number_at-next :
    (xs : List ℕ) (x : ℕ) (ys : List ℕ) → number_at (map suc (xs ++ x ∷ ys)) (length xs) ≡ suc x
number_at-next [] x ys = refl
number_at-next (_ ∷ xs) x ys = number_at-next xs x ys

world-IsIndependent : IsIndependent world 1000 1000 true suc (λ x. x) suc suc (λ x. suc x ∷ [])
world-IsIndependent = record {
  sweep_of = map suc;
  frame_of = map suc;
  columns_of = λ chunk i. number_at (map suc chunk) i ∷ [];
  prepared = λ chunk. refl;
  constructed = λ chunk engine. refl;
  measured = λ chunk. refl;
  valued = λ chunk. refl;
  wide = length-map suc;
  daily = number_at-next;
  indexed = λ chunk. refl;
  alone = λ xs x ys. ap (λ v. v ∷ []) (number_at-next xs x ys);
}

-- Three settings in chunks of two.
simulate_in_chunks-settings_example :
    (simulate_in_chunks world true 1000 true (some 2) (3 ∷ 1 ∷ 4 ∷ []) 0).0
    ≡ ok (record {
      metrics = 4 ∷ 2 ∷ 5 ∷ [];
      values = some 4 ∷ some 2 ∷ some 5 ∷ [];
      observed = (4 ∷ []) ∷ (2 ∷ []) ∷ (5 ∷ []) ∷ [];
      extras = 3 ∷ 1 ∷ 4 ∷ [];
    })
simulate_in_chunks-settings_example =
    simulate_in_chunks-settings world 1000 1000 true suc (λ x. x) suc suc (λ x. suc x ∷ [])
      world-IsIndependent true (some 2) (3 ∷ 1 ∷ 4 ∷ []) 0

-- The engine is called twice.
calls_of_two_chunks : (simulate_in_chunks world true 1000 true (some 2) (3 ∷ 1 ∷ 4 ∷ []) 0).1 ≡ 2
unfolding simulate_in_chunks simulate_from simulate_chunk extended daily_values setting_portfolio
calls_of_two_chunks = refl

-- The measured run: 1-minute bars, a hundred settings.
minute_chunk : chunk_settings_for 1050000 100 ≡ 2
unfolding chunk_settings_for
minute_chunk = refl

chunk_settings_for-fits_example :
    (1 ≤ chunk_settings_for 1050000 100)
    × ((chunk_settings_for 1050000 100 ≡ 1)
        ⊎ (peak_bytes 1050000 100 (chunk_settings_for 1050000 100) ≤ memory_target_bytes))
chunk_settings_for-fits_example = chunk_settings_for-fits 1050000 100

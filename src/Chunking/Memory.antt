-- ===== src/Chunking/Memory.antt =====
-- The size of a chunk and the memory target.
use quant_factory.Prelude.{ℕ, zero, suc, ◌+◌, ◌-◌, ◌*◌, ◌/◌, ◌≤◌, max, ◌≡◌, ◌⊎◌, inl, inr, arith}
use quant_factory.Chunking.{
  chunk_settings_for, memory_target_bytes, base_bytes, transient_bytes_per_bar, value_bytes_per_bar,
}
use native.Mathlib.Nat.{div-mul-le_self, le-div_iff_mul-le}

small_or_large : (q : ℕ) → (q ≤ 1) ⊎ (2 ≤ q)
small_or_large q = ground arith

product-fits : (b d : ℕ) → b / max 1 d * d ≤ b
product-fits b zero = omega arith
product-fits b (suc d) =
    let whole : max 1 (suc d) ≡ suc d = omega arith in rw whole (div-mul-le_self b (suc d))

budget-fits :
    (c t r d : ℕ)
    → (max 1 ((t - r) / max 1 d) ≡ 1) ⊎ (c + r + max 1 ((t - r) / max 1 d) * d ≤ c + t)
budget-fits c t r d = elim (small_or_large ((t - r) / max 1 d)) [
  | inl small ↦ inl (omega arith)
  | inr large ↦
      let divides : 2 * max 1 d ≤ t - r =
        (le-div_iff_mul-le {k = max 1 d} {x = 2} {y = t - r} (omega arith)).0 large in
      let is_itself : max 1 ((t - r) / max 1 d) ≡ (t - r) / max 1 d = omega arith in
      let fits : (t - r) / max 1 d * d ≤ t - r = product-fits (t - r) d in
      inr (rw is_itself (omega arith))
]

-- What a run of `settings` over `bars` needs while a chunk of `size` settings is alive.
abbrev pub peak_bytes : (bars settings size : ℕ) → ℕ
peak_bytes bars settings size =
    base_bytes + bars * value_bytes_per_bar * settings + size * (bars * transient_bytes_per_bar)

-- A chunk has at least one setting; and where it has more than one, the base of the run, the reserve
-- of every setting and what the settings of one chunk need together stay within the target.
pub chunk_settings_for-fits :
    (bars settings : ℕ)
    → (1 ≤ chunk_settings_for bars settings)
      × ((chunk_settings_for bars settings ≡ 1)
          ⊎ (peak_bytes bars settings (chunk_settings_for bars settings) ≤ memory_target_bytes))
unfolding chunk_settings_for
chunk_settings_for-fits bars settings =
    (omega arith, (budget-fits base_bytes 1100000000 (bars * 8 * settings) (bars * 110)))

-- ===== src/Results/Stats.antt =====
-- src/results.rs, `MetricStats`: the summary of one metric's samples.
use executorch_bencher.Prelude.{
  ℕ, ◌-◌, ◌/◌, ◌%◌, List, [], ◌∷◌, Option, none, some, Result, ok, ◌>>=◌, length, ◌==◌,
  if◌then◌else◌,
}
use executorch_bencher.Externals.{Externals}
use executorch_bencher.Results.Sorting.{sort, index, Panic}

module _ (x : Externals) where
  open x use {F64, f64_total_le, f64_add, f64_half}

  pub record MetricStats : Type 0 where
    pub median : F64
    pub min : F64
    pub max : F64
    pub n : ℕ

  -- `samples[n / 2]`, or the mean of the two in the middle
  unfoldable pub middle : List F64 → Result Panic F64
  middle samples =
      let n = length samples in
      if n % 2 == 1 then index samples (n / 2) else (do
        low ← index samples (n / 2 - 1)
        high ← index samples (n / 2)
        ok (f64_half (f64_add low high)))

  unfoldable pub of_sorted : List F64 → Result Panic MetricStats
  of_sorted samples = do
    median ← middle samples
    min ← index samples 0
    max ← index samples (length samples - 1)
    ok (record { median = median; min = min; max = max; n = length samples })

  unfoldable pub from_samples : List F64 → Result Panic (Option MetricStats)
  from_samples [] = ok none
  from_samples (first ∷ rest) = do
    stats ← of_sorted (sort f64_total_le (first ∷ rest))
    ok (some stats)

-- ===== src/Results/Counts.antt =====
-- What the counters of a group say about the rows accumulated into it.
use executorch_bencher.Prelude.{ℕ, ◌+◌, ◌≤◌, ◌≡◌, List, [], ◌∷◌, length}
use executorch_bencher.Externals.{Externals}
use executorch_bencher.Results.Fold.{Sample, Accumulator, accumulate}

module _ {x : Externals} where
  -- The counters of a group of `n` rows.
  pub record IsCounted (n : ℕ) (acc : Accumulator x) : Type 0 where
    pub total : acc.total_runs ≡ n
    pub outcomes : length acc.prefill + acc.not_succeeded ≡ n
    pub failed : acc.correctness_failed ≤ length acc.prefill
    pub decoded : length acc.decode ≤ length acc.prefill
    pub throttled : acc.throttled ≤ n

  unfoldable pub accumulate_all : Accumulator x → List (Sample x) → Accumulator x
  accumulate_all acc [] = acc
  accumulate_all acc (s ∷ rest) = accumulate_all (accumulate acc s) rest

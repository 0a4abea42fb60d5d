-- ===== src/Results/Summary.antt =====
-- What `MetricStats::from_samples` computes: the extremes and the median, whatever the order of the
-- samples, and without a lookup out of range.
use mathlib.Core.List.Perm
use mathlib.Core.List.{Perm}
use executorch_bencher.Prelude.{
  suc, ◌+◌, ◌-◌, ◌/◌, ◌%◌, ◌<◌, true, false, ◌≡◌, refl, ap, sym, ◌∙◌, subst, arith, List, [], ◌∷◌,
  ◌++◌, length, length-append, All, some, ok, ◌⊎◌, inl, inr, ◌==◌,
}
use executorch_bencher.Externals.{Externals}
use executorch_bencher.Results.Sorting.{
  sort, index, IsSorted, sort-IsSorted, sort-perm, length-sort, IsSorted-split, index-append,
  index-append_suc, split_at,
}
use executorch_bencher.Results.Stats.{MetricStats, middle, of_sorted, from_samples}

module _ (x : Externals) where
  open x use {F64, f64_total_le, f64_add, f64_half, f64_total_le-total, f64_total_le-trans}

  abbrev le : F64 → F64 → Type 0
  le a b = f64_total_le a b ≡ true

  -- A value with as many samples at most it before as at least it after, or the mean of the two
  -- values that have so.
  abbrev pub IsMedian : List F64 → F64 → Type 0
  IsMedian samples m =
      ((lows : List F64) × (highs : List F64) × Perm samples (lows ++ m ∷ highs)
        × (length lows ≡ length highs)
        × All (λ v. le v m) lows
        × All (λ v. le m v) highs)
      ⊎ ((lows : List F64) × (a : F64) × (b : F64) × (highs : List F64) × Perm samples
            (lows ++ a ∷ b ∷ highs)
          × (length lows ≡ length highs)
          × All (λ v. le v a) lows
          × le a b
          × All (λ v. le b v) highs
          × (m ≡ f64_half (f64_add a b)))

  pub record IsSummary (samples : List F64) (s : MetricStats x) : Type 0 where
    pub counted : s.n ≡ length samples
    pub median : IsMedian samples s.median
    pub lowest : (rest : List F64) × Perm samples (s.min ∷ rest) × All (λ v. le s.min v) rest
    pub highest : (rest : List F64) × Perm samples (rest ++ s.max ∷ []) × All (λ v. le v s.max) rest

  middle_odd :
      (lows : List F64) (m : F64) (highs : List F64)
      → length lows ≡ length highs
      → middle x (lows ++ m ∷ highs) ≡ ok m
  unfolding middle
  middle_odd lows m highs h =
      let size : length (lows ++ m ∷ highs) ≡ length lows + suc (length highs) =
        length-append lows (m ∷ highs) in
      let parity : (length (lows ++ m ∷ highs) % 2 == 1) ≡ true = ground (arith, size, h) in
      rw parity (index-append lows m highs _ (omega (arith, size, h)))

  middle_even :
      (lows : List F64) (a b : F64) (highs : List F64)
      → length lows ≡ length highs
      → middle x (lows ++ a ∷ b ∷ highs) ≡ ok (f64_half (f64_add a b))
  unfolding middle
  middle_even lows a b highs h =
      let size : length (lows ++ a ∷ b ∷ highs) ≡ length lows + suc (suc (length highs)) =
        length-append lows (a ∷ b ∷ highs) in
      let parity : (length (lows ++ a ∷ b ∷ highs) % 2 == 1) ≡ false = ground (arith, size, h) in
      rw
        (
          parity,
          index-append lows a (b ∷ highs) (length (lows ++ a ∷ b ∷ highs) / 2 - 1)
              (omega (arith, size, h)),
          index-append_suc lows a b highs (length (lows ++ a ∷ b ∷ highs) / 2)
              (omega (arith, size, h)),
        )
        refl

  -- A list of odd length has a middle element, and one of even length, if any, two.
  Halves : List F64 → Type 0
  Halves l =
      ((lows : List F64) × (m : F64) × (highs : List F64) × (l ≡ lows ++ m ∷ highs)
        × (length lows ≡ length highs))
      ⊎ ((lows : List F64) × (a : F64) × (b : F64) × (highs : List F64) × (l
            ≡ lows ++ a ∷ b ∷ highs)
          × (length lows ≡ length highs))

  halves : (l : List F64) → 0 < length l → Halves l
  unfolding Halves
  halves l h =
      let (before, a, after, e, size) = split_at l ((length l - 1) / 2) (omega (arith, h)) in
      let total : length l ≡ length before + suc (length after) =
        ap length e ∙ length-append before (a ∷ after) in
      by_after before a after e (omega (arith, size, total))
    where
      by_after :
          (before : List F64) (a : F64) (after : List F64)
          → l ≡ before ++ a ∷ after
          → (length after ≡ length before) ⊎ (length after ≡ suc (length before))
          → Halves l
      by_after before a after e (inl same) = inl (before, a, after, e, sym same)
      by_after before a (b ∷ highs) e (inr more) = inr (before, a, b, highs, e, omega (arith, more))
      by_after before a [] e (inr more) = absurd (omega (arith, more))

  median_lem :
      (samples t : List F64)
      → Perm samples t
      → IsSorted f64_total_le t
      → 0 < length t
      → (m : F64) × (middle x t ≡ ok m) × IsMedian samples m
  unfolding Halves IsSorted
  median_lem samples t perm sorted h = elim (halves t h) [
    | inl (lows, m, highs, e, size) ↦
        let (below, above, _) =
          IsSorted-split f64_total_le lows m highs (subst (IsSorted f64_total_le) e sorted) in
        (
          m,
          ap (middle x) e ∙ middle_odd lows m highs size,
          inl (lows, highs, subst (Perm samples) e perm, size, below, above),
        )
    | inr (lows, a, b, highs, e, size) ↦
        let (below, above, later) =
          IsSorted-split f64_total_le lows a (b ∷ highs) (subst (IsSorted f64_total_le) e sorted) in
        (
          f64_half (f64_add a b),
          ap (middle x) e ∙ middle_even lows a b highs size,
          inr (lows, a, b, highs, subst (Perm samples) e perm, size, below, above.0, later.0, refl),
        )
  ]

  last_lem :
      (samples t : List F64)
      → Perm samples t
      → IsSorted f64_total_le t
      → 0 < length t
      → (m : F64) × (index t (length t - 1) ≡ ok m)
        × ((rest : List F64) × Perm samples (rest ++ m ∷ []) × All (λ v. le v m) rest)
  last_lem samples t perm sorted h =
      let (before, m, after, e, size) = split_at t (length t - 1) (omega (arith, h)) in
      let total : length t ≡ length before + suc (length after) =
        ap length e ∙ length-append before (m ∷ after) in
      at_end before m after e size (omega (arith, h, size, total))
    where
      at_end :
          (before : List F64) (m : F64) (after : List F64)
          → t ≡ before ++ m ∷ after
          → length before ≡ length t - 1
          → length after ≡ 0
          → (m : F64) × (index t (length t - 1) ≡ ok m)
            × ((rest : List F64) × Perm samples (rest ++ m ∷ []) × All (λ v. le v m) rest)
      at_end before m (c ∷ after) e size none_left = absurd (omega (arith, none_left))
      at_end before m [] e size none_left =
          let (below, _, _) =
            IsSorted-split f64_total_le before m [] (subst (IsSorted f64_total_le) e sorted) in
          (
            m,
            ap (λ (l : List F64). index l (length t - 1)) e ∙ index-append before m [] _ size,
            (before, subst (Perm samples) e perm, below),
          )

  first_lem :
      (samples t : List F64)
      → Perm samples t
      → IsSorted f64_total_le t
      → 0 < length t
      → (m : F64) × (index t 0 ≡ ok m)
        × ((rest : List F64) × Perm samples (m ∷ rest) × All (λ v. le m v) rest)
  unfolding index IsSorted
  first_lem samples (m ∷ rest) perm sorted h = (m, refl, (rest, perm, sorted.0))
  first_lem samples [] perm sorted h = absurd (omega (arith, h))

  -- Any samples, in any order, are summarised without a lookup out of range: the count is their
  -- number, the extremes are samples that bound all the others, and the median is the sample with
  -- as many samples at most it as at least it, or the mean of the two samples that have so.
  pub from_samples-IsSummary :
      (first : F64) (rest : List F64)
      → (s : MetricStats x) × (from_samples x (first ∷ rest) ≡ ok (some s))
        × IsSummary (first ∷ rest) s
  unfolding from_samples of_sorted
  from_samples-IsSummary first rest =
      let samples = first ∷ rest in
      let t = sort f64_total_le samples in
      let perm : Perm samples t = Perm.symm (sort-perm f64_total_le samples) in
      let sorted : IsSorted f64_total_le t =
        sort-IsSorted f64_total_le f64_total_le-total f64_total_le-trans samples in
      let size : length t ≡ length samples = length-sort f64_total_le samples in
      let (median, at_middle, is_median) = median_lem samples t perm sorted (omega (arith, size)) in
      let (min, at_first, lowest) = first_lem samples t perm sorted (omega (arith, size)) in
      let (max, at_last, highest) = last_lem samples t perm sorted (omega (arith, size)) in
      (
        record { median = median; min = min; max = max; n = length t },
        rw (at_middle, at_first, at_last),
        record { counted = size; median = is_median; lowest = lowest; highest = highest },
      )

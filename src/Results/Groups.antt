-- ===== src/Results/Groups.antt =====
-- Grouping: what the map holds under a key after the loop.
use executorch_bencher.Prelude.{
  Bool, true, false, ◌≡◌, ◌↔◌, refl, ap, sym, ◌∙◌, List, [], ◌∷◌, Option, none, some, Result, ok,
  err, ◌>>=◌, Bool-cases, inl, inr, if◌then◌else◌,
}
use executorch_bencher.Externals.{Externals}
use executorch_bencher.Host.Columns.{RowError}
use executorch_bencher.Results.Counts.{accumulate_all}
use executorch_bencher.Results.Fold.{
  ConfigKey, Selected, Sample, Accumulator, new_accumulator, accumulate, parse_sample, Groups,
  add_sample, collect,
}

module _ {x : Externals} (same : ConfigKey x → ConfigKey x → Bool) where
  -- The group of a key.
  unfoldable pub group_at : ConfigKey x → Groups same → Option (Accumulator x)
  group_at k [] = none
  group_at k ((l, acc) ∷ rest) = let later = group_at k rest in if same l k then some acc else later

  -- The samples of a key, in order.
  unfoldable pub with_key : ConfigKey x → List (Sample x) → List (Sample x)
  with_key k [] = []
  with_key k (s ∷ rest) = let later = with_key k rest in if same s.key k then s ∷ later else later

  -- A group that goes on with more samples, if there is one or the other.
  unfoldable pub go_on : Option (Accumulator x) → List (Sample x) → Option (Accumulator x)
  go_on group [] = group
  go_on none (s ∷ rest) = some (accumulate_all (accumulate new_accumulator s) rest)
  go_on (some acc) (s ∷ rest) = some (accumulate_all (accumulate acc s) rest)

  unfoldable pub parse_all : List (Selected x) → Result RowError (List (Sample x))
  parse_all [] = ok []
  parse_all (row ∷ rows) = do s ← parse_sample row; rest ← parse_all rows; ok (s ∷ rest)

  unfoldable pub add_all : Groups same → List (Sample x) → Groups same
  add_all groups [] = groups
  add_all groups (s ∷ rest) = add_all (add_sample same groups s) rest

  -- The loop parses and adds row by row, and stops at the first row that cannot be parsed.
  collect_lem :
      (groups : Groups same) (rows : List (Selected x))
      → collect same groups rows ≡ (parse_all rows >>= λ l. ok (add_all groups l))
  unfolding collect parse_all add_all
  collect_lem groups [] = refl
  collect_lem groups (row ∷ rows) = by_row (λ g. collect_lem g rows) (parse_sample row)
    where
      by_rows :
          (s : Sample x) (m : Result RowError (List (Sample x)))
          → (m >>= λ l. ok (add_all (add_sample same groups s) l))
            ≡ ((m >>= λ rest. ok (s ∷ rest)) >>= λ l. ok (add_all groups l))
      by_rows s (err e) = refl
      by_rows s (ok rest) = refl

      by_row :
          ((g : Groups same) → collect same g rows ≡ (parse_all rows >>= λ l. ok (add_all g l)))
          → (m : Result RowError (Sample x))
          → (m >>= λ s. collect same (add_sample same groups s) rows)
            ≡ ((m >>= λ s. parse_all rows >>= λ rest. ok (s ∷ rest)) >>= λ l. ok (add_all groups l))
      by_row later (err e) = refl
      by_row later (ok s) = later (add_sample same groups s) ∙ by_rows s (parse_all rows)

  pub collect_total :
      (rows : List (Selected x)) (l : List (Sample x))
      → parse_all rows ≡ ok l
      → (groups : Groups same) × (collect same [] rows ≡ ok groups)
  collect_total rows l h = (
    add_all [] l,
    collect_lem [] rows
        ∙ ap (λ (m : Result RowError (List (Sample x))). m >>= λ l. ok (add_all [] l)) h,
  )

  module _ (same_iff : (k l : ConfigKey x) → (same k l ≡ true) ↔ (k ≡ l)) where
    -- A sample changes the group of its key and no other.
    group_at-add_sample_self :
        (k : ConfigKey x) (groups : Groups same) (s : Sample x)
        → same s.key k ≡ true
        → group_at k (add_sample same groups s) ≡ go_on (group_at k groups) (s ∷ [])
    unfolding group_at add_sample go_on accumulate_all
    group_at-add_sample_self k [] s h = rw h
    group_at-add_sample_self k ((l, acc) ∷ rest) s h =
        let one : same l s.key ≡ same l k = ap (same l) ((same_iff s.key k).0 h) in
        elim (Bool-cases (same l k)) [
          | inl here ↦ let here' = one ∙ here in rw (here', here) refl
          | inr there ↦
              let there' = one ∙ there in rw (there', there) (group_at-add_sample_self k rest s h)
        ]

    group_at-add_sample_ne :
        (k : ConfigKey x) (groups : Groups same) (s : Sample x)
        → same s.key k ≡ false
        → group_at k (add_sample same groups s) ≡ group_at k groups
    unfolding group_at add_sample
    group_at-add_sample_ne k [] s h = rw h
    group_at-add_sample_ne k ((l, acc) ∷ rest) s h = elim (Bool-cases (same l s.key)) [
      | inl at_key ↦
          let away : same l k ≡ false = ap (λ m. same m k) ((same_iff l s.key).0 at_key) ∙ h in
          rw (at_key, away) refl
      | inr other ↦ rw (other, group_at-add_sample_ne k rest s h) refl
    ]

    go_on-go_on :
        (group : Option (Accumulator x)) (s : Sample x) (l : List (Sample x))
        → go_on (go_on group (s ∷ [])) l ≡ go_on group (s ∷ l)
    unfolding go_on accumulate_all
    go_on-go_on none s [] = refl
    go_on-go_on (some acc) s [] = refl
    go_on-go_on none s (t ∷ l) = refl
    go_on-go_on (some acc) s (t ∷ l) = refl

    go_on_nil : (group : Option (Accumulator x)) → go_on group [] ≡ group
    unfolding go_on
    go_on_nil none = refl
    go_on_nil (some acc) = refl

    group_at-add_all :
        (k : ConfigKey x) (groups : Groups same) (l : List (Sample x))
        → group_at k (add_all groups l) ≡ go_on (group_at k groups) (with_key k l)
    unfolding add_all with_key
    group_at-add_all k groups [] = sym (go_on_nil (group_at k groups))
    group_at-add_all k groups (s ∷ rest) = elim (Bool-cases (same s.key k)) [
      | inl mine ↦ rw mine (
          group_at-add_all k (add_sample same groups s) rest
          ∙ (ap (λ g. go_on g (with_key k rest)) (group_at-add_sample_self k groups s mine)
              ∙ go_on-go_on (group_at k groups) s (with_key k rest)))
      | inr other ↦ rw other (
          group_at-add_all k (add_sample same groups s) rest
          ∙ ap (λ g. go_on g (with_key k rest)) (group_at-add_sample_ne k groups s other))
    ]

    -- If every row parses, the loop succeeds, and what it holds under any key is what comes of
    -- exactly the rows with that key, in their order: nothing, if there is none.
    pub collect-group_at :
        (k : ConfigKey x) (rows : List (Selected x)) (l : List (Sample x))
        → parse_all rows ≡ ok l
        → (groups : Groups same) × (collect same [] rows ≡ ok groups)
          × (group_at k groups ≡ go_on none (with_key k l))
    unfolding group_at
    collect-group_at k rows l h = (
      add_all [] l,
      collect_lem [] rows
          ∙ ap (λ (m : Result RowError (List (Sample x))). m >>= λ l. ok (add_all [] l)) h,
      group_at-add_all k [] l,
    )

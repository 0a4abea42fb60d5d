-- ===== src/Runs/Paging.antt =====
-- What a page of `list_runs` is made of: the rows below a cursor, and their summaries.
use executorch_bencher.Prelude.{
  ℕ, zero, suc, String, Bool, true, false, ◌≡◌, refl, ap, sym, ◌∙◌, subst, arith, List, [], ◌∷◌,
  ◌++◌, length, take, All, some, ok, Bool-cases, inl, inr,
}
use executorch_bencher.Externals.{Externals}
use executorch_bencher.Runs.Pages.{
  RunCursor, RunSummary, SummaryRow, row_to_summary, parse_rows, row_key, cursor_key, after,
  IsNewestFirst, older,
}

pub take-append {ℓ} :
    {A : Type ℓ} (l : List A) (a : A) (r : List A) (n : ℕ)
    → suc (length l) ≡ n
    → take n (l ++ a ∷ r) ≡ l ++ a ∷ []
take-append [] a r (suc zero) h = refl
take-append [] a r (suc (suc n)) h = absurd (omega (arith, h))
take-append (b ∷ l) a r (suc n) h = ap (◌∷◌ b) (take-append l a r n (omega (arith, h)))
take-append l a r zero h = absurd (omega (arith, h))

pub take-append_suc {ℓ} :
    {A : Type ℓ} (l : List A) (a b : A) (r : List A) (n : ℕ)
    → suc (suc (length l)) ≡ n
    → take n (l ++ a ∷ b ∷ r) ≡ l ++ a ∷ b ∷ []
take-append_suc [] a b r (suc (suc zero)) h = refl
take-append_suc [] a b r (suc (suc (suc n))) h = absurd (omega (arith, h))
take-append_suc [] a b r (suc zero) h = absurd (omega (arith, h))
take-append_suc (c ∷ l) a b r (suc n) h = ap (◌∷◌ c) (take-append_suc l a b r n (omega (arith, h)))
take-append_suc l a b r zero h = absurd (omega (arith, h))

module _ {x : Externals} where
  -- The rows of the table and the summaries that they are, with the ID as it was stored.
  unfoldable pub Listed : List (SummaryRow x) → List (RunSummary x) → Type 0
  Listed [] [] = Unit
  Listed (row ∷ rows) (s ∷ ss) =
      (row_to_summary row ≡ ok s)
      × (row_key row ≡ (s.started_at, Externals.uuid_to_string x s.id))
      × Listed rows ss
  Listed _ _ = ⊥

  pub take-Listed :
      (n : ℕ) (rows : List (SummaryRow x)) (ss : List (RunSummary x))
      → Listed rows ss
      → parse_rows (take n rows) ≡ ok (take n ss)
  unfolding Listed parse_rows
  take-Listed zero rows ss h = refl
  take-Listed (suc n) [] [] h = refl
  take-Listed (suc n) (row ∷ rows) (s ∷ ss) h = rw (h.0, take-Listed n rows ss h.2) refl
  take-Listed (suc n) [] (s ∷ ss) h = absurd h
  take-Listed (suc n) (row ∷ rows) [] h = absurd h

  -- Summaries that part at one are of rows that part at its row.
  pub split-Listed :
      (rows : List (SummaryRow x)) (lows : List (RunSummary x)) (s : RunSummary x)
      (highs : List (RunSummary x))
      → Listed rows (lows ++ s ∷ highs)
      → (before : List (SummaryRow x)) × (row : SummaryRow x) × (below : List (SummaryRow x))
        × (rows ≡ before ++ row ∷ below)
        × (row_key row ≡ (s.started_at, Externals.uuid_to_string x s.id))
        × Listed below highs
  unfolding Listed
  split-Listed (row ∷ rows) [] s highs h = ([], row, rows, refl, h.1, h.2)
  split-Listed (row ∷ rows) (t ∷ lows) s highs h =
      let (before, r, below, e, k, later) = split-Listed rows lows s highs h.2 in
      (row ∷ before, r, below, ap (◌∷◌ row) e, k, later)
  split-Listed [] [] s highs h = absurd h
  split-Listed [] (t ∷ lows) s highs h = absurd h

not_self {ℓ} :
    {A : Type ℓ} (older : A → A → Bool)
    → ((a b : A) → older a b ≡ true → older b a ≡ false)
    → (a : A) → older a a ≡ false
not_self older asym a = elim (Bool-cases (older a a)) [
  | inl yes_older ↦ asym a a yes_older
  | inr no_older ↦ no_older
]

module _ {x : Externals}
    (older : Externals.DateTime x × String → Externals.DateTime x × String → Bool)
    (asym : (a b : Externals.DateTime x × String) → older a b ≡ true → older b a ≡ false) where
  after-All :
      (c : RunCursor x) (rows : List (SummaryRow x))
      → All (λ r. older (row_key r) (cursor_key c) ≡ true) rows
      → after older (some c) rows ≡ rows
  unfolding after
  after-All c [] h = refl
  after-All c (row ∷ rows) h = rw h.0 (ap (◌∷◌ row) (after-All c rows h.1))

  -- Below the cursor of a row stand exactly the rows that follow it.
  pub after_row :
      (c : RunCursor x) (before : List (SummaryRow x)) (row : SummaryRow x)
      (below : List (SummaryRow x))
      → IsNewestFirst older (before ++ row ∷ below)
      → row_key row ≡ cursor_key c
      → after older (some c) (before ++ row ∷ below) ≡ below
  unfolding after IsNewestFirst
  after_row c [] row below h k =
      let itself : older (row_key row) (cursor_key c) ≡ false =
        ap (older (row_key row)) (sym k) ∙ not_self older asym (row_key row) in
      rw itself (after-All c below (subst (λ b. All (λ r. older (row_key r) b ≡ true) below) k h.0))
  after_row c (r ∷ before) row below h k =
      let newer : older (row_key r) (cursor_key c) ≡ false =
        ap (older (row_key r)) (sym k) ∙ asym (row_key row) (row_key r) (in_middle before h.0) in
      rw newer (after_row c before row below h.1 k)
    where
      in_middle :
          (l : List (SummaryRow x))
          → All (λ s. older (row_key s) (row_key r) ≡ true) (l ++ row ∷ below)
          → older (row_key row) (row_key r) ≡ true
      in_middle [] g = g.0
      in_middle (s ∷ l) g = in_middle l g.1

-- ===== src/Runs/Walk.antt =====
-- The pages of `list_runs` (src/runs.rs), followed by their cursors, are the whole list.
use mathlib.Core.Option
use executorch_bencher.Prelude.{
  ℕ, zero, suc, ◌+◌, ◌-◌, ◌≤◌, ◌<◌, true, false, ◌≡◌, refl, ap, sym, ◌∙◌, subst, arith, List, [],
  ◌∷◌, ◌++◌, length, length-append, take, take_of_length-le, Option, none, some, Result, ok, ◌>>=◌,
  Bool-cases, inl, inr, ltb,
}
use mathlib.Core.List.{append_assoc}
use executorch_bencher.Externals.{Externals}
use executorch_bencher.Results.Sorting.{split_at}
use executorch_bencher.Runs.{RunsError}
use executorch_bencher.Runs.Pages.{
  RunCursor, RunSummary, SummaryRow, after, IsNewestFirst, Listing, older, IsListing, last_cursor,
  page_of, list_runs,
}
use executorch_bencher.Runs.Paging.{
  take-append, take-append_suc, Listed, take-Listed, split-Listed, after_row,
}

module _ {x : Externals} (l : Listing x) where
  -- A client that follows the cursors, within a number of requests.
  unfoldable pub walk :
      ℕ → ℕ → Option (RunCursor x) → Result RunsError (Option (List (RunSummary x)))
  walk zero limit cursor = ok none
  walk (suc fuel) limit cursor = list_runs l limit cursor >>= λ page. elim page.next_cursor [
    | none ↦ ok (some page.items)
    | some c ↦
        (walk fuel limit (some c) >>= λ rest. ok (Option.map (λ items. page.items ++ items) rest))
  ]

  module _ (law : IsListing l)
      (answers : (c : Option (RunCursor x)) (n : ℕ)
        → (rows : List (SummaryRow x)) × (l.select c n ≡ ok rows)) where
    list_runs_lem :
        (limit : ℕ) (c : Option (RunCursor x)) (rows : List (SummaryRow x))
        (ss : List (RunSummary x))
        → after (older l) c l.rows ≡ rows
        → Listed rows ss
        → list_runs l limit c ≡ ok (page_of l limit (take (limit + 1) ss))
    unfolding list_runs
    list_runs_lem limit c rows ss below listed =
        let (answer, e) = answers c (limit + 1) in
        let same : answer ≡ take (limit + 1) rows =
          law.select_rows c (limit + 1) answer e ∙ ap (take (limit + 1)) below in
        rw (e, same, take-Listed (limit + 1) rows ss listed) refl

    short_page :
        (limit : ℕ) (ss : List (RunSummary x))
        → length ss ≤ limit
        → page_of l limit (take (limit + 1) ss) ≡ record { items = ss; next_cursor = none }
    unfolding page_of
    short_page limit ss h =
        let whole : take (limit + 1) ss ≡ ss =
          take_of_length-le (limit + 1) ss (omega (arith, h)) in
        let fits : ltb limit (length ss) ≡ false = ground (arith, h) in rw (whole, fits) refl

    last_cursor_lem :
        (lows : List (RunSummary x)) (s : RunSummary x)
        → last_cursor l (lows ++ s ∷ []) ≡ some (record { started_at = s.started_at; id = s.id })
    unfolding last_cursor
    last_cursor_lem [] s = refl
    last_cursor_lem (t ∷ []) s = refl
    last_cursor_lem (t ∷ u ∷ lows) s = last_cursor_lem (u ∷ lows) s

    long_page :
        (limit : ℕ) (lows : List (RunSummary x)) (s t : RunSummary x) (more : List (RunSummary x))
        → suc (length lows) ≡ limit
        → page_of l limit (take (limit + 1) (lows ++ s ∷ t ∷ more)) ≡ record {
          items = lows ++ s ∷ [];
          next_cursor = some (record { started_at = s.started_at; id = s.id });
        }
    unfolding page_of
    long_page limit lows s t more h =
        let fetched : take (limit + 1) (lows ++ s ∷ t ∷ more) ≡ lows ++ s ∷ t ∷ [] =
          take-append_suc lows s t more (limit + 1) (omega (arith, h)) in
        let size : length (lows ++ s ∷ t ∷ []) ≡ length lows + 2 =
          length-append lows (s ∷ t ∷ []) ∙ omega arith in
        let over : ltb limit (length (lows ++ s ∷ t ∷ [])) ≡ true = ground (arith, size, h) in
        let kept : take limit (lows ++ s ∷ t ∷ []) ≡ lows ++ s ∷ [] =
          take-append lows s (t ∷ []) limit h in
        rw (fetched, over, kept, last_cursor_lem lows s) refl

    step_lem :
        (fuel limit : ℕ) (c : Option (RunCursor x)) (before rows : List (SummaryRow x))
        (lows : List (RunSummary x)) (s t : RunSummary x) (more : List (RunSummary x))
        → suc (length lows) ≡ limit
        → l.rows ≡ before ++ rows
        → after (older l) c l.rows ≡ rows
        → Listed rows (lows ++ s ∷ t ∷ more)
        → ((d : Option (RunCursor x)) (earlier later : List (SummaryRow x))
            → l.rows ≡ earlier ++ later
            → after (older l) d l.rows ≡ later
            → Listed later (t ∷ more)
            → walk fuel limit d ≡ ok (some (t ∷ more)))
        → walk (suc fuel) limit c ≡ ok (some (lows ++ s ∷ t ∷ more))
    unfolding walk
    step_lem fuel limit c before rows lows s t more size split below listed again =
        let (lr, row, hr, e, k, later) = split-Listed rows lows s (t ∷ more) listed in
        let d : RunCursor x = record { started_at = s.started_at; id = s.id } in
        let whole : l.rows ≡ (before ++ lr) ++ row ∷ hr =
          split ∙ (ap (◌++◌ before) e ∙ sym (append_assoc before lr (row ∷ hr))) in
        let below' : after (older l) (some d) l.rows ≡ hr =
          ap (after (older l) (some d)) whole
          ∙ after_row (older l) law.older_asym d (before ++ lr) row hr
              (subst (IsNewestFirst (older l)) whole law.newest_first) k in
        let rest =
          again (some d) ((before ++ lr) ++ row ∷ []) hr
            (whole ∙ sym (append_assoc (before ++ lr) (row ∷ []) hr)) below' later in
        rw
          (
            list_runs_lem limit c rows (lows ++ s ∷ t ∷ more) below listed,
            long_page limit lows s t more size,
            rest,
          )
          (ap (λ (m : List (RunSummary x)). ok (some m)) (append_assoc lows (s ∷ []) (t ∷ more)))

    walk_lem :
        (fuel limit : ℕ) (c : Option (RunCursor x)) (before rows : List (SummaryRow x))
        (ss : List (RunSummary x))
        → 1 ≤ limit
        → l.rows ≡ before ++ rows
        → after (older l) c l.rows ≡ rows
        → Listed rows ss
        → length ss < fuel
        → walk fuel limit c ≡ ok (some ss)
    unfolding walk
    walk_lem zero limit c before rows ss positive split below listed room =
        absurd (omega (arith, room))
    walk_lem (suc fuel) limit c before rows ss positive split below listed room =
        elim (Bool-cases (ltb limit (length ss))) [
          | inr fits ↦
              rw
                (
                  list_runs_lem limit c rows ss below listed,
                  short_page limit ss (ground (arith, fits)),
                )
                refl
          | inl over ↦
              let (lows, s, highs, e, size) =
                split_at ss (limit - 1) (ground (arith, over, positive)) in
              let total : length ss ≡ length lows + suc (length highs) =
                ap length e ∙ length-append lows (s ∷ highs) in
              by_highs lows s highs e (omega (arith, size, positive))
                (ground (arith, over, total, size, positive))
                (λ d earlier later. walk_lem fuel limit d earlier later highs positive)
                (omega (arith, total, room))
        ]
      where
        by_highs :
            (lows : List (RunSummary x)) (s : RunSummary x) (highs : List (RunSummary x))
            → ss ≡ lows ++ s ∷ highs
            → suc (length lows) ≡ limit
            → 1 ≤ length highs
            → ((d : Option (RunCursor x)) (earlier later : List (SummaryRow x))
                → l.rows ≡ earlier ++ later
                → after (older l) d l.rows ≡ later
                → Listed later highs
                → length highs < fuel
                → walk fuel limit d ≡ ok (some highs))
            → length highs < fuel
            → walk (suc fuel) limit c ≡ ok (some ss)
        by_highs lows s [] e size some_left again room' = absurd (omega (arith, some_left))
        by_highs lows s (t ∷ more) e size some_left again room' =
            step_lem fuel limit c before rows lows s t more size split below
              (subst (Listed rows) e listed)
              (λ d earlier later i j k. again d earlier later i j k room')
            ∙ ap (λ (m : List (RunSummary x)). ok (some m)) (sym e)

    -- Following the cursors from the first page, with any limit of at least 1 and as long as the
    -- database answers, gives every run of the list once, in order, within as many requests as
    -- there are runs, and one.
    pub walk-list_runs :
        (limit : ℕ) (ss : List (RunSummary x))
        → 1 ≤ limit
        → Listed l.rows ss
        → walk (suc (length ss)) limit none ≡ ok (some ss)
    unfolding after
    walk-list_runs limit ss positive listed =
        walk_lem (suc (length ss)) limit none [] l.rows ss positive refl (after_none l.rows) listed
          (omega arith)
      where
        after_none : (rows : List (SummaryRow x)) → after (older l) none rows ≡ rows
        after_none rows = refl

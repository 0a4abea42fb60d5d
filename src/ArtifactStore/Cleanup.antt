-- ===== src/ArtifactStore/Cleanup.antt =====
-- What `cleanup_abandoned_temp_files` removes, and how an artifact's file is read.
use executorch_bencher.Prelude.{
  ℕ, suc, subst, sym, ◌+◌, ◌-◌, ◌≤◌, String, Bool, true, false, Option, none, some, List, [], ◌∷◌,
  Result, ok, err, if◌then◌else◌, ◌≡◌, ◌≢◌, refl, ◌∙◌, arith,
}
use executorch_bencher.Prelude.Lists.{length, All}
use executorch_bencher.ArtifactStore.{IoError, ArtifactStoreError}
use executorch_bencher.ArtifactStore.Machine.{Machine, IsMachine}
use executorch_bencher.ArtifactStore.Maintenance.{
  Entry, is_abandoned, after_remove, cleanup_entry, cleanup_loop, cleanup_abandoned_temp_files,
}

-- A file whose last modification is at least `retention` ago.
abbrev pub IsOld : (now retention : ℕ) → Option (Bool × Option ℕ) → Type 0
IsOld now retention metadata =
    (modified : ℕ) × (metadata ≡ some (true, some modified)) × (retention ≤ now - modified)

is_abandoned-IsOld :
    (now retention : ℕ) (metadata : Option (Bool × Option ℕ))
    → is_abandoned now retention metadata ≡ true
    → IsOld now retention metadata
unfolding is_abandoned
is_abandoned-IsOld now retention none h = cc
is_abandoned-IsOld now retention (some (false, modified)) h = cc
is_abandoned-IsOld now retention (some (true, none)) h = cc
is_abandoned-IsOld now retention (some (true, some modified)) h = (modified, refl, ground arith)

-- The entry is not an old file at `q`.
abbrev pub Stays : (now retention : ℕ) → String → Result IoError Entry → Type 0
Stays now retention q (err e) = Unit
Stays now retention q (ok entry) = IsOld now retention entry.metadata → q ≢ entry.path

module _ (m : Machine) (L : IsMachine m) (now retention : ℕ) where
  open m use {State, exists, remove_file, rows}

  -- The table is as it was, and the file at `q` is still there if it was.
  abbrev pub Keeps : String → State → State → Type 0
  Keeps q s t = (rows t ≡ rows s) × (exists s q ≡ true → exists t q ≡ true)

  after_remove-state :
      (n : ℕ) (o : Result IoError (Unit {0}) × State) → (after_remove m n o).1 ≡ o.1
  unfolding after_remove
  after_remove-state n (ok u, s) = refl
  after_remove-state n (err e, s) = refl

  after_remove-le : (n : ℕ) (o : Result IoError (Unit {0}) × State) → (after_remove m n o).0 ≤ n + 1
  unfolding after_remove
  after_remove-le n (ok u, s) = omega arith
  after_remove-le n (err e, s) = omega arith

  after_remove-Keeps :
      (n : ℕ) (q p : String) (s : State) → q ≢ p → Keeps q s (after_remove m n (remove_file p s)).1
  after_remove-Keeps n q p s ne =
      let spared = L.remove_file-Spares p s in
      subst (Keeps q s) (sym (after_remove-state n (remove_file p s)))
        (spared.same_rows, spared.kept q ne)

  -- One entry, by whether it is abandoned.
  entry-Keeps :
      (entry : Entry) (q : String) (n : ℕ) (s : State) (b : Bool)
      → is_abandoned now retention entry.metadata ≡ b
      → Stays now retention q (ok entry)
      → Keeps q s (if b then after_remove m n (remove_file entry.path s) else (n, s)).1
  entry-Keeps entry q n s true h stays =
      after_remove-Keeps n q entry.path s
        (stays (is_abandoned-IsOld now retention entry.metadata h))
  entry-Keeps entry q n s false h stays = (refl, λ e. e)

  entry-le :
      (entry : Entry) (n : ℕ) (s : State) (b : Bool)
      → (if b then after_remove m n (remove_file entry.path s) else (n, s)).0 ≤ n + 1
  entry-le entry n s true = after_remove-le n (remove_file entry.path s)
  entry-le entry n s false = omega arith

  -- What an outcome of the loop says, from a state and a count on.
  abbrev pub Swept : String → ℕ → ℕ → State → Result ArtifactStoreError ℕ × State → Type 0
  Swept q n k s (ok removed, t) = (removed ≤ n + k) × Keeps q s t
  Swept q n k s (err e, t) = Keeps q s t

  Swept-cons :
      (q : String) (n n' k : ℕ) (s s' : State) (o : Result ArtifactStoreError ℕ × State)
      → n' ≤ n + 1
      → Keeps q s s'
      → Swept q n' k s' o
      → Swept q n (suc k) s o
  Swept-cons q n n' k s s' (ok removed, t) le (r, f) (b, (r', f')) =
      (omega arith, (r' ∙ r, λ e. f' (f e)))
  Swept-cons q n n' k s s' (err e, t) le (r, f) (r', f') = (r' ∙ r, λ e. f' (f e))

  cleanup_loop-Swept :
      (q : String) (entries : List (Result IoError Entry)) (n : ℕ) (s : State)
      → All (Stays now retention q) entries
      → Swept q n (length entries) s (cleanup_loop m now retention entries (n, s))
  unfolding cleanup_loop cleanup_entry
  cleanup_loop-Swept q [] n s stays = (omega arith, (refl, λ e. e))
  cleanup_loop-Swept q (err e ∷ rest) n s stays = (refl, λ e. e)
  cleanup_loop-Swept q (ok entry ∷ rest) n s (here, later) =
      let step = cleanup_entry m now retention entry (n, s) in
      Swept-cons q n step.0 (length rest) s step.1 (cleanup_loop m now retention rest step)
        (entry-le entry n s (is_abandoned now retention entry.metadata))
        (entry-Keeps entry q n s (is_abandoned now retention entry.metadata) refl here)
        (cleanup_loop-Swept q rest step.0 step.1 later)

  -- Whatever fails on the way: `cleanup_abandoned_temp_files` leaves the table as it was and a
  -- file in place that was there, unless the directory listed it as a file last modified at
  -- least `retention` before now; and the number that it answers is at most that of the entries.
  pub cleanup_abandoned_temp_files-Swept :
      (q : String) (entries : List (Result IoError Entry)) (s : State)
      → All (Stays now retention q) entries
      → Swept q 0 (length entries) s (cleanup_abandoned_temp_files m (ok entries) now retention s)
  unfolding cleanup_abandoned_temp_files
  cleanup_abandoned_temp_files-Swept q entries s stays = cleanup_loop-Swept q entries 0 s stays

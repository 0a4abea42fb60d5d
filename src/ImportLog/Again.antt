-- ===== src/ImportLog/Again.antt =====
-- What an import counts, and that a second import of the same log changes nothing.
use executorch_bencher.Prelude.{
  ℕ, ◌+◌, ℤ, String, Bool, true, false, Option, List, [], ◌∷◌, ok, is_some, is_negative,
  if◌then◌else◌, ◌≡◌, ◌⊎◌, inl, inr, refl, ◌∙◌, sym, subst, arith,
}
use executorch_bencher.Prelude.Lists.{length, All}
use executorch_bencher.ArtifactStore.Machine.{Hasher, Machine}
use executorch_bencher.Externals.{Externals}
use executorch_bencher.ImportLog.Import.{
  World, Setting, Counts, Triage, skip_tag, skip_existing, bad_repetition, process, contains,
  minus_one, triage_repetition, triage, Cache,
}
use executorch_bencher.ImportLog.Loop.{import_record, import_records}
use executorch_bencher.ImportLog.Manifest.{lookup}
use executorch_bencher.ImportLog.Parse.{Record}
use executorch_bencher.ModelRegistry.Registry.{Files, ModelsTable}
use executorch_bencher.Runs.Table.{RunsTable}

-- A record of a tag that the manifest skips, or of a repetition that was imported before.
abbrev pub IsDone : {x : Externals} → Setting x → Record x → Type 0
IsDone setting r =
    (is_some (lookup r.tag setting.manifest.skip_tags) ≡ true)
    ⊎ ((is_negative (minus_one r.rep) ≡ false)
        × (contains setting.imported r.tag (minus_one r.rep) ≡ true))

abbrev IsSkip : Triage → Type 0
IsSkip skip_tag = Unit
IsSkip skip_existing = Unit
IsSkip bad_repetition = ⊥
IsSkip (process n) = ⊥

triage-IsSkip :
    {x : Externals} (setting : Setting x) (r : Record x)
    → IsDone setting r
    → IsSkip (triage setting r)
unfolding triage triage_repetition
triage-IsSkip setting r (inl h) =
    subst (λ b. IsSkip (if b then skip_tag else triage_repetition setting r (minus_one r.rep)))
      (sym h) tt
triage-IsSkip setting r (inr (h, k)) = by_tag (is_some (lookup r.tag setting.manifest.skip_tags))
  where
    by_tag :
        (b : Bool) → IsSkip (if b then skip_tag else triage_repetition setting r (minus_one r.rep))
    by_tag true = tt
    by_tag false = rw (h, k) tt

module _ {x : Externals} (h : Hasher) (m : Machine) (mt : ModelsTable x) (rt : RunsTable x)
    (files : Files x) (readable : String → Bool) (from_millis : ℤ → Option (Externals.DateTime x))
    (number_text : ℤ → String) (render : Record x → Bool → String) (setting : Setting x) where
  abbrev total : Counts → ℕ
  total n = n.inserted + n.skipped_existing + n.skipped_tags

  -- A skipped record is counted as such, and nothing else happens.
  skip-Leads :
      (index : ℕ) (before : List (Record x)) (r : Record x) (t : Triage)
      (s : Counts × Cache h m mt rt files readable) (w : World m mt rt)
      → IsSkip t
      → (s' : Counts × Cache h m mt rt files readable) × (import_record h m mt rt files readable
            from_millis number_text render setting index before r t s w
          ≡ (ok s', w))
        × (s'.0.inserted ≡ s.0.inserted)
        × (total s'.0 ≡ total s.0 + 1)
  unfolding import_record
  skip-Leads index before r skip_tag (n, cache) w k = (_, refl, refl, omega arith)
  skip-Leads index before r skip_existing (n, cache) w k = (_, refl, refl, omega arith)
  skip-Leads index before r bad_repetition s w k = absurd k
  skip-Leads index before r (process n) s w k = absurd k

  -- If every record of a log is of a tag that the manifest skips or of a repetition that was
  -- imported before, the loop ends without an error, leaves files and tables as they were, inserts
  -- nothing, and counts every record once.
  pub import_records_again :
      (index : ℕ) (before records : List (Record x)) (s : Counts × Cache h m mt rt files readable)
      (w : World m mt rt)
      → All (IsDone setting) records
      → (n : Counts) × (import_records h m mt rt files readable from_millis number_text render
            setting index before records s w
          ≡ (ok n, w))
        × (n.inserted ≡ s.0.inserted)
        × (total n ≡ total s.0 + length records)
  unfolding import_records
  import_records_again index before [] s w done = (s.0, refl, refl, omega arith)
  import_records_again index before (r ∷ rest) s w (here, later) =
      let (s', step, same, one) =
        skip-Leads index before r (triage setting r) s w (triage-IsSkip setting r here) in
      let (n, run, kept, all_) = import_records_again (index + 1) (r ∷ before) rest s' w later in
      (n, rw step run, kept ∙ same, omega arith)

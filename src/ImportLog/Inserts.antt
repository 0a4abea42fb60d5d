-- ===== src/ImportLog/Inserts.antt =====
-- Which runs the records of a log become in the runs table.
use executorch_bencher.Prelude.{
  ◌+◌, ℤ, Bool, true, false, not, ◌&&◌, some, List, [], ◌∷◌, ok, is_some, is_negative,
  if◌then◌else◌, ◌≡◌, refl, sym, subst, ap, arith,
}
use executorch_bencher.Prelude.Lists.{length}
use executorch_bencher.Prelude.Search.{filter}
use executorch_bencher.Externals.{Externals}
use executorch_bencher.ImportLog.Import.{
  Setting, Counts, Triage, skip_tag, skip_existing, bad_repetition, process, contains, minus_one,
  triage_repetition, triage,
}
use executorch_bencher.ImportLog.Manifest.{lookup}
use executorch_bencher.ImportLog.Parse.{Record}
use executorch_bencher.Runs.{insert_run}
use executorch_bencher.Runs.Row.{NewRun}
use executorch_bencher.Runs.Table.{RunsTable}

module _ {x : Externals} (setting : Setting x) where
  -- The manifest skips the record's tag; its repetition was imported before; neither.
  abbrev pub is_tagged : Record x → Bool
  is_tagged r = is_some (lookup r.tag setting.manifest.skip_tags)

  abbrev pub is_there : Record x → Bool
  is_there r = contains setting.imported r.tag (minus_one r.rep)

  abbrev pub is_known : Record x → Bool
  is_known r = not (is_tagged r) && is_there r

  abbrev pub is_due : Record x → Bool
  is_due r = not (is_tagged r) && not (is_there r)

  -- The run of a record, by what the record and the manifest say.
  pub record IsRunOf (repetition : ℤ) (run : NewRun x) : Type 0 where
    pub repetition_kept : run.repetition ≡ repetition
    pub prompt : run.prompt_sha256 ≡ setting.prompt_sha256
    pub prompt_artifact : run.input_artifact_id ≡ some setting.prompt_artifact
    pub host : run.host ≡ setting.host
    pub commit : run.git_commit_sha ≡ setting.manifest.git.commit_sha

  module _ (rt : RunsTable x) where
    open rt use {Db}

    -- The insert of a run succeeds and leaves the second table.
    abbrev pub HasRun : ℤ → Db → Db → Type 0
    HasRun repetition db db' =
        (run : NewRun x) × IsRunOf repetition run
        × ((insert_run rt db run).0 ≡ ok tt)
        × ((insert_run rt db run).1 ≡ db')

    -- One run of each record is inserted, in order.
    abbrev pub HasRuns : List (Record x) → Db → Db → Type 0
    HasRuns [] db db' = db ≡ db'
    HasRuns (r ∷ rest) db db' = (mid : Db) × HasRun (minus_one r.rep) db mid × HasRuns rest mid db'

    pub record IsImported (records : List (Record x)) (n n' : Counts) (db db' : Db) : Type 0 where
      pub runs : HasRuns (filter is_due records) db db'
      pub inserted : n'.inserted ≡ n.inserted + length (filter is_due records)
      pub existing : n'.skipped_existing ≡ n.skipped_existing + length (filter is_known records)
      pub tags : n'.skipped_tags ≡ n.skipped_tags + length (filter is_tagged records)

    -- What one record adds.
    unfoldable pub Done : Triage → Db → Counts → Counts → Db → Type 0
    Done skip_tag db n n' db' = (n' ≡ record n { skipped_tags = n.skipped_tags + 1 }) × (db ≡ db')
    Done skip_existing db n n' db' =
        (n' ≡ record n { skipped_existing = n.skipped_existing + 1 }) × (db ≡ db')
    Done bad_repetition db n n' db' = ⊥
    Done (process repetition) db n n' db' =
        (n' ≡ record n { inserted = n.inserted + 1 }) × HasRun repetition db db'

    pub Done-IsImported :
        (r : Record x) (rest : List (Record x)) (n mid n' : Counts) (db dm db' : Db)
        → Done (triage setting r) db n mid dm
        → IsImported rest mid n' dm db'
        → IsImported (r ∷ rest) n n' db db'
    unfolding triage triage_repetition Done
    Done-IsImported r rest n mid n' db dm db' done later =
        go (is_tagged r) (is_negative (minus_one r.rep)) (is_there r) refl refl done
      where
        go :
            (t b k : Bool)
            → is_tagged r ≡ t
            → is_there r ≡ k
            → Done
                (if t
                  then skip_tag
                  else if b
                  then bad_repetition
                  else if k
                  then skip_existing
                  else process (minus_one r.rep))
                db
                n
                mid
                dm
            → IsImported (r ∷ rest) n n' db db'
        go true b k et ek (same, kept) = record {
          runs = rw et (subst (λ d. HasRuns (filter is_due rest) d db') (sym kept) later.runs);
          inserted = rw et (omega (arith, later.inserted, ap Counts.inserted same));
          existing = rw et (omega (arith, later.existing, ap Counts.skipped_existing same));
          tags = rw et (omega (arith, later.tags, ap Counts.skipped_tags same));
        }
        go false true k et ek d = absurd d
        go false false true et ek (same, kept) = record {
          runs =
              rw (et, ek) (subst (λ d. HasRuns (filter is_due rest) d db') (sym kept) later.runs);
          inserted = rw (et, ek) (omega (arith, later.inserted, ap Counts.inserted same));
          existing = rw (et, ek) (omega (arith, later.existing, ap Counts.skipped_existing same));
          tags = rw et (omega (arith, later.tags, ap Counts.skipped_tags same));
        }
        go false false false et ek (same, run) = record {
          runs = rw (et, ek) (dm, run, later.runs);
          inserted = rw (et, ek) (omega (arith, later.inserted, ap Counts.inserted same));
          existing = rw (et, ek) (omega (arith, later.existing, ap Counts.skipped_existing same));
          tags = rw et (omega (arith, later.tags, ap Counts.skipped_tags same));
        }

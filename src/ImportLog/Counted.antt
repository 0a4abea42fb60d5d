-- ===== src/ImportLog/Counted.antt =====
-- What an import that ends has put into the runs table, and what it counts.
use executorch_bencher.Prelude.{
  ℕ, ◌+◌, ℤ, String, Bool, Option, List, [], ◌∷◌, Result, ok, err, ◌≡◌, refl, sym, ap, arith,
  map_err, map, ok_or, ◌*◌,
}
use executorch_bencher.Prelude.Action.{
  Action, Leads, Leads-bind, Leads-attempt, Leads-weaken, Leads-pure, Leads-fail, Leads-ok, Outcome,
}
use executorch_bencher.ArtifactStore.Machine.{Hasher, Machine}
use executorch_bencher.Externals.{Externals}
use executorch_bencher.ImportLog.Import.{
  World, Setting, Counts, Triage, skip_tag, skip_existing, bad_repetition, process, triage, Cache,
  cached_model, on_disk, on_models, put_disk, put_models,
}
use executorch_bencher.ImportLog.Loop.{
  new_run, insert, stdout_artifact, check_json, timing, process_record, import_record,
  import_records,
}
use executorch_bencher.ImportLog.Manifest.{
  ImportError, lookup, not_inserted, no_model_entry, bad_args, failure_of, fill_arg,
}
use executorch_bencher.ImportLog.Parse.{Record}
use executorch_bencher.ModelRegistry.Registry.{Files, ModelsTable}
use executorch_bencher.Runs.{RunsError, insert_run}
use executorch_bencher.Runs.Row.{NewRun}
use executorch_bencher.Runs.Table.{RunsTable}
use executorch_bencher.ImportLog.Inserts.{IsRunOf, HasRun, IsImported, Done, Done-IsImported}

module _ {x : Externals} (h : Hasher) (m : Machine) (mt : ModelsTable x) (rt : RunsTable x)
    (files : Files x) (readable : String → Bool) (from_millis : ℤ → Option (Externals.DateTime x))
    (number_text : ℤ → String) (render : Record x → Bool → String) (setting : Setting x) where
  open rt use {Db}

  -- The runs table is this one.
  abbrev HasTable : Db → World m mt rt → Type 0
  HasTable db w = w.runs ≡ db

  abbrev Anything : World m mt rt → Type 0
  Anything w = Unit

  attempt-HasTable :
      {A : Type 0} (db : Db) (f : World m mt rt → Result ImportError A)
      → Leads (HasTable db) (λ w. (f w, w)) (λ a. HasTable db) Anything
  attempt-HasTable db f = Leads-attempt f (λ w p a e. p) (λ w p. tt)

  models-HasTable :
      (A : Type 0) (db : Db) (f : Action ImportError (ModelsTable.Db mt) A)
      → Leads (HasTable db) (on_models h m mt rt files readable f) (λ a. HasTable db) Anything
  models-HasTable A db f = record { from = λ w p. go w (f w.models) p }
    where
      go :
          (w : World m mt rt) (o : Result ImportError A × ModelsTable.Db mt)
          → HasTable db w
          → Outcome (λ a. HasTable db) Anything (put_models h m mt rt files readable w o)
      go w (ok a, s) p = p
      go w (err e, s) p = tt

  disk-HasTable :
      (A : Type 0) (db : Db) (f : Action ImportError (Machine.State m) A)
      → Leads (HasTable db) (on_disk h m mt rt files readable f) (λ a. HasTable db) Anything
  disk-HasTable A db f = record { from = λ w p. go w (f w.disk) p }
    where
      go :
          (w : World m mt rt) (o : Result ImportError A × Machine.State m)
          → HasTable db w
          → Outcome (λ a. HasTable db) Anything (put_disk h m mt rt files readable w o)
      go w (ok a, s) p = p
      go w (err e, s) p = tt

  insert-HasRun :
      (db : Db) (repetition : ℤ) (run : NewRun x)
      → IsRunOf setting repetition run
      → Leads
          (HasTable db)
          (insert h m mt rt files readable from_millis number_text render setting run)
          (λ a w. HasRun setting rt repetition db w.runs)
          Anything
  unfolding insert
  insert-HasRun db repetition run is_run = record {
    from = λ w p. go w p (insert_run rt w.runs run) refl;
  }
    where
      go :
          (w : World m mt rt)
          → HasTable db w
          → (o : Result RunsError (Unit {0}) × Db) → insert_run rt w.runs run ≡ o
          → Outcome
              (λ a v. HasRun setting rt repetition db v.runs)
              Anything
              (map_err {A = Unit {0}} not_inserted o.0, record w { runs = o.1 })
      go w p (ok done, db') e = (run, is_run, rw (sym p, e) refl, rw (sym p, e) refl)
      go w p (err f, db') e = tt

  process-HasRun :
      (index : ℕ) (before : List (Record x)) (r : Record x) (repetition : ℤ)
      (cache : Cache h m mt rt files readable) (db : Db)
      → Leads
          (HasTable db)
          (process_record h m mt rt files readable from_millis number_text render setting index
            before r repetition cache)
          (λ a w. HasRun setting rt repetition db w.runs)
          Anything
  unfolding process_record new_run
  process-HasRun index before r repetition cache db =
      Leads-bind
        (attempt-HasTable db
          (λ w. ok_or (no_model_entry r.tag) (lookup r.tag setting.manifest.models)))
        λ spec.
          Leads-bind
            (models-HasTable _ db (
              cached_model h m mt rt files readable (setting.new_id (4 * index)) (setting.now index)
                r.tag spec cache (lookup r.tag cache)))
            λ (asset, cache).
              Leads-bind
                (attempt-HasTable db (λ w. failure_of x setting.manifest.failures r r.observer))
                λ failure.
                  Leads-bind
                    (disk-HasTable _ db (
                      stdout_artifact h m mt rt files readable from_millis number_text render
                        setting index r r.raw_line))
                    λ stdout_id.
                      Leads-bind
                        (attempt-HasTable db (λ w.
                          check_json h m mt rt files readable from_millis number_text render setting
                            r.raw_line))
                        λ checked.
                          Leads-bind
                            (attempt-HasTable db (λ w.
                              timing h m mt rt files readable from_millis number_text render setting
                                before r r.observer failure))
                            λ t.
                              Leads-bind
                                (attempt-HasTable db (λ w. ok_or bad_args (
                                  Externals.strings_to_string x (
                                    map
                                      (fill_arg spec setting.prompt_path_on_host
                                        setting.prompt_text)
                                      setting.manifest.args_template))))
                                λ args_json.
                                  Leads-bind
                                    (insert-HasRun db repetition
                                      (new_run h m mt rt files readable from_millis number_text
                                        render setting (setting.new_id (4 * index + 3)) r repetition
                                        asset
                                        (map
                                          (fill_arg spec setting.prompt_path_on_host
                                            setting.prompt_text)
                                          setting.manifest.args_template)
                                        args_json stdout_id t)
                                      (record {
                                        repetition_kept = refl;
                                        prompt = refl;
                                        prompt_artifact = refl;
                                        host = refl;
                                        commit = refl;
                                      }))
                                    λ done. Leads-pure cache (λ w p. p)

  record-Done :
      (index : ℕ) (before : List (Record x)) (r : Record x) (t : Triage) (n : Counts)
      (cache : Cache h m mt rt files readable) (db : Db)
      → Leads
          (HasTable db)
          (import_record h m mt rt files readable from_millis number_text render setting index
            before r t
            (n, cache))
          (λ s w. Done setting rt t db n s.0 w.runs)
          Anything
  unfolding import_record Done
  record-Done index before r skip_tag n cache db = Leads-pure _ (λ w p. (refl, sym p))
  record-Done index before r skip_existing n cache db = Leads-pure _ (λ w p. (refl, sym p))
  record-Done index before r bad_repetition n cache db = Leads-fail _ (λ w p. tt)
  record-Done index before r (process repetition) n cache db =
      Leads-bind (process-HasRun index before r repetition cache db)
        λ cache'. Leads-pure _ (λ w p. (refl, p))

  records-IsImported :
      (index : ℕ) (before records : List (Record x)) (s : Counts × Cache h m mt rt files readable)
      (db : Db)
      → Leads
          (HasTable db)
          (import_records h m mt rt files readable from_millis number_text render setting index
            before records s)
          (λ n w. IsImported setting rt records s.0 n db w.runs)
          Anything
  unfolding import_records
  records-IsImported index before [] (n, cache) db = Leads-pure n (λ w p. record {
    runs = sym p;
    inserted = omega arith;
    existing = omega arith;
    tags = omega arith;
  })
  records-IsImported index before (r ∷ rest) (n, cache) db =
      Leads-bind (record-Done index before r (triage setting r) n cache db) λ s. record {
        from = λ w done.
            (Leads-weaken (records-IsImported (index + 1) (r ∷ before) rest s w.runs)
                (λ v (e : v ≡ w). ap (λ (u : World m mt rt). u.runs) e)
                (λ n' v later.
                  Done-IsImported setting rt r rest n s.0 n' db w.runs v.runs done later)
                (λ v u. tt)).from
              w refl;
      }

  -- When an import ends without an error: of each record, in order, whose tag the manifest does not
  -- skip and whose repetition was not imported before, one run was inserted with success, which has
  -- the record's repetition and the manifest's prompt, host and commit; the runs table is what these
  -- inserts made of it; and the three counts grew by the number of those records, of the records whose
  -- repetition was imported before, and of the records whose tag is skipped.
  pub import_records-IsImported :
      (index : ℕ) (before records : List (Record x)) (s : Counts × Cache h m mt rt files readable)
      (w : World m mt rt) (n : Counts)
      → (import_records h m mt rt files readable from_millis number_text render setting index before
          records s w).0
        ≡ ok n
      → IsImported setting rt records s.0 n w.runs
          (import_records h m mt rt files readable from_millis number_text render setting index
            before records s w).1.runs
  import_records-IsImported index before records s w n e =
      Leads-ok (records-IsImported index before records s w.runs) w n refl e

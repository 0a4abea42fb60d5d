-- ===== src/RunsWrite/Outcome.antt =====
-- What `create_run` does with the state on every branch.
use executorch_bencher.Prelude.{ℕ, String, ◌≡◌, refl, ap, ◌⊎◌, inl, inr, Result, ok, err}
use executorch_bencher.Externals.{Externals}
use executorch_bencher.ApiError.{ApiError, from_field_error}
use executorch_bencher.Events.{publish, run_created}
use executorch_bencher.HostRules.{FieldError}
use executorch_bencher.Runs.Row.{NewRun}
use executorch_bencher.Runs.{RunsError, insert_run, get_run}
use executorch_bencher.Runs.Store.{insert_run_err}
use executorch_bencher.RunsWrite.Convert.{CreateRunRequest, to_new_run}
use executorch_bencher.RunsWrite.Handler.{
  Body, too_large, unreadable, malformed, parsed, Response, failed, Pool, App, check_references,
  read_back, created_event, announce, after_insert, insert_failure, store_run, after_references,
  after_conversion, create_run,
}

module _ {x : Externals} (p : Pool x) where
  open p use {runs}

  -- The request became a run, its references resolved, it was inserted, its event was published,
  -- and the answer is what was read back.
  pub record IsStored (n : ℕ) (app : App p) (body : Body x) (answer : Response x × App p)
      : Type 0 where
    pub req : CreateRunRequest x
    pub run : NewRun x
    pub name : String
    pub is_parsed : body ≡ parsed req
    pub converted : to_new_run x req n ≡ ok run
    pub referenced : check_references p app.db run ≡ ok name
    pub inserted : (insert_run runs app.db run).0 ≡ ok tt
    pub announced : answer.1 ≡ record {
      db = (insert_run runs app.db run).1;
      events = (publish app.events (run_created (created_event run name))).0;
    }
    pub answered : answer.0 ≡ read_back p (get_run runs (insert_run runs app.db run).1 run.id)

  -- An error that left the state as it was.
  abbrev pub IsRefused : App p → Response x × App p → Type 0
  IsRefused app answer = (e : ApiError) × (answer ≡ (failed e, app))

  store_run_failed :
      (app : App p) (run : NewRun x) (name : String) (e : RunsError)
      → (insert_run runs app.db run).0 ≡ err e
      → store_run p app run name ≡ (failed (insert_failure x e run.id), app)
  unfolding store_run after_insert
  store_run_failed app run name e h = rw (h, insert_run_err runs app.db run e h)

  store_run_stored :
      (app : App p) (run : NewRun x) (name : String)
      → (insert_run runs app.db run).0 ≡ ok tt
      → store_run p app run name ≡ (
        read_back p (get_run runs (insert_run runs app.db run).1 run.id),
        record {
          db = (insert_run runs app.db run).1;
          events = (publish app.events (run_created (created_event run name))).0;
        },
      )
  unfolding store_run after_insert announce
  store_run_stored app run name h = rw h

  -- The three ways through the handler once the body is parsed.
  data Way (n : ℕ) (app : App p) (req : CreateRunRequest x) (answer : Response x × App p)
      : Type 0 where
    refused : IsRefused app answer → Way n app req answer
    not_inserted :
        (run : NewRun x) (e : RunsError)
        → to_new_run x req n ≡ ok run
        → (insert_run runs app.db run).0 ≡ err e
        → answer ≡ (failed (insert_failure x e run.id), app)
        → Way n app req answer
    stored : IsStored n app (parsed req) answer → Way n app req answer

  inserted-Way :
      (n : ℕ) (app : App p) (req : CreateRunRequest x) (run : NewRun x) (name : String)
      (m : Result RunsError (Unit {0}))
      → to_new_run x req n ≡ ok run
      → check_references p app.db run ≡ ok name
      → (insert_run runs app.db run).0 ≡ m
      → Way n app req (store_run p app run name)
  inserted-Way n app req run name (err e) built refs h =
      not_inserted run e built h (store_run_failed app run name e h)
  inserted-Way n app req run name (ok done) built refs h = stored (record {
    req = req;
    run = run;
    name = name;
    is_parsed = refl;
    converted = built;
    referenced = refs;
    inserted = h;
    announced = ap (λ (a : Response x × App p). a.1) (store_run_stored app run name h);
    answered = ap (λ (a : Response x × App p). a.0) (store_run_stored app run name h);
  })

  admitted-Way :
      (n : ℕ) (app : App p) (req : CreateRunRequest x) (run : NewRun x) (m : Result ApiError String)
      → to_new_run x req n ≡ ok run
      → check_references p app.db run ≡ m
      → Way n app req (after_references p app run m)
  unfolding after_references
  admitted-Way n app req run (err e) built h = refused (e, refl)
  admitted-Way n app req run (ok name) built h = inserted-Way n app req run name _ built h refl

  converted-Way :
      (n : ℕ) (app : App p) (req : CreateRunRequest x) (m : Result FieldError (NewRun x))
      → to_new_run x req n ≡ m
      → Way n app req (after_conversion p app m)
  unfolding after_conversion
  converted-Way n app req (err e) h = refused (from_field_error e, refl)
  converted-Way n app req (ok run) h = admitted-Way n app req run _ h refl

  create_run-Way :
      (n : ℕ) (app : App p) (req : CreateRunRequest x)
      → Way n app req (create_run p n app (parsed req))
  unfolding create_run
  create_run-Way n app req = converted-Way n app req _ refl

  -- Whatever the body is and whatever the database does, the handler either answers an error and
  -- leaves database and event bus as they were, or the request was parsed, converted, all its
  -- references were found, its run was inserted, its one event was published, and the answer is
  -- what is read back.
  pub create_run-cases :
      (n : ℕ) (app : App p) (body : Body x)
      → IsRefused app (create_run p n app body) ⊎ IsStored n app body (create_run p n app body)
  unfolding create_run
  create_run-cases n app too_large = inl (_, refl)
  create_run-cases n app (unreadable r) = inl (_, refl)
  create_run-cases n app (malformed e) = inl (_, refl)
  create_run-cases n app (parsed req) = of_way (create_run-Way n app req)
    where
      of_way :
          {answer : Response x × App p}
          → Way n app req answer
          → IsRefused app answer ⊎ IsStored n app (parsed req) answer
      of_way (refused h) = inl h
      of_way (not_inserted run e built failed_insert h) = inl (_, h)
      of_way (stored h) = inr h

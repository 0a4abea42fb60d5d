-- ===== src/RunsWrite/Answers.antt =====
-- Which answer `create_run` gives to what the database says.
use executorch_bencher.Prelude.{
  ℕ, Bool, true, false, ◌≡◌, refl, sym, ap, subst, ◌∙◌, inl, inr, Option, none, some, Result, ok,
  err, map_err-eq-err,
}
use executorch_bencher.Externals.{Externals}
use executorch_bencher.ApiError.{
  ApiError, plain, run_exists, conflict, invalid_request, internal_error,
}
use executorch_bencher.Runs.Row.{NewRun, Run, RunRow, to_row}
use executorch_bencher.Runs.RoundTrip.{as_run}
use executorch_bencher.Runs.Errors.{is_unique_violation-from_sqlx}
use executorch_bencher.Runs.Table.{runs_check}
use executorch_bencher.Runs.{RunsError, from_sqlx, insert_run}
use executorch_bencher.Runs.Store.{insert_run_lem, insert_run_ok, get_run-insert_run}
use executorch_bencher.RunsWrite.Convert.{CreateRunRequest, to_new_run}
use executorch_bencher.RunsWrite.Handler.{
  Body, parsed, Response, created, failed, Pool, App, insert_failure, read_back, create_run,
}
use executorch_bencher.RunsWrite.Outcome.{IsStored, IsRefused, create_run-cases}
use executorch_bencher.RunsWrite.Validated.{to_new_run-IsValidated}
use executorch_bencher.Sqlx.{
  SqlxError, unique_violation, foreign_key_violation, check_violation, other_error,
}

-- The answer that the kind of a database error calls for.
unfoldable pub answer_to : (x : Externals) → SqlxError → Externals.Uuid x → ApiError
answer_to x (unique_violation s) id = conflict (run_exists (Externals.uuid_to_string x id))
answer_to x (foreign_key_violation s) id =
    invalid_request (plain "a referenced model asset or artifact no longer exists")
answer_to x (check_violation s) id = internal_error (plain "internal error storing run")
answer_to x (other_error s) id = internal_error (plain "internal error storing run")

abbrev pub is_check : SqlxError → Bool
is_check (check_violation s) = true
is_check _ = false

insert_failure_lem :
    (x : Externals) (c : SqlxError) (id : Externals.Uuid x)
    → insert_failure x (from_sqlx c) id ≡ answer_to x c id
unfolding insert_failure answer_to
insert_failure_lem x (unique_violation s) id =
    let (u, f) = is_unique_violation-from_sqlx (unique_violation s) in rw u refl
insert_failure_lem x (foreign_key_violation s) id =
    let (u, f) = is_unique_violation-from_sqlx (foreign_key_violation s) in rw (u, f) refl
insert_failure_lem x (check_violation s) id =
    let (u, f) = is_unique_violation-from_sqlx (check_violation s) in rw (u, f) refl
insert_failure_lem x (other_error s) id =
    let (u, f) = is_unique_violation-from_sqlx (other_error s) in rw (u, f) refl

module _ {x : Externals} (p : Pool x) where
  open p use {runs}
  open runs use {Db, insert_row, select_row, insert_checks, insert_unique}

  not_check :
      (db : Db) (run : NewRun x) (c : SqlxError)
      → runs_check (to_row run) ≡ true
      → (insert_row db (to_row run)).0 ≡ err c
      → is_check c ≡ false
  not_check db run (check_violation s) checked h = cc (insert_checks db (to_row run) s h, checked)
  not_check db run (unique_violation s) checked h = refl
  not_check db run (foreign_key_violation s) checked h = refl
  not_check db run (other_error s) checked h = refl

  -- When the insert of a converted request fails, the guard of `insert_run` and the CHECK
  -- constraints are never the reason, and the handler's answer, which goes by the text of the
  -- error, is the one that the kind of the database's error calls for.
  pub insert_failure-insert_run :
      (n : ℕ) (db : Db) (req : CreateRunRequest x) (run : NewRun x) (e : RunsError)
      → to_new_run x req n ≡ ok run
      → (insert_run runs db run).0 ≡ err e
      → (c : SqlxError) × ((insert_row db (to_row run)).0 ≡ err c)
        × (is_check c ≡ false)
        × (insert_failure x e run.id ≡ answer_to x c run.id)
  insert_failure-insert_run n db req run e built h =
      let valid = to_new_run-IsValidated req n run built in
      let (c, failed_row, same) =
        map_err-eq-err from_sqlx (insert_row db (to_row run)).0
          (rw (insert_run_lem runs db run valid.complete) at h) in
      (
        c,
        failed_row,
        not_check db run c valid.checked failed_row,
        ap (λ f. insert_failure x f run.id) same ∙ insert_failure_lem x c run.id,
      )

  no_second :
      (db : Db) (run : NewRun x) (row : RunRow x)
      → select_row db (Externals.uuid_to_string x run.id) ≡ ok (some row)
      → (insert_run runs db run).0 ≡ ok tt
      → ⊥
  unfolding to_row
  no_second db run row found h =
      let (free, inserted) = insert_run_ok runs db run h in
      let (e, refused) = insert_unique db (to_row run) row found in cc (inserted, refused)

  same_run :
      (n : ℕ) (req req' : CreateRunRequest x) (run run' : NewRun x)
      → to_new_run x req n ≡ ok run
      → to_new_run x req' n ≡ ok run'
      → ◌≡◌ {A = Body x} (parsed req) (parsed req')
      → run' ≡ run
  same_run n req req' run run' h h' e = cc

  -- A request whose run has an ID that is already in the table is refused, and the state, the
  -- stored run included, is left as it was.
  pub create_run-duplicate :
      (n : ℕ) (app : App p) (req : CreateRunRequest x) (run : NewRun x) (row : RunRow x)
      → to_new_run x req n ≡ ok run
      → select_row app.db (Externals.uuid_to_string x run.id) ≡ ok (some row)
      → IsRefused p app (create_run p n app (parsed req))
  create_run-duplicate n app req run row built found =
      elim (create_run-cases p n app (parsed req)) [
        | inl refused ↦ refused
        | inr stored ↦
            let same =
              same_run n req stored.req run stored.run built stored.converted stored.is_parsed in
            absurd (
              no_second app.db run row found
                (subst (λ r. (insert_run runs app.db r).0 ≡ ok tt) same stored.inserted))
      ]

  read_back_created :
      (m : Result RunsError (Option (Run x))) (r : Run x)
      → read_back p m ≡ created r
      → m ≡ ok (some r)
  unfolding read_back
  read_back_created (ok (some r')) r h = cc
  read_back_created (ok none) r h = cc
  read_back_created (err e) r h = cc

  stored_run :
      (n : ℕ) (app : App p) (body : Body x) (answer : Response x × App p) (r : Run x)
      → (h : IsStored p n app body answer) → answer.0 ≡ created r
      → r ≡ as_run h.run
  stored_run n app body answer r h e =
      let valid = to_new_run-IsValidated h.req n h.run h.converted in
      let found = read_back_created _ r (sym h.answered ∙ e) in
      elim (get_run-insert_run runs app.db h.run valid.checked valid.prompt valid.executable
        h.inserted) [ inl (c, broken) ↦ cc (broken, found) | inr again ↦ cc (again, found) ]

  pub create_run-created :
      (n : ℕ) (app : App p) (body : Body x) (r : Run x)
      → (create_run p n app body).0 ≡ created r
      → (h : IsStored p n app body (create_run p n app body)) × (r ≡ as_run h.run)
  create_run-created n app body r e = elim (create_run-cases p n app body) [
    | inl (c, refused) ↦ absurd (go c (create_run p n app body) refused e)
    | inr stored ↦ (stored, stored_run n app body _ r stored e)
  ]
    where
      go : (c : ApiError) (a : Response x × App p) → a ≡ (failed c, app) → a.0 ≡ created r → ⊥
      go c a h e = cc (ap (λ (b : Response x × App p). b.0) h, e)

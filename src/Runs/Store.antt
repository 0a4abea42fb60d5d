-- ===== src/Runs/Store.antt =====
-- `insert_run` and `get_run` over any table that keeps the interface's promises.
use executorch_bencher.Prelude.{
  true, false, ◌≡◌, ◌⊎◌, inl, inr, ap, some, Result, ok, err, map_err, map_err-eq-ok,
  map_err-eq-err, transpose_map, Bool-cases,
}
use executorch_bencher.Externals.{Externals}
use executorch_bencher.Runs.Row.{NewRun, to_row}
use executorch_bencher.Runs.RoundTrip.{IsDigest, IsDigest?, as_run, row_to_run-to_row}
use executorch_bencher.Runs.Table.{RunsTable, runs_check}
use executorch_bencher.Sqlx.{SqlxError}
use executorch_bencher.Runs.{
  RunsError, message, from_sqlx, incomplete_internal, incomplete_message, insert_run, get_run,
}

-- A database failure, as `get_run` and `insert_run` report it.
abbrev pub Failed {ℓ} : {A : Type ℓ} → Result RunsError A → Type ℓ
Failed m = (e : SqlxError) × (m ≡ err (from_sqlx e))

module _ {x : Externals} (t : RunsTable x) where
  open t use {
    Db, insert_row, select_row, insert_atomic, select-insert_self, select-insert_ne, insert_unique,
  }

  -- What `insert_run` does on a run that its guard lets through.
  pub insert_run_lem :
      (db : Db) (r : NewRun x)
      → incomplete_internal r ≡ false
      → insert_run t db r
        ≡ (map_err from_sqlx (insert_row db (to_row r)).0, (insert_row db (to_row r)).1)
  unfolding insert_run
  insert_run_lem db r h = rw h

  refused_lem :
      (db : Db) (r : NewRun x)
      → incomplete_internal r ≡ true
      → insert_run t db r ≡ (err (message incomplete_message), db)
  unfolding insert_run
  refused_lem db r h = rw h

  -- A run that could not be inserted, for whatever reason, leaves the database as it was.
  pub insert_run_err :
      (db : Db) (r : NewRun x) (e : RunsError)
      → (insert_run t db r).0 ≡ err e
      → (insert_run t db r).1 ≡ db
  insert_run_err db r e h = elim (Bool-cases (incomplete_internal r)) [
    | inl refused ↦ ap (λ (p : Result RunsError (Unit {0}) × Db). p.1) (refused_lem db r refused)
    | inr free ↦
        let e' =
          map_err-eq-err from_sqlx (insert_row db (to_row r)).0
            (rw (insert_run_lem db r free) at h) in
        rw (insert_run_lem db r free) (insert_atomic db (to_row r) e'.0 e'.1)
  ]

  -- A run that was inserted had passed the guard, and its row is in the table.
  pub insert_run_ok :
      (db : Db) (r : NewRun x)
      → (insert_run t db r).0 ≡ ok tt
      → (incomplete_internal r ≡ false) × ((insert_row db (to_row r)).0 ≡ ok tt)
  insert_run_ok db r h = elim (Bool-cases (incomplete_internal r)) [
    | inl refused ↦ cc (rw (refused_lem db r refused) at h)
    | inr free ↦ (free, map_err-eq-ok from_sqlx _ (rw (insert_run_lem db r free) at h))
  ]

  get_run-Failed :
      (db : Db) (id : Externals.Uuid x) (e : SqlxError)
      → select_row db (Externals.uuid_to_string x id) ≡ err e
      → Failed (get_run t db id)
  unfolding get_run
  get_run-Failed db id e h = (e, rw h)

  pub get_run_found :
      (db : Db) (r : NewRun x)
      → select_row db (Externals.uuid_to_string x r.id) ≡ ok (some (to_row r))
      → IsDigest r.prompt_sha256
      → IsDigest? r.executable_sha256
      → get_run t db r.id ≡ ok (some (as_run r))
  unfolding get_run
  get_run_found db r h prompt executable =
      rw h (rw (row_to_run-to_row r prompt executable, transpose_map))

  -- A run that was inserted is read back by its ID as it was, or the database fails to read.
  pub get_run-insert_run :
      (db : Db) (r : NewRun x)
      → runs_check (to_row r) ≡ true
      → IsDigest r.prompt_sha256
      → IsDigest? r.executable_sha256
      → (insert_run t db r).0 ≡ ok tt
      → Failed (get_run t (insert_run t db r).1 r.id)
        ⊎ (get_run t (insert_run t db r).1 r.id ≡ ok (some (as_run r)))
  get_run-insert_run db r check prompt executable h =
      let (free, inserted) = insert_run_ok db r h in
      rw (insert_run_lem db r free) (elim (select-insert_self db (to_row r) check inserted) [
        | inl (e, failed) ↦ inl (get_run-Failed _ r.id e (unfold to_row in failed))
        | inr found ↦ inr (get_run_found _ r (unfold to_row in found) prompt executable)
      ])

-- ===== src/Tests/Memory.antt =====
-- A `runs` table in memory that keeps the promises of `RunsTable`.
use executorch_bencher.Prelude.{
  String, true, false, ◌≡◌, ◌≢◌, inl, inr, refl, ap, ◌∙◌, Option, none, some, List, [], ◌∷◌, Result,
  ok, err, arith, Bool-cases, if◌then◌else◌,
}
use executorch_bencher.Prelude.Text.{str_eq, eq_iff, eq_refl}
use executorch_bencher.Externals.{Externals}
use executorch_bencher.Runs.Row.{RunRow}
use executorch_bencher.Runs.Table.{RunsTable, runs_check}
use executorch_bencher.Sqlx.{SqlxError, unique_violation, check_violation}

module _ {x : Externals} where
  abbrev pub find : List (RunRow x) → String → Option (RunRow x)
  find [] id = none
  find (row ∷ rest) id = if str_eq row.id id then some row else find rest id

  abbrev pub put : List (RunRow x) → RunRow x → Result SqlxError (Unit {0}) × List (RunRow x)
  put db row =
      if runs_check row
      then elim (find db row.id) [
        | none ↦ (ok tt, row ∷ db)
        | some other ↦ (err (unique_violation "runs.id"), db)
      ]
      else (err (check_violation "runs"), db)

  -- What `put` does, by whether the row passes the checks and whether its ID is taken.
  put_refused :
      (db : List (RunRow x)) (r : RunRow x)
      → runs_check r ≡ false
      → put db r ≡ (err (check_violation "runs"), db)
  put_refused db r h = rw h

  put_taken :
      (db : List (RunRow x)) (r s : RunRow x)
      → runs_check r ≡ true
      → find db r.id ≡ some s
      → put db r ≡ (err (unique_violation "runs.id"), db)
  put_taken db r s h t = rw (h, t)

  put_fresh :
      (db : List (RunRow x)) (r : RunRow x)
      → runs_check r ≡ true
      → find db r.id ≡ none
      → put db r ≡ (ok tt, r ∷ db)
  put_fresh db r h t = rw (h, t)

  data Put (db : List (RunRow x)) (r : RunRow x) (a : Result SqlxError (Unit {0}) × List (RunRow x))
      : Type 0 where
    refused : runs_check r ≡ false → a ≡ (err (check_violation "runs"), db) → Put db r a
    taken : runs_check r ≡ true → a ≡ (err (unique_violation "runs.id"), db) → Put db r a
    fresh : find db r.id ≡ none → a ≡ (ok tt, r ∷ db) → Put db r a

  put-cases : (db : List (RunRow x)) (r : RunRow x) → Put db r (put db r)
  put-cases db r = elim (Bool-cases (runs_check r)) [
    | inr bad ↦ refused bad (put_refused db r bad)
    | inl good ↦ by_find good (find db r.id) refl
  ]
    where
      by_find :
          runs_check r ≡ true → (m : Option (RunRow x)) → find db r.id ≡ m → Put db r (put db r)
      by_find good (some s) t = taken good (put_taken db r s good t)
      by_find good none t = fresh t (put_fresh db r good t)

  find_self : (db : List (RunRow x)) (r : RunRow x) → find (r ∷ db) r.id ≡ some r
  find_self db r = rw (eq_refl r.id)

  find_ne :
      (db : List (RunRow x)) (r : RunRow x) (id : String)
      → r.id ≢ id
      → find (r ∷ db) id ≡ find db id
  find_ne db r id h = ground (arith, eq_iff r.id id)

  pub atomic :
      (db : List (RunRow x)) (r : RunRow x) (e : SqlxError)
      → (put db r).0 ≡ err e
      → (put db r).1 ≡ db
  atomic db r e h = elim (put-cases db r) [
    | refused b p ↦ cc p
    | taken g p ↦ cc p
    | fresh t p ↦ cc (p, h)
  ]

  pub checks :
      (db : List (RunRow x)) (r : RunRow x) (s : String)
      → (put db r).0 ≡ err (check_violation s)
      → runs_check r ≡ false
  checks db r s h = elim (put-cases db r) [
    | refused b p ↦ b
    | taken g p ↦ cc (p, h)
    | fresh t p ↦ cc (p, h)
  ]

  pub self_found :
      (db : List (RunRow x)) (r : RunRow x) → (put db r).0 ≡ ok tt → find (put db r).1 r.id ≡ some r
  self_found db r h = elim (put-cases db r) [
    | refused b p ↦ cc (p, h)
    | taken g p ↦ cc (p, h)
    | fresh t p ↦
        ap (λ (a : Result SqlxError (Unit {0}) × List (RunRow x)). find a.1 r.id) p ∙ find_self db r
  ]

  pub other_found :
      (db : List (RunRow x)) (r : RunRow x) (id : String)
      → r.id ≢ id
      → find (put db r).1 id ≡ find db id
  other_found db r id h = elim (put-cases db r) [
    | refused b p ↦ cc p
    | taken g p ↦ cc p
    | fresh t p ↦
        ap (λ (a : Result SqlxError (Unit {0}) × List (RunRow x)). find a.1 id) p
        ∙ find_ne db r id h
  ]

  pub no_second :
      (db : List (RunRow x)) (r s : RunRow x)
      → find db r.id ≡ some s
      → (e : SqlxError) × ((put db r).0 ≡ err e)
  no_second db r s h = elim (put-cases db r) [
    | refused b p ↦ (_, ap (λ (a : Result SqlxError (Unit {0}) × List (RunRow x)). a.0) p)
    | taken g p ↦ (_, ap (λ (a : Result SqlxError (Unit {0}) × List (RunRow x)). a.0) p)
    | fresh t p ↦ cc (t, h)
  ]

  abbrev pub memory : RunsTable x
  memory = record {
    Db = List (RunRow x);
    insert_row = put;
    select_row = λ db id. ok (find db id);
    insert_atomic = atomic;
    insert_checks = checks;
    select-insert_self = λ db r good h. inr (ap ok (self_found db r h));
    select-insert_ne = λ db r id a h found. inr (ap ok (other_found db r id h) ∙ found);
    insert_unique = λ db r s h. no_second db r s (cc h);
  }

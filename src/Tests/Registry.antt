-- ===== src/Tests/Registry.antt =====
-- A table of model assets in memory that keeps the promises of `IsModelsTable`, and a model file that
-- is registered and verified.
use executorch_bencher.Prelude.{
  pos, String, Bool, true, false, not, Option, some, none, List, [], ◌∷◌, map, Result, ok, err, ◌≡◌,
  ◌≢◌, refl, if◌then◌else◌,
}
use mathlib.Core.Bool.{and-eq-true_iff}
use executorch_bencher.Prelude.Lists.{All, all}
use executorch_bencher.Prelude.Text.{str_eq, eq_iff}
use executorch_bencher.ArtifactStore.{not_found}
use executorch_bencher.ArtifactStore.Store.{hex_encode, hex_digit, nth_char, as_i64}
use executorch_bencher.Artifacts.Names.{
  file_name, split_path, split_step, last_component, unless_parent,
}
use executorch_bencher.ModelRegistry.{
  ModelAsset, ModelRow, row_to_asset, get_model_asset, find_by_sha256, storage_mode_try_from,
  external,
}
use executorch_bencher.ModelRegistry.Registry.{
  Files, ModelsTable, IsModelsTable, where_id, as_unavailable, with_content, hash_file, hash_loop,
  hash_opened, finish_hash, require, refetch,
}
use executorch_bencher.ModelRegistry.Storage.{
  regular, regular_or, modified_of, original_name, model_row, after_insert, reuse_or_insert,
  register, after_update, rehash_and_reconcile, is_unchanged, verify_file, verify_full_file, verify,
  verify_full,
}
use executorch_bencher.ModelRegistry.Verdicts.{Verdict, QuickVerdict}
use executorch_bencher.ModelRegistry.Verify.{verify_full-Verdict, verify-QuickVerdict}
use executorch_bencher.Sqlx.{SqlxError, unique_violation}
use executorch_bencher.Tests.Disk.{hasher}
use executorch_bencher.Tests.Instance.{toy}

abbrev pub find : (ModelRow toy → Bool) → List (ModelRow toy) → Option (ModelRow toy)
find p [] = none
find p (r ∷ rest) = if p r then some r else find p rest

find-found :
    (p : ModelRow toy → Bool) (l : List (ModelRow toy)) (r : ModelRow toy)
    → find p l ≡ some r
    → (p r ≡ true) × ((P : ModelRow toy → Type 0) → All P l → P r)
find-found p [] r h = cc
find-found p (q ∷ rest) r h = by_test (p q) refl h (find-found p rest r)
  where
    by_test :
        (b : Bool)
        → p q ≡ b
        → (if b then some q else find p rest) ≡ some r
        → (find p rest ≡ some r → (p r ≡ true) × ((P : ModelRow toy → Type 0) → All P rest → P r))
        → (p r ≡ true) × ((P : ModelRow toy → Type 0) → All P (q ∷ rest) → P r)
    by_test true t e later =
        let same : q ≡ r = cc in (rw (← same) t, λ P (here, there). rw (← same) here)
    by_test false t e later =
        let (test, every) = later e in (test, λ P (here, there). every P there)

abbrev pub put_if :
    Bool → ModelRow toy → List (ModelRow toy) → Result SqlxError (Unit {0}) × List (ModelRow toy)
put_if true r s = (ok tt, r ∷ s)
put_if false r s = (err (unique_violation "model_assets.id"), s)

abbrev pub put :
    ModelRow toy → List (ModelRow toy) → Result SqlxError (Unit {0}) × List (ModelRow toy)
put r s = put_if (all (λ q. not (str_eq q.id r.id)) s) r s

put_if-ok :
    (b : Bool) (r : ModelRow toy) (s : List (ModelRow toy))
    → (put_if b r s).0 ≡ ok tt
    → (b ≡ true) × ((put_if b r s).1 ≡ r ∷ s)
put_if-ok true r s h = (refl, refl)
put_if-ok false r s h = cc

put_if-err :
    (b : Bool) (r : ModelRow toy) (s : List (ModelRow toy)) (e : SqlxError)
    → (put_if b r s).0 ≡ err e
    → (put_if b r s).1 ≡ s
put_if-err true r s e h = cc
put_if-err false r s e h = refl

fresh :
    (r : ModelRow toy) (s : List (ModelRow toy))
    → all (λ q. not (str_eq q.id r.id)) s ≡ true
    → All (λ q. q.id ≢ r.id) s
fresh r [] h = tt
fresh r (q ∷ s) h =
    let (here, later) =
      (and-eq-true_iff (not (str_eq q.id r.id)) (all (λ q. not (str_eq q.id r.id)) s)).0 h in
    (λ e. cc (here, (eq_iff q.id r.id).1 e), fresh r s later)

abbrev pub models : ModelsTable toy
models = record {
  Db = List (ModelRow toy);
  select_id = λ s id. ok (find (λ r. str_eq r.id id) s);
  select_sha256 = λ s sha. ok (find (λ r. str_eq r.sha256 sha) s);
  insert_row = put;
  set_unavailable = λ id s. (ok tt, map (where_id id as_unavailable) s);
  update_content = λ sha size modified now id s.
      (ok tt, map (where_id id (with_content sha size modified now)) s);
  rows = λ s. s;
}

pub models-IsModelsTable : IsModelsTable models
models-IsModelsTable = record {
  select_id_lem = λ s id r e.
      let (test, every) = find-found (λ r. str_eq r.id id) s r (cc e) in
      ((eq_iff r.id id).0 test, every);
  select_sha256_lem = λ s sha r e.
      let (test, every) = find-found (λ r. str_eq r.sha256 sha) s r (cc e) in
      ((eq_iff r.sha256 sha).0 test, every);
  insert_row-fresh = λ r s e. fresh r s (put_if-ok _ r s e).0;
  insert_row-ok = λ r s e. (put_if-ok _ r s e).1;
  insert_row-err = λ r e s p. put_if-err _ r s e p;
  set_unavailable-ok = λ id s e. refl;
  update_content-ok = λ sha size modified now id s e. refl;
}

-- One file of three bytes, modified at 7.
abbrev pub files : Files toy
files = record {
  metadata = λ path.
      if str_eq path "/m/a.pte"
      then some (record { is_file = true; len = 3; modified = ok 7 })
      else none;
  open_file = λ path.
      if str_eq path "/m/a.pte" then ok (ok (1 ∷ 2 ∷ 3 ∷ []) ∷ []) else err (not_found path);
}

abbrev asset : ModelAsset toy
asset = record {
  id = "model-1";
  sha256 = "0300000000000000000000000000000000000000000000000000000000000000";
  original_name = "a.pte";
  size_bytes = pos 3;
  model_format = "pte";
  storage_mode = external;
  external_path = some "/m/a.pte";
  relative_path = none;
  file_modified_at = some 7;
  registered_at = 9;
  last_verified_at = some 9;
  available = true;
}

-- The table as `register` leaves it.
abbrev registered : List (ModelRow toy)
registered = (register hasher models files "model-1" 9 "/m/a.pte" []).1

abbrev verified : ModelAsset toy
verified = record asset { last_verified_at = some 20 }

was_verified : (verify_full hasher models files 20 asset registered).0 ≡ ok verified
unfolding register regular_or regular hash_file hash_opened hash_loop finish_hash hex_encode
    hex_digit nth_char modified_of find_by_sha256 reuse_or_insert after_insert refetch require
    get_model_asset row_to_asset storage_mode_try_from model_row original_name file_name split_path
    split_step last_component unless_parent as_i64 verify_full verify_full_file rehash_and_reconcile
    after_update
was_verified = refl

verify_full-Verdict_example :
    (path : String) × (asset.external_path ≡ some path)
    × Verdict hasher models models-IsModelsTable files asset path verified
verify_full-Verdict_example =
    verify_full-Verdict hasher models models-IsModelsTable files 20 asset verified registered
      was_verified

was_unchanged : (verify hasher models files 20 asset registered).0 ≡ ok asset
unfolding verify verify_file regular modified_of is_unchanged as_i64
was_unchanged = refl

verify-QuickVerdict_example :
    (path : String) × (asset.external_path ≡ some path)
    × QuickVerdict hasher models models-IsModelsTable files asset path asset
verify-QuickVerdict_example =
    verify-QuickVerdict hasher models models-IsModelsTable files 20 asset asset registered
      was_unchanged

-- ===== src/RunsWrite/References.antt =====
-- What `check_references` has looked up when it lets a run through.
use executorch_bencher.Prelude.{
  String, ◌≡◌, ap, ◌∙◌, Option, none, some, List, [], ◌∷◌, ok, map_err, ok_or, >>=-eq-ok, >>-eq-ok,
  is_ok-cases, map_err-eq-ok,
}
use executorch_bencher.Externals.{Externals}
use executorch_bencher.ApiError.{plain, no_model_asset, no_artifact, invalid_field, internal_error}
use executorch_bencher.ArtifactStore.{ArtifactRecord, get_artifact_record}
use executorch_bencher.ModelRegistry.{ModelAsset, get_model_asset}
use executorch_bencher.Runs.Row.{NewRun}
use executorch_bencher.Runs.Table.{RunsTable}
use executorch_bencher.RunsWrite.Handler.{Pool, check_artifacts, check_references}

ok_or-eq-ok {ℓ κ} :
    {E : Type κ} {A : Type ℓ} (e : E) (o : Option A) {a : A} → ok_or e o ≡ ok a → o ≡ some a
ok_or-eq-ok e (some b) h = cc
ok_or-eq-ok e none h = cc

module _ {x : Externals} (p : Pool x) where
  open p use {runs, select_model, select_artifact}

  -- There is a record of the artifact, if one is named.
  abbrev pub IsFound : RunsTable.Db runs → Option (Externals.Uuid x) → Type 0
  IsFound db none = Unit
  IsFound db (some id) =
      (r : ArtifactRecord x) × (get_artifact_record x (select_artifact db) id ≡ ok (some r))

  abbrev pub AllFound : RunsTable.Db runs → List (String × Option (Externals.Uuid x)) → Type 0
  AllFound db [] = Unit
  AllFound db ((field, id) ∷ rest) = IsFound db id × AllFound db rest

  check_artifacts-AllFound :
      (db : RunsTable.Db runs) (l : List (String × Option (Externals.Uuid x)))
      → check_artifacts p db l ≡ ok tt
      → AllFound db l
  unfolding check_artifacts
  check_artifacts-AllFound db [] h = tt
  check_artifacts-AllFound db ((field, none) ∷ rest) h = (tt, check_artifacts-AllFound db rest h)
  check_artifacts-AllFound db ((field, some id) ∷ rest) h =
      let (found, looked_up, later) =
        >>=-eq-ok
          (map_err (λ e. internal_error (plain "internal error reading artifact"))
            (get_artifact_record x (select_artifact db) id))
          _ h in
      let (r, is_there, rest_ok) =
        >>=-eq-ok
          (ok_or (invalid_field field (no_artifact field (Externals.uuid_to_string x id))) found) _
          later in
      (
        (r, map_err-eq-ok _ _ looked_up ∙ ap ok (ok_or-eq-ok _ found is_there)),
        check_artifacts-AllFound db rest rest_ok,
      )

  -- The five references to artifacts of a run, in the order in which they are looked up.
  abbrev pub references : NewRun x → List (String × Option (Externals.Uuid x))
  references run =
      ("input_artifact_id", run.input_artifact_id)
      ∷ ("output_artifact_id", run.output_artifact_id)
      ∷ ("stdout_artifact_id", run.stdout_artifact_id)
      ∷ ("stderr_artifact_id", run.stderr_artifact_id)
      ∷ ("crash_artifact_id", run.crash_artifact_id)
      ∷ []

  -- A run that is let through refers to a registered model asset, whose name is passed on, and
  -- every artifact that it names in any of its five references has a record.
  pub check_references-AllFound :
      (db : RunsTable.Db runs) (run : NewRun x) (name : String)
      → check_references p db run ≡ ok name
      → ((asset : ModelAsset x) × (get_model_asset x (select_model db) run.model_asset_id
            ≡ ok (some asset))
          × (asset.original_name ≡ name))
        × AllFound db (references run)
  unfolding check_references
  check_references-AllFound db run name h =
      let (found, looked_up, later) =
        >>=-eq-ok
          (map_err (λ e. internal_error (plain "internal error reading model asset"))
            (get_model_asset x (select_model db) run.model_asset_id))
          _ h in
      let (asset, is_there, rest_ok) =
        >>=-eq-ok
          (ok_or
            (invalid_field "model_asset_id"
              (no_model_asset "model_asset_id" (Externals.uuid_to_string x run.model_asset_id)))
            found)
          _ later in
      let (artifacts_ok, named) = >>-eq-ok (check_artifacts p db (references run)) _ rest_ok in
      let (done, checked) = is_ok-cases (check_artifacts p db (references run)) artifacts_ok in
      (
        (asset, map_err-eq-ok _ _ looked_up ∙ ap ok (ok_or-eq-ok _ found is_there), cc named),
        check_artifacts-AllFound db (references run) checked,
      )

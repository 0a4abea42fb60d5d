-- ===== src/Models/Registering.antt =====
-- `register_model`: what an answer says of the file, and when an event is published.
use executorch_bencher.Prelude.{
  String, Bool, Option, List, Result, ok, err, ◌≡◌, ◌⊎◌, inl, inr, refl,
}
use executorch_bencher.ApiError.{ApiError}
use executorch_bencher.Artifacts.Handlers.{Reply, success, failure}
use executorch_bencher.ArtifactStore.Machine.{Hasher}
use executorch_bencher.Events.{model_registered, publish}
use executorch_bencher.Externals.{Externals}
use executorch_bencher.ModelRegistry.{ModelRegistryError, ModelAsset}
use executorch_bencher.ModelRegistry.Registered.{IsRegistered, register-IsRegistered}
use executorch_bencher.ModelRegistry.Registry.{Files, ModelsTable, IsModelsTable}
use executorch_bencher.ModelRegistry.Storage.{register}
use executorch_bencher.Models.Admission.{IsAdmitted, validate_register_path_lem}
use executorch_bencher.Models.Handlers.{
  ModelAssetResponse, App, from_asset, registry_error_response, after_register, register_path,
  register_model,
}
use executorch_bencher.Models.Paths.{validate_register_path}

module _ {x : Externals} (h : Hasher) (t : ModelsTable x) (L : IsModelsTable t) (files : Files x)
    (canonicalize : String → Option String) (is_file : String → Bool) (roots : List String) where
  -- The path was admitted, the asset has the digest of the file that it resolves to, its one event
  -- was published, and it is the answer.
  pub record IsAccepted (raw : String) (app : App t) (answer : Reply (ModelAssetResponse x) × App t)
      : Type 0 where
    pub path : String
    pub asset : ModelAsset x
    pub admitted : IsAdmitted canonicalize is_file roots raw path
    pub registered : IsRegistered h t L files path asset
    pub announced :
        answer.1.events
        ≡ (publish app.events (
            model_registered (record {
              id = asset.id;
              original_name = asset.original_name;
              sha256 = asset.sha256;
            }))).0
    pub answered : answer.0 ≡ success (from_asset asset)

  -- An error, and no event.
  abbrev pub IsRejected : App t → Reply (ModelAssetResponse x) × App t → Type 0
  IsRejected app answer = (e : ApiError) × (answer.0 ≡ failure e) × (answer.1.events ≡ app.events)

  registered-cases :
      (raw path : String) (app : App t)
      (o : Result ModelRegistryError (ModelAsset x) × ModelsTable.Db t)
      → IsAdmitted canonicalize is_file roots raw path
      → ((a : ModelAsset x) → o.0 ≡ ok a → IsRegistered h t L files path a)
      → IsRejected app (after_register h t files app.events o)
        ⊎ IsAccepted raw app (after_register h t files app.events o)
  unfolding after_register
  registered-cases raw path app (err e, s) admitted k = inl (registry_error_response e, refl, refl)
  registered-cases raw path app (ok asset, s) admitted k = inr (record {
    path = path;
    asset = asset;
    admitted = admitted;
    registered = k asset refl;
    announced = refl;
    answered = refl;
  })

  path-cases :
      (raw : String) (id : Externals.Uuid x) (now : Externals.DateTime x) (app : App t)
      (o : Result ApiError String)
      → validate_register_path canonicalize is_file roots raw ≡ o
      → IsRejected app (register_path h t files id now o app)
        ⊎ IsAccepted raw app (register_path h t files id now o app)
  unfolding register_path
  path-cases raw id now app (err e) p = inl (e, refl, refl)
  path-cases raw id now app (ok path) p =
      registered-cases raw path app (register h t files id now path app.db)
        ((validate_register_path_lem canonicalize is_file roots raw path).0 p)
        (λ a e. register-IsRegistered h t L files id now path a app.db e)

  -- On a table that keeps its promises: a registration is either rejected with an error and without
  -- an event, or its path is absolute, named `.pte`, and resolves to a regular file beneath one of
  -- the roots; the asset has the SHA-256 of what this file holds; one event with its ID, name and
  -- digest was published; and the asset is the answer.
  pub register_model-cases :
      (raw : String) (id : Externals.Uuid x) (now : Externals.DateTime x) (app : App t)
      → IsRejected app (register_model h t files canonicalize is_file roots id now raw app)
        ⊎ IsAccepted raw app (register_model h t files canonicalize is_file roots id now raw app)
  unfolding register_model
  register_model-cases raw id now app = path-cases raw id now app _ refl

-- ===== src/Tests/Admitting.antt =====
-- A model file is registered through the handler.
use executorch_bencher.Prelude.{true, false, some, [], ◌∷◌, ◌≡◌, ◌⊎◌, ◌↔◌, refl, ok}
use executorch_bencher.Artifacts.Names.{split_path, split_step}
use executorch_bencher.Events.{empty_bus}
use executorch_bencher.Models.Admission.{IsAdmitted, validate_register_path_lem}
use executorch_bencher.Models.Handlers.{App, register_model}
use executorch_bencher.Models.Paths.{
  validate_register_path, path_starts_with, components, named, is_prefix,
}
use executorch_bencher.Models.Registering.{IsRejected, IsAccepted, register_model-cases}
use executorch_bencher.Tests.Disk.{hasher}
use executorch_bencher.Tests.Registry.{models, models-IsModelsTable, files}

abbrev app : App models
app = record { db = []; events = empty_bus }

validate_register_path_lem_example :
    (validate_register_path some (λ p. true) ("/m" ∷ []) "/m/a.pte" ≡ ok "/m/a.pte")
    ↔ IsAdmitted some (λ p. true) ("/m" ∷ []) "/m/a.pte" "/m/a.pte"
validate_register_path_lem_example =
    validate_register_path_lem some (λ p. true) ("/m" ∷ []) "/m/a.pte" "/m/a.pte"

register_model-cases_example :
    IsRejected hasher models models-IsModelsTable files some
      (λ p. true)
      ("/m" ∷ [])
      app
      (register_model hasher models files some (λ p. true) ("/m" ∷ []) "model-1" 9 "/m/a.pte" app)
    ⊎ IsAccepted hasher models models-IsModelsTable files some
        (λ p. true)
        ("/m" ∷ [])
        "/m/a.pte"
        app
        (register_model hasher models files some (λ p. true) ("/m" ∷ []) "model-1" 9 "/m/a.pte" app)
register_model-cases_example =
    register_model-cases hasher models models-IsModelsTable files some (λ p. true) ("/m" ∷ [])
      "/m/a.pte" "model-1" 9 app

-- A root confines by whole components.
beside_the_root : path_starts_with "/mx/a.pte" "/m" ≡ false
unfolding path_starts_with components named is_prefix split_path split_step
beside_the_root = refl

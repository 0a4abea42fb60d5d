-- ===== src/Integrity/Searches.antt =====
-- Each of the five searches of the report finds what it is meant to.
use executorch_bencher.Prelude.{
  ℤ, pos, negsuc, zero, suc, is_nonzero, String, Bool, true, false, not, Option, none, some, List,
  [], ◌∷◌, map, Result, ok, >>=-eq-ok, ok_inj, ◌≡◌, refl, ap, sym, ◌∙◌, subst, ◌⊎◌, inl, inr, ◌↔◌,
}
use executorch_bencher.Prelude.Search.{
  any, filter, Any, Any-iff, Any-filter, Any-map, Any-with, any_lem, not_any_lem, sum_iff,
  iff_trans, product_iff,
}
use executorch_bencher.Prelude.Text.{str_eq, eq_iff, path_join}
use executorch_bencher.ArtifactStore.{ArtifactRow}
use executorch_bencher.Externals.{Externals}
use executorch_bencher.Integrity.{
  IntegrityError, invalid_artifact_id, invalid_model_id, Pool, Tree, fetch_all, unreferenced,
  artifact_paths, recorded_artifacts, recorded_models, unavailable, is_id, with_slashes, refers,
  parse_ids, missing_files, find_unreferenced_artifacts, find_artifacts_missing_files,
  is_unavailable, find_unavailable_models, walk_content_addressed_files, is_orphan, with_path,
  relative_paths, find_orphaned_artifact_files, find_orphaned_model_files,
}
use executorch_bencher.Integrity.Found.{
  IsOnDisk, parse_ids-Any, missing_files-parse_ids, walk-IsOnDisk,
}
use executorch_bencher.ModelRegistry.{ModelRow}
use executorch_bencher.Runs.Row.{RunRow}
use executorch_bencher.Sqlx.{SqlxError}

is_id_lem : (id : String) (o : Option String) → (is_id id o ≡ true) ↔ (o ≡ some id)
is_id_lem id none = (λ h. cc, λ h. cc)
is_id_lem id (some t) = let (f, g) = eq_iff t id in (λ h. cc (f h), λ h. g (by_some t h))
  where
    by_some : (t : String) → some t ≡ some id → t ≡ id
    by_some t h = cc

not_lem : (b : Bool) → (not b ≡ true) ↔ (b ≡ false)
not_lem true = (λ h. cc, λ h. cc)
not_lem false = (λ h. refl, λ h. refl)

zero_lem : (z : ℤ) → (not (is_nonzero z) ≡ true) ↔ (z ≡ pos 0)
zero_lem (pos zero) = (λ h. refl, λ h. refl)
zero_lem (pos (suc n)) = (λ h. cc, λ h. cc)
zero_lem (negsuc n) = (λ h. cc, λ h. cc)

fetch_all-ok :
    {A : Type 0} (o : Option SqlxError) (rows fetched : List A)
    → fetch_all o rows ≡ ok fetched
    → rows ≡ fetched
fetch_all-ok none rows fetched h = ok_inj h
fetch_all-ok (some e) rows fetched h = cc

is_orphan_lem :
    (recorded : List String) (path : String)
    → (is_orphan recorded path ≡ true) ↔ (¬ Any (λ p. p ≡ with_slashes path) recorded)
unfolding is_orphan
is_orphan_lem recorded path =
    not_any_lem (λ p. str_eq p (with_slashes path)) (λ p. eq_iff p (with_slashes path)) recorded

-- What is left of the files on disk.
orphans-Any :
    (recorded files : List String) (p : String)
    → Any (λ q. q ≡ p) (filter (is_orphan recorded) files)
      ↔ (Any (λ q. q ≡ p) files × (¬ Any (λ q. q ≡ with_slashes p) recorded))
orphans-Any recorded files p = iff_trans (Any-filter (λ q. q ≡ p) (is_orphan recorded) files) (
    iff_trans (Any-iff (λ q. product_iff (λ h. h, λ h. h) (is_orphan_lem recorded q)) files)
      (Any-with (λ q. ¬ Any (λ r. r ≡ with_slashes q) recorded) p files))

not_iff : {A B : Type 0} → A ↔ B → (¬ A) ↔ (¬ B)
not_iff (f, g) = (λ h b. h (g b), λ h a. h (f a))

-- The second part of every element's property, read otherwise.
reread :
    {A : Type 0} {Q R : A → Type 0} (P : A → Type 0) (l : List A)
    → ((a : A) → Q a ↔ R a)
    → Any (λ a. P a × Q a) l ↔ Any (λ a. P a × R a) l
reread P l k = Any-iff (λ a. product_iff (λ h. h, λ h. h) (k a)) l

-- The orphans, by how the recorded paths are read off the rows.
orphaned-Any :
    (tree : Tree) (root p : String) (files recorded fetched orphans : List String) (R : Type 0)
    → walk_content_addressed_files tree root ≡ ok files
    → recorded ≡ fetched
    → Any (λ q. q ≡ with_slashes p) recorded ↔ R
    → ◌≡◌ {A = Result IntegrityError (List String)}
        (ok (filter (is_orphan fetched) files))
        (ok orphans)
    → Any (λ q. q ≡ p) orphans ↔ (IsOnDisk tree root p × (¬ R))
orphaned-Any tree root p files recorded fetched orphans R w e k h =
    subst (λ l. Any (λ q. q ≡ p) l ↔ (IsOnDisk tree root p × (¬ R)))
      (ap (λ l. filter (is_orphan l) files) e ∙ ok_inj h)
      (iff_trans (orphans-Any recorded files p)
        (product_iff (walk-IsOnDisk tree root p files w) (not_iff k)))

module _ (x : Externals) where
  open x use {Uuid, uuid_parse_str}

  kept_ids-Any :
      {A : Type 0} (invalid : String → IntegrityError) (id : A → String) (q : A → Bool)
      (rows : List A) (texts : List String) (ids : List Uuid) (u : Uuid)
      → map id (filter q rows) ≡ texts
      → parse_ids x invalid texts ≡ ok ids
      → Any (λ v. v ≡ u) ids ↔ Any (λ a. (uuid_parse_str (id a) ≡ some u) × (q a ≡ true)) rows
  kept_ids-Any invalid id q rows texts ids u e h =
      iff_trans
        (parse_ids-Any x invalid (map id (filter q rows)) ids u
          (subst (λ l. parse_ids x invalid l ≡ ok ids) (sym e) h))
        (iff_trans (Any-map (λ t. uuid_parse_str t ≡ some u) id (filter q rows))
          (Any-filter (λ a. uuid_parse_str (id a) ≡ some u) q rows))

module _ {x : Externals} where
  open x use {Uuid, uuid_parse_str}

  -- A run has this artifact in one of its five columns.
  abbrev pub Refers : String → RunRow x → Type 0
  Refers id r =
      Any (λ o. o ≡ some id)
        (r.stdout_artifact_id ∷ r.stderr_artifact_id ∷ r.crash_artifact_id ∷ r.input_artifact_id
          ∷ r.output_artifact_id ∷ [])

  pub unreferenced-Any :
      (pool : Pool x) (ids : List Uuid) (u : Uuid)
      → find_unreferenced_artifacts pool ≡ ok ids
      → Any (λ v. v ≡ u) ids
        ↔ Any
            (λ a.
              (uuid_parse_str (ArtifactRow.id a) ≡ some u)
              × (¬ Any (Refers (ArtifactRow.id a)) pool.runs))
            pool.artifacts
  unfolding find_unreferenced_artifacts refers
  unreferenced-Any pool ids u h =
      let (texts, e, h1) = >>=-eq-ok (fetch_all (pool.fails unreferenced) _) _ h in
      iff_trans
        (kept_ids-Any x invalid_artifact_id ArtifactRow.id
          (λ a. not (any (refers (ArtifactRow.id a)) pool.runs)) pool.artifacts texts ids u
          (fetch_all-ok (pool.fails unreferenced) _ texts e) h1)
        (reread (λ a. uuid_parse_str (ArtifactRow.id a) ≡ some u) pool.artifacts
          (λ a.
            not_any_lem (refers (ArtifactRow.id a))
              (λ r. any_lem (is_id (ArtifactRow.id a)) (is_id_lem (ArtifactRow.id a)) (
                r.stdout_artifact_id ∷ r.stderr_artifact_id ∷ r.crash_artifact_id
                ∷ r.input_artifact_id ∷ r.output_artifact_id ∷ []))
              pool.runs))

  pub missing-Any :
      (tree : Tree) (pool : Pool x) (root : String) (ids : List Uuid) (u : Uuid)
      → find_artifacts_missing_files tree pool root ≡ ok ids
      → Any (λ v. v ≡ u) ids
        ↔ Any
            (λ a.
              (uuid_parse_str (ArtifactRow.id a) ≡ some u)
              × (tree.exists (path_join root (ArtifactRow.storage_path a)) ≡ false))
            pool.artifacts
  unfolding find_artifacts_missing_files
  missing-Any tree pool root ids u h =
      let (rows, e, h1) = >>=-eq-ok (fetch_all (pool.fails artifact_paths) pool.artifacts) _ h in
      let all_rows = fetch_all-ok (pool.fails artifact_paths) pool.artifacts rows e in
      let h2 : missing_files x tree root pool.artifacts ≡ ok ids =
        subst (λ l. missing_files x tree root l ≡ ok ids) (sym all_rows) h1 in
      iff_trans
        (kept_ids-Any x invalid_artifact_id ArtifactRow.id
          (λ a. not (tree.exists (path_join root (ArtifactRow.storage_path a)))) pool.artifacts _
          ids u refl (sym (missing_files-parse_ids x tree root pool.artifacts) ∙ h2))
        (reread (λ a. uuid_parse_str (ArtifactRow.id a) ≡ some u) pool.artifacts
          (λ a. not_lem (tree.exists (path_join root (ArtifactRow.storage_path a)))))

  pub unavailable-Any :
      (pool : Pool x) (ids : List Uuid) (u : Uuid)
      → find_unavailable_models pool ≡ ok ids
      → Any (λ v. v ≡ u) ids
        ↔ Any
            (λ m. (uuid_parse_str (ModelRow.id m) ≡ some u) × (ModelRow.available m ≡ pos 0))
            pool.models
  unfolding find_unavailable_models is_unavailable
  unavailable-Any pool ids u h =
      let (texts, e, h1) = >>=-eq-ok (fetch_all (pool.fails unavailable) _) _ h in
      iff_trans
        (kept_ids-Any x invalid_model_id ModelRow.id is_unavailable pool.models texts ids u
          (fetch_all-ok (pool.fails unavailable) _ texts e) h1)
        (reread (λ m. uuid_parse_str (ModelRow.id m) ≡ some u) pool.models
          (λ m. zero_lem (ModelRow.available m)))

  pub orphaned_artifacts-Any :
      (tree : Tree) (pool : Pool x) (root p : String) (orphans : List String)
      → find_orphaned_artifact_files tree pool root ≡ ok orphans
      → Any (λ q. q ≡ p) orphans ↔ (
          IsOnDisk tree root p
          × (¬ Any (λ a. ArtifactRow.storage_path a ≡ with_slashes p) pool.artifacts))
  unfolding find_orphaned_artifact_files
  orphaned_artifacts-Any tree pool root p orphans h =
      let (files, w, h1) = >>=-eq-ok (walk_content_addressed_files tree root) _ h in
      let (recorded, e, h2) = >>=-eq-ok (fetch_all (pool.fails recorded_artifacts) _) _ h1 in
      orphaned-Any tree root p files _ recorded orphans _ w
        (fetch_all-ok (pool.fails recorded_artifacts) _ recorded e)
        (Any-map (λ q. q ≡ with_slashes p) ArtifactRow.storage_path pool.artifacts) h2

  relative_paths-Any :
      (q : String) (models : List (ModelRow x))
      → Any (λ r. r ≡ q) (relative_paths models)
        ↔ Any (λ m. ModelRow.relative_path m ≡ some q) models
  unfolding relative_paths
  relative_paths-Any q [] = (λ h. h, λ h. h)
  relative_paths-Any q (m ∷ rest) = by_path m.relative_path (relative_paths-Any q rest)
    where
      by_path :
          {R : Type 0} (o : Option String)
          → Any (λ r. r ≡ q) (relative_paths rest) ↔ R
          → Any (λ r. r ≡ q) (with_path o (relative_paths rest)) ↔ ((o ≡ some q) ⊎ R)
      by_path none k = iff_trans k (λ r. inr r, λ d. elim d [ inl e ↦ cc | inr r ↦ r ])
      by_path (some path) k = sum_iff (λ e. cc, λ e. cc) k

  pub orphaned_models-Any :
      (tree : Tree) (pool : Pool x) (root p : String) (orphans : List String)
      → find_orphaned_model_files tree pool root ≡ ok orphans
      → Any (λ q. q ≡ p) orphans ↔ (
          IsOnDisk tree root p
          × (¬ Any (λ m. ModelRow.relative_path m ≡ some (with_slashes p)) pool.models))
  unfolding find_orphaned_model_files
  orphaned_models-Any tree pool root p orphans h =
      let (files, w, h1) = >>=-eq-ok (walk_content_addressed_files tree root) _ h in
      let (recorded, e, h2) = >>=-eq-ok (fetch_all (pool.fails recorded_models) _) _ h1 in
      orphaned-Any tree root p files _ recorded orphans _ w
        (fetch_all-ok (pool.fails recorded_models) _ recorded e)
        (relative_paths-Any (with_slashes p) pool.models) h2

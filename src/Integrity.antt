-- ===== src/Integrity.antt =====
-- src/integrity.rs: the report on the storage. The tables and the directories are given as what
-- the queries and the file system read; each query may fail.
pub mod Found
pub mod Searches
pub mod Report
pub mod Stored
use executorch_bencher.Prelude.{
  String, Bool, true, false, not, ◌&&◌, ◌||◌, Option, none, some, List, [], ◌∷◌, ◌++◌, map, ◌==◌,
  is_nonzero, Result, ok, err, ◌>>=◌, ok_or, map_err, if◌then◌else◌,
}
use Prim.Native.Char.{code}
use executorch_bencher.Prelude.Search.{any, filter}
use executorch_bencher.Prelude.Text.{str_eq, path_join}
use executorch_bencher.ArtifactStore.{IoError, not_found, ArtifactRow}
use executorch_bencher.Externals.{Externals}
use executorch_bencher.ModelRegistry.{ModelRow}
use executorch_bencher.Runs.Row.{RunRow}
use executorch_bencher.Sqlx.{SqlxError}

pub data IntegrityError : Type 0 where
  database_error : SqlxError → IntegrityError
  filesystem_error : IoError → IntegrityError
  invalid_artifact_id invalid_model_id : String → IntegrityError

pub record IntegrityReport (x : Externals) : Type 0 where
  pub unreferenced_artifacts : List (Externals.Uuid x)
  pub artifacts_missing_files : List (Externals.Uuid x)
  pub orphaned_artifact_files : List String
  pub orphaned_model_files : List String
  pub unavailable_models : List (Externals.Uuid x)

abbrev pub is_nil {ℓ} : {A : Type ℓ} → List A → Bool
is_nil [] = true
is_nil (a ∷ rest) = false

unfoldable pub is_clean : {x : Externals} → IntegrityReport x → Bool
is_clean r =
    is_nil r.unreferenced_artifacts
    && is_nil r.artifacts_missing_files
    && is_nil r.orphaned_artifact_files
    && is_nil r.orphaned_model_files
    && is_nil r.unavailable_models

-- The queries of the report.
pub data Query : Type 0 where
  unreferenced artifact_paths recorded_artifacts recorded_models unavailable : Query

-- The three tables, and which queries the database fails.
pub record Pool (x : Externals) : Type 0 where
  pub artifacts : List ArtifactRow
  pub runs : List (RunRow x)
  pub models : List (ModelRow x)
  pub fails : Query → Option SqlxError

-- A directory entry; its type is a directory, a file, or another one.
pub data FileType : Type 0 where
  directory file other : FileType

pub record DirEntry : Type 0 where
  pub file_name : String
  pub file_type : Result IoError FileType

-- `metadata(path).is_ok()`, and `read_dir` with what `next_entry` answers until it ends.
pub record Tree : Type 0 where
  pub exists : String → Bool
  pub read_dir : String → Result IoError (List (Result IoError DirEntry))

abbrev pub fetch_all {ℓ} : {A : Type ℓ} → Option SqlxError → List A → Result IntegrityError (List A)
fetch_all none rows = ok rows
fetch_all (some e) rows = err (database_error e)

-- `column = id` in SQL
abbrev pub is_id : String → Option String → Bool
is_id id none = false
is_id id (some stored) = str_eq stored id

-- `path.to_string_lossy().replace('\\', "/")`
unfoldable pub with_slashes : String → String
with_slashes String.[] = ""
with_slashes (String.◌∷◌ c s) =
    let rest = with_slashes s in if code c == 92 then String.◌∷◌ "/" rest else String.◌∷◌ c rest

module _ (x : Externals) where
  open x use {Uuid, uuid_parse_str}

  unfoldable pub parse_ids :
      (String → IntegrityError) → List String → Result IntegrityError (List Uuid)
  parse_ids invalid [] = ok []
  parse_ids invalid (text ∷ rest) = do
    id ← ok_or (invalid text) (uuid_parse_str text)
    ids ← parse_ids invalid rest
    ok (id ∷ ids)

  -- The loop over the rows.
  unfoldable pub missing_files :
      Tree → String → List ArtifactRow → Result IntegrityError (List Uuid)
  missing_files tree root [] = ok []
  missing_files tree root (row ∷ rest) =
      let later = missing_files tree root rest in
      if not (tree.exists (path_join root row.storage_path))
      then (do
        id ← ok_or (invalid_artifact_id row.id) (uuid_parse_str row.id)
        ids ← later
        ok (id ∷ ids))
      else later

module _ {x : Externals} where
  -- The five columns that may hold an artifact's ID.
  unfoldable pub refers : String → RunRow x → Bool
  refers id r = any (is_id id) (
      r.stdout_artifact_id ∷ r.stderr_artifact_id ∷ r.crash_artifact_id ∷ r.input_artifact_id
      ∷ r.output_artifact_id ∷ [])

  -- `SELECT a.id FROM artifacts a WHERE NOT EXISTS (SELECT 1 FROM runs r WHERE ..)`
  unfoldable pub find_unreferenced_artifacts :
      Pool x → Result IntegrityError (List (Externals.Uuid x))
  unfolding refers parse_ids
  find_unreferenced_artifacts pool = do
    rows ←
        fetch_all (pool.fails unreferenced)
          (map ArtifactRow.id (filter (λ a. not (any (refers a.id) pool.runs)) pool.artifacts))
    parse_ids x invalid_artifact_id rows

  unfoldable pub find_artifacts_missing_files :
      Tree → Pool x → String → Result IntegrityError (List (Externals.Uuid x))
  unfolding missing_files
  find_artifacts_missing_files tree pool artifact_root = do
    rows ← fetch_all (pool.fails artifact_paths) pool.artifacts
    missing_files x tree artifact_root rows

  unfoldable pub is_unavailable : ModelRow x → Bool
  is_unavailable m = not (is_nonzero m.available)

  unfoldable pub find_unavailable_models : Pool x → Result IntegrityError (List (Externals.Uuid x))
  unfolding is_unavailable parse_ids
  find_unavailable_models pool = do
    rows ← fetch_all (pool.fails unavailable) (map ModelRow.id (filter is_unavailable pool.models))
    parse_ids x invalid_model_id rows

-- `if file_type.is_file() { found.push(..) }`
unfoldable pub with_file : FileType → String → List String → List String
with_file file path later = path ∷ later
with_file directory path later = later
with_file other path later = later

-- The inner loop: the files of one prefix.
unfoldable pub walk_files :
    String → List (Result IoError DirEntry) → Result IntegrityError (List String)
unfolding with_file
walk_files prefix [] = ok []
walk_files prefix (answer ∷ rest) = do
  entry ← map_err filesystem_error answer
  kind ← map_err filesystem_error entry.file_type
  later ← walk_files prefix rest
  ok (with_file kind (path_join (path_join "sha256" prefix) entry.file_name) later)

unfoldable pub walk_prefix : Tree → String → String → FileType → Result IntegrityError (List String)
unfolding walk_files
walk_prefix tree sha256_dir prefix directory = do
  entries ← map_err filesystem_error (tree.read_dir (path_join sha256_dir prefix))
  walk_files prefix entries
walk_prefix tree sha256_dir prefix file = ok []
walk_prefix tree sha256_dir prefix other = ok []

-- The outer loop: the prefixes.
unfoldable pub walk_prefixes :
    Tree → String → List (Result IoError DirEntry) → Result IntegrityError (List String)
unfolding walk_prefix
walk_prefixes tree sha256_dir [] = ok []
walk_prefixes tree sha256_dir (answer ∷ rest) = do
  entry ← map_err filesystem_error answer
  kind ← map_err filesystem_error entry.file_type
  here ← walk_prefix tree sha256_dir entry.file_name kind
  later ← walk_prefixes tree sha256_dir rest
  ok (here ++ later)

unfoldable pub walk_opened :
    Tree
    → String
    → Result IoError (List (Result IoError DirEntry))
    → Result IntegrityError (List String)
unfolding walk_prefixes
walk_opened tree sha256_dir (ok entries) = walk_prefixes tree sha256_dir entries
walk_opened tree sha256_dir (err (not_found e)) = ok []
walk_opened tree sha256_dir (err e) = err (filesystem_error e)

unfoldable pub walk_content_addressed_files : Tree → String → Result IntegrityError (List String)
unfolding walk_opened
walk_content_addressed_files tree root =
    walk_opened tree (path_join root "sha256") (tree.read_dir (path_join root "sha256"))

unfoldable pub with_path : Option String → List String → List String
with_path none rest = rest
with_path (some path) rest = path ∷ rest

-- `!recorded.contains(..)`
unfoldable pub is_orphan : List String → String → Bool
unfolding with_slashes
is_orphan recorded path = not (any (λ p. str_eq p (with_slashes path)) recorded)

module _ {x : Externals} where
  unfoldable pub find_orphaned_artifact_files :
      Tree → Pool x → String → Result IntegrityError (List String)
  unfolding walk_content_addressed_files is_orphan
  find_orphaned_artifact_files tree pool artifact_root = do
    on_disk ← walk_content_addressed_files tree artifact_root
    recorded ←
        fetch_all (pool.fails recorded_artifacts) (map ArtifactRow.storage_path pool.artifacts)
    ok (filter (is_orphan recorded) on_disk)

  -- The paths that are not NULL.
  unfoldable pub relative_paths : List (ModelRow x) → List String
  unfolding with_path
  relative_paths [] = []
  relative_paths (m ∷ rest) = with_path m.relative_path (relative_paths rest)

  unfoldable pub find_orphaned_model_files :
      Tree → Pool x → String → Result IntegrityError (List String)
  unfolding walk_content_addressed_files is_orphan relative_paths
  find_orphaned_model_files tree pool model_root = do
    on_disk ← walk_content_addressed_files tree model_root
    recorded ← fetch_all (pool.fails recorded_models) (relative_paths pool.models)
    ok (filter (is_orphan recorded) on_disk)

  unfoldable pub check :
      Tree
      → Pool x
      → (artifact_root model_root : String) → Result IntegrityError (IntegrityReport x)
  unfolding find_unreferenced_artifacts find_artifacts_missing_files find_orphaned_artifact_files
      find_orphaned_model_files find_unavailable_models
  check tree pool artifact_root model_root = do
    unreferenced_artifacts ← find_unreferenced_artifacts pool
    artifacts_missing_files ← find_artifacts_missing_files tree pool artifact_root
    orphaned_artifact_files ← find_orphaned_artifact_files tree pool artifact_root
    orphaned_model_files ← find_orphaned_model_files tree pool model_root
    unavailable_models ← find_unavailable_models pool
    ok (record {
      unreferenced_artifacts = unreferenced_artifacts;
      artifacts_missing_files = artifacts_missing_files;
      orphaned_artifact_files = orphaned_artifact_files;
      orphaned_model_files = orphaned_model_files;
      unavailable_models = unavailable_models;
    })

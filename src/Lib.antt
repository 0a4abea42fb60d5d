-- ===== src/Lib.antt =====
-- Benchmark runs of on-device language models: the backend that validates, stores, announces and
-- reports them.
--
-- A collector posts a run to the HTTP service. The request is checked field by field (the host
-- snapshot by the rules of its platform and device class), its references to model assets and
-- artifacts are looked up, the run becomes a row of an SQLite table, an event is published to the
-- subscribers, and the row is read back for the answer. Files and modules:
--
--   Prelude, Prelude.Tests/Lists/Search/Int/Text/Action   shared types, Boolean tests, results,
--                  texts, lemmas
--   Externals      the crates' and the machine's operations (uuid, chrono, serde_json, f64), with
--                  the laws that the program relies on
--   Sqlx           the errors of the database driver
--   Domain         src/domain.rs: enumerations, digests, JSON columns; Domain.Names and
--                  Domain.Digest prove the round trips and the digest check
--   Host           src/runs.rs, the host snapshot; Host.Columns its columns in the `runs` table,
--                  both ways, with the CHECK constraints of the last migration
--   HostRules      src/host_rules.rs: `host_state`; HostRules.Accepts what it accepts
--   Runs           src/runs.rs: Runs.Row the run, its row and `row_to_run`; Runs.Table the
--                  constraints and the interface of the database; Runs `insert_run`, `get_run` and
--                  the error type; Runs.Pages `list_runs`; Runs.Cursor the token of a cursor;
--                  Runs.Filter the clauses of a filter; Filtered, Errors, RoundTrip, Store, Paging
--                  and Walk the proofs
--   RunsWrite      src/runs_write_api.rs: RunsWrite.Convert `to_new_run`; RunsWrite.Handler
--                  `create_run` and `check_references`; the other children the proofs
--   Events         src/events.rs and the stream of src/events_api.rs
--   ApiError       src/api_error.rs
--   ArtifactKind, ArtifactStore   src/artifact_store.rs: kinds, compression, records;
--                  ArtifactStore.Machine the interface of hash, files and table; ArtifactStore.Store
--                  `store_artifact`; ArtifactStore.Maintenance reading and cleaning up; Paths, Copy,
--                  Keeps, Stored, Recorded, Ingest and Cleanup the proofs
--   Artifacts      src/artifacts_api.rs: Artifacts.Limits the limited reader, Artifacts.Names the
--                  header of a download, Artifacts.Handlers the handlers; Headers, Encoding and
--                  Uploads the proofs
--   ModelRegistry  src/model_registry.rs: model assets and how they are read; ModelRegistry.Registry
--                  the interface of files and table; ModelRegistry.Storage `register`, `verify` and
--                  `verify_full`; Read, Verified, Verdicts, Verify and Registered the proofs
--   Models         src/models_api.rs: Models.Paths the check of a path, Models.Handlers the handlers;
--                  Admission and Registering the proofs
--   ImportLog      src/bin/import_observer_log.rs: ImportLog.Parse the parser of a log,
--                  ImportLog.Manifest what the manifest says of a record, ImportLog.Import models and
--                  skipped records, ImportLog.Loop the loop; Markers, Again,
--                  Inserts and Counted the proofs
--   Config         src/config.rs: Config.Vars the readers of variables, Config.Env
--                  `Config::from_env`, Config.Roots the storage roots; Values and
--                  Loaded the proofs
--   RunsApi        src/runs_api.rs: RunsApi.Params the query parameters, RunsApi.List the list,
--                  RunsApi.Detail one run; Parsed, Follow, Shown and Echo the proofs
--   Integrity      src/integrity.rs: the searches of the report and `check`; Found, Searches, Report
--                  and Stored the proofs
--   Results        src/results.rs: Results.Stats `MetricStats::from_samples`, Results.Fold the fold
--                  over the selected rows, Results.Page the rows, their order and the limit;
--                  Results.Sorting a stable sort; Summary, Counts, Groups, Complete the proofs
--   Tests          concrete inputs, a table in memory, and the theorems applied to them
--
-- Conventions. `i64` is the integers: the program compares and copies them, and computes only
-- `rep - 1` in the importer, which is off at the least `i64` alone. The casts of sizes from `u64`
-- to `i64` have their wrap-around written out, and so has the event counter, a `u64`. A `format!`
-- text is a constructor with its arguments where nothing inspects it, and the text itself where
-- something does (`RunsError`, whose kind is read off its prefix). A column is read at its
-- declared type, so `try_get` never fails on a type. A query is a parameter of the code that
-- makes it; the table interface of Runs.Table states what SQLite documents: an INSERT is atomic,
-- reports a CHECK only if one fails, keeps other rows, and refuses a second row with the ID.
-- The listing interface of Runs.Pages has the rows of one filter, newest first, and says that an
-- answer holds the first of those below the cursor. Only `walk` and
-- `follow`, clients that follow cursors, run on fuel, one request more than there are runs, which
-- their theorems show to be enough.
--
-- Not modelled: the HTTP router, extractors and OpenAPI texts, process start, the dashboard, the
-- parameters, WHERE clauses and facets of the grouped
-- results, and of the importer the part that reads the manifest and the text of the JSON that it
-- stores with a run.
pub mod ApiError
pub mod ArtifactKind
pub mod ArtifactStore
pub mod Artifacts
pub mod Config
pub mod Domain
pub mod Events
pub mod Externals
pub mod Host
pub mod HostRules
pub mod ImportLog
pub mod Integrity
pub mod ModelRegistry
pub mod Models
pub mod Prelude
pub mod Results
pub mod Runs
pub mod RunsApi
pub mod RunsWrite
pub mod Sqlx
pub mod Tests

-- ===== src/ArtifactStore/Machine.antt =====
-- What `store_artifact` and its neighbours ask of the machine: SHA-256, the file system through
-- `tokio::fs`, the Zstandard coder, and the `artifacts` table. `IsMachine` says what they document.
use executorch_bencher.Prelude.{
  ℕ, ◌<◌, ℤ, String, Bool, true, ◌≡◌, ◌≢◌, Option, some, List, [], ◌∷◌, ◌++◌, Result, ok, err,
}
use mathlib.Core.List.{Mem}
use executorch_bencher.Prelude.Lists.{length, All}
use executorch_bencher.Prelude.Action.{Action}
use executorch_bencher.ArtifactKind.{Compression}
use executorch_bencher.ArtifactStore.{IoError, ArtifactRow}
use executorch_bencher.Sqlx.{SqlxError}

-- Bytes are the numbers below 256.
abbrev pub Bytes : Type 0
Bytes = List ℕ

-- `sha2::Sha256`
pub record Hasher : Type 1 where
  pub Sha256 : Type 0
  pub new : Sha256
  pub update : Sha256 → Bytes → Sha256
  pub finalize : Sha256 → Bytes
  -- Feeding two slices is feeding their concatenation, and a digest has 32 bytes.
  pub update_nil : (h : Sha256) → update h [] ≡ h
  pub update_append : (h : Sha256) (a b : Bytes) → update (update h a) b ≡ update h (a ++ b)
  pub finalize-length : (h : Sha256) → length (finalize h) ≡ 32
  pub finalize-All : (h : Sha256) → All (λ b. b < 256) (finalize h)

-- The state is the files, the open handles and the database. A path is its text.
pub record Machine : Type 1 where
  pub State : Type 0
  -- `create_dir_all`, `File::create`, `remove_file` and `rename`, with the text of an I/O error
  pub create_dir_all : String → Action IoError State (Unit {0})
  pub create : String → Action IoError State (Unit {0})
  pub remove_file : String → Action IoError State (Unit {0})
  pub rename : String → String → Action IoError State (Unit {0})
  -- `write_all` and `shutdown` on the file created at a path, as it is or behind a `ZstdEncoder`
  pub write_all : Compression → String → Bytes → Action IoError State (Unit {0})
  pub shutdown : Compression → String → Action IoError State (Unit {0})
  -- `metadata(path).is_ok()`
  pub exists : State → String → Bool
  -- what a reader gets of the file at a path, as it is or through a `ZstdDecoder`
  pub content : State → Compression → String → Option Bytes
  -- `INSERT INTO artifacts`, and the answer to the lookup by digest and size
  pub insert_row : ArtifactRow → Action SqlxError State (Unit {0})
  pub select_id : String → ℤ → State → Result SqlxError (Option String)
  -- the rows that the table has
  pub rows : State → List ArtifactRow

module _ (m : Machine) where
  open m use {State, exists, rows}

  -- Two states agree on the table, and a file that was there, other than at `path`, still is.
  pub record Spares (path : String) (s t : State) : Type 0 where
    pub same_rows : rows t ≡ rows s
    pub kept : (q : String) → q ≢ path → exists s q ≡ true → exists t q ≡ true

pub record IsMachine (m : Machine) : Type 1 where
  -- A file operation, whether it fails or not, keeps the other files.
  pub create_dir_all-Spares :
      (p q : String) (s : Machine.State m) → Spares m q s (m.create_dir_all p s).1
  pub create-Spares : (p : String) (s : Machine.State m) → Spares m p s (m.create p s).1
  pub remove_file-Spares : (p : String) (s : Machine.State m) → Spares m p s (m.remove_file p s).1
  pub rename-Spares : (p q : String) (s : Machine.State m) → Spares m p s (m.rename p q s).1
  pub write_all-Spares :
      (c : Compression) (p : String) (b : Bytes) (s : Machine.State m)
      → Spares m p s (m.write_all c p b s).1
  pub shutdown-Spares :
      (c : Compression) (p : String) (s : Machine.State m) → Spares m p s (m.shutdown c p s).1
  -- What the file created at a path has taken so far. After `shutdown` a reader gets just that.
  pub Taken : Machine.State m → Compression → String → Bytes → Type 0
  pub create-Taken :
      (c : Compression) (p : String) (s : Machine.State m)
      → (m.create p s).0 ≡ ok tt
      → Taken (m.create p s).1 c p []
  pub write_all-Taken :
      (c : Compression) (p : String) (a b : Bytes) (s : Machine.State m)
      → Taken s c p a
      → (m.write_all c p b s).0 ≡ ok tt
      → Taken (m.write_all c p b s).1 c p (a ++ b)
  pub content-shutdown :
      (c : Compression) (p : String) (b : Bytes) (s : Machine.State m)
      → Taken s c p b
      → (m.shutdown c p s).0 ≡ ok tt
      → m.content (m.shutdown c p s).1 c p ≡ some b
  pub content-create_dir_all :
      (c : Compression) (p q : String) (b : Bytes) (s : Machine.State m)
      → m.content s c p ≡ some b
      → m.content (m.create_dir_all q s).1 c p ≡ some b
  -- A file that was renamed is at its new place with what it held.
  pub content-rename :
      (c : Compression) (p q : String) (b : Bytes) (s : Machine.State m)
      → m.content s c p ≡ some b
      → (m.rename p q s).0 ≡ ok tt
      → m.content (m.rename p q s).1 c q ≡ some b
  pub exists-rename :
      (p q : String) (s : Machine.State m)
      → (m.rename p q s).0 ≡ ok tt
      → m.exists (m.rename p q s).1 q ≡ true
  -- An INSERT adds its row, or changes nothing, and touches no file.
  pub insert_row-ok :
      (r : ArtifactRow) (s : Machine.State m)
      → (m.insert_row r s).0 ≡ ok tt
      → m.rows (m.insert_row r s).1 ≡ r ∷ m.rows s
  pub insert_row-err :
      (r : ArtifactRow) (e : SqlxError) (s : Machine.State m)
      → (m.insert_row r s).0 ≡ err e
      → m.rows (m.insert_row r s).1 ≡ m.rows s
  pub exists-insert_row :
      (r : ArtifactRow) (q : String) (s : Machine.State m)
      → m.exists (m.insert_row r s).1 q ≡ m.exists s q
  pub content-insert_row :
      (r : ArtifactRow) (c : Compression) (q : String) (s : Machine.State m)
      → m.content (m.insert_row r s).1 c q ≡ m.content s c q
  -- The lookup answers the ID of a row with the digest and the size.
  pub select_id_lem :
      (h id : String) (n : ℤ) (s : Machine.State m)
      → m.select_id h n s ≡ ok (some id)
      → (r : ArtifactRow) × (Mem r (m.rows s)) × (r.id ≡ id) × (r.sha256 ≡ h) × (r.size_bytes ≡ n)

-- ===== src/ArtifactStore/Ingest.antt =====
-- `store_artifact` as a whole: what it leaves behind when it succeeds and when it fails.
use text.Mathlib.Text.{starts_with}
use mathlib.Core.List.{Mem, mem-cons_self}
use executorch_bencher.Prelude.{
  ℕ, ◌%◌, ◌^◌, String, Bool, Option, none, some, List, [], ◌≡◌, refl, ◌∙◌, sym, ap, true, false,
  Result, ok, err, subst, if◌then◌else◌, ok_or,
}
use executorch_bencher.Prelude.Lists.{length}
use executorch_bencher.Prelude.Text.{path_join}
use executorch_bencher.Prelude.Action.{
  Outcome, Leads, Leads-bind, Leads-pure, Leads-attempt, Leads-or_err, Leads-of_cases, Leads-weaken,
  Leads-ok, Leads-either, or_err, attempt, ◌>>=◌,
}
use executorch_bencher.Domain.{is_sha256}
use executorch_bencher.Externals.{Externals}
use executorch_bencher.Sqlx.{SqlxError, is_unique}
use executorch_bencher.ArtifactKind.{ArtifactKind, Compression, compression_as_str}
use executorch_bencher.ArtifactStore.{
  IoError, ArtifactStoreError, ArtifactRow, io, db, no_matching_row,
}
use executorch_bencher.ArtifactStore.Copy.{bytes_read, sha256_of}
use executorch_bencher.ArtifactStore.Keeps.{Landed, IsConsistent, IsConsistent-Spares}
use executorch_bencher.ArtifactStore.Stored.{land-Landed, copied-Consistent}
use executorch_bencher.ArtifactStore.Recorded.{
  HasRow, HasRow-find_existing, Landed-ok, Landed-err, reread-Recorded, Recorded,
}
use executorch_bencher.ArtifactStore.Machine.{Bytes, Hasher, Machine, Spares, IsMachine}
use executorch_bencher.ArtifactStore.Paths.{is_sha256-finalize}
use executorch_bencher.ArtifactStore.Store.{
  StoredArtifact, relative_path_for, relative_dir_for, find_or_insert, after_insert, find_existing,
  store_artifact, store_copied, stored_compression, new_row, as_i64,
}

module _ (x : Externals) (h : Hasher) (m : Machine) (L : IsMachine m) (artifact_root : String) where
  open x use {Uuid, uuid_to_string, uuid_parse_str, uuid_parse_str-to_string}
  open m use {State, exists, rows, insert_row, create, create_dir_all}

  module _ (row : ArtifactRow) (id : Uuid) (digest : is_sha256 row.sha256 ≡ true)
      (path : row.storage_path ≡ relative_path_for row.sha256)
      (named : row.id ≡ uuid_to_string id) where
    abbrev After : Result ArtifactStoreError Uuid × State → Type 0
    After =
        Outcome (Recorded x h m L artifact_root row.sha256 row.size_bytes)
          (IsConsistent m artifact_root)

    -- A failed INSERT, by whether it was a unique violation.
    failed-Recorded :
        (e : SqlxError) (s : State) (b : Bool)
        → Landed m artifact_root row.sha256 s
        → After (
            if b
            then (do
              existing ← attempt (find_existing x h m row.sha256 row.size_bytes)
              attempt (λ t. ok_or no_matching_row existing))
                s
            else (err (db e), s))
    failed-Recorded e s true l =
        (reread-Recorded x h m L artifact_root row.sha256 row.size_bytes).from s l
    failed-Recorded e s false l = l.0

    inserted-Recorded :
        (o : Result SqlxError (Unit {0}) × State)
        → (o.0 ≡ ok tt → Recorded x h m L artifact_root row.sha256 row.size_bytes id o.1)
        → ((e : SqlxError) → o.0 ≡ err e → Landed m artifact_root row.sha256 o.1)
        → After (after_insert x h m row.sha256 row.size_bytes id o)
    unfolding after_insert
    inserted-Recorded (ok u, s) k l = k refl
    inserted-Recorded (err e, s) k l = failed-Recorded e s (is_unique e) (l e refl)

    new_row-Recorded :
        (s : State)
        → (insert_row row s).0 ≡ ok tt
        → Landed m artifact_root row.sha256 s
        → Recorded x h m L artifact_root row.sha256 row.size_bytes id (insert_row row s).1
    new_row-Recorded s p l = (
      Landed-ok x h m L artifact_root row s digest path p l,
      record {
        row = row;
        is_there = subst (Mem row) (sym (L.insert_row-ok row s p)) mem-cons_self;
        same_digest = refl;
        same_size = refl;
        same_id = ap uuid_parse_str named ∙ uuid_parse_str-to_string id;
      },
    )

    find_or_insert-Recorded :
        (existing : Option Uuid)
        → Leads
            (λ s.
              Landed m artifact_root row.sha256 s
              × (find_existing x h m row.sha256 row.size_bytes s ≡ ok existing))
            (find_or_insert x h m existing row id)
            (Recorded x h m L artifact_root row.sha256 row.size_bytes)
            (IsConsistent m artifact_root)
    unfolding find_or_insert
    find_or_insert-Recorded (some known) = Leads-pure known λ s (l, e).
        (l, HasRow-find_existing x h m L artifact_root row.sha256 row.size_bytes s known e)
    find_or_insert-Recorded none = record {
      from = λ s (l, e).
          inserted-Recorded (insert_row row s) (λ p. new_row-Recorded s p l)
            (λ f p. Landed-err x h m L artifact_root row row.sha256 s f p l);
    }

  -- What a stored artifact promises: the reader yielded bytes without an error, digest and size
  -- are theirs, the path is the digest's, the file is there, and so is the row.
  pub record HasStored (kind : ArtifactKind) (reader : List (Result IoError Bytes))
      (a : StoredArtifact x) (s : State) : Type 0 where
    pub bytes : Bytes
    pub was_read : bytes_read reader ≡ some bytes
    pub digest : a.sha256 ≡ sha256_of h bytes
    pub size : a.size_bytes ≡ as_i64 (length bytes % 2 ^ 64)
    pub path : a.storage_path ≡ relative_path_for a.sha256
    pub present : exists s (path_join artifact_root a.storage_path) ≡ true
    pub recorded : HasRow x h m L artifact_root a.sha256 a.size_bytes a.id s
    pub encoded : a.compression ≡ compression_as_str (stored_compression x h m kind)
    pub consistent : IsConsistent m artifact_root s

  module _ (temporary_dir : String) (tmp_id id : Uuid) (created_at : String) (kind : ArtifactKind)
      (filename media : Option String) (reader : List (Result IoError Bytes))
      (apart : starts_with (path_join temporary_dir (uuid_to_string tmp_id)) artifact_root
        ≡ false) where
    abbrev tmp : String
    tmp = path_join temporary_dir (uuid_to_string tmp_id)

    abbrev encoding : Compression
    encoding = stored_compression x h m kind

    kept :
        (s t : State)
        → Spares m tmp s t
        → IsConsistent m artifact_root s
        → IsConsistent m artifact_root t
    kept = IsConsistent-Spares m artifact_root tmp apart

    mkdir-Leads :
        (path : String)
        → Leads
            (IsConsistent m artifact_root)
            (or_err io (create_dir_all path))
            (λ u. IsConsistent m artifact_root)
            (IsConsistent m artifact_root)
    mkdir-Leads path = Leads-or_err io (
        Leads-of_cases (create_dir_all path)
          (λ s u c e. kept s _ (L.create_dir_all-Spares path tmp s) c)
          (λ s e c _. kept s _ (L.create_dir_all-Spares path tmp s) c))

    create-Leads :
        Leads
          (IsConsistent m artifact_root)
          (or_err io (create tmp))
          (λ u s. IsConsistent m artifact_root s × L.Taken s encoding tmp [])
          (IsConsistent m artifact_root)
    create-Leads = Leads-or_err io (
        Leads-of_cases (create tmp)
          (λ s u c e. (kept s _ (L.create-Spares tmp s) c, L.create-Taken encoding tmp s e))
          (λ s e c _. kept s _ (L.create-Spares tmp s) c))

    -- The table is in step, and this is what was copied.
    abbrev IsCopied : String × ℕ → State → Type 0
    IsCopied r t =
        IsConsistent m artifact_root t
        × (b : Bytes) × (bytes_read reader ≡ some b)
        × (r.0 ≡ sha256_of h b)
        × (r.1 ≡ length b % 2 ^ 64)

    store_copied-Leads :
        (r : String × ℕ)
        → Leads
            (IsCopied r)
            (store_copied x h m artifact_root tmp id created_at kind filename media r)
            (HasStored kind reader)
            (IsConsistent m artifact_root)
    unfolding store_copied new_row
    store_copied-Leads (sha, total) = record {
      from = λ s (c, bytes, was_read, d, n).
          let digest : is_sha256 sha ≡ true = ap is_sha256 d ∙ is_sha256-finalize h _ in
          (Leads-bind (mkdir-Leads (path_join artifact_root (relative_dir_for sha))) λ u.
              Leads-bind (land-Landed x h m L artifact_root tmp apart sha digest) λ u.
                Leads-bind
                  {Q = λ existing t.
                    Landed m artifact_root sha t
                    × (find_existing x h m sha (as_i64 total) t ≡ ok existing)}
                  (Leads-attempt (find_existing x h m sha (as_i64 total)) (λ t l a e. (l, e))
                    (λ t l. l.0))
                  λ existing.
                    Leads-bind
                      (find_or_insert-Recorded
                        (new_row x h m id created_at kind filename media sha (as_i64 total)
                          encoding)
                        id digest refl refl existing)
                      λ stored. Leads-pure _ λ t (l, found). record {
                        bytes = bytes;
                        was_read = was_read;
                        digest = d;
                        size = ap as_i64 n;
                        path = refl;
                        present = l.1;
                        recorded = found;
                        encoded = refl;
                        consistent = l.0;
                      }).from
            s c;
    }

    store_artifact-Leads :
        Leads
          (IsConsistent m artifact_root)
          (store_artifact x h m artifact_root temporary_dir tmp_id id created_at kind filename media
            reader)
          (HasStored kind reader)
          (IsConsistent m artifact_root)
    unfolding store_artifact
    store_artifact-Leads = Leads-bind (mkdir-Leads temporary_dir) λ u. Leads-bind create-Leads λ u.
        Leads-bind (copied-Consistent x h m L artifact_root tmp apart encoding reader)
          store_copied-Leads

    -- When `store_artifact` answers an artifact, starting with every row's file in place and with a
    -- temporary file that is not beneath the artifact root: the reader yielded bytes without an
    -- error; the digest is the SHA-256 of these bytes and the size their number; the path is
    -- made of the digest alone; the file is there; the table has a row with this digest, this size
    -- and this ID; and every row of the table has its file.
    pub store_artifact-HasStored :
        (s : State) (a : StoredArtifact x)
        → IsConsistent m artifact_root s
        → (store_artifact x h m artifact_root temporary_dir tmp_id id created_at kind filename media
            reader s).0
          ≡ ok a
        → HasStored kind reader a
            (store_artifact x h m artifact_root temporary_dir tmp_id id created_at kind filename
              media reader s).1
    store_artifact-HasStored s a c p = Leads-ok store_artifact-Leads s a c p

    -- Whatever fails on the way, and whoever wins a race: if every row of the table had its file
    -- before `store_artifact`, with a temporary file that is not beneath the artifact root, then
    -- every row has its file afterwards.
    pub store_artifact-IsConsistent :
        (s : State)
        → IsConsistent m artifact_root s
        → IsConsistent m artifact_root
            (store_artifact x h m artifact_root temporary_dir tmp_id id created_at kind filename
              media reader s).1
    store_artifact-IsConsistent s c =
        Leads-either
          (Leads-weaken store_artifact-Leads (λ t p. p) (λ a t p. p.consistent) (λ t p. p)) s c

-- ===== src/ArtifactStore/Stored.antt =====
-- `store_artifact` step by step: what holds after each, whether it succeeds or fails.
use text.Mathlib.Text.{starts_with}
use mathlib.Core.Bool.{Bool}
use executorch_bencher.Prelude.{
  ◌%◌, ◌^◌, String, some, List, [], ◌≡◌, refl, true, false, Result, ok, err, if◌then◌else◌,
}
use executorch_bencher.Prelude.Lists.{length}
use executorch_bencher.Prelude.Text.{path_join}
use executorch_bencher.Prelude.Action.{
  Outcome, Leads, Leads-or_err, Leads-of_cases, Leads-weaken, Leads-inspect_err, or_err, ignore,
  inspect_err,
}
use executorch_bencher.Domain.{is_sha256}
use executorch_bencher.Externals.{Externals}
use executorch_bencher.ArtifactKind.{Compression}
use executorch_bencher.ArtifactStore.{IoError, ArtifactStoreError, io}
use executorch_bencher.ArtifactStore.Copy.{bytes_read, sha256_of, Spares-refl, copy_hashing-Leads}
use executorch_bencher.ArtifactStore.Keeps.{Landed, IsConsistent, IsConsistent-Spares, path-ne}
use executorch_bencher.ArtifactStore.Machine.{Bytes, Hasher, Machine, Spares, IsMachine}
use executorch_bencher.ArtifactStore.Store.{relative_path_for, land, after_rename, copy_hashing}

module _ (x : Externals) (h : Hasher) (m : Machine) (L : IsMachine m) (artifact_root : String) where
  open x use {Uuid, uuid_to_string, uuid_parse_str}
  open m use {State, exists, rename, remove_file, rows, insert_row}

  module _ (tmp : String) (apart : starts_with tmp artifact_root ≡ false) where
    Landed-Spares :
        (sha : String) (s t : State)
        → is_sha256 sha ≡ true
        → Spares m tmp s t
        → Landed m artifact_root sha s
        → Landed m artifact_root sha t
    Landed-Spares sha s t digest p (c, e) = (
      IsConsistent-Spares m artifact_root tmp apart s t p c,
      p.kept _ (path-ne m artifact_root tmp sha apart digest) e,
    )

    ignored-Landed :
        (sha : String) (t : State)
        → is_sha256 sha ≡ true
        → Landed m artifact_root sha t
        → Outcome {E = ArtifactStoreError}
            (λ (u : Unit {0}). (Landed m artifact_root sha))
            (IsConsistent m artifact_root)
            (ignore (or_err io (remove_file tmp)) t)
    ignored-Landed sha t digest l = go (remove_file tmp t) (L.remove_file-Spares tmp t)
      where
        go :
            (o : Result IoError (Unit {0}) × State)
            → Spares m tmp t o.1
            → Outcome {E = ArtifactStoreError}
                (λ (u : Unit {0}). (Landed m artifact_root sha))
                (IsConsistent m artifact_root)
                (ignore (or_err io (λ s. o)) t)
        go (ok u, s) p = Landed-Spares sha t s digest p l
        go (err e, s) p = Landed-Spares sha t s digest p l

    -- After a rename that failed, by whether the file is there all the same.
    raced-Landed :
        (sha : String) (e : IoError) (s : State) (b : Bool)
        → is_sha256 sha ≡ true
        → IsConsistent m artifact_root s
        → exists s (path_join artifact_root (relative_path_for sha)) ≡ b
        → Outcome
            (λ (u : Unit {0}). (Landed m artifact_root sha))
            (IsConsistent m artifact_root)
            (if b then ignore (or_err io (remove_file tmp)) s else (err (io e), s))
    raced-Landed sha e s true digest c k = ignored-Landed sha s digest (c, k)
    raced-Landed sha e s false digest c k = c

    after_rename-Landed :
        (sha : String) (o : Result IoError (Unit {0}) × State)
        → is_sha256 sha ≡ true
        → (IsConsistent m artifact_root) o.1
        → (o.0 ≡ ok tt → exists o.1 (path_join artifact_root (relative_path_for sha)) ≡ true)
        → Outcome
            (λ u. (Landed m artifact_root sha))
            (IsConsistent m artifact_root)
            (after_rename x h m tmp (path_join artifact_root (relative_path_for sha)) o)
    unfolding after_rename
    after_rename-Landed sha (ok u, s) digest c k = (c, k refl)
    after_rename-Landed sha (err e, s) digest c k = raced-Landed sha e s _ digest c refl

    removed-Landed :
        (sha : String)
        → is_sha256 sha ≡ true
        → Leads
            ((Landed m artifact_root sha))
            (or_err io (remove_file tmp))
            (λ u. (Landed m artifact_root sha))
            (IsConsistent m artifact_root)
    removed-Landed sha digest = Leads-or_err io (
        Leads-of_cases (remove_file tmp)
          (λ s u l e. Landed-Spares sha s _ digest (L.remove_file-Spares tmp s) l)
          (λ s e l _. (Landed-Spares sha s _ digest (L.remove_file-Spares tmp s) l).0))

    landing-Landed :
        (sha : String) (s : State) (b : Bool)
        → is_sha256 sha ≡ true
        → IsConsistent m artifact_root s
        → exists s (path_join artifact_root (relative_path_for sha)) ≡ b
        → Outcome
            (λ u. (Landed m artifact_root sha))
            (IsConsistent m artifact_root)
            (if b
              then or_err io (remove_file tmp) s
              else after_rename x h m tmp
                  (path_join artifact_root (relative_path_for sha))
                  (rename tmp (path_join artifact_root (relative_path_for sha)) s))
    landing-Landed sha s true digest c k = (removed-Landed sha digest).from s (c, k)
    landing-Landed sha s false digest c k =
        let final = path_join artifact_root (relative_path_for sha) in
        after_rename-Landed sha (rename tmp final s) digest
          (IsConsistent-Spares m artifact_root tmp apart s _ (L.rename-Spares tmp final s) c)
          (L.exists-rename tmp final s)

    -- `land` leaves the file where its digest says, or fails.
    pub land-Landed :
        (sha : String)
        → is_sha256 sha ≡ true
        → Leads
            (IsConsistent m artifact_root)
            (land x h m tmp (path_join artifact_root (relative_path_for sha)))
            (λ u. (Landed m artifact_root sha))
            (IsConsistent m artifact_root)
    unfolding land
    land-Landed sha digest = record { from = λ s c. landing-Landed sha s _ digest c refl }

    pub copied-Consistent :
        (c : Compression) (reader : List (Result IoError Bytes))
        → Leads
            (λ s. IsConsistent m artifact_root s × L.Taken s c tmp [])
            (inspect_err (copy_hashing x h m c tmp reader) (remove_file tmp))
            (λ r t.
              IsConsistent m artifact_root t
              × (b : Bytes) × (bytes_read reader ≡ some b)
              × (r.0 ≡ sha256_of h b)
              × (r.1 ≡ length b % 2 ^ 64))
            (IsConsistent m artifact_root)
    copied-Consistent c reader = record {
      from = λ s (con, taken).
          (Leads-inspect_err (remove_file tmp)
              (Leads-weaken (copy_hashing-Leads x h m L s c tmp reader) (λ t p. p)
                (λ r t d. (
                  IsConsistent-Spares m artifact_root tmp apart s t d.spared con,
                  d.bytes,
                  d.was_read,
                  d.digest,
                  d.size,
                ))
                (λ t p. IsConsistent-Spares m artifact_root tmp apart s t p con))
              (λ t c.
                IsConsistent-Spares m artifact_root tmp apart t _ (L.remove_file-Spares tmp t)
                  c)).from
            s (Spares-refl h m tmp s, taken);
    }

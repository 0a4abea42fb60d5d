-- ===== src/ModelRegistry/Verdicts.antt =====
-- What a verification can find: the asset is gone, current, or, for `verify`, as it was; and the
-- rehashing that decides it.
use executorch_bencher.Prelude.{
  ℤ, is_nonzero, pos, String, Bool, true, false, some, Result, ok, err, if◌then◌else◌, ◌≡◌, refl,
  ◌∙◌, ap, sym, subst,
}
use executorch_bencher.Prelude.Lists.{All}
use executorch_bencher.Prelude.Action.{Outcome, Leads, Leads-bind, Leads-attempt, Leads-weaken}
use executorch_bencher.ArtifactStore.Machine.{Hasher}
use executorch_bencher.ArtifactStore.Store.{as_i64}
use executorch_bencher.Externals.{Externals}
use executorch_bencher.ModelRegistry.{db, disappeared, ModelAsset, ModelRow}
use executorch_bencher.ModelRegistry.Read.{HashOf, hash_file-HashOf}
use executorch_bencher.ModelRegistry.Registry.{
  Metadata, Files, ModelsTable, IsModelsTable, with_content, hash_file, mark_unavailable,
}
use executorch_bencher.ModelRegistry.Storage.{modified_of, after_update, rehash_and_reconcile}
use executorch_bencher.ModelRegistry.Verified.{
  ById, refetch-IsFetched, updated-ById, mark_unavailable-IsFetched,
}
use executorch_bencher.Sqlx.{SqlxError, is_unique}

module _ {x : Externals} (h : Hasher) (t : ModelsTable x) (L : IsModelsTable t)
    (files : Files x) where
  open x use {DateTime, uuid_to_string, datetime_eq-eq}
  open t use {Db, rows, update_content}

  -- The file of this path is there, with this metadata and time.
  pub record IsThere (path : String) (metadata : Metadata x) (time : DateTime) : Type 0 where
    pub found : files.metadata path ≡ some metadata
    pub is_file : metadata.is_file ≡ true
    pub modified : modified_of h t files metadata ≡ ok time

  pub data Verdict (asset : ModelAsset x) (path : String) (a : ModelAsset x) : Type 0 where
    -- no longer available
    gone : a.id ≡ asset.id → a.available ≡ false → Verdict asset path a
    -- available, with digest, size and time of the file that is there now
    current :
        (metadata : Metadata x) (time : DateTime)
        → IsThere path metadata time
        → a.id ≡ asset.id
        → HashOf h files path a.sha256
        → a.size_bytes ≡ as_i64 metadata.len
        → a.file_modified_at ≡ some time
        → a.available ≡ true
        → Verdict asset path a

  pub data QuickVerdict (asset : ModelAsset x) (path : String) (a : ModelAsset x) : Type 0 where
    checked : Verdict asset path a → QuickVerdict asset path a
    -- as it was recorded, and size and time of the file are as recorded
    unchanged :
        (metadata : Metadata x) (time : DateTime)
        → IsThere path metadata time
        → a ≡ asset
        → a.size_bytes ≡ as_i64 metadata.len
        → a.file_modified_at ≡ some time
        → a.available ≡ true
        → QuickVerdict asset path a

  pub unavailable-Verdict :
      (asset : ModelAsset x) (path : String)
      → Leads
          (λ s. Unit {0})
          (mark_unavailable t asset)
          (λ a s. Verdict asset path a)
          (λ s. Unit {0})
  unavailable-Verdict asset path =
      Leads-weaken (mark_unavailable-IsFetched t L asset) (λ s p. p)
        (λ a s f. gone f.same_id (f.read.available ∙ ap is_nonzero f.holds)) (λ s p. p)

  -- What the row holds after the UPDATE.
  record HasContent (sha : String) (size : ℤ) (time : DateTime) (r : ModelRow x) : Type 0 where
    sha256 : r.sha256 ≡ sha
    size_bytes : r.size_bytes ≡ size
    modified : r.file_modified_at ≡ some time
    available : r.available ≡ pos 1

  module _ (asset : ModelAsset x) (path : String) (metadata : Metadata x) (time now : DateTime)
      (there : IsThere path metadata time) where
    updated-Verdict :
        (sha : String)
        → HashOf h files path sha
        → (o : Result SqlxError (Unit {0}) × Db)
        → (o.0 ≡ ok tt → ById t L asset.id (HasContent sha (as_i64 metadata.len) time) o.1)
        → Outcome (λ a s. Verdict asset path a) (λ s. Unit {0}) (after_update h t files asset o)
    unfolding after_update
    updated-Verdict sha hashed (ok u, s) k =
        (Leads-weaken
            (refetch-IsFetched t L disappeared asset.id (HasContent sha (as_i64 metadata.len) time))
            (λ s p. p)
            (λ a s f.
              current metadata time there f.same_id
                (subst (HashOf h files path) (sym (f.read.sha256 ∙ f.holds.sha256)) hashed)
                (f.read.size_bytes ∙ f.holds.size_bytes) (f.read.modified ∙ f.holds.modified)
                (f.read.available ∙ ap is_nonzero f.holds.available))
            (λ s p. p)).from
          s (k refl)
    updated-Verdict sha hashed (err e, s) k = failed (is_unique e)
      where
        failed :
            (b : Bool)
            → Outcome
                (λ a s. Verdict asset path a)
                (λ s. Unit {0})
                (if b then mark_unavailable t asset s else (err (db e), s))
        failed true = (unavailable-Verdict asset path).from s tt
        failed false = tt

    pub rehash-Verdict :
        Leads
          (λ s. Unit {0})
          (rehash_and_reconcile h t files now asset path (as_i64 metadata.len) time)
          (λ a s. Verdict asset path a)
          (λ s. Unit {0})
    unfolding rehash_and_reconcile
    rehash-Verdict =
        Leads-bind {Q = λ sha s. HashOf h files path sha}
          (Leads-attempt (λ s. hash_file x h files path)
            (λ s p sha e. hash_file-HashOf x h files path sha e) (λ s p. tt))
          λ sha. record {
            from = λ s hashed.
                updated-Verdict sha hashed
                  (update_content sha (as_i64 metadata.len) time now (uuid_to_string asset.id) s)
                  λ e.
                    subst
                      (All (λ r.
                        r.id ≡ uuid_to_string asset.id
                        → HasContent sha (as_i64 metadata.len) time r))
                      (sym (
                        L.update_content-ok sha (as_i64 metadata.len) time now
                          (uuid_to_string asset.id) s e))
                      (updated-ById t L asset.id (with_content sha (as_i64 metadata.len) time now)
                        (HasContent sha (as_i64 metadata.len) time) (rows s)
                        (λ r. record {
                          sha256 = refl;
                          size_bytes = refl;
                          modified = refl;
                          available = refl;
                        }));
          }

-- ===== src/ModelRegistry/Registered.antt =====
-- `register`: the asset that it answers has the digest of the file that was registered.
use executorch_bencher.Prelude.{
  String, Bool, true, false, Option, some, none, List, [], ◌∷◌, Result, ok, err, ok_or-eq-ok,
  if◌then◌else◌, ◌≡◌, ◌≢◌, refl, ◌∙◌, ap, sym, subst,
}
use executorch_bencher.Prelude.Lists.{All}
use executorch_bencher.Prelude.Action.{
  Outcome, Leads, Leads-bind, Leads-pure, Leads-attempt, Leads-ok, Leads-weaken,
}
use executorch_bencher.ArtifactStore.Machine.{Hasher}
use executorch_bencher.ArtifactStore.Store.{as_i64}
use executorch_bencher.Externals.{Externals}
use executorch_bencher.ModelRegistry.{
  ModelRegistryError, db, not_a_regular_file, vanished, no_matching_row, ModelAsset, ModelRow,
  find_by_sha256,
}
use executorch_bencher.ModelRegistry.Read.{HashOf, hash_file-HashOf, required-IsRead}
use executorch_bencher.ModelRegistry.Registry.{
  Metadata, Files, ModelsTable, IsModelsTable, hash_file, require, refind,
}
use executorch_bencher.ModelRegistry.Storage.{
  modified_of, regular, regular_or, model_row, after_insert, reuse_or_insert, register,
}
use executorch_bencher.ModelRegistry.Verified.{ById, refetch-IsFetched}
use executorch_bencher.ModelRegistry.Verify.{regular-found}
use executorch_bencher.Sqlx.{SqlxError, is_unique}

module _ {x : Externals} (h : Hasher) (t : ModelsTable x) (L : IsModelsTable t)
    (files : Files x) where
  open x use {Uuid, DateTime, uuid_to_string}
  open t use {Db, rows, insert_row, select_sha256}

  -- An asset that is found by a digest has this digest.
  find_by_sha256-same :
      (e : ModelRegistryError) (a : ModelAsset x) (sha : String) (s : Db)
      → require t e (find_by_sha256 x (select_sha256 s) sha) ≡ ok a
      → a.sha256 ≡ sha
  unfolding find_by_sha256
  find_by_sha256-same e a sha s p =
      let (r, found, read) = required-IsRead x t e a (select_sha256 s sha) p in
      read.sha256 ∙ (L.select_sha256_lem s sha r found).0

  refind-same :
      (e : ModelRegistryError) (sha : String)
      → Leads (λ s. Unit {0}) (refind t e sha) (λ a s. a.sha256 ≡ sha) (λ s. Unit {0})
  unfolding refind
  refind-same e sha =
      Leads-attempt (λ s. require t e (find_by_sha256 x (select_sha256 s) sha))
        (λ s u a p. find_by_sha256-same e a sha s p) (λ s u. tt)

  module _ (row : ModelRow x) (id : Uuid) (named : row.id ≡ uuid_to_string id) where
    -- The only row with the new ID is the new row.
    inserted-ById :
        (s : Db)
        → (insert_row row s).0 ≡ ok tt
        → ById t L id (λ r. r.sha256 ≡ row.sha256) (insert_row row s).1
    inserted-ById s p =
        subst (All (λ r. r.id ≡ uuid_to_string id → r.sha256 ≡ row.sha256))
          (sym (L.insert_row-ok row s p))
          ((λ e. refl), others (rows s) (L.insert_row-fresh row s p))
      where
        others :
            (l : List (ModelRow x))
            → All (λ q. q.id ≢ row.id) l
            → All (λ r. r.id ≡ uuid_to_string id → r.sha256 ≡ row.sha256) l
        others [] k = tt
        others (q ∷ l) (k, ks) = (λ e. absurd (k (e ∙ sym named)), others l ks)

    after_insert-same :
        (o : Result SqlxError (Unit {0}) × Db)
        → (o.0 ≡ ok tt → ById t L id (λ r. r.sha256 ≡ row.sha256) o.1)
        → Outcome
            (λ a s. a.sha256 ≡ row.sha256)
            (λ s. Unit {0})
            (after_insert h t files row.sha256 id o)
    unfolding after_insert
    after_insert-same (ok u, s) k =
        (Leads-weaken (refetch-IsFetched t L vanished id (λ r. r.sha256 ≡ row.sha256)) (λ s p. p)
            (λ a s f. f.read.sha256 ∙ f.holds) (λ s p. p)).from
          s (k refl)
    after_insert-same (err e, s) k = failed (is_unique e)
      where
        failed :
            (b : Bool)
            → Outcome
                (λ a s. a.sha256 ≡ row.sha256)
                (λ s. Unit {0})
                (if b then refind t no_matching_row row.sha256 s else (err (db e), s))
        failed true = (refind-same no_matching_row row.sha256).from s tt
        failed false = tt

    reuse_or_insert-same :
        (existing : Option (ModelAsset x))
        → Leads
            (λ s. find_by_sha256 x (select_sha256 s) row.sha256 ≡ ok existing)
            (reuse_or_insert h t files existing row id)
            (λ a s. a.sha256 ≡ row.sha256)
            (λ s. Unit {0})
    unfolding reuse_or_insert
    reuse_or_insert-same (some known) =
        Leads-pure known
          λ s p. find_by_sha256-same vanished known row.sha256 s (ap (require t vanished) p)
    reuse_or_insert-same none = record {
      from = λ s p. after_insert-same (insert_row row s) (inserted-ById s);
    }

  -- The path names a regular file, and the asset has the digest of what it holds.
  pub record IsRegistered (path : String) (a : ModelAsset x) : Type 0 where
    pub metadata : Metadata x
    pub found : files.metadata path ≡ some metadata
    pub is_file : metadata.is_file ≡ true
    pub hashed : HashOf h files path a.sha256

  register-Leads :
      (id : Uuid) (now : DateTime) (path : String)
      → Leads
          (λ s. Unit {0})
          (register h t files id now path)
          (λ a s. IsRegistered path a)
          (λ s. Unit {0})
  unfolding register regular_or model_row
  register-Leads id now path =
      Leads-bind {Q = λ metadata s. regular h t files (files.metadata path) ≡ some metadata}
        (Leads-attempt (λ s. regular_or h t files path (files.metadata path))
          (λ s u metadata e.
            ok_or-eq-ok (not_a_regular_file path) (regular h t files (files.metadata path)) e)
          (λ s u. tt))
        λ metadata.
          Leads-bind
            {Q = λ sha s.
              (regular h t files (files.metadata path) ≡ some metadata) × HashOf h files path sha}
            (Leads-attempt (λ s. hash_file x h files path)
              (λ s p sha e. (p, hash_file-HashOf x h files path sha e)) (λ s p. tt))
            λ sha.
              Leads-bind
                {Q = λ time s.
                  (regular h t files (files.metadata path) ≡ some metadata)
                  × HashOf h files path sha}
                (Leads-attempt (λ s. modified_of h t files metadata) (λ s p time e. p) (λ s p. tt))
                λ time.
                  Leads-bind
                    {Q = λ existing s.
                      ((regular h t files (files.metadata path) ≡ some metadata)
                        × HashOf h files path sha)
                      × (find_by_sha256 x (select_sha256 s) sha ≡ ok existing)}
                    (Leads-attempt (λ s. find_by_sha256 x (select_sha256 s) sha)
                      (λ s p existing e. (p, e)) (λ s p. tt))
                    λ existing. record {
                      from = λ s ((regular_there, hashed), e).
                          let (found, is_file) =
                            regular-found h t L files path _ metadata refl regular_there in
                          (Leads-weaken
                              (reuse_or_insert-same
                                (model_row h t files id now path sha (as_i64 metadata.len) time) id
                                refl existing)
                              (λ s p. p)
                              (λ a s same. record {
                                metadata = metadata;
                                found = found;
                                is_file = is_file;
                                hashed = subst (HashOf h files path) (sym same) hashed;
                              })
                              (λ s p. p)).from
                            s e;
                    }

  -- On a table that keeps its promises: when `register` answers an asset, whether it was new,
  -- known before, or inserted by another in between, the path names a regular file, and the
  -- digest of the asset is the SHA-256 of what this file holds.
  pub register-IsRegistered :
      (id : Uuid) (now : DateTime) (path : String) (a : ModelAsset x) (s : Db)
      → (register h t files id now path s).0 ≡ ok a
      → IsRegistered path a
  register-IsRegistered id now path a s e = Leads-ok (register-Leads id now path) s a tt e

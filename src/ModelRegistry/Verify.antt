-- ===== src/ModelRegistry/Verify.antt =====
-- `verify` and `verify_full`: the asset that they answer is gone, current, or, for `verify`, as it
-- was.
use mathlib.Core.Bool.{and-eq-true_iff}
use executorch_bencher.Prelude.{
  String, Bool, true, false, Option, some, none, ok, ok_or, ok_or-eq-ok, if◌then◌else◌, ◌≡◌, refl,
  ◌∙◌, ap, sym, int_eq, int_eq-eq, ◌&&◌,
}
use executorch_bencher.Prelude.Action.{
  Leads, Leads-bind, Leads-pure, Leads-attempt, Leads-ok, Leads-weaken, pure, attempt,
}
use executorch_bencher.ArtifactStore.Machine.{Hasher}
use executorch_bencher.ArtifactStore.Store.{as_i64}
use executorch_bencher.Externals.{Externals}
use executorch_bencher.ModelRegistry.{no_external_path, ModelAsset}
use executorch_bencher.ModelRegistry.Registry.{Metadata, Files, ModelsTable, IsModelsTable}
use executorch_bencher.ModelRegistry.Storage.{
  modified_of, rehash_and_reconcile, regular, is_modified_at, is_unchanged, verify_file,
  verify_full_file, verify, verify_full,
}
use executorch_bencher.ModelRegistry.Verdicts.{
  IsThere, Verdict, QuickVerdict, checked, unchanged, unavailable-Verdict, rehash-Verdict,
}

module _ {x : Externals} (h : Hasher) (t : ModelsTable x) (L : IsModelsTable t)
    (files : Files x) where
  open x use {DateTime, uuid_to_string, datetime_eq-eq}
  open t use {Db, rows, update_content}

  pub regular-found :
      (path : String) (o : Option (Metadata x)) (metadata : Metadata x)
      → files.metadata path ≡ o
      → regular h t files o ≡ some metadata
      → (files.metadata path ≡ some metadata) × (metadata.is_file ≡ true)
  unfolding regular
  regular-found path none metadata p e = cc
  regular-found path (some found) metadata p e = by_test found.is_file refl e
    where
      by_test :
          (b : Bool)
          → found.is_file ≡ b
          → (if b then some found else none) ≡ some metadata
          → (files.metadata path ≡ some metadata) × (metadata.is_file ≡ true)
      by_test true q e =
          let same : found ≡ metadata = cc in
          (p ∙ e, ap (λ (m : Metadata x). m.is_file) (sym same) ∙ q)
      by_test false q e = cc

  modified-Leads :
      (path : String) (metadata : Metadata x)
      → regular h t files (files.metadata path) ≡ some metadata
      → Leads {S = Db}
          (λ s. Unit {0})
          (attempt (λ s. modified_of h t files metadata))
          (λ time s. IsThere h t L files path metadata time)
          (λ s. Unit {0})
  modified-Leads path metadata p =
      let (found, is_file) = regular-found path _ metadata refl p in
      Leads-attempt (λ s. modified_of h t files metadata)
        (λ s u time e. record { found = found; is_file = is_file; modified = e }) (λ s u. tt)

  verify_full_file-Verdict :
      (now : DateTime) (asset : ModelAsset x) (path : String) (o : Option (Metadata x))
      → regular h t files (files.metadata path) ≡ o
      → Leads
          (λ s. Unit {0})
          (verify_full_file h t files now asset path o)
          (λ a s. Verdict h t L files asset path a)
          (λ s. Unit {0})
  unfolding verify_full_file
  verify_full_file-Verdict now asset path none p = unavailable-Verdict h t L files asset path
  verify_full_file-Verdict now asset path (some metadata) p =
      Leads-bind (modified-Leads path metadata p) λ time. record {
        from = λ s there. (rehash-Verdict h t L files asset path metadata time now there).from s tt;
      }

  -- The test of `verify`, and what it says.
  checked-Verdict :
      (now : DateTime) (asset : ModelAsset x) (path : String) (metadata : Metadata x)
      (time : DateTime) (b : Bool)
      → is_unchanged h t files asset (as_i64 metadata.len) time ≡ b
      → Leads
          (λ s. IsThere h t L files path metadata time)
          (if b
            then pure asset
            else rehash_and_reconcile h t files now asset path (as_i64 metadata.len) time)
          (λ a s. QuickVerdict h t L files asset path a)
          (λ s. Unit {0})
  unfolding is_unchanged
  checked-Verdict now asset path metadata time true e =
      let (first, dated) =
        (and-eq-true_iff (asset.available && int_eq asset.size_bytes (as_i64 metadata.len))
            (is_modified_at h t files asset.file_modified_at time)).0
          e in
      let (available, size) =
        (and-eq-true_iff asset.available (int_eq asset.size_bytes (as_i64 metadata.len))).0 first in
      Leads-pure asset λ s there.
        unchanged metadata time there refl (int_eq-eq _ _ size)
          (recorded asset.file_modified_at dated) available
    where
      recorded : (o : Option DateTime) → is_modified_at h t files o time ≡ true → o ≡ some time
      recorded none d = cc
      recorded (some old) d = ap some (datetime_eq-eq old time d)
  checked-Verdict now asset path metadata time false e = record {
    from = λ s there.
        (Leads-weaken (rehash-Verdict h t L files asset path metadata time now there) (λ s p. p)
            (λ a s v. checked v) (λ s p. p)).from
          s tt;
  }

  verify_file-QuickVerdict :
      (now : DateTime) (asset : ModelAsset x) (path : String) (o : Option (Metadata x))
      → regular h t files (files.metadata path) ≡ o
      → Leads
          (λ s. Unit {0})
          (verify_file h t files now asset path o)
          (λ a s. QuickVerdict h t L files asset path a)
          (λ s. Unit {0})
  unfolding verify_file
  verify_file-QuickVerdict now asset path none p =
      Leads-weaken (unavailable-Verdict h t L files asset path) (λ s p. p) (λ a s v. checked v)
        (λ s p. p)
  verify_file-QuickVerdict now asset path (some metadata) p =
      Leads-bind (modified-Leads path metadata p)
        λ time. checked-Verdict now asset path metadata time _ refl

  -- On a table that keeps its promises: whatever `verify_full` answers, without an error, is the
  -- asset of the same ID at a path that it was registered under, and it is either no longer
  -- available, or available with the digest, the size and the time of the regular file that is there.
  pub verify_full-Verdict :
      (now : DateTime) (asset a : ModelAsset x) (s : Db)
      → (verify_full h t files now asset s).0 ≡ ok a
      → (path : String) × (asset.external_path ≡ some path) × Verdict h t L files asset path a
  unfolding verify_full
  verify_full-Verdict now asset a s e = Leads-ok steps s a tt e
    where
      steps :
          Leads
            (λ s. Unit {0})
            (verify_full h t files now asset)
            (λ a s.
              (path : String) × (asset.external_path ≡ some path)
              × Verdict h t L files asset path a)
            (λ s. Unit {0})
      steps =
          Leads-bind {Q = λ path s. asset.external_path ≡ some path}
            (Leads-attempt (λ s. ok_or no_external_path asset.external_path)
              (λ s u path e. ok_or-eq-ok no_external_path asset.external_path e) (λ s u. tt))
            λ path. record {
              from = λ s p.
                  (Leads-weaken (verify_full_file-Verdict now asset path _ refl) (λ s q. q)
                      (λ a s v. (path, p, v)) (λ s q. q)).from
                    s tt;
            }

  -- The same of `verify`, which may also answer the asset as it was, if it is recorded as
  -- available and the file that is there has the recorded size and time.
  pub verify-QuickVerdict :
      (now : DateTime) (asset a : ModelAsset x) (s : Db)
      → (verify h t files now asset s).0 ≡ ok a
      → (path : String) × (asset.external_path ≡ some path) × QuickVerdict h t L files asset path a
  unfolding verify
  verify-QuickVerdict now asset a s e = Leads-ok steps s a tt e
    where
      steps :
          Leads
            (λ s. Unit {0})
            (verify h t files now asset)
            (λ a s.
              (path : String) × (asset.external_path ≡ some path)
              × QuickVerdict h t L files asset path a)
            (λ s. Unit {0})
      steps =
          Leads-bind {Q = λ path s. asset.external_path ≡ some path}
            (Leads-attempt (λ s. ok_or no_external_path asset.external_path)
              (λ s u path e. ok_or-eq-ok no_external_path asset.external_path e) (λ s u. tt))
            λ path. record {
              from = λ s p.
                  (Leads-weaken (verify_file-QuickVerdict now asset path _ refl) (λ s q. q)
                      (λ a s v. (path, p, v)) (λ s q. q)).from
                    s tt;
            }

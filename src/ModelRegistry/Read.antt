-- ===== src/ModelRegistry/Read.antt =====
-- What is hashed, and what is read back from the rows.
use executorch_bencher.Prelude.{
  String, Option, some, none, List, [], ◌∷◌, ◌++◌, Result, ok, err, map_err, ok_or, wrap_some,
  >>=-eq-ok, ◌>>=◌, transpose_map, ok_or-eq-ok, ok_inj, ◌≡◌, refl, ◌∙◌, ap, subst, is_nonzero,
}
use executorch_bencher.ArtifactStore.{IoError}
use executorch_bencher.ArtifactStore.Copy.{bytes_read, and_then, sha256_of}
use executorch_bencher.ArtifactStore.Machine.{Bytes, Hasher}
use executorch_bencher.ArtifactStore.Store.{hex_encode}
use executorch_bencher.Externals.{Externals}
use executorch_bencher.ModelRegistry.{
  ModelRegistryError, db, invalid_id, ModelAsset, ModelRow, row_to_asset, get_model_asset,
  storage_mode_try_from,
}
use executorch_bencher.ModelRegistry.Registry.{
  Files, ModelsTable, hash_loop, hash_opened, finish_hash, hash_file, require,
}
use executorch_bencher.Sqlx.{SqlxError}

-- The digest is that of what the file at the path holds.
pub record HashOf {x : Externals} (h : Hasher) (files : Files x) (path sha : String) : Type 0 where
  pub reader : List (Result IoError Bytes)
  pub bytes : Bytes
  pub opened : files.open_file path ≡ ok reader
  pub was_read : bytes_read reader ≡ some bytes
  pub digest : sha ≡ sha256_of h bytes

module _ (x : Externals) (h : Hasher) where
  abbrev Hashed : Hasher.Sha256 h → List (Result IoError Bytes) → Hasher.Sha256 h → Type 0
  Hashed start reader hasher =
      (b : Bytes) × (bytes_read reader ≡ some b) × (hasher ≡ h.update start b)

  hash_loop-Hashed :
      (start : Hasher.Sha256 h) (reader : List (Result IoError Bytes)) (hasher : Hasher.Sha256 h)
      → hash_loop x h start reader ≡ ok hasher
      → Hashed start reader hasher
  unfolding hash_loop
  hash_loop-Hashed start [] hasher e = ([], refl, cc (e, h.update_nil start))
  hash_loop-Hashed start (err f ∷ rest) hasher e = cc
  hash_loop-Hashed start (ok [] ∷ rest) hasher e = ([], refl, cc (e, h.update_nil start))
  hash_loop-Hashed start (ok (b ∷ bs) ∷ rest) hasher e =
      let (more, read, same) = hash_loop-Hashed (h.update start (b ∷ bs)) rest hasher e in
      ((b ∷ bs) ++ more, ap (and_then (b ∷ bs)) read, same ∙ h.update_append start (b ∷ bs) more)

  pub hash_file-HashOf :
      (files : Files x) (path sha : String)
      → hash_file x h files path ≡ ok sha
      → HashOf h files path sha
  unfolding hash_file hash_opened finish_hash
  hash_file-HashOf files path sha e = opened_at (files.open_file path) refl e
    where
      hashed_at :
          (reader : List (Result IoError Bytes)) (o : Result ModelRegistryError (Hasher.Sha256 h))
          → files.open_file path ≡ ok reader
          → hash_loop x h h.new reader ≡ o
          → finish_hash x h o ≡ ok sha
          → HashOf h files path sha
      hashed_at reader (err f) p q r = cc
      hashed_at reader (ok hasher) p q r =
          let (b, read, same) = hash_loop-Hashed h.new reader hasher q in
          record {
            reader = reader;
            bytes = b;
            opened = p;
            was_read = read;
            digest = cc (r, ap (λ d. hex_encode (h.finalize d)) same);
          }

      opened_at :
          (o : Result IoError (List (Result IoError Bytes)))
          → files.open_file path ≡ o
          → finish_hash x h (hash_opened x h o) ≡ ok sha
          → HashOf h files path sha
      opened_at (err f) p r = cc
      opened_at (ok reader) p r = hashed_at reader _ p refl r

module _ (x : Externals) where
  -- What an asset has of the row that it was read from.
  pub record IsRead (row : ModelRow x) (a : ModelAsset x) : Type 0 where
    pub id : Externals.uuid_parse_str x row.id ≡ some a.id
    pub sha256 : a.sha256 ≡ row.sha256
    pub size_bytes : a.size_bytes ≡ row.size_bytes
    pub external_path : a.external_path ≡ row.external_path
    pub modified : a.file_modified_at ≡ row.file_modified_at
    pub available : a.available ≡ is_nonzero row.available

  row_to_asset-IsRead :
      (row : ModelRow x) (a : ModelAsset x) → row_to_asset x row ≡ ok a → IsRead row a
  unfolding row_to_asset
  row_to_asset-IsRead row a e =
      let (id, p, q) =
        >>=-eq-ok (ok_or (invalid_id row.id) (Externals.uuid_parse_str x row.id)) _ e in
      let (mode, r, built) = >>=-eq-ok (storage_mode_try_from row.storage_mode) _ q in
      subst (IsRead row) (ok_inj built) (record {
        id = ok_or-eq-ok (invalid_id row.id) (Externals.uuid_parse_str x row.id) p;
        sha256 = refl;
        size_bytes = refl;
        external_path = refl;
        modified = refl;
        available = refl;
      })

  -- An asset that a lookup answers is read from the row that the database answers.
  module _ (t : ModelsTable x) (e : ModelRegistryError) (a : ModelAsset x) where
    pub required-IsRead :
        (answer : Result SqlxError (Option (ModelRow x)))
        → require t e (map_err db answer >>= λ row. transpose_map (row_to_asset x) row) ≡ ok a
        → (r : ModelRow x) × (answer ≡ ok (some r)) × IsRead r a
    unfolding require
    required-IsRead (err f) p = cc
    required-IsRead (ok none) p = cc
    required-IsRead (ok (some r)) p =
        (r, refl, row_to_asset-IsRead r a (wrapped (row_to_asset x r) p))
      where
        wrapped :
            (m : Result ModelRegistryError (ModelAsset x))
            → require t e (wrap_some m) ≡ ok a
            → m ≡ ok a
        wrapped (err f) q = cc
        wrapped (ok b) q = q

    pub get_model_asset-IsRead :
        (s : ModelsTable.Db t) (id : Externals.Uuid x)
        → require t e (get_model_asset x (t.select_id s) id) ≡ ok a
        → (r : ModelRow x) × (t.select_id s (Externals.uuid_to_string x id) ≡ ok (some r))
          × IsRead r a
    unfolding get_model_asset
    get_model_asset-IsRead s id p =
        required-IsRead (t.select_id s (Externals.uuid_to_string x id)) p

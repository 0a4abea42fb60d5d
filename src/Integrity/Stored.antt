-- ===== src/Integrity/Stored.antt =====
-- The report on a machine whose artifacts were stored by `store_artifact`.
use text.Mathlib.Text.{starts_with}
use executorch_bencher.Prelude.{String, false, List, [], ◌∷◌, Option, Result, ◌≡◌}
use executorch_bencher.Prelude.Lists.{All}
use executorch_bencher.Prelude.Text.{path_join}
use executorch_bencher.ArtifactKind.{ArtifactKind}
use executorch_bencher.ArtifactStore.{IoError}
use executorch_bencher.ArtifactStore.Machine.{Bytes, Hasher, Machine, IsMachine}
use executorch_bencher.ArtifactStore.Store.{store_artifact}
use executorch_bencher.Externals.{Externals}
use executorch_bencher.Integrity.{Pool, Tree}

module _ (x : Externals) (m : Machine) (artifact_root : String) where
  -- The report reads the table and the files of this state.
  pub record Reads (s : Machine.State m) (tree : Tree) (pool : Pool x) : Type 0 where
    pub artifacts : pool.artifacts ≡ m.rows s
    pub exists : (q : String) → tree.exists q ≡ m.exists s q

-- The arguments of one call of `store_artifact`.
pub record Upload (x : Externals) : Type 0 where
  pub tmp_id : Externals.Uuid x
  pub id : Externals.Uuid x
  pub created_at : String
  pub kind : ArtifactKind
  pub filename : Option String
  pub media : Option String
  pub reader : List (Result IoError Bytes)

module _ (x : Externals) (h : Hasher) (m : Machine) (artifact_root temporary_dir : String) where
  -- One upload after another, whether they succeed or not.
  unfoldable pub store_all : List (Upload x) → Machine.State m → Machine.State m
  unfolding store_artifact
  store_all [] s = s
  store_all (u ∷ rest) s =
      store_all rest
        (store_artifact x h m artifact_root temporary_dir u.tmp_id u.id u.created_at u.kind
          u.filename u.media u.reader s).1

  -- The temporary file is not beneath the artifact root.
  abbrev pub IsApart : Upload x → Type 0
  IsApart u =
      starts_with (path_join temporary_dir (Externals.uuid_to_string x u.tmp_id)) artifact_root
      ≡ false

module _ (x : Externals) (h : Hasher) (m : Machine) (L : IsMachine m)
    (artifact_root temporary_dir : String) where
  abbrev stored_all : List (Upload x) → Machine.State m → Machine.State m
  stored_all = store_all x h m artifact_root temporary_dir

  abbrev AllApart : List (Upload x) → Type 0
  AllApart = All (IsApart x h m artifact_root temporary_dir)

-- ===== src/ArtifactStore/Keeps.antt =====
-- `store_artifact` keeps the database and the files in step: no row without its file.
use text.Mathlib.Text.{starts_with}
use executorch_bencher.Prelude.{String, List, [], ◌∷◌, ◌≡◌, ◌≢◌, ◌∙◌, sym, ap, true, false, subst}
use executorch_bencher.Prelude.Lists.{All}
use executorch_bencher.Prelude.Text.{path_join}
use executorch_bencher.Domain.{is_sha256}
use executorch_bencher.ArtifactStore.{ArtifactRow}
use executorch_bencher.ArtifactStore.Machine.{Machine, Spares}
use executorch_bencher.ArtifactStore.Paths.{relative_path-relative, starts_with-path_join}
use executorch_bencher.ArtifactStore.Store.{relative_path_for}

module _ (m : Machine) (artifact_root : String) where
  -- The row's digest is one, its path is the digest's, and the file is there.
  pub record IsLanded (s : Machine.State m) (r : ArtifactRow) : Type 0 where
    pub digest : is_sha256 r.sha256 ≡ true
    pub path : r.storage_path ≡ relative_path_for r.sha256
    pub present : m.exists s (path_join artifact_root r.storage_path) ≡ true

  -- Every row of the table has its file.
  abbrev pub IsConsistent : Machine.State m → Type 0
  IsConsistent s = All (IsLanded s) (m.rows s)

  -- And the file of this digest is there.
  abbrev pub Landed : String → Machine.State m → Type 0
  Landed sha s =
      IsConsistent s × (m.exists s (path_join artifact_root (relative_path_for sha)) ≡ true)

  pub All-map :
      (s t : Machine.State m) (l : List ArtifactRow)
      → ((r : ArtifactRow) → IsLanded s r → IsLanded t r)
      → All (IsLanded s) l
      → All (IsLanded t) l
  All-map s t [] f h = tt
  All-map s t (r ∷ l) f (h, hs) = (f r h, All-map s t l f hs)

  -- A path that is not beneath the root is not the path of an artifact.
  pub path-ne :
      (tmp sha : String)
      → starts_with tmp artifact_root ≡ false
      → is_sha256 sha ≡ true
      → path_join artifact_root (relative_path_for sha) ≢ tmp
  path-ne tmp sha apart digest e =
      let under =
        starts_with-path_join artifact_root (relative_path_for sha)
          (relative_path-relative sha digest) in
      cc (apart, ap (λ p. starts_with p artifact_root) e, under)

  module _ (tmp : String) (apart : starts_with tmp artifact_root ≡ false) where
    pub IsConsistent-Spares :
        (s t : Machine.State m) → Spares m tmp s t → IsConsistent s → IsConsistent t
    IsConsistent-Spares s t p h = subst (All (IsLanded t)) (sym p.same_rows) (
        All-map s t (m.rows s)
          (λ r l. record {
            digest = l.digest;
            path = l.path;
            present =
                p.kept _
                  (λ e.
                    path-ne tmp r.sha256 apart l.digest
                      (ap (path_join artifact_root) (sym l.path) ∙ e))
                  l.present;
          })
          h)

-- ===== src/ArtifactStore/Recorded.antt =====
-- `store_artifact`: the row that is found or inserted, and the whole function.
use mathlib.Core.List.{Mem}
use executorch_bencher.Prelude.{
  ℤ, String, Option, none, some, ◌≡◌, refl, ◌∙◌, sym, ap, true, Result, ok, err, subst, map_err,
  ok_or, wrap_some,
}
use executorch_bencher.Prelude.Lists.{All}
use executorch_bencher.Prelude.Text.{path_join}
use executorch_bencher.Prelude.Action.{Leads, Leads-bind, Leads-attempt, attempt, ◌>>=◌}
use executorch_bencher.Domain.{is_sha256}
use executorch_bencher.Externals.{Externals}
use executorch_bencher.Sqlx.{SqlxError}
use executorch_bencher.ArtifactStore.{ArtifactRow, db, invalid_stored_id, no_matching_row}
use executorch_bencher.ArtifactStore.Keeps.{IsLanded, Landed, IsConsistent, All-map}
use executorch_bencher.ArtifactStore.Machine.{Hasher, Machine, IsMachine}
use executorch_bencher.ArtifactStore.Store.{relative_path_for, find_existing, parse_existing}

module _ (x : Externals) (h : Hasher) (m : Machine) (L : IsMachine m) (artifact_root : String) where
  open x use {Uuid, uuid_to_string, uuid_parse_str, uuid_parse_str-to_string}
  open m use {State, exists, rows, insert_row, select_id}

  -- The table has a row with the digest and the size, and this is its ID.
  pub record HasRow (sha : String) (n : ℤ) (id : Uuid) (s : State) : Type 0 where
    pub row : ArtifactRow
    pub is_there : Mem row (rows s)
    pub same_digest : row.sha256 ≡ sha
    pub same_size : row.size_bytes ≡ n
    pub same_id : uuid_parse_str row.id ≡ some id

  HasRow-answered :
      (sha : String) (n : ℤ) (s : State) (id : Uuid) (a : Result SqlxError (Option String))
      → select_id sha n s ≡ a
      → parse_existing x h m (map_err db a) ≡ ok (some id)
      → HasRow sha n id s
  unfolding parse_existing
  HasRow-answered sha n s id (err e) p q = cc
  HasRow-answered sha n s id (ok none) p q = cc
  HasRow-answered sha n s id (ok (some text)) p q =
      let (row, there, same, digest, size) = L.select_id_lem sha text n s p in
      record {
        row = row;
        is_there = there;
        same_digest = digest;
        same_size = size;
        same_id = ap uuid_parse_str same ∙ parsed (uuid_parse_str text) q;
      }
    where
      parsed :
          (o : Option Uuid)
          → wrap_some (ok_or (invalid_stored_id text) o) ≡ ok (some id)
          → o ≡ some id
      parsed none e = cc
      parsed (some u) e = cc

  -- What the lookup finds is in the table.
  pub HasRow-find_existing :
      (sha : String) (n : ℤ) (s : State) (id : Uuid)
      → find_existing x h m sha n s ≡ ok (some id)
      → HasRow sha n id s
  unfolding find_existing
  HasRow-find_existing sha n s id p = HasRow-answered sha n s id (select_id sha n s) refl p

  -- An INSERT touches no file.
  IsLanded-insert_row :
      (row r : ArtifactRow) (s : State)
      → IsLanded m artifact_root s r
      → IsLanded m artifact_root (insert_row row s).1 r
  IsLanded-insert_row row r s l = record {
    digest = l.digest;
    path = l.path;
    present = L.exists-insert_row row _ s ∙ l.present;
  }

  pub Landed-err :
      (row : ArtifactRow) (sha : String) (s : State) (e : SqlxError)
      → (insert_row row s).0 ≡ err e
      → Landed m artifact_root sha s
      → Landed m artifact_root sha (insert_row row s).1
  Landed-err row sha s e p (c, l) = (
    subst (All (IsLanded m artifact_root (insert_row row s).1)) (sym (L.insert_row-err row e s p))
        (All-map m artifact_root s _ (rows s) (λ r. IsLanded-insert_row row r s) c),
    L.exists-insert_row row _ s ∙ l,
  )

  -- The row of a digest whose file has landed.
  pub Landed-ok :
      (row : ArtifactRow) (s : State)
      → is_sha256 row.sha256 ≡ true
      → row.storage_path ≡ relative_path_for row.sha256
      → (insert_row row s).0 ≡ ok tt
      → Landed m artifact_root row.sha256 s
      → Landed m artifact_root row.sha256 (insert_row row s).1
  Landed-ok row s digest path p (c, l) =
      let there = L.exists-insert_row row _ s ∙ l in
      (
        subst (All (IsLanded m artifact_root (insert_row row s).1)) (sym (L.insert_row-ok row s p))
            (
              record {
                digest = digest;
                path = path;
                present =
                    ap (λ q. exists (insert_row row s).1 (path_join artifact_root q)) path ∙ there;
              },
              All-map m artifact_root s _ (rows s) (λ r. IsLanded-insert_row row r s) c,
            ),
        there,
      )

  -- The file has landed, and the table has its row.
  abbrev pub Recorded : String → ℤ → Uuid → State → Type 0
  Recorded sha n id s = Landed m artifact_root sha s × HasRow sha n id s

  -- After an INSERT that lost a race.
  pub reread-Recorded :
      (sha : String) (n : ℤ)
      → Leads
          (Landed m artifact_root sha)
          (do
            existing ← attempt (find_existing x h m sha n)
            attempt (λ t. ok_or no_matching_row existing))
          (Recorded sha n)
          (IsConsistent m artifact_root)
  reread-Recorded sha n =
      Leads-bind
        {Q = λ existing s.
          Landed m artifact_root sha s × (find_existing x h m sha n s ≡ ok existing)}
        (Leads-attempt (find_existing x h m sha n) (λ s l a e. (l, e)) (λ s l. l.0))
        λ existing.
          Leads-attempt (λ t. ok_or no_matching_row existing)
            (λ s (l, e) a f. (l, HasRow-find_existing sha n s a (e ∙ ap ok (chosen existing f))))
            (λ s (l, e). l.0)
    where
      chosen : (o : Option Uuid) {a : Uuid} → ok_or no_matching_row o ≡ ok a → o ≡ some a
      chosen none f = cc
      chosen (some b) f = cc

-- ===== src/Integrity/Found.antt =====
-- What the single searches of the report find: IDs, and files on disk.
use executorch_bencher.Prelude.{
  String, Bool, true, false, not, some, List, [], ◌∷◌, map, Result, ok, err, ◌>>=◌, >>=-eq-ok,
  ok_inj, ok_or, ok_or-eq-ok, map_err, map_err-eq-ok, if◌then◌else◌, ◌≡◌, refl, ◌∙◌, sym, subst,
  ◌⊎◌, inl, inr, ◌↔◌,
}
use executorch_bencher.Prelude.Search.{filter, Any, Any-append, sum_iff, iff_trans}
use executorch_bencher.Prelude.Text.{path_join}
use executorch_bencher.ArtifactStore.{
  IoError, not_found, other_io, size_limit_exceeded, ArtifactRow,
}
use executorch_bencher.Externals.{Externals}
use executorch_bencher.Integrity.{
  IntegrityError, filesystem_error, invalid_artifact_id, FileType, directory, file, DirEntry, Tree,
  parse_ids, missing_files, with_file, walk_files, walk_prefix, walk_prefixes, walk_opened,
  walk_content_addressed_files,
}

module _ (x : Externals) where
  open x use {Uuid, uuid_parse_str}

  -- The IDs that were parsed are those of the texts.
  pub parse_ids-Any :
      (invalid : String → IntegrityError) (texts : List String) (ids : List Uuid) (u : Uuid)
      → parse_ids x invalid texts ≡ ok ids
      → Any (λ v. v ≡ u) ids ↔ Any (λ t. uuid_parse_str t ≡ some u) texts
  unfolding parse_ids
  parse_ids-Any invalid [] ids u h = subst (λ l. Any (λ v. v ≡ u) l ↔ ⊥) (ok_inj h) (λ e. e, λ e. e)
  parse_ids-Any invalid (text ∷ rest) ids u h =
      let (id, e, h1) = >>=-eq-ok (ok_or (invalid text) (uuid_parse_str text)) _ h in
      let (later, e1, h2) = >>=-eq-ok (parse_ids x invalid rest) _ h1 in
      let parsed : uuid_parse_str text ≡ some id = ok_or-eq-ok (invalid text) _ e in
      subst
        (λ l.
          Any (λ v. v ≡ u) l
          ↔ ((uuid_parse_str text ≡ some u) ⊎ Any (λ t. uuid_parse_str t ≡ some u) rest))
        (ok_inj h2)
        (sum_iff (λ k. cc (parsed, k), λ k. cc (parsed, k)) (parse_ids-Any invalid rest later u e1))

  pub missing_files-parse_ids :
      (tree : Tree) (root : String) (rows : List ArtifactRow)
      → missing_files x tree root rows
        ≡ parse_ids x invalid_artifact_id (
            map ArtifactRow.id
              (filter (λ a. not (tree.exists (path_join root a.storage_path))) rows))
  unfolding missing_files parse_ids
  missing_files-parse_ids tree root [] = refl
  missing_files-parse_ids tree root (row ∷ rest) =
      by_test (filter (λ a. not (tree.exists (path_join root a.storage_path))) rest)
        (not (tree.exists (path_join root row.storage_path)))
        (missing_files-parse_ids tree root rest)
    where
      by_test :
          {later : Result IntegrityError (List Uuid)} (texts : List ArtifactRow) (b : Bool)
          → later ≡ parse_ids x invalid_artifact_id (map ArtifactRow.id texts)
          → (if b
              then (do
                id ← ok_or (invalid_artifact_id row.id) (uuid_parse_str row.id)
                ids ← later
                ok (id ∷ ids))
              else later)
            ≡ parse_ids x invalid_artifact_id
                (map ArtifactRow.id (if b then row ∷ texts else texts))
      by_test texts true e = rw e refl
      by_test texts false e = e

-- The entry answered here is a file of this prefix, at this path.
abbrev pub IsFile : String → String → Result IoError DirEntry → Type 0
IsFile prefix p answer =
    (f : DirEntry) × (answer ≡ ok f)
    × (f.file_type ≡ ok file)
    × (path_join (path_join "sha256" prefix) f.file_name ≡ p)

module _ (tree : Tree) where
  -- The entry answered here is a directory that can be read and has such a file.
  abbrev pub IsBelow : String → String → Result IoError DirEntry → Type 0
  IsBelow dir p answer =
      (d : DirEntry) × (answer ≡ ok d)
      × (d.file_type ≡ ok directory)
      × (answers : List (Result IoError DirEntry)) × (tree.read_dir (path_join dir d.file_name)
          ≡ ok answers)
      × Any (IsFile d.file_name p) answers

  -- The path is that of a file two levels below `sha256`.
  abbrev pub IsOnDisk : String → String → Type 0
  IsOnDisk root p =
      (answers : List (Result IoError DirEntry)) × (tree.read_dir (path_join root "sha256")
        ≡ ok answers)
      × Any (IsBelow (path_join root "sha256") p) answers

  with_file-Any :
      (prefix p : String) (f : DirEntry) (answer : Result IoError DirEntry) (kind : FileType)
      (later : List String) (R : Type 0)
      → answer ≡ ok f
      → f.file_type ≡ ok kind
      → Any (λ q. q ≡ p) later ↔ R
      → Any (λ q. q ≡ p) (with_file kind (path_join (path_join "sha256" prefix) f.file_name) later)
        ↔ (IsFile prefix p answer ⊎ R)
  unfolding with_file
  with_file-Any prefix p f answer FileType.file later R e k i =
      sum_iff (λ same. (f, e, k, same), λ (g, e', k', same). cc (e, e', same)) i
  with_file-Any prefix p f answer FileType.directory later R e k i =
      iff_trans i
        (λ r. inr r, λ d. elim d [ inl (g, e', k', same) ↦ cc (e, e', k, k') | inr r ↦ r ])
  with_file-Any prefix p f answer FileType.other later R e k i =
      iff_trans i
        (λ r. inr r, λ d. elim d [ inl (g, e', k', same) ↦ cc (e, e', k, k') | inr r ↦ r ])

  walk_files-Any :
      (prefix p : String) (answers : List (Result IoError DirEntry)) (found : List String)
      → walk_files prefix answers ≡ ok found
      → Any (λ q. q ≡ p) found ↔ Any (IsFile prefix p) answers
  unfolding walk_files
  walk_files-Any prefix p [] found h =
      subst (λ l. Any (λ q. q ≡ p) l ↔ ⊥) (ok_inj h) (λ e. e, λ e. e)
  walk_files-Any prefix p (answer ∷ rest) found h =
      let (f, e, h1) = >>=-eq-ok (map_err filesystem_error answer) _ h in
      let (kind, k, h2) = >>=-eq-ok (map_err filesystem_error f.file_type) _ h1 in
      let (later, l, h3) = >>=-eq-ok (walk_files prefix rest) _ h2 in
      subst (λ m. Any (λ q. q ≡ p) m ↔ (IsFile prefix p answer ⊎ Any (IsFile prefix p) rest))
        (ok_inj h3)
        (with_file-Any prefix p f answer kind later (Any (IsFile prefix p) rest)
          (map_err-eq-ok filesystem_error answer e) (map_err-eq-ok filesystem_error f.file_type k)
          (walk_files-Any prefix p rest later l))

  opened_again :
      (dir p : String) (d g : DirEntry) (answers others : List (Result IoError DirEntry))
      → g ≡ d
      → tree.read_dir (path_join dir d.file_name) ≡ ok answers
      → tree.read_dir (path_join dir g.file_name) ≡ ok others
      → Any (IsFile g.file_name p) others
      → Any (IsFile d.file_name p) answers
  opened_again dir p d g answers others same read read' found =
      let (read_, found_) =
        subst
          (λ k.
            (tree.read_dir (path_join dir (DirEntry.file_name k)) ≡ ok others)
            × Any (IsFile (DirEntry.file_name k) p) others)
          same (read', found) in
      subst (Any (IsFile d.file_name p)) (ok_inj (sym read_ ∙ read)) found_

  walk_prefix-Any :
      (dir p : String) (d : DirEntry) (answer : Result IoError DirEntry) (kind : FileType)
      (here : List String)
      → answer ≡ ok d
      → d.file_type ≡ ok kind
      → walk_prefix tree dir d.file_name kind ≡ ok here
      → Any (λ q. q ≡ p) here ↔ IsBelow dir p answer
  unfolding walk_prefix
  walk_prefix-Any dir p d answer FileType.directory here e k h =
      let (answers, r, h1) =
        >>=-eq-ok (map_err filesystem_error (tree.read_dir (path_join dir d.file_name))) _ h in
      let read : tree.read_dir (path_join dir d.file_name) ≡ ok answers =
        map_err-eq-ok filesystem_error _ r in
      let (to, of) = walk_files-Any d.file_name p answers here h1 in
      (
        λ a. (d, e, k, answers, read, to a),
        λ (g, e', k', others, read', found).
            of (opened_again dir p d g answers others (ok_inj (sym e' ∙ e)) read read' found),
      )
  walk_prefix-Any dir p d answer FileType.file here e k h =
      subst (λ l. Any (λ q. q ≡ p) l ↔ IsBelow dir p answer) (ok_inj h)
        (λ a. absurd a, λ (g, e', k', others, read', found). cc (e, e', k, k'))
  walk_prefix-Any dir p d answer FileType.other here e k h =
      subst (λ l. Any (λ q. q ≡ p) l ↔ IsBelow dir p answer) (ok_inj h)
        (λ a. absurd a, λ (g, e', k', others, read', found). cc (e, e', k, k'))

  walk_prefixes-Any :
      (dir p : String) (answers : List (Result IoError DirEntry)) (found : List String)
      → walk_prefixes tree dir answers ≡ ok found
      → Any (λ q. q ≡ p) found ↔ Any (IsBelow dir p) answers
  unfolding walk_prefixes
  walk_prefixes-Any dir p [] found h =
      subst (λ l. Any (λ q. q ≡ p) l ↔ ⊥) (ok_inj h) (λ e. e, λ e. e)
  walk_prefixes-Any dir p (answer ∷ rest) found h =
      let (d, e, h1) = >>=-eq-ok (map_err filesystem_error answer) _ h in
      let (kind, k, h2) = >>=-eq-ok (map_err filesystem_error d.file_type) _ h1 in
      let (here, w, h3) = >>=-eq-ok (walk_prefix tree dir d.file_name kind) _ h2 in
      let (later, l, h4) = >>=-eq-ok (walk_prefixes tree dir rest) _ h3 in
      subst (λ m. Any (λ q. q ≡ p) m ↔ (IsBelow dir p answer ⊎ Any (IsBelow dir p) rest))
        (ok_inj h4)
        (iff_trans (Any-append (λ q. q ≡ p) here later) (
          sum_iff
            (walk_prefix-Any dir p d answer kind here (map_err-eq-ok filesystem_error answer e)
              (map_err-eq-ok filesystem_error d.file_type k) w)
            (walk_prefixes-Any dir p rest later l)))

  -- The files that the walk finds are those on disk.
  pub walk-IsOnDisk :
      (root p : String) (found : List String)
      → walk_content_addressed_files tree root ≡ ok found
      → Any (λ q. q ≡ p) found ↔ IsOnDisk root p
  unfolding walk_content_addressed_files walk_opened
  walk-IsOnDisk root p found h = by_answer (tree.read_dir (path_join root "sha256")) refl h
    where
      by_answer :
          (r : Result IoError (List (Result IoError DirEntry)))
          → tree.read_dir (path_join root "sha256") ≡ r
          → walk_opened tree (path_join root "sha256") r ≡ ok found
          → Any (λ q. q ≡ p) found ↔ IsOnDisk root p
      by_answer (ok answers) e k =
          let (to, of) = walk_prefixes-Any (path_join root "sha256") p answers found k in
          (
            λ a. (answers, e, to a),
            λ (others, e', b).
                of (subst (Any (IsBelow (path_join root "sha256") p)) (ok_inj (sym e' ∙ e)) b),
          )
      by_answer (err (not_found t)) e k =
          subst (λ l. Any (λ q. q ≡ p) l ↔ IsOnDisk root p) (ok_inj k)
            (λ a. absurd a, λ (others, e', b). cc (e, e'))
      by_answer (err (other_io t)) e k = cc
      by_answer (err size_limit_exceeded) e k = cc

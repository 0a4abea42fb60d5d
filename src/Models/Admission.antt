-- ===== src/Models/Admission.antt =====
-- Which paths `validate_register_path` lets through.
use executorch_bencher.Prelude.{
  String, Bool, true, false, not, Option, some, none, List, [], ◌∷◌, ok, err, if◌then◌else◌, ◌≡◌,
  ◌↔◌, ◌⊎◌, inl, inr, refl, sym, subst, ok_inj,
}
use executorch_bencher.Prelude.Text.{is_absolute}
use executorch_bencher.ApiError.{ApiError}
use executorch_bencher.Models.Paths.{
  extension, is_pte, path_starts_with, beneath, find_root, check_resolved, validate_register_path,
}

module _ (canonicalize : String → Option String) (is_file : String → Bool) where
  -- One of the roots resolves to a directory that the path is beneath.
  abbrev pub IsBeneath : List String → String → Type 0
  IsBeneath [] resolved = ⊥
  IsBeneath (root ∷ roots) resolved =
      ((r : String) × (canonicalize root ≡ some r) × (path_starts_with resolved r ≡ true))
      ⊎ IsBeneath roots resolved

  pub record IsAdmitted (roots : List String) (raw resolved : String) : Type 0 where
    pub absolute : is_absolute raw ≡ true
    pub named : is_pte (extension raw) ≡ true
    pub resolves : canonicalize raw ≡ some resolved
    pub file : is_file resolved ≡ true
    pub confined : IsBeneath roots resolved

  find_root-IsBeneath :
      (roots : List String) (resolved r : String)
      → find_root canonicalize is_file roots resolved ≡ ok r
      → (r ≡ resolved) × IsBeneath roots resolved
  unfolding find_root beneath
  find_root-IsBeneath [] resolved r h = cc
  find_root-IsBeneath (root ∷ roots) resolved r h =
      by_root (canonicalize root) refl h (find_root-IsBeneath roots resolved r)
    where
      by_test :
          (s : String) (b : Bool)
          → canonicalize root ≡ some s
          → path_starts_with resolved s ≡ b
          → (if b then ok resolved else find_root canonicalize is_file roots resolved) ≡ ok r
          → (find_root canonicalize is_file roots resolved ≡ ok r
              → (r ≡ resolved) × IsBeneath roots resolved)
          → (r ≡ resolved) × IsBeneath (root ∷ roots) resolved
      by_test s true c t e later = (sym (ok_inj e), inl (s, c, t))
      by_test s false c t e later = let (same, under) = later e in (same, inr under)

      by_root :
          (o : Option String)
          → canonicalize root ≡ o
          → (if beneath canonicalize is_file o resolved
              then ok resolved
              else find_root canonicalize is_file roots resolved)
            ≡ ok r
          → (find_root canonicalize is_file roots resolved ≡ ok r
              → (r ≡ resolved) × IsBeneath roots resolved)
          → (r ≡ resolved) × IsBeneath (root ∷ roots) resolved
      by_root none c e later = let (same, under) = later e in (same, inr under)
      by_root (some s) c e later = by_test s _ c refl e later

  find_root_of_IsBeneath :
      (roots : List String) (resolved : String)
      → IsBeneath roots resolved
      → find_root canonicalize is_file roots resolved ≡ ok resolved
  unfolding find_root beneath
  find_root_of_IsBeneath [] resolved h = absurd h
  find_root_of_IsBeneath (root ∷ roots) resolved (inl (r, c, t)) = rw (c, t)
  find_root_of_IsBeneath (root ∷ roots) resolved (inr later) =
      either (beneath canonicalize is_file (canonicalize root) resolved)
        (find_root_of_IsBeneath roots resolved later)
    where
      either :
          (b : Bool)
          → find_root canonicalize is_file roots resolved ≡ ok resolved
          → (if b then ok resolved else find_root canonicalize is_file roots resolved) ≡ ok resolved
      either true e = refl
      either false e = e

  -- What follows from an answer, by the outcome of each test.
  resolved-IsAdmitted :
      (roots : List String) (raw r : String) (o : Option String)
      → is_absolute raw ≡ true
      → is_pte (extension raw) ≡ true
      → canonicalize raw ≡ o
      → check_resolved canonicalize is_file roots raw o ≡ ok r
      → IsAdmitted roots raw r
  unfolding check_resolved
  resolved-IsAdmitted roots raw r none a n c h = cc
  resolved-IsAdmitted roots raw r (some resolved) a n c h = by_file _ _ refl h
    where
      by_file :
          (g : ApiError) (b : Bool)
          → is_file resolved ≡ b
          → (if not b then err g else find_root canonicalize is_file roots resolved) ≡ ok r
          → IsAdmitted roots raw r
      by_file g false f e = cc
      by_file g true f e =
          let (same, under) = find_root-IsBeneath roots resolved r e in
          subst (IsAdmitted roots raw) (sym same)
            (record { absolute = a; named = n; resolves = c; file = f; confined = under })

  validate_register_path-IsAdmitted :
      (roots : List String) (raw r : String)
      → validate_register_path canonicalize is_file roots raw ≡ ok r
      → IsAdmitted roots raw r
  unfolding validate_register_path
  validate_register_path-IsAdmitted roots raw r h = by_tests _ _ _ _ refl refl h
    where
      by_tests :
          (f g : ApiError) (a b : Bool)
          → is_absolute raw ≡ a
          → is_pte (extension raw) ≡ b
          → (if not a
              then err f
              else if not b
              then err g
              else check_resolved canonicalize is_file roots raw (canonicalize raw))
            ≡ ok r
          → IsAdmitted roots raw r
      by_tests f g false b p q e = cc
      by_tests f g true false p q e = cc
      by_tests f g true true p q e = resolved-IsAdmitted roots raw r (canonicalize raw) p q refl e

  validate_register_path_of_IsAdmitted :
      (roots : List String) (raw r : String)
      → IsAdmitted roots raw r
      → validate_register_path canonicalize is_file roots raw ≡ ok r
  unfolding validate_register_path check_resolved
  validate_register_path_of_IsAdmitted roots raw r h =
      rw (h.absolute, h.named, h.resolves, h.file) (find_root_of_IsBeneath roots r h.confined)

  -- A path is accepted, and resolved to this, exactly if it is absolute, is named `.pte`, resolves to
  -- this regular file, and this lies beneath what one of the roots resolves to.
  pub validate_register_path_lem :
      (roots : List String) (raw resolved : String)
      → (validate_register_path canonicalize is_file roots raw ≡ ok resolved)
        ↔ IsAdmitted roots raw resolved
  validate_register_path_lem roots raw resolved = (
    validate_register_path-IsAdmitted roots raw resolved,
    validate_register_path_of_IsAdmitted roots raw resolved,
  )

-- ===== src/Config/Values.antt =====
-- What the readers of single variables answer: values of the variables, or defaults.
use Prim.Native.Char.{code}
use executorch_bencher.Prelude.{
  ℕ, String, Bool, true, false, Option, some, none, List, [], ◌∷◌, ltb, ◌==◌, ◌^◌, Result, ok, err,
  if◌then◌else◌, ◌≡◌, refl, sym, subst, ◌⊎◌, inl, inr, >>=-eq-ok, ok_inj,
}
use executorch_bencher.Prelude.Lists.{All}
use executorch_bencher.Prelude.Text.{is_blank, is_empty, path_join}
use executorch_bencher.ImportLog.Parse.{digits}
use executorch_bencher.Config.Vars.{
  EnvVar, not_present, not_unicode, value, ConfigError, is_set_empty, has_empty_entry, trim,
  split_colon, below_u64, parse_u64, required_of, required_var, path_of, path_var_or_default,
  number_or, u64_of, parse_u64_var, entry_of, entries_of, path_list_of, path_list_var,
}

-- The value of a `u64`
abbrev pub IsU64 : ℕ → Type 0
IsU64 n = ltb n (2 ^ 64) ≡ true

below_u64-IsU64 : (o : Option ℕ) (n : ℕ) → below_u64 o ≡ some n → IsU64 n
unfolding below_u64
below_u64-IsU64 none n h = cc
below_u64-IsU64 (some m) n h = by_test (ltb m (2 ^ 64)) refl h
  where
    by_test :
        (b : Bool)
        → ltb m (2 ^ 64) ≡ b
        → ◌≡◌ {A = Option ℕ} (if b then some m else none) (some n)
        → IsU64 n
    by_test true p e = cc
    by_test false p e = cc

parse_u64-IsU64 : (s : String) (n : ℕ) → parse_u64 s ≡ some n → IsU64 n
unfolding parse_u64
parse_u64-IsU64 String.[] n h = cc
parse_u64-IsU64 (String.◌∷◌ c s) n h = by_sign (code c == b'+') h
  where
    by_sign :
        (b : Bool)
        → (if b then below_u64 (digits s) else below_u64 (digits (String.◌∷◌ c s))) ≡ some n
        → IsU64 n
    by_sign true e = below_u64-IsU64 (digits s) n e
    by_sign false e = below_u64-IsU64 (digits (String.◌∷◌ c s)) n e

module _ (env : String → EnvVar) where
  -- The path is the value of the variable, not blank, or, if it is not set, beneath the data root.
  abbrev pub IsPath : String → String → String → String → Type 0
  IsPath name data_root leaf p =
      ((env name ≡ not_present) × (p ≡ path_join data_root leaf))
      ⊎ ((env name ≡ value p) × (is_blank p ≡ false))

  -- The value of a required variable.
  abbrev pub IsRequired : String → String → Type 0
  IsRequired name v = (env name ≡ value v) × (is_blank v ≡ false)

  not_blank :
      (name v p : String)
      → ◌≡◌ {A = Result ConfigError String}
          (if is_blank v then err (is_set_empty name) else ok v)
          (ok p)
      → (v ≡ p) × (is_blank p ≡ false)
  not_blank name v p h = by_test (is_blank v) refl h
    where
      by_test :
          (b : Bool)
          → is_blank v ≡ b
          → ◌≡◌ {A = Result ConfigError String} (if b then err (is_set_empty name) else ok v) (ok p)
          → (v ≡ p) × (is_blank p ≡ false)
      by_test true e h = cc
      by_test false e h = (ok_inj h, subst (λ u. is_blank u ≡ false) (ok_inj h) e)

  pub required_var-IsRequired : (name v : String) → required_var env name ≡ ok v → IsRequired name v
  unfolding required_var required_of
  required_var-IsRequired name v h = by_value (env name) refl h
    where
      by_value : (o : EnvVar) → env name ≡ o → required_of env name o ≡ ok v → IsRequired name v
      by_value not_present e h = cc
      by_value not_unicode e h = cc
      by_value (value u) e h = let (same, full) = not_blank name u v h in (cc, full)

  pub path_var_or_default-IsPath :
      (name data_root leaf p : String)
      → path_var_or_default env name data_root leaf ≡ ok p
      → IsPath name data_root leaf p
  unfolding path_var_or_default path_of
  path_var_or_default-IsPath name data_root leaf p h = by_value (env name) refl h
    where
      by_value :
          (o : EnvVar)
          → env name ≡ o
          → path_of env name data_root leaf o ≡ ok p
          → IsPath name data_root leaf p
      by_value not_present e h = inl (e, sym (ok_inj h))
      by_value not_unicode e h = cc
      by_value (value u) e h = let (same, full) = not_blank name u p h in inr (cc, full)

  pub parse_u64_var-IsU64 :
      (name : String) (default n : ℕ)
      → IsU64 default
      → parse_u64_var env name default ≡ ok n
      → IsU64 n
  unfolding parse_u64_var u64_of number_or
  parse_u64_var-IsU64 name default n d h = by_value (env name) h
    where
      by_number :
          (o : Option ℕ) → ((m : ℕ) → o ≡ some m → IsU64 m) → number_or env name o ≡ ok n → IsU64 n
      by_number none k h = cc
      by_number (some m) k h = subst IsU64 (ok_inj h) (k m refl)

      by_test :
          (v : String) (b : Bool)
          → (if b then err (is_set_empty name) else number_or env name (parse_u64 (trim v))) ≡ ok n
          → IsU64 n
      by_test v true h = cc
      by_test v false h = by_number (parse_u64 (trim v)) (parse_u64-IsU64 (trim v)) h

      by_value : (o : EnvVar) → u64_of env name default o ≡ ok n → IsU64 n
      by_value not_present h = subst IsU64 (ok_inj h) d
      by_value not_unicode h = cc
      by_value (value v) h = by_test v (is_blank v) h

  entries_of-full :
      (name : String) (entries paths : List String)
      → entries_of env name entries ≡ ok paths
      → All (λ p. is_empty p ≡ false) paths
  unfolding entries_of entry_of
  entries_of-full name [] paths h = subst (All (λ p. is_empty p ≡ false)) (ok_inj h) tt
  entries_of-full name (entry ∷ rest) paths h =
      let (path, here, h1) = >>=-eq-ok (entry_of env name (trim entry)) _ h in
      let (later, there, h2) = >>=-eq-ok (entries_of env name rest) _ h1 in
      subst (All (λ p. is_empty p ≡ false)) (ok_inj h2) (
        not_empty (trim entry) path (is_empty (trim entry)) refl here,
        entries_of-full name rest later there,
      )
    where
      not_empty :
          (e path : String) (b : Bool)
          → is_empty e ≡ b
          → ◌≡◌ {A = Result ConfigError String}
              (if b then err (has_empty_entry name) else ok e)
              (ok path)
          → is_empty path ≡ false
      not_empty e path true p h = cc
      not_empty e path false p h = subst (λ u. is_empty u ≡ false) (ok_inj h) p

  entries_of-some :
      (name entry : String) (rest paths : List String)
      → entries_of env name (entry ∷ rest) ≡ ok paths
      → ¬ (paths ≡ [])
  unfolding entries_of
  entries_of-some name entry rest paths h e =
      let (path, here, h1) = >>=-eq-ok (entry_of env name (trim entry)) _ h in
      let (later, there, h2) = >>=-eq-ok (entries_of env name rest) _ h1 in cc (ok_inj h2, e)

  -- The default alone, or a list that is not empty and has no empty entry.
  abbrev pub IsPathList : String → List String → Type 0
  IsPathList default paths =
      (paths ≡ default ∷ []) ⊎ (All (λ p. is_empty p ≡ false) paths × ¬ (paths ≡ []))

  pub path_list_var-IsPathList :
      (name default : String) (paths : List String)
      → path_list_var env name default ≡ ok paths
      → IsPathList default paths
  unfolding path_list_var path_list_of
  path_list_var-IsPathList name default paths h = by_value (env name) h
    where
      by_test :
          (v : String) (b : Bool)
          → (if b
              then err (is_set_empty name)
              else entries_of env name ((split_colon v).0 ∷ (split_colon v).1))
            ≡ ok paths
          → IsPathList default paths
      by_test v true h = cc
      by_test v false h = inr (
        entries_of-full name ((split_colon v).0 ∷ (split_colon v).1) paths h,
        entries_of-some name (split_colon v).0 (split_colon v).1 paths h,
      )

      by_value :
          (o : EnvVar) → path_list_of env name default o ≡ ok paths → IsPathList default paths
      by_value not_present h = inl (sym (ok_inj h))
      by_value not_unicode h = inl (sym (ok_inj h))
      by_value (value v) h = by_test v (is_blank v) h

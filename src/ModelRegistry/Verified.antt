-- ===== src/ModelRegistry/Verified.antt =====
-- What verification finds out about a model asset.
use executorch_bencher.Prelude.{
  pos, Bool, true, false, some, List, [], ◌∷◌, map, if◌then◌else◌, ◌≡◌, refl, ◌∙◌, ap, sym, subst,
}
use executorch_bencher.Prelude.Lists.{All}
use executorch_bencher.Prelude.Text.{str_eq, eq_iff}
use executorch_bencher.Prelude.Action.{
  Leads, Leads-bind, Leads-attempt, Leads-or_err, Leads-of_cases,
}
use executorch_bencher.Externals.{Externals}
use executorch_bencher.ModelRegistry.{
  ModelRegistryError, db, disappeared, ModelAsset, ModelRow, get_model_asset,
}
use executorch_bencher.ModelRegistry.Read.{IsRead, get_model_asset-IsRead}
use executorch_bencher.ModelRegistry.Registry.{
  ModelsTable, IsModelsTable, as_unavailable, where_id, require, refetch, mark_unavailable,
}

module _ {x : Externals} (t : ModelsTable x) (L : IsModelsTable t) where
  open x use {Uuid, uuid_to_string, uuid_parse_str}
  open t use {Db, rows, set_unavailable, update_content}

  -- Every row with the ID satisfies `Q`.
  abbrev pub ById : Uuid → (ModelRow x → Type 0) → Db → Type 0
  ById id Q s = All (λ r. r.id ≡ uuid_to_string id → Q r) (rows s)

  -- The asset was read from a row with the ID that satisfies `Q`.
  pub record IsFetched (id : Uuid) (Q : ModelRow x → Type 0) (a : ModelAsset x) : Type 0 where
    pub row : ModelRow x
    pub holds : Q row
    pub read : IsRead x row a
    pub same_id : a.id ≡ id

  pub refetch-IsFetched :
      (e : ModelRegistryError) (id : Uuid) (Q : ModelRow x → Type 0)
      → Leads (ById id Q) (refetch t e id) (λ a s. IsFetched id Q a) (λ s. Unit {0})
  unfolding refetch
  refetch-IsFetched e id Q =
      Leads-attempt (λ s. require t e (get_model_asset x (t.select_id s) id))
        (λ s held a p.
          let (r, found, read) = get_model_asset-IsRead x t e a s id p in
          let (named, holds) = L.select_id_lem s (uuid_to_string id) r found in
          record {
            row = r;
            holds = holds (λ r. r.id ≡ uuid_to_string id → Q r) held named;
            read = read;
            same_id = same a r id read named;
          })
        (λ s held. tt)
    where
      some_inj : {u v : Uuid} → some u ≡ some v → u ≡ v
      some_inj h = cc

      same :
          (a : ModelAsset x) (r : ModelRow x) (id : Uuid)
          → IsRead x r a
          → r.id ≡ uuid_to_string id
          → a.id ≡ id
      same a r id read named =
          some_inj (sym read.id ∙ ap uuid_parse_str named ∙ x.uuid_parse_str-to_string id)

  -- An UPDATE by ID makes `Q` hold of the rows with the ID.
  pub updated-ById :
      (id : Uuid) (f : ModelRow x → ModelRow x) (Q : ModelRow x → Type 0) (l : List (ModelRow x))
      → ((r : ModelRow x) → Q (f r))
      → All (λ r. r.id ≡ uuid_to_string id → Q r) (map (where_id (uuid_to_string id) f) l)
  updated-ById id f Q [] k = tt
  updated-ById id f Q (r ∷ rest) k = (one _ refl, updated-ById id f Q rest k)
    where
      one :
          (b : Bool)
          → str_eq r.id (uuid_to_string id) ≡ b
          → (if b then f r else r).id ≡ uuid_to_string id
          → Q (if b then f r else r)
      one true h e = k r
      one false h e = absurd (cc (h, (eq_iff r.id (uuid_to_string id)).1 e))

  pub mark_unavailable-IsFetched :
      (asset : ModelAsset x)
      → Leads
          (λ s. Unit {0})
          (mark_unavailable t asset)
          (λ a s. IsFetched asset.id (λ r. r.available ≡ pos 0) a)
          (λ s. Unit {0})
  unfolding mark_unavailable
  mark_unavailable-IsFetched asset =
      Leads-bind
        (Leads-or_err db (
          Leads-of_cases (set_unavailable (uuid_to_string asset.id))
            (λ s u p e.
              subst (All (λ r. r.id ≡ uuid_to_string asset.id → r.available ≡ pos 0))
                (sym (L.set_unavailable-ok (uuid_to_string asset.id) s e))
                (updated-ById asset.id as_unavailable (λ r. r.available ≡ pos 0) (rows s)
                  (λ r. refl)))
            (λ s f p e. tt)))
        (λ u. refetch-IsFetched disappeared asset.id (λ r. r.available ≡ pos 0))

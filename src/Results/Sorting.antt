-- ===== src/Results/Sorting.antt =====
-- A stable sort by a Boolean order, as `sort_by` and `sort_by_key` (src/results.rs), and lookups
-- by position, which panic out of range.
use mathlib.Core.List.Perm
use mathlib.Core.List.{Perm}
use executorch_bencher.Prelude.{
  ℕ, zero, suc, ◌<◌, Bool, true, false, ◌≡◌, refl, ap, ◌∙◌, arith, List, [], ◌∷◌, ◌++◌, length, All,
  Result, ok, err, Bool-cases, inl, inr, if◌then◌else◌,
}

module _ {ℓ} {A : Type ℓ} (le : A → A → Bool) where
  unfoldable pub insert : A → List A → List A
  insert a [] = a ∷ []
  insert a (b ∷ rest) = let later = insert a rest in if le a b then a ∷ b ∷ rest else b ∷ later

  unfoldable pub sort : List A → List A
  sort [] = []
  sort (a ∷ rest) = insert a (sort rest)

  unfoldable pub IsSorted : List A → Type 0
  IsSorted [] = Unit
  IsSorted (a ∷ rest) = All (λ b. le a b ≡ true) rest × IsSorted rest

  insert-here : (a b : A) (rest : List A) → le a b ≡ true → insert a (b ∷ rest) ≡ a ∷ b ∷ rest
  unfolding insert
  insert-here a b rest h = rw h

  insert-there :
      (a b : A) (rest : List A) → le a b ≡ false → insert a (b ∷ rest) ≡ b ∷ insert a rest
  unfolding insert
  insert-there a b rest h = rw h

  insert-perm : (a : A) (l : List A) → Perm (insert a l) (a ∷ l)
  unfolding insert
  insert-perm a [] = Perm.rfl
  insert-perm a (b ∷ rest) = elim (Bool-cases (le a b)) [
    | inl h ↦ rw (insert-here a b rest h) Perm.rfl
    | inr h ↦
        rw (insert-there a b rest h)
          (Perm.trans (Perm.cons b (insert-perm a rest)) (Perm.swap a b rest))
  ]

  pub sort-perm : (l : List A) → Perm (sort l) l
  unfolding sort
  sort-perm [] = Perm.rfl
  sort-perm (a ∷ rest) = Perm.trans (insert-perm a (sort rest)) (Perm.cons a (sort-perm rest))

  length-insert : (a : A) (l : List A) → length (insert a l) ≡ suc (length l)
  unfolding insert
  length-insert a [] = refl
  length-insert a (b ∷ rest) = elim (Bool-cases (le a b)) [
    | inl h ↦ rw (insert-here a b rest h) refl
    | inr h ↦ rw (insert-there a b rest h) (ap suc (length-insert a rest))
  ]

  pub length-sort : (l : List A) → length (sort l) ≡ length l
  unfolding sort
  length-sort [] = refl
  length-sort (a ∷ rest) = length-insert a (sort rest) ∙ ap suc (length-sort rest)

  insert-All : (P : A → Type 0) (a : A) (l : List A) → P a → All P l → All P (insert a l)
  unfolding insert
  insert-All P a [] p h = (p, tt)
  insert-All P a (b ∷ rest) p h = elim (Bool-cases (le a b)) [
    | inl e ↦ rw (insert-here a b rest e) (p, h)
    | inr e ↦ rw (insert-there a b rest e) (h.0, insert-All P a rest p h.1)
  ]

-- Transitivity carries a bound of the first element to the rest.
All-trans {ℓ} :
    {A : Type ℓ} (le : A → A → Bool)
    → ((u v w : A) → le u v ≡ true → le v w ≡ true → le u w ≡ true)
    → (a b : A) → le a b ≡ true
    → (l : List A) → All (λ c. le b c ≡ true) l
    → All (λ c. le a c ≡ true) l
All-trans le trans a b h [] k = tt
All-trans le trans a b h (c ∷ rest) k = (trans a b c h k.0, All-trans le trans a b h rest k.1)

module _ {ℓ} {A : Type ℓ} (le : A → A → Bool) (total : (v w : A) → le v w ≡ false → le w v ≡ true)
    (trans : (u v w : A) → le u v ≡ true → le v w ≡ true → le u w ≡ true) where
  insert-IsSorted : (a : A) (l : List A) → IsSorted le l → IsSorted le (insert le a l)
  unfolding insert IsSorted
  insert-IsSorted a [] h = (tt, tt)
  insert-IsSorted a (b ∷ rest) h = elim (Bool-cases (le a b)) [
    | inl e ↦ rw (insert-here le a b rest e) ((e, All-trans le trans a b e rest h.0), h)
    | inr e ↦
        rw (insert-there le a b rest e)
          (insert-All le (λ c. le b c ≡ true) a rest (total a b e) h.0, insert-IsSorted a rest h.1)
  ]

  pub sort-IsSorted : (l : List A) → IsSorted le (sort le l)
  unfolding sort IsSorted
  sort-IsSorted [] = tt
  sort-IsSorted (a ∷ rest) = insert-IsSorted a (sort le rest) (sort-IsSorted rest)

All-middle {ℓ} :
    {A : Type ℓ} (P : A → Type 0) (l : List A) (a : A) (r : List A) → All P (l ++ a ∷ r) → P a
All-middle P [] a r h = h.0
All-middle P (c ∷ l) a r h = All-middle P l a r h.1

-- What stands before an element of a sorted list is at most it, and what follows is at least it.
pub IsSorted-split {ℓ} :
    {A : Type ℓ} (le : A → A → Bool) (l : List A) (a : A) (r : List A)
    → IsSorted le (l ++ a ∷ r)
    → All (λ v. le v a ≡ true) l × All (λ v. le a v ≡ true) r × IsSorted le r
unfolding IsSorted
IsSorted-split le [] a r h = (tt, h.0, h.1)
IsSorted-split le (b ∷ l) a r h =
    let (before, after, rest) = IsSorted-split le l a r h.1 in
    ((All-middle (λ v. le b v ≡ true) l a r h.0, before), after, rest)

-- `v[k]`, which panics where there is no such element.
pub data Panic : Type 0 where
  index_out_of_bounds : Panic

unfoldable pub index {ℓ} : {A : Type ℓ} → List A → ℕ → Result Panic A
index [] k = err index_out_of_bounds
index (a ∷ rest) zero = ok a
index (a ∷ rest) (suc k) = index rest k

module _ {ℓ} {A : Type ℓ} where
  pub index-append :
      (l : List A) (a : A) (r : List A) (k : ℕ) → length l ≡ k → index (l ++ a ∷ r) k ≡ ok a
  unfolding index
  index-append [] a r zero h = refl
  index-append (b ∷ l) a r (suc k) h = index-append l a r k (omega (arith, h))
  index-append [] a r (suc k) h = absurd (omega (arith, h))
  index-append (b ∷ l) a r zero h = absurd (omega (arith, h))

  pub index-append_suc :
      (l : List A) (a b : A) (r : List A) (k : ℕ)
      → suc (length l) ≡ k
      → index (l ++ a ∷ b ∷ r) k ≡ ok b
  unfolding index
  index-append_suc l a b r zero h = absurd (omega (arith, h))
  index-append_suc [] a b r (suc k) h = index-append [] b r k (omega (arith, h))
  index-append_suc (c ∷ l) a b r (suc k) h = index-append_suc l a b r k (omega (arith, h))

  -- A list has an element at every position below its length, with that many before it.
  pub split_at :
      (l : List A) (k : ℕ)
      → k < length l
      → (before : List A) × (a : A) × (after : List A) × (l ≡ before ++ a ∷ after)
        × (length before ≡ k)
  split_at [] k h = absurd (omega (arith, h))
  split_at (a ∷ rest) zero h = ([], a, rest, refl, refl)
  split_at (b ∷ rest) (suc k) h =
      let (before, a, after, e, size) = split_at rest k (omega (arith, h)) in
      (b ∷ before, a, after, ap (◌∷◌ b) e, ap suc size)

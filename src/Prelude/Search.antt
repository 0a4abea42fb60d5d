-- ===== src/Prelude/Search.antt =====
-- Searching lists: what some element satisfies, and the elements that satisfy a test.
use mathlib.Core.Path.{◌≡◌, refl, sym, subst}
use mathlib.Core.Logic.{◌↔◌, ◌⊎◌, inl, inr}
use mathlib.Core.Bool.{Bool, true, false, not, ◌||◌}
use mathlib.Core.List.{List, [], ◌∷◌, ◌++◌, map}
use executorch_bencher.Prelude.Tests.{if◌then◌else◌}

-- Equivalences, one after another and of the parts of a sum or a product.
pub iff_trans : {A B C : Type 0} → A ↔ B → B ↔ C → A ↔ C
iff_trans (f, g) (h, k) = (λ a. h (f a), λ c. g (k c))

pub sum_iff : {A B C D : Type 0} → A ↔ B → C ↔ D → (A ⊎ C) ↔ (B ⊎ D)
sum_iff (f, g) (h, k) = (
  λ d. elim d [ inl a ↦ inl (f a) | inr c ↦ inr (h c) ],
  λ d. elim d [ inl b ↦ inl (g b) | inr e ↦ inr (k e) ],
)

pub product_iff : {A B C D : Type 0} → A ↔ B → C ↔ D → (A × C) ↔ (B × D)
product_iff (f, g) (h, k) = (λ (a, c). (f a, h c), λ (b, d). (g b, k d))

pub or_lem :
    {P Q : Type 0} (b c : Bool) → (b ≡ true) ↔ P → (c ≡ true) ↔ Q → ((b || c) ≡ true) ↔ (P ⊎ Q)
or_lem true c (f, g) (h, k) = (λ e. inl (f refl), λ e. refl)
or_lem false c (f, g) (h, k) = (λ e. inr (h e), λ d. elim d [ inl p ↦ cc (g p) | inr q ↦ k q ])

module _ {ℓ} {A : Type ℓ} where
  abbrev pub any : (A → Bool) → List A → Bool
  any p [] = false
  any p (a ∷ rest) = p a || any p rest

  abbrev pub filter : (A → Bool) → List A → List A
  filter p [] = []
  filter p (a ∷ rest) = let later = filter p rest in if p a then a ∷ later else later

  -- Some element has the property.
  abbrev pub Any : (A → Type 0) → List A → Type 0
  Any P [] = ⊥
  Any P (a ∷ rest) = P a ⊎ Any P rest

  pub Any-iff : {P Q : A → Type 0} → ((a : A) → P a ↔ Q a) → (l : List A) → Any P l ↔ Any Q l
  Any-iff k [] = (λ h. h, λ h. h)
  Any-iff k (a ∷ rest) = sum_iff (k a) (Any-iff k rest)

  pub any_lem :
      {P : A → Type 0} (p : A → Bool)
      → ((a : A) → (p a ≡ true) ↔ P a)
      → (l : List A) → (any p l ≡ true) ↔ Any P l
  any_lem p k [] = (λ h. cc, λ h. absurd h)
  any_lem p k (a ∷ rest) = or_lem (p a) (any p rest) (k a) (any_lem p k rest)

  -- No element has the property.
  pub not_any_lem :
      {P : A → Type 0} (p : A → Bool)
      → ((a : A) → (p a ≡ true) ↔ P a)
      → (l : List A) → (not (any p l) ≡ true) ↔ (¬ Any P l)
  not_any_lem {P} p k l = by_test (any p l) (any_lem p k l)
    where
      by_test : (b : Bool) → (b ≡ true) ↔ Any P l → (not b ≡ true) ↔ (¬ Any P l)
      by_test true (f, g) = (λ h. cc, λ h. absurd (h (f refl)))
      by_test false (f, g) = (λ e h. cc (g h), λ h. refl)

  filter_lem :
      (P : A → Type 0) (q : A → Bool) (a : A) (b : Bool) (rest : List A) (R : Type 0)
      → q a ≡ b
      → Any P rest ↔ R
      → Any P (if b then a ∷ rest else rest) ↔ ((P a × (q a ≡ true)) ⊎ R)
  filter_lem P q a true rest R e (f, g) = (
    λ h. elim h [ inl p ↦ inl (p, e) | inr r ↦ inr (f r) ],
    λ h. elim h [ inl (p, t) ↦ inl p | inr r ↦ inr (g r) ],
  )
  filter_lem P q a false rest R e (f, g) =
      (λ h. inr (f h), λ h. elim h [ inl (p, t) ↦ cc (e, t) | inr r ↦ g r ])

  pub Any-filter :
      (P : A → Type 0) (q : A → Bool) (l : List A)
      → Any P (filter q l) ↔ Any (λ a. P a × (q a ≡ true)) l
  Any-filter P q [] = (λ h. h, λ h. h)
  Any-filter P q (a ∷ rest) =
      filter_lem P q a (q a) (filter q rest) (Any (λ b. P b × (q b ≡ true)) rest) refl
        (Any-filter P q rest)

  pub Any-append : (P : A → Type 0) (l r : List A) → Any P (l ++ r) ↔ (Any P l ⊎ Any P r)
  Any-append P [] r = (λ h. inr h, λ h. elim h [ inl e ↦ absurd e | inr k ↦ k ])
  Any-append P (a ∷ l) r =
      let (f, g) = Any-append P l r in
      (
        λ h. elim h [
          | inl p ↦ inl (inl p)
          | inr k ↦ elim (f k) [ inl m ↦ inl (inr m) | inr m ↦ inr m ]
        ],
        λ h. elim h [
          | inl (inl p) ↦ inl p
          | inl (inr m) ↦ inr (g (inl m))
          | inr m ↦ inr (g (inr m))
        ],
      )

pub Any-map {ℓ κ} :
    {A : Type ℓ} {B : Type κ} (P : B → Type 0) (f : A → B) (l : List A)
    → Any P (map f l) ↔ Any (λ a. P (f a)) l
Any-map P f [] = (λ h. h, λ h. h)
Any-map P f (a ∷ rest) = sum_iff (λ h. h, λ h. h) (Any-map P f rest)

-- An element that is `a`, with a property.
pub Any-with :
    {A : Type 0} (Q : A → Type 0) (a : A) (l : List A)
    → Any (λ b. (b ≡ a) × Q b) l ↔ (Any (λ b. b ≡ a) l × Q a)
Any-with Q a [] = (λ h. absurd h, λ (h, q). h)
Any-with Q a (b ∷ rest) =
    let (f, g) = Any-with Q a rest in
    (
      λ h. elim h [
        | inl (e, q) ↦ (inl e, subst Q e q)
        | inr r ↦ let (found, q) = f r in (inr found, q)
      ],
      λ (h, q). elim h [ inl e ↦ inl (e, subst Q (sym e) q) | inr r ↦ inr (g (r, q)) ],
    )

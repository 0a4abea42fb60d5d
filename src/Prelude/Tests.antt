-- ===== src/Prelude/Tests.antt =====
-- Boolean tests on the native numbers and on texts, the conditional, and Rust's `Result`.
use Prim.Native.Nat.{ℕ, compare, Ordering}
use mathlib.Core.Path.{◌≡◌, refl, subst}
use mathlib.Core.Logic.{◌⊎◌, inl, inr}
use mathlib.Core.Bool.{Bool, true, false}
use mathlib.Core.Option.{Option, none, some}

abbrev pub ltb : ℕ → ℕ → Bool
ltb a b = elim (compare a b) [ Ordering.lt ↦ true | _ ↦ false ]

abbrev pub leb : ℕ → ℕ → Bool
leb a b = elim (compare a b) [ Ordering.gt ↦ false | _ ↦ true ]

infix 50 ◌==◌
abbrev pub ◌==◌ : ℕ → ℕ → Bool
a == b = elim (compare a b) [ Ordering.eq ↦ true | _ ↦ false ]

infix 1 if◌then◌else◌
abbrev pub if◌then◌else◌ {ℓ} : {A : Type ℓ} → Bool → A → A → A
if true then x else y = x
if false then x else y = y

pub Bool-cases : (b : Bool) → (b ≡ true) ⊎ (b ≡ false)
Bool-cases true = inl refl
Bool-cases false = inr refl

module _ {ℓ} {A : Type ℓ} where
  pub Option-cases : (o : Option A) → (o ≡ none) ⊎ ((a : A) × (o ≡ some a))
  Option-cases none = inl refl
  Option-cases (some a) = inr (a, refl)

  abbrev pub is_some : Option A → Bool
  is_some none = false
  is_some (some a) = true

  abbrev pub is_none : Option A → Bool
  is_none none = true
  is_none (some a) = false

-- `Result<A, E>`
pub data Result {ℓ κ} (E : Type κ) (A : Type ℓ) : Type (ℓ ⊔ κ) where
  ok : A → Result E A
  err : E → Result E A

-- The `?` operator.
infixl 5 ◌>>=◌ ◌>>◌
abbrev pub ◌>>=◌ {ℓ κ μ} :
    {E : Type μ} {A : Type ℓ} {B : Type κ} → Result E A → (A → Result E B) → Result E B
ok a >>= f = f a
err e >>= f = err e

abbrev pub ◌>>◌ {ℓ κ μ} :
    {E : Type μ} {A : Type ℓ} {B : Type κ} → Result E A → Result E B → Result E B
ok a >> k = k
err e >> k = err e

-- `Result::map_err`
abbrev pub map_err {ℓ κ μ} :
    {E : Type κ} {F : Type μ} {A : Type ℓ} → (E → F) → Result E A → Result F A
map_err f (ok a) = ok a
map_err f (err e) = err (f e)

-- `Option::ok_or_else`
abbrev pub ok_or {ℓ κ} : {E : Type κ} {A : Type ℓ} → E → Option A → Result E A
ok_or e none = err e
ok_or e (some a) = ok a

-- `Result::map(Some)`
abbrev pub wrap_some {ℓ κ} : {E : Type κ} {A : Type ℓ} → Result E A → Result E (Option A)
wrap_some (ok a) = ok (some a)
wrap_some (err e) = err e

-- `Option<Result<A, E>>::transpose` after `Option::map`.
abbrev pub transpose_map {ℓ κ μ} :
    {E : Type κ} {A : Type ℓ} {B : Type μ} → (A → Result E B) → Option A → Result E (Option B)
transpose_map f none = ok none
transpose_map f (some a) = wrap_some (f a)

-- `Result::is_ok`
abbrev pub is_ok {ℓ κ} : {E : Type κ} {A : Type ℓ} → Result E A → Bool
is_ok (ok a) = true
is_ok (err e) = false

-- What a successful chain says of its parts.
module _ {ℓ κ μ} {E : Type μ} {A : Type ℓ} {B : Type κ} where
  pub >>=-eq-ok :
      (step : Result E A) (next : A → Result E B) {result : B}
      → (step >>= next) ≡ ok result
      → (a : A) × (step ≡ ok a) × (next a ≡ ok result)
  >>=-eq-ok (err e) next reached = cc
  >>=-eq-ok (ok a) next reached = (a, refl, reached)

  pub >>-eq-ok :
      (step : Result E A) (rest : Result E B) {result : B}
      → (step >> rest) ≡ ok result
      → (is_ok step ≡ true) × (rest ≡ ok result)
  >>-eq-ok (err e) rest reached = cc
  >>-eq-ok (ok a) rest reached = (refl, reached)

module _ {ℓ κ} {E : Type κ} {A : Type ℓ} where
  pub is_ok_of_eq : (m : Result E A) {a : A} → m ≡ ok a → is_ok m ≡ true
  is_ok_of_eq (ok a) h = refl
  is_ok_of_eq (err e) h = cc

  pub is_ok-cases : (m : Result E A) → is_ok m ≡ true → (a : A) × (m ≡ ok a)
  is_ok-cases (ok a) h = (a, refl)
  is_ok-cases (err e) h = cc

module _ {ℓ κ} {E : Type κ} {A : Type ℓ} where
  pub ok_or-eq-ok : (e : E) (o : Option A) {a : A} → ok_or e o ≡ ok a → o ≡ some a
  ok_or-eq-ok e none h = cc
  ok_or-eq-ok e (some b) h = cc

  pub ok_inj : {a b : A} → ◌≡◌ {A = Result E A} (ok a) (ok b) → a ≡ b
  ok_inj h = cc

module _ {ℓ κ μ} {E : Type κ} {F : Type μ} {A : Type ℓ} where
  pub map_err-eq-ok : (f : E → F) (m : Result E A) {a : A} → map_err f m ≡ ok a → m ≡ ok a
  map_err-eq-ok f (ok a) h = cc
  map_err-eq-ok f (err e) h = cc

  pub map_err-eq-err :
      (f : E → F) (m : Result E A) {b : F} → map_err f m ≡ err b → (e : E) × (m ≡ err e) × (b ≡ f e)
  map_err-eq-err f (ok a) h = cc
  map_err-eq-err f (err e) h = (e, refl, cc)

-- A predicate that a step guarantees of what is there holds of the optional result.
pub transpose_map_lem {ℓ κ μ ν} :
    {E : Type κ} {A : Type ℓ} {B : Type μ} (P : Option B → Type ν) (f : A → Result E B)
    (o : Option A)
    → P none
    → ((a : A) (b : B) → f a ≡ ok b → P (some b))
    → (r : Option B) → transpose_map f o ≡ ok r
    → P r
transpose_map_lem P f none n k r h = subst P (cc) n
transpose_map_lem {E} {A} {B} P f (some a) n k r h = go (f a) refl h
  where
    go : (m : Result E B) → f a ≡ m → wrap_some m ≡ ok r → P r
    go (ok b) e q = subst P (cc) (k a b e)
    go (err e) e' q = cc

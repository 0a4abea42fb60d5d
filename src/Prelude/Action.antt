-- ===== src/Prelude/Action.antt =====
-- Code that changes a state and may fail, as the state it is given and what it returns: the `?`
-- operator on it, and the rules by which a proof follows it.
use executorch_bencher.Prelude.Tests.{Result, ok, err}
use mathlib.Core.Path.{◌≡◌, refl, subst}

abbrev pub Action {ℓ} : Type 0 → Type 0 → Type ℓ → Type ℓ
Action E S A = S → Result E A × S

module _ {E S : Type 0} where
  -- A value, a failure, and a look at the state.
  abbrev pub pure {ℓ} : {A : Type ℓ} → A → Action E S A
  pure a s = (ok a, s)

  abbrev pub fail {ℓ} : {A : Type ℓ} → E → Action E S A
  fail e s = (err e, s)

  abbrev pub attempt {ℓ} : {A : Type ℓ} → (S → Result E A) → Action E S A
  attempt f s = (f s, s)

  abbrev pub look {ℓ} : {A : Type ℓ} → (S → A) → Action E S A
  look f s = (ok (f s), s)

  abbrev pub proceed {ℓ κ} :
      {A : Type ℓ} {B : Type κ} → (A → Action E S B) → Result E A × S → Result E B × S
  proceed f (ok a, s) = f a s
  proceed f (err e, s) = (err e, s)

  -- `m?`
  infixl 5 ◌>>=◌ ◌>>◌
  abbrev pub ◌>>=◌ {ℓ κ} :
      {A : Type ℓ} {B : Type κ} → Action E S A → (A → Action E S B) → Action E S B
  m >>= f = λ s. proceed f (m s)

  abbrev pub ◌>>◌ {ℓ κ} : {A : Type ℓ} {B : Type κ} → Action E S A → Action E S B → Action E S B
  m >> k = λ s. proceed (λ a. k) (m s)

  abbrev pub run_ok {ℓ} : Result E (Unit {ℓ}) × S → Result E (Unit {ℓ}) × S
  run_ok (r, s) = (ok tt, s)

  -- `let _ = m`
  abbrev pub ignore {ℓ} : Action E S (Unit {ℓ}) → Action E S (Unit {ℓ})
  ignore m = λ s. run_ok (m s)

  -- `m.inspect_err(|_| { let _ = k; })`
  abbrev pub on_err {ℓ κ} :
      {F : Type 0} {A : Type ℓ} → Action F S (Unit {κ}) → Result E A × S → Result E A × S
  on_err k (ok a, s) = (ok a, s)
  on_err k (err e, s) = (err e, (k s).1)

  abbrev pub inspect_err {ℓ κ} :
      {F : Type 0} {A : Type ℓ} → Action E S A → Action F S (Unit {κ}) → Action E S A
  inspect_err m k = λ s. on_err k (m s)

abbrev pub wrap_error {ℓ} :
    {E F S : Type 0} {A : Type ℓ} → (E → F) → Result E A × S → Result F A × S
wrap_error f (ok a, s) = (ok a, s)
wrap_error f (err e, s) = (err (f e), s)

-- The conversion of the error that `?` makes.
abbrev pub or_err {ℓ} : {E F S : Type 0} {A : Type ℓ} → (E → F) → Action E S A → Action F S A
or_err f m = λ s. wrap_error f (m s)

-- What holds of an outcome: `Q` of the value and the state, `R` of the state after a failure.
abbrev pub Outcome {ℓ κ} :
    {E S : Type 0} {A : Type ℓ} → (A → S → Type κ) → (S → Type κ) → Result E A × S → Type κ
Outcome Q R (ok a, s) = Q a s
Outcome Q R (err e, s) = R s

module _ {E S : Type 0} where
  -- From a state with `P`, the action ends with `Q`, or fails with `R`.
  pub record Leads {ℓ κ} {A : Type ℓ} (P : S → Type κ) (m : Action E S A) (Q : A → S → Type κ)
      (R : S → Type κ) : Type (ℓ ⊔ κ) where
    pub from : (s : S) → P s → Outcome Q R (m s)

module _ {ℓ κ μ} {E S : Type 0} {A : Type ℓ} {B : Type μ} where
  Outcome-proceed :
      {Q : A → S → Type κ} {Q' : B → S → Type κ} {R : S → Type κ} (o : Result E A × S)
      (f : A → Action E S B)
      → Outcome Q R o
      → ((a : A) → Leads (Q a) (f a) Q' R)
      → Outcome Q' R (proceed f o)
  Outcome-proceed (ok a, s) f h k = (k a).from s h
  Outcome-proceed (err e, s) f h k = h

  -- One step after another.
  pub Leads-bind :
      {P : S → Type κ} {Q : A → S → Type κ} {Q' : B → S → Type κ} {R : S → Type κ}
      {m : Action E S A} {f : A → Action E S B}
      → Leads P m Q R
      → ((a : A) → Leads (Q a) (f a) Q' R)
      → Leads P (m >>= f) Q' R
  Leads-bind {m} {f} h k = record { from = λ s p. Outcome-proceed (m s) f (h.from s p) k }

module _ {ℓ κ} {E S : Type 0} {A : Type ℓ} where
  pub Leads-pure :
      {P : S → Type κ} {Q : A → S → Type κ} {R : S → Type κ} (a : A)
      → ((s : S) → P s → Q a s)
      → Leads {E = E} P (pure a) Q R
  Leads-pure a h = record { from = h }

  pub Leads-fail :
      {P : S → Type κ} {Q : A → S → Type κ} {R : S → Type κ} (e : E)
      → ((s : S) → P s → R s)
      → Leads P (fail e) Q R
  Leads-fail e h = record { from = h }

  Outcome-result :
      (Q : A → S → Type κ) (R : S → Type κ) (r : Result E A) (s : S)
      → ((a : A) → r ≡ ok a → Q a s)
      → R s
      → Outcome Q R (r, s)
  Outcome-result Q R (ok a) s h k = h a refl
  Outcome-result Q R (err e) s h k = k

  pub Leads-attempt :
      {P : S → Type κ} {Q : A → S → Type κ} {R : S → Type κ} (f : S → Result E A)
      → ((s : S) → P s → (a : A) → f s ≡ ok a → Q a s)
      → ((s : S) → P s → R s)
      → Leads P (attempt f) Q R
  Leads-attempt f h k = record { from = λ s p. Outcome-result _ _ (f s) s (h s p) (k s p) }

  Outcome-weaken :
      {Q Q' : A → S → Type κ} {R R' : S → Type κ} (o : Result E A × S)
      → Outcome Q R o
      → ((a : A) (s : S) → Q a s → Q' a s)
      → ((s : S) → R s → R' s)
      → Outcome Q' R' o
  Outcome-weaken (ok a, s) h k l = k a s h
  Outcome-weaken (err e, s) h k l = l s h

  pub Leads-weaken :
      {P P' : S → Type κ} {Q Q' : A → S → Type κ} {R R' : S → Type κ} {m : Action E S A}
      → Leads P m Q R
      → ((s : S) → P' s → P s)
      → ((a : A) (s : S) → Q a s → Q' a s)
      → ((s : S) → R s → R' s)
      → Leads P' m Q' R'
  Leads-weaken {m} h g k l = record { from = λ s p. Outcome-weaken (m s) (h.from s (g s p)) k l }

  Outcome-on_err {μ} :
      {F : Type 0} (Q : A → S → Type κ) (R R' : S → Type κ) (k : Action F S (Unit {μ}))
      (o : Result E A × S)
      → Outcome Q R o
      → ((s : S) → R s → R' (k s).1)
      → Outcome Q R' (on_err k o)
  Outcome-on_err Q R R' k (ok a, s) h l = h
  Outcome-on_err Q R R' k (err e, s) h l = l s h

  pub Leads-inspect_err {μ} :
      {F : Type 0} {P : S → Type κ} {Q : A → S → Type κ} {R R' : S → Type κ} {m : Action E S A}
      (k : Action F S (Unit {μ}))
      → Leads P m Q R
      → ((s : S) → R s → R' (k s).1)
      → Leads P (inspect_err m k) Q R'
  Leads-inspect_err {m} k h l = record { from = λ s p. Outcome-on_err _ _ _ k (m s) (h.from s p) l }

  -- What the outcome of an action that succeeds says.
  pub Leads-ok :
      {P : S → Type κ} {Q : A → S → Type κ} {R : S → Type κ} {m : Action E S A}
      → Leads P m Q R
      → (s : S) (a : A) → P s
      → (m s).0 ≡ ok a
      → Q a (m s).1
  Leads-ok {Q} {R} {m} h s a p e = go (m s) (h.from s p) e
    where
      go : (o : Result E A × S) → Outcome Q R o → o.0 ≡ ok a → Q a o.1
      go (ok b, t) q e' = subst (λ c. Q c t) (cc) q
      go (err f, t) q e' = cc

  -- What holds after either outcome.
  pub Leads-either :
      {P : S → Type κ} {R : S → Type κ} {m : Action E S A}
      → Leads P m (λ a. R) R
      → (s : S) → P s
      → R (m s).1
  Leads-either {R} {m} h s p = go (m s) (h.from s p)
    where
      go : (o : Result E A × S) → Outcome (λ a. R) R o → R o.1
      go (ok b, t) q = q
      go (err f, t) q = q

module _ {ℓ κ} {E F S : Type 0} {A : Type ℓ} where
  Outcome-wrap_error :
      (Q : A → S → Type κ) (R : S → Type κ) (f : E → F) (o : Result E A × S)
      → Outcome Q R o
      → Outcome Q R (wrap_error f o)
  Outcome-wrap_error Q R f (ok a, s) h = h
  Outcome-wrap_error Q R f (err e, s) h = h

  pub Leads-or_err :
      {P : S → Type κ} {Q : A → S → Type κ} {R : S → Type κ} {m : Action E S A} (f : E → F)
      → Leads P m Q R
      → Leads P (or_err f m) Q R
  Leads-or_err {m} f h = record { from = λ s p. Outcome-wrap_error _ _ f (m s) (h.from s p) }

module _ {ℓ κ} {E S : Type 0} {A : Type ℓ} where
  Outcome-of_cases :
      (Q : A → S → Type κ) (R : S → Type κ) (o : Result E A × S)
      → ((a : A) → o.0 ≡ ok a → Q a o.1)
      → ((e : E) → o.0 ≡ err e → R o.1)
      → Outcome Q R o
  Outcome-of_cases Q R (ok a, s) h k = h a refl
  Outcome-of_cases Q R (err e, s) h k = k e refl

  -- By what the action answers.
  pub Leads-of_cases :
      {P : S → Type κ} {Q : A → S → Type κ} {R : S → Type κ} (m : Action E S A)
      → ((s : S) (a : A) → P s → (m s).0 ≡ ok a → Q a (m s).1)
      → ((s : S) (e : E) → P s → (m s).0 ≡ err e → R (m s).1)
      → Leads P m Q R
  Leads-of_cases m h k = record {
    from = λ s p. Outcome-of_cases _ _ (m s) (λ a. h s a p) (λ e. k s e p);
  }

-- ===== src/Events/Interleaving.antt =====
-- `publish` called from several tasks (src/events.rs): taking a number and sending are two steps,
-- and other tasks run between them.
use executorch_bencher.Prelude.{
  ℕ, ◌+◌, ◌^◌, ◌<◌, ◌≡◌, refl, arith, ◌&&◌, List, [], ◌∷◌, ◌++◌, leb, ◌==◌, if◌then◌else◌,
}
use executorch_bencher.Events.Sequence.{next_seq_lem}
use executorch_bencher.Events.{Published, EventBus, empty_bus, next_seq}

module _ {ℓ} {A : Type ℓ} where
  -- How often a number is among the published events.
  unfoldable pub count_seq : ℕ → List (Published A) → ℕ
  count_seq k [] = 0
  count_seq k (p ∷ ps) = (if p.seq == k then 1 else 0) + count_seq k ps

  pub count_seq-append :
      (k : ℕ) (ps qs : List (Published A))
      → count_seq k (ps ++ qs) ≡ count_seq k ps + count_seq k qs
  unfolding count_seq
  count_seq-append k [] qs = omega arith
  count_seq-append k (p ∷ ps) qs = omega (arith, count_seq-append k ps qs)

-- 1 for the numbers from 1 to `n`, and 0 for the others
abbrev pub handed_out : ℕ → ℕ → ℕ
handed_out n k = if leb 1 k && leb k n then 1 else 0

-- The bus, and the events whose number is taken and which are not yet sent.
pub record Tasks {ℓ} (A : Type ℓ) : Type ℓ where
  pub bus : EventBus A
  pub taken : List (Published A)

abbrev pub idle {ℓ} : {A : Type ℓ} → Tasks A
idle = record { bus = empty_bus; taken = [] }

module _ {ℓ} {A : Type ℓ} where
  -- `fetch_add(1) + 1`
  abbrev pub take_number : Tasks A → A → Tasks A
  take_number t e = record {
    bus = record { seq = next_seq t.bus; sent = t.bus.sent };
    taken = record { seq = next_seq t.bus; event = e } ∷ t.taken;
  }

  -- `sender.send(...)`
  abbrev pub send : EventBus A → List (Published A) → Published A → List (Published A) → Tasks A
  send bus before p after = record {
    bus = record { seq = bus.seq; sent = bus.sent ++ p ∷ [] };
    taken = before ++ after;
  }

  -- A task takes a number while the counter has room, or any task that has one sends its event.
  pub data Step : Tasks A → Tasks A → Type ℓ where
    takes : (t : Tasks A) (e : A) → t.bus.seq + 1 < 2 ^ 64 → Step t (take_number t e)
    sends :
        (bus : EventBus A) (before after : List (Published A)) (p : Published A)
        → Step (record { bus = bus; taken = before ++ p ∷ after }) (send bus before p after)

  pub data Reach : Tasks A → Type ℓ where
    start : Reach idle
    next : {t u : Tasks A} → Reach t → Step t u → Reach u

  abbrev IsExact : Tasks A → Type 0
  IsExact t = (k : ℕ) → count_seq k t.taken + count_seq k t.bus.sent ≡ handed_out t.bus.seq k

  Step-IsExact : {t u : Tasks A} → Step t u → IsExact t → IsExact u
  unfolding count_seq
  Step-IsExact (takes t e room) h k = rw (next_seq_lem t.bus room) (ground (arith, h k))
  Step-IsExact (sends bus before after p) h k = omega (
    arith,
    h k,
    count_seq-append k before after,
    count_seq-append k before (p ∷ after),
    count_seq-append k bus.sent (p ∷ []),
  )

  -- However publishers interleave, every number from 1 to the counter's value is carried by
  -- exactly one event, sent or about to be sent, and no other number by any.
  pub numbers_exact :
      {t : Tasks A} (k : ℕ)
      → Reach t
      → count_seq k t.taken + count_seq k t.bus.sent ≡ handed_out t.bus.seq k
  unfolding count_seq
  numbers_exact k start = ground arith
  numbers_exact k (next r s) = Step-IsExact s (λ j. numbers_exact j r) k

  -- Two publishers can send in the other order than they took their numbers: for any two events
  -- there is an interleaving after which the channel holds number 2 before number 1.
  pub out_of_order :
      (e f : A)
      → (t : Tasks A) × Reach t
        × (t.bus.sent ≡ record { seq = 2; event = f } ∷ record { seq = 1; event = e } ∷ [])
  unfolding next_seq
  out_of_order e f =
      let first : Published A = record { seq = 1; event = e } in
      let second : Published A = record { seq = 2; event = f } in
      let one : EventBus A = record { seq = 2; sent = [] } in
      let two : EventBus A = record { seq = 2; sent = second ∷ [] } in
      (
        send two [] first [],
        next
            (next
              (next (next start (takes idle e (omega arith)))
                (takes (take_number idle e) f (omega arith)))
              (sends one [] (first ∷ []) second))
            (sends two [] [] first),
        refl,
      )

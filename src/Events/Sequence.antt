-- ===== src/Events/Sequence.antt =====
-- The sequence numbers of one publisher after another, and the stream that a client reads.
use executorch_bencher.Prelude.{
  ℕ, ◌+◌, ◌^◌, ◌<◌, ◌≡◌, refl, ap, sym, ◌∙◌, ◌⊎◌, inl, inr, arith, List, [], ◌∷◌, ◌++◌, map, Result,
  ok, err, length,
}
use mathlib.Core.List.{append-nil, append_assoc}
use executorch_bencher.Events.{Published, EventBus, next_seq, publish, stream_events}

module _ {ℓ} {A : Type ℓ} where
  unfoldable pub publish_all : EventBus A → List A → EventBus A
  publish_all bus [] = bus
  publish_all bus (e ∷ es) = publish_all (publish bus e).0 es

  -- `n + 1, n + 2, …`, one number for each event.
  unfoldable pub numbered : ℕ → List A → List (Published A)
  numbered n [] = []
  numbered n (e ∷ es) = record { seq = n + 1; event = e } ∷ numbered (n + 1) es

  pub next_seq_lem : (bus : EventBus A) → bus.seq + 1 < 2 ^ 64 → next_seq bus ≡ bus.seq + 1
  unfolding next_seq
  next_seq_lem bus h = omega arith

  publish_lem :
      (bus : EventBus A) (e : A)
      → bus.seq + 1 < 2 ^ 64
      → (publish bus e).0 ≡ record {
        seq = bus.seq + 1;
        sent = bus.sent ++ record { seq = bus.seq + 1; event = e } ∷ [];
      }
  unfolding publish
  publish_lem bus e h = rw (next_seq_lem bus h)

  -- Events published one after another carry consecutive numbers and are sent in that order,
  -- after all that was sent before, as long as the 64-bit counter does not wrap.
  pub publish_all_lem :
      (bus : EventBus A) (es : List A)
      → bus.seq + length es < 2 ^ 64
      → (publish_all bus es).sent ≡ bus.sent ++ numbered bus.seq es
  unfolding publish_all numbered
  publish_all_lem bus [] h = sym (append-nil bus.sent)
  publish_all_lem bus (e ∷ es) h =
      ap (λ (b : EventBus A). (publish_all b es).sent) (publish_lem bus e (omega arith))
      ∙ (publish_all_lem
            (record {
              seq = bus.seq + 1;
              sent = bus.sent ++ record { seq = bus.seq + 1; event = e } ∷ [];
            })
            es (omega arith)
          ∙ append_assoc bus.sent _ _)

  -- What a client is sent is what the channel held for it, up to the first gap and never past it.
  pub stream_events_prefix :
      (items : List (Result ℕ (Published A)))
      → (rest : List (Result ℕ (Published A))) × (items ≡ map ok (stream_events items) ++ rest)
        × ((rest ≡ [])
            ⊎ ((missed : ℕ) × (later : List (Result ℕ (Published A))) × (rest
                  ≡ err missed ∷ later)))
  unfolding stream_events
  stream_events_prefix [] = ([], refl, inl refl)
  stream_events_prefix (ok published ∷ items) =
      let (rest, split, gap) = stream_events_prefix items in
      (rest, ap (◌∷◌ (ok published)) split, gap)
  stream_events_prefix (err missed ∷ items) = (err missed ∷ items, refl, inr (missed, items, refl))

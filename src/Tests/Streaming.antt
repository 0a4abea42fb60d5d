-- ===== src/Tests/Streaming.antt =====
-- Events are published, in turn and interleaved, and streamed.
use executorch_bencher.Prelude.{
  ℕ, ◌+◌, ◌≡◌, arith, String, List, [], ◌∷◌, ◌++◌, map, ◌⊎◌, Result, ok, err,
}
use executorch_bencher.Events.{Published, empty_bus, stream_events}
use executorch_bencher.Events.Sequence.{
  publish_all, numbered, publish_all_lem, stream_events_prefix,
}
use executorch_bencher.Events.Interleaving.{
  Tasks, Reach, start, next, takes, idle, take_number, count_seq, handed_out, numbers_exact,
  out_of_order,
}

abbrev names : List String
names = "a" ∷ "b" ∷ []

abbrev one_taken : Tasks String
one_taken = take_number idle "a"

publish_all_lem_example : (publish_all empty_bus names).sent ≡ [] ++ numbered 0 names
publish_all_lem_example = publish_all_lem empty_bus names (omega arith)

abbrev items : List (Result ℕ (Published String))
items = ok (record { seq = 1; event = "a" }) ∷ err 3 ∷ ok (record { seq = 5; event = "b" }) ∷ []

stream_events_prefix_example :
    (rest : List (Result ℕ (Published String))) × (items ≡ map ok (stream_events items) ++ rest)
    × ((rest ≡ [])
        ⊎ ((missed : ℕ) × (later : List (Result ℕ (Published String))) × (rest
              ≡ err missed ∷ later)))
stream_events_prefix_example = stream_events_prefix items

numbers_exact_example :
    count_seq 1 one_taken.taken + count_seq 1 one_taken.bus.sent ≡ handed_out one_taken.bus.seq 1
numbers_exact_example = numbers_exact 1 (next start (takes idle "a" (omega arith)))

out_of_order_example :
    (t : Tasks String) × Reach t
    × (t.bus.sent ≡ record { seq = 2; event = "b" } ∷ record { seq = 1; event = "a" } ∷ [])
out_of_order_example = out_of_order "a" "b"

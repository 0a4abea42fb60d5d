-- ===== src/RunsApi/Follow.antt =====
-- A client of `GET /api/v1/runs` that follows the tokens of its answers.
use mathlib.Core.Option
use executorch_bencher.Prelude.{ℕ, zero, suc, String, ◌≡◌, List, ◌++◌, map, Option, none, some, ok}
use executorch_bencher.Artifacts.Handlers.{Reply, success, failure}
use executorch_bencher.Externals.{Externals}
use executorch_bencher.Runs.Cursor.{Codec, IsCodec}
use executorch_bencher.Runs.Filter.{RunListFilter, Clause, push_where_clauses}
use executorch_bencher.Runs.Pages.{RunCursor, Listing}
use executorch_bencher.RunsApi.List.{RunSummaryResponse, RunListResponse, list_runs_handler}
use executorch_bencher.RunsApi.Params.{ListRunsParams, parse_list_params}

module _ {x : Externals} where
  -- What a client does with an answer; `again` asks for the page of a token.
  unfoldable on_cursor :
      (String → Option (List (RunSummaryResponse x)))
      → List (RunSummaryResponse x)
      → Option String
      → Option (List (RunSummaryResponse x))
  on_cursor again items none = some items
  on_cursor again items (some token) = Option.map (λ rest. items ++ rest) (again token)

  unfoldable on_reply :
      (String → Option (List (RunSummaryResponse x)))
      → Reply (RunListResponse x)
      → Option (List (RunSummaryResponse x))
  unfolding on_cursor
  on_reply again (failure e) = none
  on_reply again (success r) = on_cursor again r.items r.next_cursor

module _ {x : Externals} (codec : Codec x) (listing : List Clause → Listing x) where
  -- The client asks again, with the token of the answer, within a number of requests.
  unfoldable pub follow : ℕ → ListRunsParams x → Option (List (RunSummaryResponse x))
  unfolding on_reply list_runs_handler
  follow zero params = none
  follow (suc fuel) params =
      on_reply (λ token. follow fuel (record params { cursor = some token }))
        (list_runs_handler codec listing params)

  module _ (law : IsCodec codec) (filter : RunListFilter x) (limit : ℕ) where
    abbrev IsAsked : ListRunsParams x → Option (RunCursor x) → Type 0
    IsAsked params c = parse_list_params codec params ≡ ok (filter, limit, c)

    abbrev page_from : Listing x
    page_from = listing (push_where_clauses filter)

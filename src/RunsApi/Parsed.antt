-- ===== src/RunsApi/Parsed.antt =====
-- What the parameters of the list are that are accepted.
use mathlib.Core.Option
use executorch_bencher.Prelude.{
  ℕ, ◌≤◌, Bool, true, false, ◌||◌, ◌≡◌, refl, subst, ap, Option, some, Result, ok, err, >>=-eq-ok,
  ok_inj, ltb, ◌==◌, if◌then◌else◌, arith,
}
use executorch_bencher.ApiError.{ApiError, plain, invalid_request}
use executorch_bencher.Externals.{Externals}
use executorch_bencher.Runs.Cursor.{Codec, IsCodec, encode, decode-encode}
use executorch_bencher.Runs.Filter.{RunListFilter}
use executorch_bencher.Runs.Pages.{RunCursor}
use executorch_bencher.RunsApi.Params.{
  ListRunsParams, default_limit, max_limit, check_limit, parse_filter, parse_cursor,
  parse_list_params,
}

pub check_limit_lem :
    (n limit : ℕ) → check_limit n ≡ ok limit → (n ≡ limit) × (1 ≤ limit) × (limit ≤ 200)
unfolding check_limit
check_limit_lem n limit h = by_test (n == 0 || ltb max_limit n) refl h
  where
    by_test :
        (b : Bool)
        → (n == 0 || ltb max_limit n) ≡ b
        → ◌≡◌ {A = Result ApiError ℕ}
            (if b then err (invalid_request (plain "limit must be between 1 and 200")) else ok n)
            (ok limit)
        → (n ≡ limit) × (1 ≤ limit) × (limit ≤ 200)
    by_test true e k = cc
    by_test false e k =
        subst (λ m. (n ≡ m) × (1 ≤ m) × (m ≤ 200)) (ok_inj k) (refl, ground arith, ground arith)

module _ {x : Externals} (codec : Codec x) where
  -- A request that was accepted, with the token of a cursor in place of its own.
  pub parse_list_params-cursor :
      IsCodec codec
      → (params : ListRunsParams x) (filter : RunListFilter x) (limit : ℕ)
        (was : Option (RunCursor x)) (c : RunCursor x)
      → parse_list_params codec params ≡ ok (filter, limit, was)
      → parse_list_params codec (record params { cursor = some (encode codec c) })
        ≡ ok (filter, limit, some c)
  unfolding parse_list_params parse_cursor parse_filter
  parse_list_params-cursor law params filter limit was c h =
      let (l, limited, h1) =
        >>=-eq-ok (check_limit (Option.get_or params.limit default_limit)) _ h in
      let (w, read, h2) = >>=-eq-ok (parse_cursor codec params.cursor) _ h1 in
      let (f, filtered, h3) = >>=-eq-ok (parse_filter params) _ h2 in
      rw (limited, decode-encode codec law c, filtered)
        (ap (λ (p : RunListFilter x × ℕ × Option (RunCursor x)). ok (p.0, p.1, some c)) (ok_inj h3))

  pub parse_list_params-limit :
      (params : ListRunsParams x) (filter : RunListFilter x) (limit : ℕ)
      (was : Option (RunCursor x))
      → parse_list_params codec params ≡ ok (filter, limit, was)
      → 1 ≤ limit
  unfolding parse_list_params
  parse_list_params-limit params filter limit was h =
      let (l, limited, h1) =
        >>=-eq-ok (check_limit (Option.get_or params.limit default_limit)) _ h in
      let (w, read, h2) = >>=-eq-ok (parse_cursor codec params.cursor) _ h1 in
      let (f, filtered, h3) = >>=-eq-ok (parse_filter params) _ h2 in
      subst (λ m. 1 ≤ m) (ap (λ (p : RunListFilter x × ℕ × Option (RunCursor x)). p.1) (ok_inj h3))
        (check_limit_lem (Option.get_or params.limit default_limit) l limited).1

-- ===== src/Artifacts/Limits.antt =====
-- src/artifacts_api.rs: the reader that fails once more than a limit was read through it.
use executorch_bencher.Prelude.{
  ℕ, ◌+◌, ◌%◌, ◌^◌, ◌≤◌, ◌<◌, Bool, true, false, Option, none, some, List, [], ◌∷◌, Result, ok, err,
  ltb, if◌then◌else◌, ◌≡◌, refl, ◌∙◌, ap, sym, arith,
}
use executorch_bencher.Prelude.Lists.{length, length-append, All}
use executorch_bencher.ArtifactStore.{IoError, size_limit_exceeded}
use executorch_bencher.ArtifactStore.Copy.{bytes_read, and_then}
use executorch_bencher.ArtifactStore.Machine.{Bytes}

-- `LimitedReader::poll_read`, once the inner reader answers: what it answers instead, and the new
-- `read_so_far`.
unfoldable pub poll_read : (limit read_so_far : ℕ) → Result IoError Bytes → Result IoError Bytes × ℕ
poll_read limit read_so_far (err e) = (err e, read_so_far)
poll_read limit read_so_far (ok slice) =
    let total = (read_so_far + length slice) % 2 ^ 64 in
    (if ltb limit total then err size_limit_exceeded else ok slice, total)

-- The answers of the limited reader to those of the inner one.
unfoldable pub limited :
    (limit read_so_far : ℕ) → List (Result IoError Bytes) → List (Result IoError Bytes)
unfolding poll_read
limited limit read_so_far [] = []
limited limit read_so_far (answer ∷ rest) =
    let (polled, total) = poll_read limit read_so_far answer in polled ∷ limited limit total rest

-- A slice that a buffer in memory can hold.
abbrev pub Fits : ℕ → Result IoError Bytes → Type 0
Fits limit (err e) = Unit
Fits limit (ok slice) = limit + length slice < 2 ^ 64

abbrev pub within : (limit read_so_far : ℕ) → Option Bytes → Option Bytes
within limit read_so_far none = none
within limit read_so_far (some b) = if ltb limit (read_so_far + length b) then none else some b

within-and_then :
    (limit n : ℕ) (b : Bytes) (o : Option Bytes)
    → within limit n (and_then b o) ≡ and_then b (within limit (n + length b) o)
within-and_then limit n b none = refl
within-and_then limit n b (some rest) = ground (arith, length-append b rest)

and_then_over :
    (limit n : ℕ) (b : Bytes) (o : Option Bytes)
    → limit < n + length b
    → within limit n (and_then b o) ≡ none
and_then_over limit n b none h = refl
and_then_over limit n b (some rest) h = ground (arith, length-append b rest)

bytes_read-limited_from :
    (limit n : ℕ) (reader : List (Result IoError Bytes))
    → n ≤ limit
    → All (Fits limit) reader
    → bytes_read (limited limit n reader) ≡ within limit n (bytes_read reader)
unfolding limited poll_read
bytes_read-limited_from limit n [] h k = ground arith
bytes_read-limited_from limit n (err e ∷ rest) h k = refl
bytes_read-limited_from limit n (ok [] ∷ rest) h (k, ks) = ground arith
bytes_read-limited_from limit n (ok (b ∷ bs) ∷ rest) h (k, ks) =
    either ((n + length (b ∷ bs)) % 2 ^ 64) (ltb limit ((n + length (b ∷ bs)) % 2 ^ 64))
      (omega arith) refl
      (λ le. bytes_read-limited_from limit ((n + length (b ∷ bs)) % 2 ^ 64) rest le ks)
  where
    either :
        (total : ℕ) (over : Bool)
        → total ≡ n + length (b ∷ bs)
        → ltb limit total ≡ over
        → (total ≤ limit
            → bytes_read (limited limit total rest) ≡ within limit total (bytes_read rest))
        → bytes_read
            ((if over then err size_limit_exceeded else ok (b ∷ bs)) ∷ limited limit total rest)
          ≡ within limit n (and_then (b ∷ bs) (bytes_read rest))
    either total true e t ih = sym (and_then_over limit n (b ∷ bs) (bytes_read rest) (ground arith))
    either total false e t ih =
        ap (and_then (b ∷ bs)) (ih (ground arith) ∙ ap (λ z. within limit z (bytes_read rest)) e)
        ∙ sym (within-and_then limit n (b ∷ bs) (bytes_read rest))

-- With slices that fit in memory, the limited reader yields the bytes of the inner one if these
-- are at most the limit, and otherwise fails before its end, as it does when the inner one fails.
pub bytes_read-limited :
    (limit : ℕ) (reader : List (Result IoError Bytes))
    → All (Fits limit) reader
    → bytes_read (limited limit 0 reader) ≡ within limit 0 (bytes_read reader)
bytes_read-limited limit reader h = bytes_read-limited_from limit 0 reader (omega arith) h

-- What the limited reader yields is within the limit.
pub bytes_read-limited-le :
    (limit : ℕ) (reader : List (Result IoError Bytes)) (b : Bytes)
    → All (Fits limit) reader
    → bytes_read (limited limit 0 reader) ≡ some b
    → (bytes_read reader ≡ some b) × (length b ≤ limit)
bytes_read-limited-le limit reader b h e =
    within_some (bytes_read reader) (sym (bytes_read-limited limit reader h) ∙ e)
  where
    within_some : (o : Option Bytes) → within limit 0 o ≡ some b → (o ≡ some b) × (length b ≤ limit)
    within_some none p = cc
    within_some (some c) p = either _ refl p
      where
        either :
            (over : Bool)
            → ltb limit (0 + length c) ≡ over
            → (if over then none else some c) ≡ some b
            → (some c ≡ some b) × (length b ≤ limit)
        either true t q = cc
        either false t q = let same : c ≡ b = cc in (q, rw (← same) (ground arith))

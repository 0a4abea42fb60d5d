-- ===== src/ImportLog/Parse.antt =====
-- src/bin/import_observer_log.rs: `parse_log`, and the text operations that it uses.
use Prim.Native.Char.{Char, code}
use executorch_bencher.Prelude.{
  ℕ, ◌+◌, ◌-◌, ◌*◌, ℤ, pos, negsuc, String, not, ◌&&◌, Option, some, none, List, [], ◌∷◌, ◌++◌, ltb,
  leb, ◌==◌, Result, ok, err, ◌>>=◌, if◌then◌else◌, ◌^◌,
}
use executorch_bencher.Prelude.Text.{str_eq, is_empty, is_blank}
use executorch_bencher.Externals.{Externals}

-- `str::strip_prefix`
unfoldable pub strip_prefix : String → String → Option String
strip_prefix String.[] s = some s
strip_prefix (String.◌∷◌ d p) String.[] = none
strip_prefix (String.◌∷◌ d p) (String.◌∷◌ c s) =
    let rest = strip_prefix p s in if code c == code d then rest else none

abbrev with_char : Char → Option String → Option String
with_char c none = none
with_char c (some s) = some (String.◌∷◌ c s)

-- `str::strip_suffix`
unfoldable pub strip_suffix : String → String → Option String
strip_suffix suffix String.[] = if is_empty suffix then some "" else none
strip_suffix suffix (String.◌∷◌ c s) =
    let rest = with_char c (strip_suffix suffix s) in
    if str_eq (String.◌∷◌ c s) suffix then some "" else rest

-- `str::rsplit_once`: at the last occurrence.
unfoldable pub split_here :
    Char → String → Option String → Option (String × String) → Option (String × String)
split_here c s here (some (before, after)) = some (String.◌∷◌ c before, after)
split_here c s none none = none
split_here c s (some after) none = some ("", after)

unfoldable pub rsplit_once : String → String → Option (String × String)
unfolding split_here strip_prefix
rsplit_once separator String.[] = none
rsplit_once separator (String.◌∷◌ c s) =
    split_here c s (strip_prefix separator (String.◌∷◌ c s)) (rsplit_once separator s)

-- The digits of a number, read from the left.
unfoldable pub digits_from : ℕ → String → Option ℕ
digits_from n String.[] = some n
digits_from n (String.◌∷◌ c s) =
    let rest = digits_from (n * 10 + (code c - b'0')) s in
    if leb b'0' (code c) && leb (code c) b'9' then rest else none

unfoldable pub digits : String → Option ℕ
unfolding digits_from
digits s = if is_empty s then none else digits_from 0 s

abbrev positive : Option ℕ → Option ℤ
positive none = none
positive (some n) = if ltb n (2 ^ 63) then some (pos n) else none

abbrev minus : ℕ → ℤ
minus ℕ.zero = pos 0
minus (ℕ.suc n) = negsuc n

abbrev negative : Option ℕ → Option ℤ
negative none = none
negative (some n) = if leb n (2 ^ 63) then some (minus n) else none

-- `str::parse::<i64>`
unfoldable pub parse_i64 : String → Option ℤ
unfolding digits
parse_i64 String.[] = none
parse_i64 (String.◌∷◌ c s) =
    if code c == b'-'
    then negative (digits s)
    else if code c == b'+'
    then positive (digits s)
    else positive (digits (String.◌∷◌ c s))

-- An error, with the number of its line.
pub data LogError : Type 0 where
  bad_repetition : ℕ → String → LogError
  no_marker bad_observer : ℕ → LogError
  unrecognized_line : ℕ → String → LogError

pub record Observer (x : Externals) : Type 0 where
  pub prefill_token_per_sec : Externals.F64 x
  pub decode_token_per_sec : Option (Externals.F64 x)
  pub prompt_tokens : ℤ
  pub generated_tokens : ℤ
  pub model_load_start_ms : ℤ
  pub inference_end_ms : ℤ

pub record Record (x : Externals) : Type 0 where
  pub tag : String
  pub rep : ℤ
  pub line_number : ℕ
  pub raw_line : Option String
  pub observer : Option (Observer x)

-- A marker that waits for its observer line: tag, repetition and line.
abbrev pub Marker : Type 0
Marker = String × ℤ × ℕ

-- `strip_prefix("=== ").and_then(strip_suffix(" ==="))`
unfoldable pub inner_of : Option String → Option String
unfolding strip_suffix
inner_of none = none
inner_of (some line) = strip_suffix " ===" line

-- `serde_json::from_str` at an observer is a parameter.
module _ {x : Externals} (read_observer : String → Option (Observer x)) where
  unfoldable pub bare_record : Marker → Record x
  bare_record (tag, rep, at) = record {
    tag = tag;
    rep = rep;
    line_number = at;
    raw_line = none;
    observer = none;
  }

  -- The record of a marker that nothing followed, behind those before.
  unfoldable pub flush : List (Record x) → Option Marker → List (Record x)
  unfolding bare_record
  flush records none = records
  flush records (some marker) = records ++ bare_record marker ∷ []

  abbrev pub State : Type 0
  State = List (Record x) × Option Marker

  -- A line between `===`.
  unfoldable pub on_repetition :
      ℕ → String → List (Record x) → String → Option ℤ → Result LogError State
  on_repetition n line records tag none = err (bad_repetition n line)
  on_repetition n line records tag (some rep) = ok (records, some (tag, rep, n))

  unfoldable pub on_marker :
      ℕ → String → List (Record x) → Option (String × String) → Result LogError State
  unfolding on_repetition parse_i64
  on_marker n line records none = ok (records, none)
  on_marker n line records (some (tag, rep)) = on_repetition n line records tag (parse_i64 rep)

  -- A line that starts with `PyTorchObserver `.
  unfoldable pub on_observed :
      ℕ → String → List (Record x) → Marker → Option (Observer x) → Result LogError State
  on_observed n line records marker none = err (bad_observer n)
  on_observed n line records (tag, rep, at) (some observer) = ok (
    records
        ++ record {
          tag = tag;
          rep = rep;
          line_number = at;
          raw_line = some line;
          observer = some observer;
        }
          ∷ [],
    none,
  )

  unfoldable pub on_observer : ℕ → String → String → State → Result LogError State
  unfolding on_observed
  on_observer n line json (records, none) = err (no_marker n)
  on_observer n line json (records, some marker) =
      on_observed n line records marker (read_observer json)

  unfoldable pub on_other : ℕ → String → State → Option String → Result LogError State
  unfolding on_observer
  on_other n line state (some json) = on_observer n line json state
  on_other n line state none =
      if not (is_blank line) then err (unrecognized_line n line) else ok state

  -- The body of the loop, by what is between `===`, if the line is of that form.
  unfoldable pub on_line : ℕ → String → State → Option String → Result LogError State
  unfolding flush on_marker rsplit_once on_other strip_prefix
  on_line n line (records, pending) (some inner) =
      on_marker n line (flush records pending) (rsplit_once " rep" inner)
  on_line n line state none = on_other n line state (strip_prefix "PyTorchObserver " line)

  unfoldable pub parse_lines : ℕ → List String → State → Result LogError State
  unfolding on_line inner_of strip_prefix
  parse_lines n [] state = ok state
  parse_lines n (line ∷ lines) state = do
    state ← on_line n line state (inner_of (strip_prefix "=== " line))
    parse_lines (n + 1) lines state

  -- `text.lines()` is given as its lines; they are numbered from 1.
  unfoldable pub parse_log : List String → Result LogError (List (Record x))
  unfolding parse_lines flush
  parse_log lines = do
    (records, pending) ← parse_lines 1 lines ([], none)
    ok (flush records pending)

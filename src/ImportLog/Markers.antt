-- ===== src/ImportLog/Markers.antt =====
-- `parse_log` gives one record for each marker, in the order of the log.
use executorch_bencher.Prelude.{
  ℕ, ◌+◌, ℤ, String, Bool, true, false, not, Option, some, none, List, [], ◌∷◌, ◌++◌, map, Result,
  ok, err, >>=-eq-ok, ok_inj, if◌then◌else◌, ◌≡◌, refl, ◌∙◌, ap, sym,
}
use mathlib.Core.List.{append_assoc, append-nil}
use executorch_bencher.Prelude.Text.{is_blank}
use executorch_bencher.Externals.{Externals}
use executorch_bencher.ImportLog.Parse.{
  LogError, unrecognized_line, Observer, Record, Marker, State, strip_prefix, rsplit_once,
  parse_i64, inner_of, bare_record, flush, on_repetition, on_marker, on_observed, on_observer,
  on_other, on_line, parse_lines, parse_log,
}

-- The markers of a log: the lines `=== {tag} rep{number} ===`, with their numbers.
abbrev of_number : ℕ → String → Option ℤ → List Marker
of_number n tag none = []
of_number n tag (some rep) = (tag, rep, n) ∷ []

abbrev of_parts : ℕ → Option (String × String) → List Marker
of_parts n none = []
of_parts n (some (tag, rep)) = of_number n tag (parse_i64 rep)

abbrev of_inner : ℕ → Option String → List Marker
of_inner n none = []
of_inner n (some inner) = of_parts n (rsplit_once " rep" inner)

abbrev pub markers : ℕ → List String → List Marker
markers n [] = []
markers n (line ∷ lines) = of_inner n (inner_of (strip_prefix "=== " line)) ++ markers (n + 1) lines

module _ {x : Externals} (read_observer : String → Option (Observer x)) where
  abbrev pub key : Record x → Marker
  key r = (r.tag, r.rep, r.line_number)

  keys-append : (a b : List (Record x)) → map key (a ++ b) ≡ map key a ++ map key b
  keys-append [] b = refl
  keys-append (r ∷ a) b = ap (◌∷◌ (key r)) (keys-append a b)

  -- The markers that a state stands for.
  abbrev seen : State read_observer → List Marker
  seen (records, pending) = map key (flush read_observer records pending)

  abbrev Adds : State read_observer → List Marker → Result LogError (State read_observer) → Type 0
  Adds s l o = (t : State read_observer) → o ≡ ok t → seen t ≡ seen s ++ l

  on_repetition-Adds :
      (n : ℕ) (line : String) (records : List (Record x)) (tag : String) (o : Option ℤ)
      → Adds (records, none) (of_number n tag o) (on_repetition read_observer n line records tag o)
  unfolding on_repetition flush bare_record
  on_repetition-Adds n line records tag none t h = cc
  on_repetition-Adds n line records tag (some rep) t h =
      ap seen (sym (ok_inj h)) ∙ keys-append records _

  on_marker-Adds :
      (n : ℕ) (line : String) (records : List (Record x)) (o : Option (String × String))
      → Adds (records, none) (of_parts n o) (on_marker read_observer n line records o)
  unfolding on_marker
  on_marker-Adds n line records none t h = ap seen (sym (ok_inj h)) ∙ sym (append-nil _)
  on_marker-Adds n line records (some (tag, rep)) t h =
      on_repetition-Adds n line records tag (parse_i64 rep) t h

  on_observed-Adds :
      (n : ℕ) (line : String) (records : List (Record x)) (marker : Marker)
      (o : Option (Observer x))
      → Adds (records, some marker) [] (on_observed read_observer n line records marker o)
  unfolding on_observed flush bare_record
  on_observed-Adds n line records marker none t h = cc
  on_observed-Adds n line records (tag, rep, at) (some observer) t h =
      ap seen (sym (ok_inj h))
      ∙ keys-append records _
      ∙ sym (keys-append records _)
      ∙ sym (append-nil _)

  on_observer-Adds :
      (n : ℕ) (line json : String) (s : State read_observer)
      → Adds s [] (on_observer read_observer n line json s)
  unfolding on_observer
  on_observer-Adds n line json (records, none) t h = cc
  on_observer-Adds n line json (records, some marker) t h =
      on_observed-Adds n line records marker (read_observer json) t h

  on_other-Adds :
      (n : ℕ) (line : String) (s : State read_observer) (o : Option String)
      → Adds s [] (on_other read_observer n line s o)
  unfolding on_other
  on_other-Adds n line s (some json) t h = on_observer-Adds n line json s t h
  on_other-Adds n line s none t h = by_test (not (is_blank line)) h
    where
      by_test :
          (b : Bool)
          → (if b then err (unrecognized_line n line) else ok s) ≡ ok t
          → seen t ≡ seen s ++ []
      by_test true e = cc
      by_test false e = ap seen (sym (ok_inj e)) ∙ sym (append-nil _)

  on_line-Adds :
      (n : ℕ) (line : String) (s : State read_observer) (o : Option String)
      → Adds s (of_inner n o) (on_line read_observer n line s o)
  unfolding on_line
  on_line-Adds n line (records, pending) (some inner) t h =
      on_marker-Adds n line (flush read_observer records pending) (rsplit_once " rep" inner) t h
  on_line-Adds n line s none t h = on_other-Adds n line s (strip_prefix "PyTorchObserver " line) t h

  parse_lines-Adds :
      (lines : List String) (n : ℕ) (s : State read_observer)
      → Adds s (markers n lines) (parse_lines read_observer n lines s)
  unfolding parse_lines
  parse_lines-Adds [] n s t h = ap seen (sym (ok_inj h)) ∙ sym (append-nil _)
  parse_lines-Adds (line ∷ lines) n s t h =
      let (u, here, later) =
        >>=-eq-ok (on_line read_observer n line s (inner_of (strip_prefix "=== " line))) _ h in
      parse_lines-Adds lines (n + 1) u t later
      ∙ ap (λ l. l ++ markers (n + 1) lines)
          (on_line-Adds n line s (inner_of (strip_prefix "=== " line)) u here)
      ∙ append_assoc (seen s) _ _

  -- A log that is parsed gives one record for each of its markers, in their order and with their
  -- tags, repetitions and line numbers, whether an observer line follows or not.
  pub parse_log-markers :
      (lines : List String) (records : List (Record x))
      → parse_log read_observer lines ≡ ok records
      → map key records ≡ markers 1 lines
  unfolding parse_log
  parse_log-markers lines records h =
      let ((found, pending), parsed, done) =
        >>=-eq-ok (parse_lines read_observer 1 lines ([], none)) _ h in
      ap (map key) (sym (ok_inj done)) ∙ parse_lines-Adds lines 1 ([], none) (found, pending) parsed

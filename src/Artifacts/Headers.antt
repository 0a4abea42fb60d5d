-- ===== src/Artifacts/Headers.antt =====
-- What the name of a download may hold, whatever name was uploaded.
use Prim.Native.Char.{Char, code}
use mathlib.Core.Bool.{and-eq-true_iff}
use text.Mathlib.TextLemmas.{append_assoc, nil-append, cons-append}
use executorch_bencher.Prelude.{
  ℕ, ◌/◌, ◌%◌, String, Bool, true, false, not, ◌&&◌, ◌||◌, Option, some, none, List, [], ◌∷◌, leb,
  ◌==◌, if◌then◌else◌, ◌≡◌, ◌⊎◌, inl, inr, refl, ap, subst, arith,
}
use executorch_bencher.Prelude.Lists.{All}
use executorch_bencher.Prelude.Text.{◌<>◌, str_eq, eq_iff, is_empty, all_chars}
use executorch_bencher.Externals.{Externals}
use executorch_bencher.ArtifactStore.{ArtifactRecord}
use executorch_bencher.ArtifactStore.Machine.{Bytes}
use executorch_bencher.ArtifactStore.Store.{nth_char}
use executorch_bencher.Artifacts.Names.{
  split_step, split_path, last_component, unless_parent, file_name, download_basename, is_safe,
  sanitize, ascii_filename, is_unreserved, byte_as_char, upper_hex_digit, percent_encode,
  percent_encode_utf8, content_disposition, utf8,
}

abbrev pub no_slash : String → Bool
no_slash = all_chars (λ c. not (c == b'/'))

abbrev AllPlain : String × List String → Type 0
AllPlain (first, rest) = (no_slash first ≡ true) × All (λ t. no_slash t ≡ true) rest

split_step_plain :
    (c : Char) (b : Bool) (parts : String × List String)
    → (code c == b'/') ≡ b
    → AllPlain parts
    → AllPlain (split_step c b parts)
unfolding split_step
split_step_plain c true (first, rest) t (h, k) = (refl, (h, k))
split_step_plain c false (first, rest) t (h, k) = ((and-eq-true_iff _ _).1 (ap not t, h), k)

split_path_plain : (s : String) → AllPlain (split_path s)
unfolding split_path
split_path_plain String.[] = (refl, tt)
split_path_plain (String.◌∷◌ c s) = split_step_plain c _ (split_path s) refl (split_path_plain s)

-- A proper component: not empty, without a slash, and neither `.` nor `..`.
pub record IsPlain (name : String) : Type 0 where
  pub slashes : no_slash name ≡ true
  pub nonempty : is_empty name ≡ false
  pub not_here : str_eq name "." ≡ false
  pub not_parent : str_eq name ".." ≡ false

abbrev IsNamed : Option String → Type 0
IsNamed none = Unit
IsNamed (some name) = (no_slash name ≡ true) × (is_empty name ≡ false) × (str_eq name "." ≡ false)

kept-IsNamed :
    (found : Option String) (name : String) (b : Bool)
    → (is_empty name || str_eq name ".") ≡ b
    → no_slash name ≡ true
    → IsNamed found
    → IsNamed (if b then found else some name)
kept-IsNamed found name true t h k = k
kept-IsNamed found name false t h k = (h, ground arith, ground arith)

last_component-IsNamed :
    (names : List String) (found : Option String)
    → IsNamed found
    → All (λ t. no_slash t ≡ true) names
    → IsNamed (last_component found names)
unfolding last_component
last_component-IsNamed [] found h k = h
last_component-IsNamed (name ∷ rest) found h (k, ks) =
    last_component-IsNamed rest (if is_empty name || str_eq name "." then found else some name)
      (kept-IsNamed found name _ refl k h) ks

unless_parent-IsPlain :
    (found : Option String) (name : String)
    → IsNamed found
    → unless_parent found ≡ some name
    → IsPlain name
unfolding unless_parent
unless_parent-IsPlain none name h e = cc
unless_parent-IsPlain (some other) name (slash, full, here) e = by_test _ refl e
  where
    by_test :
        (b : Bool)
        → str_eq other ".." ≡ b
        → (if b then none else some other) ≡ some name
        → IsPlain name
    by_test true t p = cc
    by_test false t p =
        subst IsPlain (cc)
          (record { slashes = slash; nonempty = full; not_here = here; not_parent = t })

-- The file name that is taken from an uploaded name, if there is one, has no directory part.
pub file_name-IsPlain : (path name : String) → file_name path ≡ some name → IsPlain name
unfolding file_name
file_name-IsPlain path name h =
    unless_parent-IsPlain (last_component none ((split_path path).0 ∷ (split_path path).1)) name
      (last_component-IsNamed ((split_path path).0 ∷ (split_path path).1) none tt
        (split_path_plain path))
      h

sanitize_safe : (s : String) → all_chars is_safe (sanitize s) ≡ true
unfolding sanitize
sanitize_safe String.[] = refl
sanitize_safe (String.◌∷◌ c s) = (and-eq-true_iff _ _).1 (kept _ refl, sanitize_safe s)
  where
    kept : (b : Bool) → is_safe (code c) ≡ b → is_safe (code (if b then c else "_")) ≡ true
    kept true h = h
    kept false h = refl

ascii_filename_safe : (s : String) → all_chars is_safe (ascii_filename s) ≡ true
unfolding ascii_filename
ascii_filename_safe s = either _
  where
    either : (b : Bool) → all_chars is_safe (if b then "download.bin" else sanitize s) ≡ true
    either true = refl
    either false = sanitize_safe s

-- What a header value may hold.
abbrev pub is_visible : ℕ → Bool
is_visible c = leb 0x20 c && leb c 0x7E

all_chars-append :
    (p : ℕ → Bool) (s t : String)
    → all_chars p s ≡ true
    → all_chars p t ≡ true
    → all_chars p (s <> t) ≡ true
all_chars-append p String.[] t h k = rw nil-append k
all_chars-append p (String.◌∷◌ c s) t h k =
    let (here, later) = (and-eq-true_iff (p (code c)) (all_chars p s)).0 h in
    rw cons-append ((and-eq-true_iff _ _).1 (here, all_chars-append p s t later k))

is_visible_safe : (s : String) → all_chars is_safe s ≡ true → all_chars is_visible s ≡ true
is_visible_safe String.[] h = refl
is_visible_safe (String.◌∷◌ c s) h =
    let (here, later) = (and-eq-true_iff (is_safe (code c)) (all_chars is_safe s)).0 h in
    (and-eq-true_iff _ _).1 (visible (code c) here, is_visible_safe s later)
  where
    visible : (n : ℕ) → is_safe n ≡ true → is_visible n ≡ true
    visible n h = ground arith

nth_char_visible :
    (s : String) (n : ℕ) → all_chars is_visible s ≡ true → is_visible (code (nth_char s n)) ≡ true
unfolding nth_char
nth_char_visible String.[] n h = refl
nth_char_visible (String.◌∷◌ c s) ℕ.zero h = ((and-eq-true_iff _ _).0 h).0
nth_char_visible (String.◌∷◌ c s) (ℕ.suc n) h = nth_char_visible s n ((and-eq-true_iff _ _).0 h).1

percent_encode_visible : (b : Bytes) → all_chars is_visible (percent_encode b) ≡ true
unfolding percent_encode byte_as_char upper_hex_digit
percent_encode_visible [] = refl
percent_encode_visible (b ∷ bs) = either (is_unreserved b) refl (percent_encode_visible bs)
  where
    either :
        (t : Bool)
        → is_unreserved b ≡ t
        → all_chars is_visible (percent_encode bs) ≡ true
        → all_chars is_visible (
            if t
            then String.◌∷◌ (byte_as_char b) (percent_encode bs)
            else String.◌∷◌ "%" (
                String.◌∷◌
                  (upper_hex_digit (b / 16))
                  (String.◌∷◌ (upper_hex_digit (b % 16)) (percent_encode bs))))
          ≡ true
    either true t h = (and-eq-true_iff _ _).1 (ground arith, h)
    either false t h = (and-eq-true_iff _ _).1 (
      refl,
      (and-eq-true_iff _ _).1 (
        nth_char_visible "0123456789ABCDEF" (b / 16) refl,
        (and-eq-true_iff _ _).1 (nth_char_visible "0123456789ABCDEF" (b % 16) refl, h),
      ),
    )

-- The header is `attachment`, a quoted name of safe characters, which cannot end the quotes, and
-- then nothing, if that name is the download's own, or the name in full, encoded.
pub record IsAttachment (original header : String) : Type 0 where
  pub quoted : String
  pub rest : String
  pub reads : header ≡ "attachment; filename=\"" <> quoted <> "\"" <> rest
  pub safe : all_chars is_safe quoted ≡ true
  pub visible : all_chars is_visible header ≡ true
  pub in_full :
      ((rest ≡ "") × (quoted ≡ original))
      ⊎ (rest ≡ "; filename*=UTF-8''" <> percent_encode_utf8 original)

-- Whatever name was uploaded, and if none was, the header of a download is an attachment with a
-- quoted name that is safe.
pub content_disposition-IsAttachment :
    {x : Externals} (r : ArtifactRecord x)
    → IsAttachment (download_basename r) (content_disposition r)
unfolding content_disposition percent_encode_utf8
content_disposition-IsAttachment r = either _ refl
  where
    original : String
    original = download_basename r

    ascii : String
    ascii = ascii_filename (download_basename r)

    safe : all_chars is_safe (ascii_filename (download_basename r)) ≡ true
    safe = ascii_filename_safe (download_basename r)

    either :
        (b : Bool)
        → str_eq ascii original ≡ b
        → IsAttachment original (
            if b
            then "attachment; filename=\"" <> ascii <> "\""
            else "attachment; filename=\""
              <> ascii
              <> "\"; filename*=UTF-8''"
              <> percent_encode_utf8 original)
    either true t = record {
      quoted = ascii;
      rest = "";
      reads = refl;
      safe = safe;
      visible =
          all_chars-append is_visible "attachment; filename=\"" (ascii <> "\"") refl
            (all_chars-append is_visible ascii "\"" (is_visible_safe ascii safe) refl);
      in_full = inl (refl, (eq_iff ascii original).0 t);
    }
    either false t = record {
      quoted = ascii;
      rest = "; filename*=UTF-8''" <> percent_encode_utf8 original;
      reads =
          ap (λ v. "attachment; filename=\"" <> ascii <> v)
            (append_assoc "\"" "; filename*=UTF-8''" (percent_encode_utf8 original));
      safe = safe;
      visible =
          all_chars-append is_visible "attachment; filename=\""
            (ascii <> "\"; filename*=UTF-8''" <> percent_encode_utf8 original) refl
            (all_chars-append is_visible ascii
              ("\"; filename*=UTF-8''" <> percent_encode_utf8 original) (is_visible_safe ascii safe)
              (all_chars-append is_visible "\"; filename*=UTF-8''" (percent_encode_utf8 original)
                refl (percent_encode_visible (utf8 original))));
      in_full = inr refl;
    }

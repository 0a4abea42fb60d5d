-- ===== src/ArtifactStore/Copy.antt =====
-- `copy_hashing`: what a copy that succeeds has hashed, counted and written.
use executorch_bencher.Prelude.{
  ℕ, ◌+◌, ◌%◌, ◌^◌, ◌<◌, String, Option, none, some, List, [], ◌∷◌, ◌++◌, ◌≡◌, refl, ◌∙◌, sym, ap,
  Result, ok, err, arith, subst,
}
use mathlib.Core.List.{append_assoc, append-nil}
use executorch_bencher.Prelude.Lists.{length, length-append}
use executorch_bencher.Prelude.Action.{
  Leads, Leads-bind, Leads-pure, Leads-fail, Leads-or_err, Leads-of_cases, Leads-weaken, Leads-ok,
}
use executorch_bencher.Externals.{Externals}
use executorch_bencher.ArtifactKind.{Compression}
use executorch_bencher.ArtifactStore.{IoError, io}
use executorch_bencher.ArtifactStore.Machine.{Bytes, Hasher, Machine, Spares, IsMachine}
use executorch_bencher.ArtifactStore.Store.{copy_loop, copy_hashing, hex_encode}

abbrev pub and_then : Bytes → Option Bytes → Option Bytes
and_then b none = none
and_then b (some rest) = some (b ++ rest)

-- What a reader with these answers yields up to its end, if no answer before the end is an error.
abbrev pub bytes_read : List (Result IoError Bytes) → Option Bytes
bytes_read [] = some []
bytes_read (err e ∷ rest) = none
bytes_read (ok [] ∷ rest) = some []
bytes_read (ok (b ∷ bs) ∷ rest) = and_then (b ∷ bs) (bytes_read rest)

-- SHA-256 of a byte sequence, in hexadecimal.
abbrev pub sha256_of : Hasher → Bytes → String
sha256_of h b = hex_encode (h.finalize (h.update h.new b))

module _ (h : Hasher) (m : Machine) where
  open m use {State}

  pub Spares-refl : (path : String) (s : State) → Spares m path s s
  Spares-refl path s = record { same_rows = refl; kept = λ q ne e. e }

  pub Spares-trans :
      (path : String) (s t u : State) → Spares m path s t → Spares m path t u → Spares m path s u
  Spares-trans path s t u p q = record {
    same_rows = q.same_rows ∙ p.same_rows;
    kept = λ r ne e. q.kept r ne (p.kept r ne e);
  }

module _ (x : Externals) (h : Hasher) (m : Machine) (L : IsMachine m) where
  open m use {State, write_all, shutdown, create, content}

  -- What the loop has done when it ends.
  record Copied (s : State) (c : Compression) (path : String) (start : Hasher.Sha256 h) (total : ℕ)
      (before : Bytes) (reader : List (Result IoError Bytes)) (hasher : Hasher.Sha256 h) (n : ℕ)
      (t : State) : Type 0 where
    bytes : Bytes
    was_read : bytes_read reader ≡ some bytes
    hashed : hasher ≡ h.update start bytes
    counted : n ≡ (total + length bytes) % 2 ^ 64
    written : L.Taken t c path (before ++ bytes)
    spared : Spares m path s t

  module _ (s : State) (c : Compression) (path : String) where
    abbrev Has : Bytes → State → Type 0
    Has b t = Spares m path s t × L.Taken t c path b

    write_all-Leads :
        (a b : Bytes)
        → Leads (Has a) (write_all c path b) (λ u t. Has (a ++ b) t) (λ t. Spares m path s t)
    write_all-Leads a b =
        Leads-of_cases (write_all c path b)
          (λ t u (p, q) e. (
            Spares-trans h m path s t _ p (L.write_all-Spares c path b t),
            L.write_all-Taken c path a b t q (ap (λ z. z) e),
          ))
          (λ t e (p, q) _. Spares-trans h m path s t _ p (L.write_all-Spares c path b t))

    Copied-cons :
        (start : Hasher.Sha256 h) (total : ℕ) (a : Bytes) (b : ℕ) (bs : Bytes)
        (rest : List (Result IoError Bytes)) (hasher : Hasher.Sha256 h) (n : ℕ) (t : State)
        → Copied s c path
            (h.update start (b ∷ bs))
            ((total + length (b ∷ bs)) % 2 ^ 64)
            (a ++ (b ∷ bs))
            rest
            hasher
            n
            t
        → Copied s c path start total a (ok (b ∷ bs) ∷ rest) hasher n t
    Copied-cons start total a b bs rest hasher n t d = record {
      bytes = b ∷ (bs ++ d.bytes);
      was_read = ap (and_then (b ∷ bs)) d.was_read;
      hashed = d.hashed ∙ h.update_append start (b ∷ bs) d.bytes;
      counted = d.counted ∙ omega (arith, length-append bs d.bytes);
      written = subst (L.Taken t c path) (append_assoc a (b ∷ bs) d.bytes) d.written;
      spared = d.spared;
    }

    Copied-end :
        (start : Hasher.Sha256 h) (total : ℕ) (a : Bytes) (reader : List (Result IoError Bytes))
        (t : State)
        → bytes_read reader ≡ some []
        → total < 2 ^ 64
        → Has a t
        → Copied s c path start total a reader start total t
    Copied-end start total a reader t r lt (p, q) = record {
      bytes = [];
      was_read = r;
      hashed = sym (h.update_nil start);
      counted = omega arith;
      written = subst (L.Taken t c path) (sym (append-nil a)) q;
      spared = p;
    }

    copy_loop-Leads :
        (start : Hasher.Sha256 h) (total : ℕ) (a : Bytes) (reader : List (Result IoError Bytes))
        → total < 2 ^ 64
        → Leads
            (Has a)
            (copy_loop x h m c path start total reader)
            (λ r t. Copied s c path start total a reader r.0 r.1 t)
            (λ t. Spares m path s t)
    unfolding copy_loop
    copy_loop-Leads start total a [] lt =
        Leads-pure _ (λ t p. Copied-end start total a [] t refl lt p)
    copy_loop-Leads start total a (err e ∷ rest) lt = Leads-fail _ (λ t p. p.0)
    copy_loop-Leads start total a (ok [] ∷ rest) lt =
        Leads-pure _ (λ t p. Copied-end start total a (ok [] ∷ rest) t refl lt p)
    copy_loop-Leads start total a (ok (b ∷ bs) ∷ rest) lt =
        Leads-bind (Leads-or_err io (write_all-Leads a (b ∷ bs))) λ u.
          Leads-weaken
            (copy_loop-Leads (h.update start (b ∷ bs)) ((total + length (b ∷ bs)) % 2 ^ 64)
              (a ++ (b ∷ bs)) rest (omega arith))
            (λ t p. p) (λ r t d. Copied-cons start total a b bs rest r.0 r.1 t d) (λ t p. p)

  -- What a finished copy says of the bytes that the reader yielded: their digest, their number,
  -- and what a reader of the written file gets.
  pub record HasCopied (s : State) (c : Compression) (path : String)
      (reader : List (Result IoError Bytes)) (r : String × ℕ) (t : State) : Type 0 where
    pub bytes : Bytes
    pub was_read : bytes_read reader ≡ some bytes
    pub digest : r.0 ≡ sha256_of h bytes
    pub size : r.1 ≡ length bytes % 2 ^ 64
    pub stored : content t c path ≡ some bytes
    pub spared : Spares m path s t

  module _ (s : State) (c : Compression) (path : String)
      (reader : List (Result IoError Bytes)) where
    -- The copy is done, and the file is shut.
    record IsShut (hasher : Hasher.Sha256 h) (n : ℕ) (t : State) : Type 0 where
      bytes : Bytes
      was_read : bytes_read reader ≡ some bytes
      hashed : hasher ≡ h.update h.new bytes
      counted : n ≡ (0 + length bytes) % 2 ^ 64
      stored : content t c path ≡ some bytes
      spared : Spares m path s t

    shutdown-Leads :
        (hasher : Hasher.Sha256 h) (n : ℕ)
        → Leads
            (Copied s c path h.new 0 [] reader hasher n)
            (shutdown c path)
            (λ u t. IsShut hasher n t)
            (λ t. Spares m path s t)
    shutdown-Leads hasher n =
        Leads-of_cases (shutdown c path)
          (λ t u d e. record {
            bytes = d.bytes;
            was_read = d.was_read;
            hashed = d.hashed;
            counted = d.counted;
            stored = L.content-shutdown c path d.bytes t d.written e;
            spared = Spares-trans h m path s t _ d.spared (L.shutdown-Spares c path t);
          })
          (λ t e d _. Spares-trans h m path s t _ d.spared (L.shutdown-Spares c path t))

    pub copy_hashing-Leads :
        Leads
          (Has s c path [])
          (copy_hashing x h m c path reader)
          (HasCopied s c path reader)
          (λ t. Spares m path s t)
    unfolding copy_hashing
    copy_hashing-Leads = Leads-bind (copy_loop-Leads s c path h.new 0 [] reader (omega arith)) λ r.
        Leads-bind (Leads-or_err io (shutdown-Leads r.0 r.1)) λ u. Leads-pure _ λ t d. record {
          bytes = d.bytes;
          was_read = d.was_read;
          digest = ap (λ d. hex_encode (h.finalize d)) d.hashed;
          size = d.counted ∙ omega arith;
          stored = d.stored;
          spared = d.spared;
        }

  -- On a machine that keeps its promises: when `copy_hashing` on a file just created answers a
  -- digest and a size, then the reader yielded bytes without an error, the digest is their
  -- SHA-256 and the size their number modulo 2 ^ 64, in whatever slices they came; whoever reads
  -- the file back the way it was written gets just these bytes; and table and other files are as
  -- they were.
  pub copy_hashing-HasCopied :
      (s : State) (c : Compression) (path : String) (reader : List (Result IoError Bytes))
      (r : String × ℕ)
      → (create path s).0 ≡ ok tt
      → (copy_hashing x h m c path reader (create path s).1).0 ≡ ok r
      → HasCopied s c path reader r (copy_hashing x h m c path reader (create path s).1).1
  copy_hashing-HasCopied s c path reader r made done =
      Leads-ok (copy_hashing-Leads s c path reader) (create path s).1 r
        (L.create-Spares path s, L.create-Taken c path s made) done

-- ===== src/Artifacts/Encoding.antt =====
-- `percent_encode_utf8` can be read back: RFC 5987's decoding gives the bytes of the name.
use Prim.Native.Nat.{compare, Ordering}
use Prim.Native.Char.{Char, char, code}
use executorch_bencher.Prelude.{
  ℕ, zero, suc, ◌+◌, ◌-◌, ◌*◌, ◌/◌, ◌%◌, ◌<◌, String, Bool, true, false, ◌&&◌, [], ◌∷◌, ◌++◌, ltb,
  leb, ◌==◌, if◌then◌else◌, ◌≡◌, ◌⊎◌, inl, inr, refl, arith,
}
use executorch_bencher.Prelude.Lists.{All}
use executorch_bencher.ArtifactStore.Machine.{Bytes}
use executorch_bencher.ArtifactStore.Store.{nth_char}
use executorch_bencher.Artifacts.Names.{
  is_unreserved, byte_as_char, upper_hex_digit, percent_encode, percent_encode_utf8, utf8,
  utf8_char,
}

-- Where a decoder stands: between characters, after a `%`, or after its first digit.
pub data Stage : Type 0 where
  plain first : Stage
  second : ℕ → Stage

abbrev digit_value : ℕ → ℕ
digit_value c = if leb c b'9' then c - b'0' else c - 55

pub percent_decode : Stage → String → Bytes
percent_decode stage String.[] = []
percent_decode plain (String.◌∷◌ c s) =
    if code c == b'%' then percent_decode first s else code c ∷ percent_decode plain s
percent_decode first (String.◌∷◌ c s) = percent_decode (second (digit_value (code c))) s
percent_decode (second high) (String.◌∷◌ c s) =
    (high * 16 + digit_value (code c)) ∷ percent_decode plain s

every_below : (ℕ → Bool) → ℕ → Bool
every_below p zero = true
every_below p (suc n) = every_below p n && p n

every_below_lem : (p : ℕ → Bool) (n k : ℕ) → every_below p n ≡ true → k < n → p k ≡ true
unfolding every_below
every_below_lem p zero k h lt = absurd (omega arith)
every_below_lem p (suc n) k h lt = ground (arith, every_below_lem p n k)

digits_back : every_below (λ n. digit_value (code (upper_hex_digit n)) == n) 16 ≡ true
unfolding every_below upper_hex_digit nth_char
digits_back = refl

digit_value-upper_hex_digit : (n : ℕ) → n < 16 → digit_value (code (upper_hex_digit n)) ≡ n
digit_value-upper_hex_digit n h =
    let found : (digit_value (code (upper_hex_digit n)) == n) ≡ true =
      every_below_lem (λ n. digit_value (code (upper_hex_digit n)) == n) 16 n digits_back h in
    ground arith

code-byte_as_char : (b : ℕ) → is_unreserved b ≡ true → code (byte_as_char b) ≡ b
unfolding byte_as_char
code-byte_as_char b h = ground arith

not_percent : (b : ℕ) → is_unreserved b ≡ true → (b == b'%') ≡ false
not_percent b h = ground arith

percent_decode-encode :
    (b : Bytes) → All (λ n. n < 256) b → percent_decode plain (percent_encode b) ≡ b
unfolding percent_decode percent_encode
percent_decode-encode [] h = refl
percent_decode-encode (b ∷ bs) (h, hs) = either _ refl (percent_decode-encode bs hs)
  where
    either :
        (t : Bool)
        → is_unreserved b ≡ t
        → percent_decode plain (percent_encode bs) ≡ bs
        → percent_decode plain (
            if t
            then String.◌∷◌ (byte_as_char b) (percent_encode bs)
            else String.◌∷◌ "%" (
                String.◌∷◌
                  (upper_hex_digit (b / 16))
                  (String.◌∷◌ (upper_hex_digit (b % 16)) (percent_encode bs))))
          ≡ b ∷ bs
    either true t ih = ground (arith, code-byte_as_char b t, not_percent b t)
    either false t ih = ground (
      arith,
      digit_value-upper_hex_digit (b / 16) (omega arith),
      digit_value-upper_hex_digit (b % 16) (omega arith),
    )

utf8_char-All : (c : ℕ) → c < 0x110000 → All (λ n. n < 256) (utf8_char c)
unfolding utf8_char
utf8_char-All c h = ground arith

code-lt : (c : Char) → code c < 0x110000
code-lt (char n p) = by_test (ltb n 0x110000) refl
  where
    by_test : (b : Bool) → ltb n 0x110000 ≡ b → n < 0x110000
    by_test true h = ground arith
    by_test false h =
        let low : compare n 55296 ≡ Ordering.gt = ground arith in
        let gap : compare 57343 n ≡ Ordering.lt = ground arith in
        let high : (compare n 1114112 ≡ Ordering.eq) ⊎ (compare n 1114112 ≡ Ordering.gt) =
          ground arith in
        elim high [
          | inl e ↦ absurd (rw (low, gap, e) at p)
          | inr e ↦ absurd (rw (low, gap, e) at p)
        ]

All-append :
    (b c : Bytes) → All (λ n. n < 256) b → All (λ n. n < 256) c → All (λ n. n < 256) (b ++ c)
All-append [] c h k = k
All-append (b ∷ bs) c (h, hs) k = (h, All-append bs c hs k)

utf8-All : (s : String) → All (λ n. n < 256) (utf8 s)
unfolding utf8
utf8-All String.[] = tt
utf8-All (String.◌∷◌ c s) = All-append _ _ (utf8_char-All (code c) (code-lt c)) (utf8-All s)

-- Decoding the encoded name gives the bytes of the name in UTF-8, whatever the name.
pub percent_decode-percent_encode_utf8 :
    (name : String) → percent_decode plain (percent_encode_utf8 name) ≡ utf8 name
unfolding percent_encode_utf8
percent_decode-percent_encode_utf8 name = percent_decode-encode (utf8 name) (utf8-All name)

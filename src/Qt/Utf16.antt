-- ===== src/Qt/Utf16.antt =====
-- Python's "utf-16-be" codec, which `writeQString` and `readQString` use. A `str` is the list of
-- its code points.
use opentele.Prelude.{
  ℕ, ◌+◌, ◌-◌, ◌*◌, ◌/◌, ◌%◌, ◌<◌, ◌≡◌, refl, Bool, true, false, ◌&&◌, Option, none, some, List, [],
  ◌∷◌, ◌++◌, ◌∙◌, arith, ltb, leb, if◌then◌else◌, All, Bool-cases, inl, inr,
}
use opentele.Exception.{
  Result, ok, err, unicode_encode_error, unicode_decode_error, ◌>>=◌, ok-injective, >>=-eq-ok,
}
use opentele.Bytes.{big_endian}

unfoldable pub is_high : ℕ → Bool
is_high u = leb 0xd800 u && ltb u 0xdc00

unfoldable pub is_low : ℕ → Bool
is_low u = leb 0xdc00 u && ltb u 0xe000

-- A code point in one unit or a pair of surrogates; a lone surrogate has no encoding.
unfoldable pub encode_char : ℕ → Result (List ℕ)
encode_char c =
    if is_high c
    then err unicode_encode_error
    else if is_low c
    then err unicode_encode_error
    else if ltb c 0x10000
    then ok (big_endian 2 c)
    else ok (
        big_endian 2 (0xd800 + (c - 0x10000) / 1024)
        ++ big_endian 2 (0xdc00 + (c - 0x10000) % 1024))

-- `s.encode("utf-16-be")`
unfoldable pub encode : List ℕ → Result (List ℕ)
encode [] = ok []
encode (c ∷ s) = do a ← encode_char c; b ← encode s; ok (a ++ b)

-- `payload.decode("utf-16-be")`, with the high surrogate that waits for its other half.
unfoldable pub decode_from : Option ℕ → List ℕ → Result (List ℕ)
decode_from none [] = ok []
decode_from (some h) [] = err unicode_decode_error
decode_from p (a ∷ []) = err unicode_decode_error
decode_from none (a ∷ b ∷ rest) = elim (is_high (a * 256 + b)) [
  | true ↦ decode_from (some (a * 256 + b)) rest
  | false ↦ elim (is_low (a * 256 + b)) [
    | true ↦ err unicode_decode_error
    | false ↦ decode_from none rest >>= λ s. ok ((a * 256 + b) ∷ s)
  ]
]
decode_from (some h) (a ∷ b ∷ rest) = elim (is_low (a * 256 + b)) [
  | true ↦ decode_from none rest >>= λ s.
      ok ((0x10000 + (h - 0xd800) * 1024 + (a * 256 + b - 0xdc00)) ∷ s)
  | false ↦ err unicode_decode_error
]

unfoldable pub decode : List ℕ → Result (List ℕ)
decode = decode_from none

abbrev pub IsCodePoint : ℕ → Type 0
IsCodePoint c = c < 0x110000

-- The unit that two bytes of `big_endian 2` stand for.
joined : (c : ℕ) → c < 0x10000 → c / 256 % 256 * 256 + c % 256 ≡ c
joined c h = omega arith

step-unit :
    (a b : ℕ) (rest : List ℕ)
    → is_high (a * 256 + b) ≡ false
    → is_low (a * 256 + b) ≡ false
    → decode_from none (a ∷ b ∷ rest) ≡ (decode_from none rest >>= λ s. ok ((a * 256 + b) ∷ s))
unfolding decode_from
step-unit a b rest hh hl = rw (hh, hl, decode_from) refl

step-high :
    (a b : ℕ) (rest : List ℕ)
    → is_high (a * 256 + b) ≡ true
    → decode_from none (a ∷ b ∷ rest) ≡ decode_from (some (a * 256 + b)) rest
unfolding decode_from
step-high a b rest hh = rw (hh, decode_from) refl

step-low :
    (h a b : ℕ) (rest : List ℕ)
    → is_low (a * 256 + b) ≡ true
    → decode_from (some h) (a ∷ b ∷ rest) ≡ (
        decode_from none rest >>= λ s.
        ok ((0x10000 + (h - 0xd800) * 1024 + (a * 256 + b - 0xdc00)) ∷ s))
unfolding decode_from
step-low h a b rest hl = rw (hl, decode_from) refl

decode-unit :
    (c : ℕ) (rest : List ℕ)
    → c < 0x10000
    → is_high c ≡ false
    → is_low c ≡ false
    → decode_from none (big_endian 2 c ++ rest) ≡ (decode_from none rest >>= λ s. ok (c ∷ s))
unfolding big_endian
decode-unit c rest h hh hl =
    rw (joined c h) at
      (step-unit (c / 256 % 256) (c % 256) rest (rw (joined c h) hh) (rw (joined c h) hl))

pair_value :
    (u : ℕ)
    → 0x10000 + (0xd800 + u / 1024 - 0xd800) * 1024 + (0xdc00 + u % 1024 - 0xdc00) ≡ u + 0x10000
pair_value u = omega arith

high_half : (u : ℕ) → u < 0x100000 → is_high (0xd800 + u / 1024) ≡ true
unfolding is_high
high_half u h = ground arith

low_half : (u : ℕ) → is_low (0xdc00 + u % 1024) ≡ true
unfolding is_low
low_half u = ground arith

decode-pair :
    (u : ℕ) (rest : List ℕ)
    → u < 0x100000
    → decode_from none
        ((big_endian 2 (0xd800 + u / 1024) ++ big_endian 2 (0xdc00 + u % 1024)) ++ rest)
      ≡ (decode_from none rest >>= λ s. ok ((u + 0x10000) ∷ s))
unfolding big_endian
decode-pair u rest h =
    let hi = 0xd800 + u / 1024 in
    let lo = 0xdc00 + u % 1024 in
    let ehi = joined hi (omega arith) in
    let elo = joined lo (omega arith) in
    rw (ehi, elo, pair_value u) at
      (step-high (hi / 256 % 256) (hi % 256) (big_endian 2 lo ++ rest) (rw ehi (high_half u h))
        ∙ step-low _ (lo / 256 % 256) (lo % 256) rest (rw elo (low_half u)))

decode-char :
    (c : ℕ) (cs rest : List ℕ)
    → IsCodePoint c
    → encode_char c ≡ ok cs
    → decode_from none (cs ++ rest) ≡ (decode_from none rest >>= λ s. ok (c ∷ s))
unfolding encode_char
decode-char c cs rest h e = elim (Bool-cases (is_high c)) [
  | inl t ↦ cc (rw t at e)
  | inr hh ↦ elim (Bool-cases (is_low c)) [
    | inl t ↦ cc (rw (hh, t) at e)
    | inr hl ↦ elim (Bool-cases (ltb c 0x10000)) [
      | inl small ↦
          rw (← ok-injective (rw (hh, hl, small) at e)) (decode-unit c rest (ground arith) hh hl)
      | inr large ↦
          let u = c - 0x10000 in
          let back : u + 0x10000 ≡ c = ground arith in
          rw (← ok-injective (rw (hh, hl, large) at e))
            (rw back at (decode-pair u rest (omega arith)))
    ]
  ]
]

-- A text of code points whose encoding in UTF-16 succeeds is what that encoding decodes to.
pub decode-encode : (s bs : List ℕ) → All IsCodePoint s → encode s ≡ ok bs → decode bs ≡ ok s
unfolding decode encode
decode-encode [] bs h e = rw (← ok-injective e) (unfold decode_from in refl)
decode-encode (c ∷ s) bs h e =
    let (a, ea, e') = >>=-eq-ok (encode_char c) _ e in
    let (b, eb, e'') = >>=-eq-ok (encode s) _ e' in
    rw (← ok-injective e'') (decode-char c a b h.0 ea ∙ rw (decode-encode s b h.1 eb))

-- The empty text alone has no bytes.
pub encode-nil : (bs : List ℕ) → encode [] ≡ ok bs → [] ≡ bs
unfolding encode
encode-nil bs e = ok-injective e

pub decode-nil : (s : List ℕ) → decode [] ≡ ok s → [] ≡ s
unfolding decode decode_from
decode-nil s e = ok-injective e

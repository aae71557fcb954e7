-- ===== src/Qt/Session/Texts.antt =====
-- A text, read back from the bytes that `writeQString` appends.
use opentele.Prelude.{
  ℕ, suc, ◌^◌, ◌<◌, ◌≡◌, refl, false, some, List, [], ◌∷◌, ◌++◌, arith, ◌==◌, length, All,
  append-nil,
}
use opentele.Exception.{ok}
use opentele.Bytes.{big_endian, length-big_endian, from_big_endian-big_endian}
use opentele.Qt.DataStream.{read_bytes}
use opentele.Qt.Blob.{null_marker}
use opentele.Qt.Utf16.{encode, decode, encode-nil, decode-nil, IsCodePoint, decode-encode}
use opentele.Qt.Text.{write_qstring, read_text, read_sized_text, read_prefixed, read_qstring}
use opentele.Qt.Session.{Parses, Begins}
use opentele.Qt.Session.Rules.{
  read_bytes-Parses, pure-Parses, bind-Parses, bind-Parses_last, write_bytes-Begins,
  write_bytes-Writes, bind-Begins, lift-bind,
}
use opentele.Qt.Session.Blobs.{write_size-Begins}

-- What a text with the encoding `payload` looks like on the wire.
abbrev pub sized : List ℕ → List ℕ
sized payload = big_endian 4 (length payload) ++ payload

pub write_qstring-Begins :
    (s payload : List ℕ)
    → encode s ≡ ok payload
    → length payload < 2 ^ 32
    → Begins (write_qstring (some s)) (sized payload)
unfolding write_qstring
write_qstring-Begins [] payload e h =
    rw (← encode-nil payload e) (rw append-nil (write_bytes-Begins (big_endian 4 0)))
write_qstring-Begins (c ∷ s) payload e h =
    rw (e, lift-bind)
      (bind-Begins _ _ _ _ (write_size-Begins (length payload) h) (write_bytes-Writes payload))

marker_test : (n : ℕ) → n < null_marker → (n == null_marker) ≡ false
marker_test n h = ground arith

zero_test : (n : ℕ) → (suc n == 0) ≡ false
zero_test n = ground arith

read_text-Parses :
    (s payload : List ℕ) → decode payload ≡ ok s → Parses (read_text (some payload)) [] s
read_text-Parses s payload e = rw e (pure-Parses s)

read_sized_text-Parses :
    (s payload : List ℕ)
    → All IsCodePoint s
    → encode s ≡ ok payload
    → length payload < null_marker
    → Parses (read_sized_text (length payload)) payload s
unfolding read_sized_text
read_sized_text-Parses s [] hs e h = rw (← decode-nil s (decode-encode s [] hs e)) (pure-Parses [])
read_sized_text-Parses s (b ∷ bs) hs e h =
    rw (marker_test (suc (length bs)) h, zero_test (length bs))
      (bind-Parses_last _ _ _ _ _ (read_bytes-Parses (suc (length bs)) (b ∷ bs) refl)
        (read_text-Parses s (b ∷ bs) (decode-encode s (b ∷ bs) hs e)))

pub read_qstring-Parses :
    (s payload : List ℕ)
    → All IsCodePoint s
    → encode s ≡ ok payload
    → length payload < null_marker
    → Parses read_qstring (sized payload) s
unfolding read_qstring
read_qstring-Parses s payload hs e h =
    bind-Parses (read_bytes 4) read_prefixed (big_endian 4 (length payload)) payload _ s
      (read_bytes-Parses 4 (big_endian 4 (length payload)) (length-big_endian 4 _))
      (rw (from_big_endian-big_endian 4 (length payload) (omega arith))
        (read_sized_text-Parses s payload hs e h))

-- ===== src/Qt/Session/RoundTrip.antt =====
-- A value that was written to a fresh array and is read from it.
use opentele.Prelude.{
  ℕ, ◌%◌, ◌^◌, ◌<◌, ◌≡◌, refl, ap, ◌∙◌, true, false, Option, none, some, List, [], arith, length,
  append-nil, All,
}
use opentele.Prelude.Int.{ℤ}
use opentele.Exception.{Result, ok}
use opentele.Exec.{Exec}
use opentele.Qt.ByteArray
use opentele.Qt.ByteArray.{QByteArray, of_bytes}
use opentele.Qt.Buffer.{QBuffer, write_only, read_only}
use opentele.Qt.DataStream.{QDataStream, of_qbytearray, reading}
use opentele.Qt.Primitive.{write_signed, read_signed, write_unsigned, read_unsigned}
use opentele.Qt.Blob.{null_marker, write_qbytearray, read_qbytearray}
use opentele.Qt.Text.{write_qstring, read_qstring}
use opentele.Qt.Utf16.{encode, IsCodePoint}
use opentele.Qt.Session.{Parses, Begins, reader, frame, of_qbytearray-reader}
use opentele.Qt.Session.Values.{
  IsInt32, write_int32-Begins, read_int32-Parses, write_unsigned-Begins, read_unsigned-Parses,
}
use opentele.Qt.Session.Blobs.{qbytearray_bytes, write_qbytearray-Begins, read_qbytearray-Parses}
use opentele.Qt.Session.Texts.{write_qstring-Begins, read_qstring-Parses}

-- The array of a buffer, if it has one.
unfoldable pub array_of : Option QBuffer → QByteArray
array_of none = ByteArray.empty
array_of (some b) = elim b.qba [ none ↦ ByteArray.empty | some q ↦ q ]

-- What a write puts into a fresh array.
unfoldable pub written : Exec QDataStream Unit → QByteArray
unfolding array_of
written m = array_of ((m (of_qbytearray ByteArray.empty write_only)).1).device

-- What a read returns for an array, and whether it took all of it in order.
unfoldable pub reread : {A : Type 0} → Exec QDataStream A → QByteArray → Result A × QDataStream
reread m q = m (reading q)

written-Begins : (m : Exec QDataStream Unit) (bs : List ℕ) → Begins m bs → written m ≡ of_bytes bs
unfolding written reader array_of of_qbytearray
written-Begins m bs h =
    ap (λ r. array_of (r.1).device) (h.at (frame write_only true) []) ∙ rw append-nil refl

-- A read that was successful, at the end of the array `bs`.
abbrev pub all_read : {A : Type 0} → A → List ℕ → Result A × QDataStream
all_read a bs = (ok a, reader (frame read_only false) bs [])

reread-written :
    {A : Type 0} (w : Exec QDataStream Unit) (r : Exec QDataStream A) (bs : List ℕ) (a : A)
    → Begins w bs
    → Parses r bs a
    → reread r (written w) ≡ all_read a bs
unfolding reread
reread-written w r bs a hw hr =
    ap (λ q. r (reading q)) (written-Begins w bs hw)
    ∙ (ap r (of_qbytearray-reader (of_bytes bs) read_only)
        ∙ rw (append-nil bs) at (hr.at (frame read_only false) [] []))

-- A text of code points that has an encoding, of fewer than 2 ^ 32 - 1 bytes, is read back by
-- `read_qstring` as it was written by `write_qstring`.
pub read_qstring-write_qstring :
    (text payload : List ℕ)
    → All IsCodePoint text
    → encode text ≡ ok payload
    → length payload < null_marker
    → ((reread read_qstring (written (write_qstring (some text)))).0 ≡ ok text)
read_qstring-write_qstring text payload points e short =
    ap (λ r. r.0)
      (reread-written _ _ _ _ (write_qstring-Begins text payload e (omega (arith, short)))
        (read_qstring-Parses text payload points e short))

-- A byte array of fewer than 2 ^ 32 - 1 bytes, null or not, is read back with its bytes and not
-- null, and the stream is in order at the end.
pub read_qbytearray-write_qbytearray :
    (q : QByteArray)
    → length q.bytes < null_marker
    → reread read_qbytearray (written (write_qbytearray q))
      ≡ all_read (of_bytes q.bytes) (qbytearray_bytes q)
read_qbytearray-write_qbytearray q short =
    reread-written _ _ _ _ (write_qbytearray-Begins q (omega (arith, short)))
      (read_qbytearray-Parses q short)

-- A number that 32 bits hold in two's complement is read back from four bytes as it was written.
pub read_int32-write_int32 :
    (v : ℤ) → IsInt32 v → ((reread (read_signed 4) (written (write_signed 4 v))).0 ≡ ok v)
read_int32-write_int32 v h =
    ap (λ r. r.0) (reread-written _ _ _ _ (write_int32-Begins v) (read_int32-Parses v h))

unsigned_back :
    (w v : ℕ)
    → v % 256 ^ w < 256 ^ w
    → (reread (read_unsigned w) (written (write_unsigned w v))).0 ≡ ok (v % 256 ^ w)
unsigned_back w v h =
    ap (λ r. r.0) (reread-written _ _ _ _ (write_unsigned-Begins w v) (read_unsigned-Parses w _ h))

-- A number of any size is read back modulo 2 ^ 32 when it was written in four bytes, and modulo 2
-- ^ 64 when it was written in eight.
pub read_unsigned-write_unsigned :
    (v : ℕ)
    → ((reread (read_unsigned 4) (written (write_unsigned 4 v))).0 ≡ ok (v % 2 ^ 32))
      × ((reread (read_unsigned 8) (written (write_unsigned 8 v))).0 ≡ ok (v % 2 ^ 64))
read_unsigned-write_unsigned v = (unsigned_back 4 v (omega arith), unsigned_back 8 v (omega arith))

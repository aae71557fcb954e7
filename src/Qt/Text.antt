-- ===== src/Qt/Text.antt =====
-- `writeQString` and `readQString` of `QDataStream`.
use opentele.Prelude.{ℕ, Option, none, some, List, [], ◌∷◌, ◌==◌, if◌then◌else◌, length}
use opentele.Exception.{Result, ok, err}
use opentele.Exec.{Exec, pure, lift, ◌>>=◌, ◌>>◌}
use opentele.Bytes.{big_endian, from_big_endian}
use opentele.Qt.DataStream.{QDataStream, read_corrupt_data, read_bytes, write_bytes}
use opentele.Qt.Blob.{null_marker, write_size}
use opentele.Qt.Utf16.{encode, decode}

unfoldable pub write_qstring : Option (List ℕ) → Exec QDataStream Unit
write_qstring none = write_bytes (big_endian 4 null_marker)
write_qstring (some []) = write_bytes (big_endian 4 0)
write_qstring (some (c ∷ s)) = do
  payload ← lift (encode (c ∷ s))
  write_size (length payload)
  write_bytes payload

-- The decoded payload; bytes that are no UTF-16 set the status and give an empty text.
abbrev decoded : Result (List ℕ) → Exec QDataStream (List ℕ)
decoded (ok text) s = (ok text, s)
decoded (err e) s = (ok [], record s { status = read_corrupt_data })

abbrev pub read_text : Option (List ℕ) → Exec QDataStream (List ℕ)
read_text none = pure []
read_text (some payload) = decoded (decode payload)

unfoldable pub read_sized_text : ℕ → Exec QDataStream (List ℕ)
read_sized_text size =
    if size == null_marker
    then pure []
    else if size == 0
    then pure []
    else do payload ← read_bytes size; read_text payload

abbrev pub read_prefixed : Option (List ℕ) → Exec QDataStream (List ℕ)
read_prefixed none = pure []
read_prefixed (some size_b) = read_sized_text (from_big_endian size_b)

unfoldable pub read_qstring : Exec QDataStream (List ℕ)
read_qstring = do size_b ← read_bytes 4; read_prefixed size_b

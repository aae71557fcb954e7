-- ===== src/Qt/Blob.antt =====
-- Raw bytes and byte arrays of `QDataStream`: `writeRawData`, `readRawData`, `<<` and `>>`.
use opentele.Prelude.{
  ℕ, ◌^◌, Bool, false, Option, none, some, List, [], ltb, ◌==◌, ◌||◌, if◌then◌else◌, length,
}
use opentele.Prelude.Int.{ℤ, pos, negsuc}
use opentele.Exception.{ok, struct_error}
use opentele.Exec.{Exec, pure, raise, when, ◌>>=◌, ◌>>◌}
use opentele.Bytes.{big_endian, from_big_endian}
use opentele.Qt.ByteArray.{QByteArray, of_bytes, is_null}
use opentele.Qt.Buffer
use opentele.Qt.DataStream.{QDataStream, read_past_end, read_bytes, write_bytes}

abbrev pub null_marker : ℕ
null_marker = 0xffff_ffff

unfoldable pub write_raw_data : List ℕ → Exec QDataStream ℕ
write_raw_data payload = do write_bytes payload; pure (length payload)

-- Whether `len(data) < n`
abbrev pub is_short : List ℕ → ℤ → Bool
is_short chunk (pos n) = ltb (length chunk) n
is_short chunk (negsuc n) = false

-- A short read returns what there was and sets the status.
unfoldable pub read_raw_data : ℤ → Exec QDataStream (List ℕ)
read_raw_data n s = elim s.device [
  | none ↦ (ok [], record s { status = read_past_end })
  | some b ↦
      let (chunk, b') = Buffer.read n b in
      if is_short chunk n
      then (ok chunk, record s { device = some b'; status = read_past_end })
      else (ok chunk, record s { device = some b' })
]

-- `struct.pack(">I", size)`, which refuses a size that needs more than four bytes.
unfoldable pub write_size : ℕ → Exec QDataStream Unit
write_size n = if ltb n (2 ^ 32) then write_bytes (big_endian 4 n) else raise struct_error

-- `stream << q`
unfoldable pub write_qbytearray : QByteArray → Exec QDataStream Unit
unfolding write_size
write_qbytearray q =
    if is_null q
    then write_bytes (big_endian 4 null_marker)
    else do write_size (length q.bytes); when (ltb 0 (length q.bytes)) (write_bytes q.bytes)

-- What `>>` leaves in its target, from the payload that was read.
abbrev pub received : Option (List ℕ) → QByteArray
received none = of_bytes []
received (some payload) = of_bytes payload

unfoldable pub read_sized : ℕ → Exec QDataStream QByteArray
read_sized size =
    if (size == null_marker) || (size == 0)
    then pure (of_bytes [])
    else do payload ← read_bytes size; pure (received payload)

unfoldable pub read_payload : Option (List ℕ) → Exec QDataStream QByteArray
unfolding from_big_endian read_sized
read_payload none = pure (of_bytes [])
read_payload (some size_b) = read_sized (from_big_endian size_b)

-- `stream >> q`: the target is emptied first, so only the stream decides its content.
unfoldable pub read_qbytearray : Exec QDataStream QByteArray
unfolding read_payload
read_qbytearray = do size_b ← read_bytes 4; read_payload size_b

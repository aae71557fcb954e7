-- ===== src/Qt/Primitive.antt =====
-- The integers of `QDataStream`: `readUInt8` to `readInt64` and `writeUInt8` to `writeInt64`,
-- by the width in bytes. `struct` packs big-endian, a signed value in two's complement.
use opentele.Prelude.{ℕ, ◌-◌, ◌/◌, ◌%◌, ◌^◌, Option, none, some, List, ltb, if◌then◌else◌}
use opentele.Prelude.Int.{ℤ, pos, negsuc, mask, ◌+ℤ◌, ◌-ℤ◌}
use opentele.Exec.{Exec, pure, ◌>>=◌}
use opentele.Bytes.{big_endian, from_big_endian}
use opentele.Qt.DataStream.{QDataStream, read_bytes, write_bytes}

-- What a read past the end returns is 0.
unfoldable pub unpack_unsigned : Option (List ℕ) → ℕ
unfolding from_big_endian
unpack_unsigned none = 0
unpack_unsigned (some b) = from_big_endian b

unfoldable pub read_unsigned : ℕ → Exec QDataStream ℕ
unfolding unpack_unsigned
read_unsigned w = do b ← read_bytes w; pure (unpack_unsigned b)

abbrev pub read_uint8 : Exec QDataStream ℕ
read_uint8 = read_unsigned 1

abbrev pub read_uint16 : Exec QDataStream ℕ
read_uint16 = read_unsigned 2

abbrev pub read_uint32 : Exec QDataStream ℕ
read_uint32 = read_unsigned 4

abbrev pub read_uint64 : Exec QDataStream ℕ
read_uint64 = read_unsigned 8

-- The two's complement value of a pattern of `w` bytes.
unfoldable pub to_signed : ℕ → ℕ → ℤ
to_signed w v = if ltb v (256 ^ w / 2) then pos v else negsuc (256 ^ w - 1 - v)

unfoldable pub unpack_signed : ℕ → Option (List ℕ) → ℤ
unfolding from_big_endian to_signed
unpack_signed w none = pos 0
unpack_signed w (some b) = to_signed w (from_big_endian b)

unfoldable pub read_signed : ℕ → Exec QDataStream ℤ
unfolding unpack_signed
read_signed w = do b ← read_bytes w; pure (unpack_signed w b)

abbrev pub read_int8 : Exec QDataStream ℤ
read_int8 = read_signed 1

abbrev pub read_int16 : Exec QDataStream ℤ
read_int16 = read_signed 2

abbrev pub read_int32 : Exec QDataStream ℤ
read_int32 = read_signed 4

abbrev pub read_int64 : Exec QDataStream ℤ
read_int64 = read_signed 8

-- `v & 0xFF…`
unfoldable pub write_unsigned : ℕ → ℕ → Exec QDataStream Unit
write_unsigned w v = write_bytes (big_endian w (v % 256 ^ w))

abbrev pub write_uint8 : ℕ → Exec QDataStream Unit
write_uint8 = write_unsigned 1

abbrev pub write_uint16 : ℕ → Exec QDataStream Unit
write_uint16 = write_unsigned 2

abbrev pub write_uint32 : ℕ → Exec QDataStream Unit
write_uint32 = write_unsigned 4

abbrev pub write_uint64 : ℕ → Exec QDataStream Unit
write_uint64 = write_unsigned 8

-- `((v + 0x80…) & 0xFF…) - 0x80…`
unfoldable pub wrap_signed : ℕ → ℤ → ℤ
unfolding mask ◌+ℤ◌ ◌-ℤ◌
wrap_signed w v = let half = pos (256 ^ w / 2) in pos (mask (v +ℤ half) (256 ^ w)) -ℤ half

unfoldable pub write_signed : ℕ → ℤ → Exec QDataStream Unit
unfolding wrap_signed
write_signed w v = write_bytes (big_endian w (mask (wrap_signed w v) (256 ^ w)))

abbrev pub write_int8 : ℤ → Exec QDataStream Unit
write_int8 = write_signed 1

abbrev pub write_int16 : ℤ → Exec QDataStream Unit
write_int16 = write_signed 2

abbrev pub write_int32 : ℤ → Exec QDataStream Unit
write_int32 = write_signed 4

abbrev pub write_int64 : ℤ → Exec QDataStream Unit
write_int64 = write_signed 8

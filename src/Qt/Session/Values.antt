-- ===== src/Qt/Session/Values.antt =====
-- The values of `QDataStream`, read back from the bytes that their writes append.
use opentele.Prelude.{ℕ, ◌%◌, ◌^◌, ◌≤◌, ◌<◌, ◌≡◌, List, arith}
use opentele.Prelude.Int.{ℤ, pos, negsuc, mask, pos_part, neg_part}
use opentele.Exec.{Exec, pure, ◌>>=◌}
use opentele.Bytes.{big_endian, length-big_endian, from_big_endian-big_endian}
use opentele.Qt.DataStream.{QDataStream}
use opentele.Qt.Primitive.{
  read_unsigned, unpack_unsigned, write_unsigned, to_signed, unpack_signed, read_signed,
  wrap_signed, write_signed,
}
use opentele.Qt.Session.{Parses, Begins}
use opentele.Qt.Session.Rules.{read_bytes-Parses, pure-Parses, bind-Parses_last, write_bytes-Begins}

-- A read that maps a fixed number of bytes to a value.
pub map-Parses :
    {A B : Type 0} (m : Exec QDataStream A) (g : A → B) (bs : List ℕ) (a : A)
    → Parses m bs a
    → Parses (m >>= λ x. pure (g x)) bs (g a)
map-Parses m g bs a h = bind-Parses_last m (λ x. pure (g x)) bs a (g a) h (pure-Parses (g a))

pub read_unsigned-Parses : (w v : ℕ) → v < 256 ^ w → Parses (read_unsigned w) (big_endian w v) v
unfolding read_unsigned
read_unsigned-Parses w v h = rw (from_big_endian-big_endian w v h) at (
    map-Parses _ unpack_unsigned _ _ (read_bytes-Parses w (big_endian w v) (length-big_endian w v)))

pub write_unsigned-Begins : (w v : ℕ) → Begins (write_unsigned w v) (big_endian w (v % 256 ^ w))
unfolding write_unsigned
write_unsigned-Begins w v = write_bytes-Begins _

-- Wrapping keeps the two's complement pattern, at the widths that the streams have.
mask-wrap_signed4 : (v : ℤ) → mask (wrap_signed 4 v) (256 ^ 4) ≡ mask v (256 ^ 4)
unfolding wrap_signed
mask-wrap_signed4 (pos n) = ground arith
mask-wrap_signed4 (negsuc n) = ground arith

mask-wrap_signed8 : (v : ℤ) → mask (wrap_signed 8 v) (256 ^ 8) ≡ mask v (256 ^ 8)
unfolding wrap_signed
mask-wrap_signed8 (pos n) = ground arith
mask-wrap_signed8 (negsuc n) = ground arith

pub write_int32-Begins : (v : ℤ) → Begins (write_signed 4 v) (big_endian 4 (mask v (256 ^ 4)))
unfolding write_signed
write_int32-Begins v = rw (mask-wrap_signed4 v) (write_bytes-Begins _)

pub write_int64-Begins : (v : ℤ) → Begins (write_signed 8 v) (big_endian 8 (mask v (256 ^ 8)))
unfolding write_signed
write_int64-Begins v = rw (mask-wrap_signed8 v) (write_bytes-Begins _)

-- The values that `w` bytes hold.
abbrev pub IsInt32 : ℤ → Type 0
IsInt32 v = (pos_part v < 2 ^ 31) × (neg_part v ≤ 2 ^ 31)

mask-lt : (v : ℤ) → mask v (256 ^ 4) < 256 ^ 4
unfolding mask
mask-lt (pos n) = omega arith
mask-lt (negsuc n) = omega arith

to_signed-mask4 : (v : ℤ) → IsInt32 v → to_signed 4 (mask v (256 ^ 4)) ≡ v
unfolding to_signed mask
to_signed-mask4 (pos n) h = ground arith
to_signed-mask4 (negsuc n) h = ground arith

-- A read of what `writeInt32` wrote gives the value back, if it fits 32 bits.
pub read_int32-Parses :
    (v : ℤ) → IsInt32 v → Parses (read_signed 4) (big_endian 4 (mask v (256 ^ 4))) v
unfolding read_signed unpack_signed
read_int32-Parses v h =
    rw (from_big_endian-big_endian 4 (mask v (256 ^ 4)) (mask-lt v), to_signed-mask4 v h) at
      (map-Parses _ (unpack_signed 4) _ _
        (read_bytes-Parses 4 (big_endian 4 (mask v (256 ^ 4))) (length-big_endian 4 _)))

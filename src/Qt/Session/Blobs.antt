-- ===== src/Qt/Session/Blobs.antt =====
-- Byte arrays and raw data, read back from the bytes that their writes append.
use opentele.Prelude.{
  ℕ, suc, ◌^◌, ◌<◌, ◌≡◌, refl, ap, Bool, true, false, List, [], ◌∷◌, ◌++◌, some, arith, ltb, length,
  ◌&&◌, ◌||◌, ◌==◌, append_assoc, if◌then◌else◌, Bool-cases, inl, inr, lt→ltb, length-append,
  le→ltb_false,
}
use opentele.Prelude.Int.{pos}
use opentele.Exec.{pure, discard, continue}
use opentele.Bytes.{big_endian, length-big_endian, from_big_endian-big_endian}
use opentele.Qt.ByteArray.{QByteArray, of_bytes, is_null}
use opentele.Qt.Blob.{
  null_marker, write_raw_data, read_raw_data, write_size, write_qbytearray, read_payload,
  read_sized, received, read_qbytearray,
}
use opentele.Qt.Session.{Parses, Begins, reader}
use opentele.Qt.Session.Rules.{
  read_bytes-Parses, pure-Parses, bind-Parses, bind-Parses_last, write_bytes-Begins,
  write_bytes-Writes, bind-Begins, when-Writes, buffer_read_mid,
}
use opentele.Qt.Session.Values.{map-Parses}

-- What `<<` puts on the wire.
unfoldable pub qbytearray_bytes : QByteArray → List ℕ
qbytearray_bytes q =
    if is_null q then big_endian 4 null_marker else (big_endian 4 (length q.bytes) ++ q.bytes)

pub write_size-Begins : (n : ℕ) → n < 2 ^ 32 → Begins (write_size n) (big_endian 4 n)
unfolding write_size
write_size-Begins n h = rw (lt→ltb n (2 ^ 32) h) (write_bytes-Begins _)

if-empty : (bs : List ℕ) → (if ltb 0 (length bs) then bs else []) ≡ bs
if-empty [] = refl
if-empty (b ∷ bs) = ground arith

pub write_qbytearray-Begins :
    (q : QByteArray) → length q.bytes < 2 ^ 32 → Begins (write_qbytearray q) (qbytearray_bytes q)
unfolding write_qbytearray qbytearray_bytes
write_qbytearray-Begins q h = elim (Bool-cases (is_null q)) [
  | inl n ↦ rw n (write_bytes-Begins _)
  | inr n ↦ rw n (
      rw (if-empty q.bytes) at (
        bind-Begins _ _ _ _ (write_size-Begins (length q.bytes) h)
          (when-Writes (ltb 0 (length q.bytes)) _ _ (write_bytes-Writes q.bytes))))
]

sized_test : (n : ℕ) → 0 < n → n < null_marker → ((n == null_marker) || (n == 0)) ≡ false
sized_test n h k = ground arith

read_sized-Parses :
    (bs : List ℕ) → length bs < null_marker → Parses (read_sized (length bs)) bs (of_bytes bs)
unfolding read_sized
read_sized-Parses [] h = pure-Parses (of_bytes [])
read_sized-Parses (b ∷ bs) h =
    rw (sized_test (suc (length bs)) (omega arith) h)
      (map-Parses _ received _ _ (read_bytes-Parses (suc (length bs)) (b ∷ bs) refl))

read_payload-Parses :
    (n : ℕ) (bs : List ℕ) (q : QByteArray)
    → n < 2 ^ 32
    → Parses (read_sized n) bs q
    → Parses (read_payload (some (big_endian 4 n))) bs q
unfolding read_payload
read_payload-Parses n bs q h p = rw (from_big_endian-big_endian 4 n h) p

pub is_null-bytes : (bs : List ℕ) (n : Bool) → (n && length bs == 0) ≡ true → bs ≡ []
is_null-bytes [] n h = refl
is_null-bytes (b ∷ bs) n h = ground arith

pub read_qbytearray-Parses :
    (q : QByteArray)
    → length q.bytes < null_marker
    → Parses read_qbytearray (qbytearray_bytes q) (of_bytes q.bytes)
unfolding read_qbytearray qbytearray_bytes
read_qbytearray-Parses q h = elim (Bool-cases (is_null q)) [
  | inl n ↦
      rw (n, is_null-bytes q.bytes q.null n)
        (bind-Parses_last _ _ _ _ _
          (read_bytes-Parses 4 (big_endian 4 null_marker) (length-big_endian 4 _))
          (read_payload-Parses null_marker [] (of_bytes []) (omega arith)
            (unfold read_sized in pure-Parses (of_bytes []))))
  | inr n ↦ rw n (
      bind-Parses _ _ _ _ _ _
        (read_bytes-Parses 4 (big_endian 4 (length q.bytes)) (length-big_endian 4 _))
        (read_payload-Parses (length q.bytes) q.bytes _ (omega arith)
          (read_sized-Parses q.bytes h)))
]

pub write_raw_data-Begins : (bs : List ℕ) → Begins (discard (write_raw_data bs)) bs
unfolding write_raw_data discard
write_raw_data-Begins bs = record {
  at = λ f done.
      ap (λ r. continue (λ _. pure tt) (continue (λ _. pure (length bs)) r))
        ((write_bytes-Begins bs).at f done);
}

pub read_raw_data-Parses :
    (n : ℕ) (bs : List ℕ) → length bs ≡ n → Parses (read_raw_data (pos n)) bs bs
unfolding read_raw_data reader
read_raw_data-Parses n bs h = record {
  at = λ f done rest.
      rw (← h, buffer_read_mid, le→ltb_false (length bs) (length bs) (omega arith))
        (rw (append_assoc, length-append));
}

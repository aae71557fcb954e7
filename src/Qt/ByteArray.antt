-- ===== src/Qt/ByteArray.antt =====
-- `QByteArray` of src/td/qdatastream.py: bytes, with Qt's mark of a null array.
use opentele.Prelude.{
  ℕ, ◌-◌, ◌≡◌, Bool, true, false, ◌&&◌, List, [], ◌++◌, arith, ltb, ◌==◌, if◌then◌else◌, length,
  take, drop, slice, replicate, length-append, length-replicate, length-take,
}

pub record QByteArray : Type 0 where
  pub bytes : List ℕ
  pub null : Bool

-- `QByteArray()`
abbrev pub empty : QByteArray
empty = record { bytes = []; null = true }

-- `QByteArray(source)` for `bytes`
abbrev pub of_bytes : List ℕ → QByteArray
of_bytes source = record { bytes = source; null = false }

-- `QByteArray(source)` for another `QByteArray`
abbrev pub copy : QByteArray → QByteArray
copy source = record { bytes = source.bytes; null = source.null }

abbrev pub size : QByteArray → ℕ
size q = length q.bytes

abbrev pub is_empty : QByteArray → Bool
is_empty q = length q.bytes == 0

abbrev pub is_null : QByteArray → Bool
is_null q = q.null && length q.bytes == 0

unfoldable pub resize : ℕ → QByteArray → QByteArray
resize new_size q =
    let cur = length q.bytes in
    record {
      bytes =
          if ltb new_size cur
          then take new_size q.bytes
          else if ltb cur new_size
          then q.bytes ++ replicate (new_size - cur) 0
          else q.bytes;
      null = false;
    }

-- A capacity hint: no effect.
abbrev pub reserve : ℕ → QByteArray → QByteArray
reserve capacity q = q

abbrev pub clear : QByteArray → QByteArray
clear q = empty

-- `q + other`
abbrev pub add : QByteArray → QByteArray → QByteArray
add q other = of_bytes (q.bytes ++ other.bytes)

-- `q[i:j]` and `q[i:]`
abbrev pub get_slice : QByteArray → ℕ → ℕ → QByteArray
get_slice q i j = of_bytes (slice q.bytes i j)

abbrev pub get_tail : QByteArray → ℕ → QByteArray
get_tail q i = of_bytes (drop i q.bytes)

-- A resized array has the size asked for, whether it shrinks or grows, and is not null.
pub size-resize :
    (n : ℕ) (q : QByteArray) → (size (resize n q) ≡ n) × (is_null (resize n q) ≡ false)
unfolding resize
size-resize n q = ground (
  arith,
  length-take n q.bytes,
  length-append q.bytes (replicate (n - length q.bytes) 0),
  length-replicate {A = ℕ} (n - length q.bytes) 0,
)

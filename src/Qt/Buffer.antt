-- ===== src/Qt/Buffer.antt =====
-- `QIODevice.OpenModeFlag` and `QBuffer` of src/td/qdatastream.py: a cursor over a byte array.
use opentele.Prelude.{
  ℕ, ◌+◌, ◌-◌, Bool, true, false, Option, none, some, List, [], ◌++◌, ltb, leb, if◌then◌else◌,
  length, take, drop, slice, replicate,
}
use opentele.Prelude.Int.{ℤ, pos, negsuc}
use opentele.Qt.ByteArray.{QByteArray}

pub data OpenModeFlag : Type 0 where
  not_open read_only write_only read_write append truncate text unbuffered : OpenModeFlag

pub record QBuffer : Type 0 where
  pub qba : Option QByteArray
  pub mode : OpenModeFlag
  pub position : ℕ

-- `QBuffer(qba)`
abbrev pub new : Option QByteArray → QBuffer
new q = record { qba = q; mode = not_open; position = 0 }

abbrev pub set_buffer : Option QByteArray → QBuffer → QBuffer
set_buffer q b = record b { qba = q; position = 0 }

-- The result is that of `open`: a buffer with no array does not open.
unfoldable pub open_with : OpenModeFlag → QBuffer → Bool × QBuffer
open_with m b = elim b.qba [
  | none ↦ (false, b)
  | some q ↦ (true, record b { mode = m; position = 0 })
]

abbrev pub close : QBuffer → QBuffer
close b = record b { mode = not_open; position = 0 }

abbrev pub is_open : QBuffer → Bool
is_open b = elim b.mode [ not_open ↦ false | _ ↦ true ]

unfoldable pub seek : ℤ → QBuffer → Bool × QBuffer
seek p b = elim b.qba [
  | none ↦ (false, b)
  | some q ↦ (true, record b { position = elim p [ pos n ↦ n | negsuc n ↦ 0 ] })
]

unfoldable pub at_end : QBuffer → Bool
at_end b = elim b.qba [ none ↦ true | some q ↦ leb (length q.bytes) b.position ]

unfoldable pub bytes_available : QBuffer → ℕ
bytes_available b = elim b.qba [ none ↦ 0 | some q ↦ length q.bytes - b.position ]

-- How many bytes `read(n)` takes where `avail` are left.
unfoldable pub read_count : ℤ → ℕ → ℕ
read_count (negsuc n) avail = avail
read_count (pos n) avail = if ltb avail n then avail else n

unfoldable pub read : ℤ → QBuffer → List ℕ × QBuffer
unfolding read_count
read n b = elim b.qba [
  | none ↦ ([], b)
  | some q ↦
      let taken = read_count n (length q.bytes - b.position) in
      (slice q.bytes b.position (b.position + taken), record b { position = b.position + taken })
]

-- The array, filled up with zero bytes to `end`, with the slice `[p:end]` replaced.
unfoldable pub overwrite : List ℕ → ℕ → List ℕ → List ℕ
overwrite bytes p payload =
    let end = p + length payload in
    let extended =
      if ltb (length bytes) end then bytes ++ replicate (end - length bytes) 0 else bytes in
    take p extended ++ (payload ++ drop end extended)

unfoldable pub write : List ℕ → QBuffer → ℕ × QBuffer
unfolding overwrite
write payload b = elim b.qba [
  | none ↦ (0, b)
  | some q ↦ (
    length payload,
    record b {
      qba = some (record { bytes = overwrite q.bytes b.position payload; null = false });
      position = b.position + length payload;
    },
  )
]

-- ===== src/Qt/DataStream.antt =====
-- `QDataStream` of src/td/qdatastream.py. Its constructors, its status, and the reads and writes.
-- `_owned_buffer` is the device once more, and nothing reads it.
use opentele.Prelude.{ℕ, Bool, true, false, Option, none, some, List, ltb, if◌then◌else◌, length}
use opentele.Prelude.Int.{pos}
use opentele.Exception.{ok}
use opentele.Exec.{Exec}
use opentele.Qt.ByteArray.{QByteArray}
use opentele.Qt.Buffer
use opentele.Qt.Buffer.{QBuffer, OpenModeFlag, not_open, read_only}

pub data Status : Type 0 where
  status_ok read_past_end read_corrupt_data write_failed : Status

pub record QDataStream : Type 0 where
  pub device : Option QBuffer
  pub version : ℕ
  pub status : Status
  pub mode : OpenModeFlag

-- `Version.Qt_5_1`
abbrev pub qt_5_1 : ℕ
qt_5_1 = 14

-- `QDataStream()`
abbrev pub empty : QDataStream
empty = record { device = none; version = qt_5_1; status = status_ok; mode = not_open }

-- `QDataStream(qba, mode)`
unfoldable pub of_qbytearray : QByteArray → OpenModeFlag → QDataStream
unfolding Buffer.open_with
of_qbytearray q m = record {
  device = some (Buffer.open_with m (Buffer.new (some q))).1;
  version = qt_5_1;
  status = status_ok;
  mode = m;
}

-- `QDataStream(qba)`
abbrev pub reading : QByteArray → QDataStream
reading q = of_qbytearray q read_only

abbrev pub set_version : ℕ → QDataStream → QDataStream
set_version v s = record s { version = v }

unfoldable pub set_device : Option QBuffer → QDataStream → QDataStream
set_device d s = record s { device = d; mode = elim d [ none ↦ not_open | some b ↦ b.mode ] }

abbrev pub reset_status : QDataStream → QDataStream
reset_status s = record s { status = status_ok }

abbrev pub is_ok : QDataStream → Bool
is_ok s = elim s.status [ status_ok ↦ true | _ ↦ false ]

unfoldable pub at_end : QDataStream → Bool
unfolding Buffer.at_end
at_end s = elim s.device [ none ↦ true | some b ↦ Buffer.at_end b ]

unfoldable pub bytes_available : QDataStream → ℕ
unfolding Buffer.bytes_available
bytes_available s = elim s.device [ none ↦ 0 | some b ↦ Buffer.bytes_available b ]

-- `_read_bytes` for a count that is not negative
unfoldable pub read_bytes : ℕ → Exec QDataStream (Option (List ℕ))
read_bytes n s = elim s.device [
  | none ↦ (ok none, record s { status = read_past_end })
  | some b ↦
      let (chunk, b') = Buffer.read (pos n) b in
      if ltb (length chunk) n
      then (ok none, record s { device = some b'; status = read_past_end })
      else (ok (some chunk), record s { device = some b' })
]

unfoldable pub write_bytes : List ℕ → Exec QDataStream Unit
write_bytes payload s = elim s.device [
  | none ↦ (ok tt, record s { status = write_failed })
  | some b ↦ (ok tt, record s { device = some (Buffer.write payload b).1 })
]

-- ===== src/Qt/Session.antt =====
-- Streams in the middle of their work, and what it means to read or write given bytes.
pub mod Rules
pub mod Values
pub mod Blobs
pub mod Texts
pub mod Raises
pub mod RoundTrip
use opentele.Prelude.{
  ℕ, ◌+◌, ◌-◌, ◌≤◌, ◌≡◌, refl, sym, ap, Bool, false, some, List, [], ◌++◌, arith, ltb, length,
  append_assoc, slice_mid, length-append,
}
use opentele.Prelude.Int.{pos}
use opentele.Exception.{ok}
use opentele.Exec.{Exec, ◌>>=◌}
use opentele.Qt.Buffer
use opentele.Qt.Buffer.{OpenModeFlag}
use opentele.Qt.ByteArray.{QByteArray}
use opentele.Qt.DataStream.{QDataStream, status_ok, qt_5_1, of_qbytearray}

-- What a stream has beside its bytes and its position.
pub record Frame : Type 0 where
  pub null : Bool
  pub open_mode : OpenModeFlag
  pub stream_mode : OpenModeFlag
  pub version : ℕ

-- A stream that is in order, behind the bytes `done` and before the bytes `rest`.
unfoldable pub reader : Frame → List ℕ → List ℕ → QDataStream
reader f done rest = record {
  device = some (record {
    qba = some (record { bytes = done ++ rest; null = f.null });
    mode = f.open_mode;
    position = length done;
  });
  version = f.version;
  status = status_ok;
  mode = f.stream_mode;
}

-- `m` takes exactly the bytes `bs` and returns `a`, whatever stands before and behind them.
pub record Parses {A : Type 0} (m : Exec QDataStream A) (bs : List ℕ) (a : A) : Type 0 where
  pub at :
      (f : Frame) (done rest : List ℕ)
      → m (reader f done (bs ++ rest)) ≡ (ok a, reader f (done ++ bs) rest)

-- A stream that has written the bytes `done` and stands behind them.
abbrev pub writer : Frame → List ℕ → QDataStream
writer f done = reader f done []

-- `m` appends exactly the bytes `bs`. (A written array is not null.)
pub record Writes (m : Exec QDataStream Unit) (bs : List ℕ) : Type 0 where
  pub at :
      (f : Frame) (done : List ℕ)
      → f.null ≡ false
      → m (writer f done) ≡ (ok tt, writer f (done ++ bs))

-- `m` appends exactly the bytes `bs`, and leaves the array not null.
pub record Begins (m : Exec QDataStream Unit) (bs : List ℕ) : Type 0 where
  pub at :
      (f : Frame) (done : List ℕ)
      → m (writer f done) ≡ (ok tt, writer (record f { null = false }) (done ++ bs))

-- The frame of a stream over an array that is or is not null.
abbrev pub frame : OpenModeFlag → Bool → Frame
frame m n = record { null = n; open_mode = m; stream_mode = m; version = qt_5_1 }

pub of_qbytearray-reader :
    (q : QByteArray) (m : OpenModeFlag) → of_qbytearray q m ≡ reader (frame m q.null) [] q.bytes
unfolding of_qbytearray reader
of_qbytearray-reader q m = refl

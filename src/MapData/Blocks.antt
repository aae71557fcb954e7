-- ===== src/MapData/Blocks.antt =====
-- The three arrays of the map file: two that are empty, and the encrypted payload.
use opentele.Prelude.{
  ℕ, ◌<◌, ◌≡◌, sym, ap, ◌∙◌, Bool, true, false, List, [], ◌++◌, arith, length, append-nil,
  append_assoc,
}
use opentele.Exception.{ok}
use opentele.Exec.{Exec, lift, pure, ◌>>=◌, ◌>>◌}
use opentele.Crypto.{Crypto}
use opentele.Auth.{AuthKey}
use opentele.Qt.ByteArray
use opentele.Qt.ByteArray.{QByteArray, of_bytes}
use opentele.Qt.Buffer.{read_only}
use opentele.Qt.DataStream.{QDataStream}
use opentele.Qt.Blob.{read_qbytearray, null_marker}
use opentele.Qt.Session.{Parses, reader, frame}
use opentele.Qt.Session.Rules.{bind-Parses, bind-Parses_last, pure-Parses}
use opentele.Qt.Session.Blobs.{qbytearray_bytes, read_qbytearray-Parses}
use opentele.MapData.{MapData}
use opentele.MapData.Read.{expect_stream_status}
use opentele.MapData.Sections.{expect_stream_status-Parses}
use opentele.MapData.Descriptor.{prepare_to_write}
use opentele.Storage.Local
use opentele.Storage.Local.{EncryptedDescriptor, prepare_encrypted}
use opentele.Storage.File.Write.{FileWriteDescriptor, write_data, write_encrypted}
use opentele.Storage.File.RoundTrip.{session, write_data-session}
use opentele.Storage.File.Reload.{reloaded, write_encrypted-prepared}

abbrev pub block : QByteArray → List ℕ
block q = qbytearray_bytes q

-- What `writeMap` writes to its file, on a host that is or is not big-endian.
unfoldable pub write_blocks : Crypto → Bool → MapData → AuthKey → Exec FileWriteDescriptor Unit
write_blocks c is_big_endian m a = do
  write_data is_big_endian ByteArray.empty
  write_data is_big_endian ByteArray.empty
  d ← lift (prepare_to_write m)
  write_encrypted c is_big_endian d a

-- `mapData.stream >> legacySalt >> legacyKeyEncrypted >> mapEncrypted`, and the check of the status
unfoldable pub read_three : Exec QDataStream (QByteArray × QByteArray × QByteArray)
read_three = do
  salt ← read_qbytearray
  key_encrypted ← read_qbytearray
  map_encrypted ← read_qbytearray
  expect_stream_status
  pure (salt, key_encrypted, map_encrypted)

pub write_blocks-session :
    (c : Crypto) (m : MapData) (a : AuthKey) (d : EncryptedDescriptor) (name : List ℕ)
    → prepare_to_write m ≡ ok d
    → (e : List ℕ) → prepare_encrypted c (Local.finish d) a ≡ ok (of_bytes e)
    → length e < null_marker
    → write_blocks c false m a (session name true []) ≡ (
      ok tt,
      session name false (block ByteArray.empty ++ (block ByteArray.empty ++ block (of_bytes e))),
    )
unfolding write_blocks ◌>>=◌
write_blocks-session c m a d name prepared e encrypted small =
    let b0 = block ByteArray.empty in
    rw
      (
        write_data-session name true [] ByteArray.empty (omega arith),
        write_data-session name false b0 ByteArray.empty (omega arith),
        prepared,
        write_encrypted-prepared c a d (session name false (b0 ++ b0)) encrypted,
        write_data-session name false (b0 ++ b0) (of_bytes e) (omega (arith, small)),
      )
      (ap (λ t. (ok tt, session name false t)) (append_assoc b0 b0 (block (of_bytes e))))

three-Parses :
    (e : List ℕ)
    → length e < null_marker
    → Parses read_three
        (block ByteArray.empty ++ (block ByteArray.empty ++ block (of_bytes e)))
        (of_bytes [], of_bytes [], of_bytes e)
unfolding read_three
three-Parses e small =
    let none_there = read_qbytearray-Parses ByteArray.empty (omega arith) in
    bind-Parses _ _ _ _ _ _ none_there (
      bind-Parses _ _ _ _ _ _ none_there (
        bind-Parses_last _ _ _ _ _ (read_qbytearray-Parses (of_bytes e) small)
          (bind-Parses_last _ _ _ _ _ expect_stream_status-Parses (pure-Parses _))))

pub read_three-blocks :
    (e : List ℕ)
    → length e < null_marker
    → (read_three
        (reloaded
          (block ByteArray.empty ++ (block ByteArray.empty ++ block (of_bytes e)))).stream).0
      ≡ ok (of_bytes [], of_bytes [], of_bytes e)
read_three-blocks e small =
    let bytes = block ByteArray.empty ++ (block ByteArray.empty ++ block (of_bytes e)) in
    ap (λ bs. (read_three (reader (frame read_only false) [] bs)).0) (sym (append-nil bytes))
    ∙ ap (λ r. r.0) ((three-Parses e small).at (frame read_only false) [] [])

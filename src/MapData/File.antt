-- ===== src/MapData/File.antt =====
-- The map file: `StorageAccount.writeMap`, and `MapData.read` from the file on, of src/td/account.py.
use opentele.Prelude.{
  ◌≢◌, refl, ◌-◌, ℕ, ◌^◌, ◌<◌, ◌≡◌, ap, Bool, true, false, Option, none, some, List, [], ◌∷◌, ◌++◌,
  ◌==◌, if◌then◌else◌, length, arith, length-append,
}
use opentele.Exception.{
  Result, ok, err, rethrow, expects, open_tele_exception, t_data_read_map_data_failed,
  t_data_read_map_data_incorrect_passcode, ◌>>=◌, ◌>>◌,
}
use opentele.Crypto.{Crypto, IsCrypto}
use opentele.Auth.{AuthKey, generated, read_from_file, from_stream}
use opentele.Prelude.Int.{pos}
use opentele.Qt.ByteArray
use opentele.Qt.ByteArray.{QByteArray, of_bytes, size, is_empty}
use opentele.Qt.Buffer.{read_only}
use opentele.Qt.Blob.{null_marker}
use opentele.Qt.Session.{frame}
use opentele.MapData.{MapData}
use opentele.MapData.Blocks.{
  write_blocks, read_three, block, write_blocks-session, read_three-blocks,
}
use opentele.MapData.Read.{read_map}
use opentele.MapData.Termination.{read_map_ends}
use opentele.Exception.{>>=-eq-ok}
use opentele.MapData.Write.{map_size}
use opentele.MapData.Size.{length-map_bytes}
use opentele.MapData.RoundTrip.{IsStorable, kept, read_map-map_bytes}
use opentele.MapData.Descriptor.{prepare_to_write-Roomy, opened_stream}
use opentele.Storage.Local
use opentele.Storage.Local.{EncryptedDescriptor, prepare_encrypted, decrypt_local, whole, pad16}
use opentele.Storage.Local.RoundTrip.{plain, pad16_laws, sealed}
use opentele.Storage.Local.Opened.{prepare_encrypted-sealed, decrypt_local-sealed, size-whole}
use opentele.Storage.File.{Folder, with_suffix, suffix_s}
use opentele.Storage.File.Write.{FileWriteDescriptor, init, finish}
use opentele.Storage.File.Read.{read_file}
use opentele.Storage.File.RoundTrip.{init-session, finish-session, length-block}
use opentele.Storage.File.Reload.{
  HasFile, saved, write_file-saved, saved-HasFile, read_file-HasFile,
}

-- The bytes of "map"
abbrev pub map_name : List ℕ
map_name = 109 ∷ 97 ∷ 112 ∷ []

module _ (c : Crypto) where
  -- `map.finish()`, where nothing was raised before
  abbrev pub finished : Folder → Result (Unit {0}) × FileWriteDescriptor → Result Folder
  finished folder (ok u, w) = finish c w folder
  finished folder (err e, w) = err e

  -- `StorageAccount.writeMap`
  unfoldable pub write_map_file : Bool → Option AuthKey → MapData → Folder → Result Folder
  write_map_file is_big_endian none m folder = err open_tele_exception
  write_map_file is_big_endian (some a) m folder =
      finished folder (write_blocks c is_big_endian m a (init map_name))

  -- `CreateLegacyLocalKey` of src/td/storage.py
  unfoldable pub create_legacy_local_key : QByteArray → QByteArray → AuthKey
  create_legacy_local_key salt passcode = record {
    key = c.pbkdf2_sha512 passcode.bytes salt.bytes (if is_empty passcode then 1 else 100000);
    type = generated;
    dc_id = pos 0;
  }

  -- The key of a map file from before there were key files.
  unfoldable pub read_legacy_key : QByteArray → QByteArray → QByteArray → Result AuthKey
  unfolding create_legacy_local_key
  read_legacy_key salt key_encrypted passcode =
      expects (size salt == 32) t_data_read_map_data_failed
      >> (rethrow t_data_read_map_data_incorrect_passcode
            (decrypt_local c key_encrypted (create_legacy_local_key salt passcode))
          >>= λ key_data. (from_stream read_from_file (pos 0) key_data.stream).0)

  -- `local_key`, or the legacy key where there is none
  unfoldable pub key_for : Option AuthKey → QByteArray → QByteArray → QByteArray → Result AuthKey
  unfolding read_legacy_key
  key_for (some a) salt key_encrypted passcode = ok a
  key_for none salt key_encrypted passcode = read_legacy_key salt key_encrypted passcode

  -- `MapData.read`: the fields, or `none` where the fuel of `read_map` runs out.
  unfoldable pub read : Bool → Option AuthKey → QByteArray → Folder → Result (Option MapData)
  unfolding key_for
  read lenient local_key passcode folder =
      rethrow t_data_read_map_data_failed (read_file c map_name folder) >>= λ map_data.
      (read_three map_data.stream).0 >>= λ parts.
      let (salt, key_encrypted, map_encrypted) = parts in
      key_for local_key salt key_encrypted passcode >>= λ a.
      rethrow t_data_read_map_data_failed (decrypt_local c map_encrypted a) >>= λ x.
      (read_map lenient x.stream).0

fits_three :
    (e : List ℕ)
    → length e < null_marker - 100
    → length (block ByteArray.empty ++ (block ByteArray.empty ++ block (of_bytes e))) < 2 ^ 32
fits_three e small =
    let b0 = block ByteArray.empty in
    omega (
      arith,
      length-append b0 (b0 ++ block (of_bytes e)),
      length-append b0 (block (of_bytes e)),
      length-block ByteArray.empty,
      length-block (of_bytes e),
    )

-- The file that a map is written to, and what it is read as wherever it stands.
pub write_map_file-saved :
    (c : Crypto) (lenient : Bool) (a : AuthKey) (passcode : QByteArray) (m : MapData)
    (folder : Folder)
    → IsCrypto c
    → IsStorable m
    → map_size m < 2 ^ 31
    → folder.is_writable (with_suffix map_name suffix_s) ≡ true
    → (bytes : List ℕ) × (write_map_file c false (some a) m folder
        ≡ ok (saved c map_name bytes folder))
      × ((f : Folder)
          → HasFile c map_name bytes f
          → read c lenient (some a) passcode f ≡ ok (some (kept m)))
unfolding write_map_file read key_for rethrow
write_map_file-saved c lenient a passcode m folder laws h fits writable =
    let (d, prepared, room) = prepare_to_write-Roomy m h in
    let (header, rest, short) = room in
    let q = Local.finish d in
    let fits32 : size (whole q) < 2 ^ 32 = omega (arith, size-whole q, short, length-map_bytes m) in
    let e = sealed c a (plain q) in
    let (encrypted, len) = prepare_encrypted-sealed c a q laws header fits32 in
    let (blocks, le, lt) = pad16_laws (size (whole q)) in
    let small : length e < null_marker =
      omega (arith, len, size-whole q, short, length-map_bytes m) in
    let bytes = block ByteArray.empty ++ (block ByteArray.empty ++ block (of_bytes e)) in
    let fits_file : length bytes < 2 ^ 32 =
      fits_three e (omega (arith, len, size-whole q, short, length-map_bytes m)) in
    (
      bytes,
      rw
          (
            init-session map_name,
            write_blocks-session c m a d map_name prepared e encrypted small,
            finish-session c map_name false bytes folder fits_file,
            write_file-saved c map_name bytes folder writable,
          )
          refl,
      λ f there.
          rw
            (
              read_file-HasFile c map_name bytes f laws fits_file there,
              read_three-blocks e small,
              decrypt_local-sealed c a q laws header fits32,
              opened_stream q rest,
            )
            (ap (λ r. r.0) (read_map-map_bytes lenient m h (frame read_only false) _)),
    )

-- Whatever the folder holds and whatever the key or the passcode, the read of a map file does not
-- run out of fuel: it returns a map or raises.
pub read_ends :
    (c : Crypto) (lenient : Bool) (local_key : Option AuthKey) (passcode : QByteArray)
    (folder : Folder)
    → read c lenient local_key passcode folder ≢ ok none
unfolding read
read_ends c lenient local_key passcode folder e =
    let file = rethrow t_data_read_map_data_failed (read_file c map_name folder) in
    let (map_data, e0, rest0) = >>=-eq-ok file _ e in
    let ((salt, key_encrypted, map_encrypted), e1, rest1) =
      >>=-eq-ok (read_three map_data.stream).0 _ rest0 in
    let (a, e2, rest2) = >>=-eq-ok (key_for c local_key salt key_encrypted passcode) _ rest1 in
    let (x, e3, rest3) =
      >>=-eq-ok (rethrow t_data_read_map_data_failed (decrypt_local c map_encrypted a)) _ rest2 in
    read_map_ends lenient x.stream rest3

-- A map is written to its file and read from it.
abbrev pub write_and_read :
    Crypto → Bool → AuthKey → QByteArray → MapData → Folder → Result (Option MapData)
write_and_read c lenient a passcode m folder =
    write_map_file c false (some a) m folder >>= λ f. read c lenient (some a) passcode f

-- On a little-endian host, a storable map of fewer than 2 ^ 31 bytes that is written with a local
-- key to a map file that can be written is read from that file with that key as it is kept,
-- whether unknown keys are tolerated or not.
pub read-write_map_file :
    (c : Crypto) (lenient : Bool) (a : AuthKey) (passcode : QByteArray) (m : MapData)
    (folder : Folder)
    → IsCrypto c
    → IsStorable m
    → map_size m < 2 ^ 31
    → folder.is_writable (with_suffix map_name suffix_s) ≡ true
    → write_and_read c lenient a passcode m folder ≡ ok (some (kept m))
read-write_map_file c lenient a passcode m folder laws h fits writable =
    let (bytes, wrote, back) =
      write_map_file-saved c lenient a passcode m folder laws h fits writable in
    rw wrote (back (saved c map_name bytes folder) (saved-HasFile c map_name bytes folder))

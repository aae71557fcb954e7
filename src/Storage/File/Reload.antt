-- ===== src/Storage/File/Reload.antt =====
-- `ReadFile` after `FileWriteDescriptor`, and `ReadEncryptedFile` after `writeEncrypted`.
use opentele.Prelude.{
  some, ℕ, ◌^◌, ◌<◌, ◌≡◌, refl, sym, ap, ◌∙◌, true, false, List, [], ◌++◌, arith, length, All,
  beq_list_refl, append-nil,
}
use opentele.Exception.{Result, ok, ◌>>=◌}
use opentele.Bytes.{little_endian}
use opentele.Crypto.{Crypto, IsCrypto}
use opentele.Auth.{AuthKey}
use opentele.Qt.ByteArray.{QByteArray, of_bytes, size}
use opentele.Qt.Buffer.{read_only}
use opentele.Qt.Blob.{null_marker, read_qbytearray}
use opentele.Qt.Session.{reader, frame}
use opentele.Qt.Session.Blobs.{qbytearray_bytes, read_qbytearray-Parses}
use opentele.Storage.Local
use opentele.Storage.Local.{
  EncryptedDescriptor, pad16, padded, whole, prepare_encrypted, decrypt_local, to_bytes4,
}
use opentele.Storage.Local.RoundTrip
use opentele.Storage.Local.RoundTrip.{plain, pad16_laws}
use opentele.Storage.Local.Opened.{
  HasHeader, opened, prepare_encrypted-sealed, decrypt_local-sealed, size-whole,
}
use opentele.Storage.File.{Folder, put, write_file, with_suffix, suffix_s, app_version, tdf_magic}
use opentele.Storage.File.Write.{FileWriteDescriptor, init, write_data, write_encrypted, finish}
use opentele.Storage.File.Read.{
  FileReadDescriptor, read_tries, read_file, read_encrypted_file, reopen,
}
use opentele.Storage.File.RoundTrip.{
  init-session, blocks, write_all, write_all-session, sealed, finish-session, try_file-content,
  read_body-sealed, write_data-session, length-block,
}

-- What is read from a file of the bytes `done`.
abbrev pub reloaded : List ℕ → FileReadDescriptor
reloaded done = record {
  version = app_version;
  payload = of_bytes done;
  stream = reader (frame read_only false) [] done;
}

-- A descriptor is made, writes, and is finished.
abbrev pub write_out : Crypto → List ℕ → List QByteArray → Folder → Result Folder
write_out c name qs folder =
    let (result, w) = write_all qs (init name) in result >>= λ _. finish c w folder

-- A folder with the file of the bytes `done`.
abbrev pub saved : Crypto → List ℕ → List ℕ → Folder → Folder
saved c name done folder =
    put (with_suffix name suffix_s) (tdf_magic ++ (little_endian 4 app_version ++ sealed c done))
      folder

pub write_file-saved :
    (c : Crypto) (name done : List ℕ) (folder : Folder)
    → folder.is_writable (with_suffix name suffix_s) ≡ true
    → write_file name (sealed c done) folder ≡ ok (saved c name done folder)
unfolding write_file
write_file-saved c name done folder writable = rw writable refl

-- A folder has the file of the bytes `done`.
abbrev pub HasFile : Crypto → List ℕ → List ℕ → Folder → Type 0
HasFile c name done folder =
    folder.files (with_suffix name suffix_s)
    ≡ some (tdf_magic ++ (little_endian 4 app_version ++ sealed c done))

pub saved-HasFile :
    (c : Crypto) (name done : List ℕ) (folder : Folder)
    → HasFile c name done (saved c name done folder)
unfolding put
saved-HasFile c name done folder = rw (beq_list_refl (with_suffix name suffix_s)) refl

pub read_file-HasFile :
    (c : Crypto) (name done : List ℕ) (folder : Folder)
    → IsCrypto c
    → length done < 2 ^ 32
    → HasFile c name done folder
    → read_file c name folder ≡ ok (reloaded done)
unfolding read_file read_tries
read_file-HasFile c name done folder laws h there =
    rw (there, try_file-content c (sealed c done), read_body-sealed c done laws h) refl

pub read_file-saved :
    (c : Crypto) (name done : List ℕ) (folder : Folder)
    → IsCrypto c
    → length done < 2 ^ 32
    → read_file c name (saved c name done folder) ≡ ok (reloaded done)
read_file-saved c name done folder laws h =
    read_file-HasFile c name done _ laws h (saved-HasFile c name done folder)

-- On a little-endian host, byte arrays of fewer than 2 ^ 32 bytes each, whose blocks, each with
-- the size in front, also have fewer than 2 ^ 32 bytes together, that are written to a file that
-- can be written are read back by `read_file` as the blocks that were written, with the version of
-- the program.
pub read_file-write_out :
    (c : Crypto) (name : List ℕ) (qs : List QByteArray) (folder : Folder)
    → IsCrypto c
    → All (λ q. size q < 2 ^ 32) qs
    → length (blocks qs) < 2 ^ 32
    → folder.is_writable (with_suffix name suffix_s) ≡ true
    → (write_out c name qs folder >>= λ f. read_file c name f) ≡ ok (reloaded (blocks qs))
read_file-write_out c name qs folder laws sizes fits writable =
    rw
      (
        init-session name,
        write_all-session name true [] qs sizes,
        finish-session c name _ (blocks qs) folder fits,
        write_file-saved c name (blocks qs) folder writable,
      )
      (read_file-saved c name (blocks qs) folder laws fits)

-- A descriptor that writes one encrypted array.
abbrev pub write_out_encrypted :
    Crypto → List ℕ → EncryptedDescriptor → AuthKey → Folder → Result Folder
write_out_encrypted c name d a folder =
    let (result, w) = write_encrypted c false d a (init name) in result >>= λ _. finish c w folder

-- The only array of a file.
read_block :
    (e : List ℕ)
    → length e < null_marker
    → read_qbytearray (reloaded (qbytearray_bytes (of_bytes e))).stream
      ≡ (ok (of_bytes e), reader (frame read_only false) (qbytearray_bytes (of_bytes e)) [])
read_block e h =
    let block = qbytearray_bytes (of_bytes e) in
    ap (λ bs. read_qbytearray (reader (frame read_only false) [] bs)) (sym (append-nil block))
    ∙ (read_qbytearray-Parses (of_bytes e) h).at (frame read_only false) [] []

-- A file of one array, whose encrypted content is opened.
pub open_file :
    (c : Crypto) (name : List ℕ) (a : AuthKey) (e : List ℕ) (folder : Folder)
    (d : EncryptedDescriptor)
    → length e < null_marker
    → read_file c name folder ≡ ok (reloaded (qbytearray_bytes (of_bytes e)))
    → decrypt_local c (of_bytes e) a ≡ ok d
    → read_encrypted_file c name folder a
      ≡ ok (record { version = app_version; payload = d.held; stream = d.stream })
unfolding read_encrypted_file
open_file c name a e folder d h read decrypted =
    let block = read_block e h in
    rw read (
      ap
        (λ r. r.0 >>= λ encrypted. decrypt_local c encrypted a >>= λ d'.
          ok (reopen c (reloaded (qbytearray_bytes (of_bytes e))) d'))
        block
      ∙ rw decrypted refl)

pub write_encrypted-prepared :
    (c : Crypto) (a : AuthKey) (d : EncryptedDescriptor) (w : FileWriteDescriptor) {q : QByteArray}
    → prepare_encrypted c (Local.finish d) a ≡ ok q
    → write_encrypted c false d a w ≡ write_data false q w
unfolding write_encrypted
write_encrypted-prepared c a d w prepared = rw (prepared, write_encrypted) refl

-- On a little-endian host, a descriptor of fewer than 2 ^ 31 bytes, with no bytes or with room for
-- its size, that is written to a file that can be written is read back by `read_encrypted_file`
-- with its size and its payload, at the position behind the size.
pub read_encrypted_file-write_out_encrypted :
    (c : Crypto) (name : List ℕ) (a : AuthKey) (d : EncryptedDescriptor) (folder : Folder)
    → IsCrypto c
    → HasHeader (Local.finish d)
    → size (Local.finish d) < 2 ^ 31
    → folder.is_writable (with_suffix name suffix_s) ≡ true
    → (write_out_encrypted c name d a folder >>= λ f. read_encrypted_file c name f a)
      ≡ ok (record {
        version = app_version;
        payload = (opened (Local.finish d)).held;
        stream = (opened (Local.finish d)).stream;
      })
read_encrypted_file-write_out_encrypted c name a d folder laws header fits writable =
    let q = Local.finish d in
    let fits32 : size (whole q) < 2 ^ 32 = omega (arith, size-whole q) in
    let e = Local.RoundTrip.sealed c a (plain q) in
    let (prepared, len) = prepare_encrypted-sealed c a q laws header fits32 in
    let block = qbytearray_bytes (of_bytes e) in
    let (blocks, le, lt) = pad16_laws (size (whole q)) in
    let short : length e < null_marker = omega (arith, len, size-whole q) in
    let fits_block : length block < 2 ^ 32 = omega (arith, short, length-block (of_bytes e)) in
    rw
      (
        write_encrypted-prepared c a d (init name) prepared,
        init-session name,
        write_data-session name true [] (of_bytes e) (omega (arith, short)),
        finish-session c name false block folder fits_block,
        write_file-saved c name block folder writable,
      )
      (open_file c name a e (saved c name block folder) (opened q) short
        (read_file-saved c name block folder laws fits_block)
        (decrypt_local-sealed c a q laws header fits32))

-- ===== src/Storage/Sealed.antt =====
-- Encrypted files with one block, as the files of an account have it: what is written there, and
-- what `ReadEncryptedFile` finds in a folder that holds it.
use opentele.Prelude.{
  ℕ, zero, suc, ◌+◌, ◌-◌, ◌^◌, ◌<◌, ◌≡◌, refl, ap, ◌∙◌, true, false, List, [], ◌∷◌, length, arith,
  beq_list, inr,
}
use opentele.Exception.{Result, ok, ◌>>=◌}
use opentele.Exec.{Exec}
use opentele.Bytes.{little_endian}
use opentele.Crypto.{Crypto, IsCrypto}
use opentele.Auth.{AuthKey}
use opentele.Qt.ByteArray
use opentele.Qt.ByteArray.{QByteArray, of_bytes, size, resize}
use opentele.Qt.Buffer.{read_only, write_only}
use opentele.Qt.Blob.{null_marker}
use opentele.Qt.DataStream.{QDataStream}
use opentele.Qt.Session.{reader, writer, frame, Writes}
use opentele.Qt.Session.Blobs.{qbytearray_bytes}
use opentele.Storage.Local.{EncryptedDescriptor, new_descriptor, whole, prepare_encrypted}
use opentele.Storage.Local.RoundTrip.{plain, pad16_laws, sealed}
use opentele.Storage.Local.Opened.{opened, prepare_encrypted-sealed, decrypt_local-sealed}
use opentele.Storage.File.{Folder, put, with_suffix, suffix_s, app_version}
use opentele.Storage.File.Write.{init}
use opentele.Storage.File.Read.{FileReadDescriptor, read_encrypted_file}
use opentele.Storage.File.RoundTrip.{init-session, write_data-session, finish-session, length-block}
use opentele.Storage.File.Reload.{
  HasFile, read_file-HasFile, write_out_encrypted, saved, write_file-saved,
  write_encrypted-prepared, open_file,
}
use opentele.MapData.Descriptor.{with_stream, opened_stream, descriptor_writer, finish-writer}

-- A descriptor of a size, what is written to it, and its file.
unfoldable pub write_sealed :
    Crypto → List ℕ → ℕ → Exec QDataStream Unit → AuthKey → Folder → Result Folder
write_sealed c name n m a folder =
    with_stream (new_descriptor n) (m (new_descriptor n).stream) >>= λ d.
    write_out_encrypted c name d a folder

-- The array that is encrypted: room for the size, and the payload.
abbrev pub roomed : List ℕ → QByteArray
roomed bs = of_bytes (0 ∷ 0 ∷ 0 ∷ 0 ∷ bs)

-- The encrypted block of a payload.
abbrev pub block_of : Crypto → AuthKey → List ℕ → List ℕ
block_of c a bs = qbytearray_bytes (of_bytes (sealed c a (plain (roomed bs))))

-- A folder holds the file of that payload.
abbrev pub Holds : Crypto → AuthKey → List ℕ → List ℕ → Folder → Type 0
Holds c a name bs folder = HasFile c name (block_of c a bs) folder

pub size-roomed : (bs : List ℕ) → size (whole (roomed bs)) ≡ 4 + length bs
unfolding whole
size-roomed bs = ground arith

-- What a descriptor with that payload has.
descriptor_of : List ℕ → EncryptedDescriptor
descriptor_of bs = record {
  held = ByteArray.empty;
  stream = writer (frame write_only false) (0 ∷ 0 ∷ 0 ∷ 0 ∷ bs);
}

module _ (c : Crypto) (a : AuthKey) (name bs : List ℕ) (laws : IsCrypto c)
    (fits : length bs < 2 ^ 31 - 4) where
  pub length-sealed : length (sealed c a (plain (roomed bs))) < length bs + 64
  length-sealed =
      let (prepared, len) =
        prepare_encrypted-sealed c a (roomed bs) laws (inr (omega arith))
          (omega (arith, size-roomed bs)) in
      omega (arith, len, size-roomed bs, pad16_laws (size (whole (roomed bs))))

  pub small : length (sealed c a (plain (roomed bs))) < null_marker - 100
  small = omega (arith, length-sealed)

  fits_block : length (block_of c a bs) < 2 ^ 32
  fits_block = omega (arith, small, length-block (of_bytes (sealed c a (plain (roomed bs)))))

  written_descriptor :
      (n : ℕ) (m : Exec QDataStream Unit)
      → Writes m bs
      → with_stream (new_descriptor (suc n)) (m (new_descriptor (suc n)).stream)
        ≡ ok (descriptor_of bs)
  unfolding descriptor_of
  written_descriptor n m h =
      rw (descriptor_writer n, h.at (frame write_only false) (0 ∷ 0 ∷ 0 ∷ 0 ∷ []) refl) refl

  -- The file that is written.
  pub write_sealed-saved :
      (n : ℕ) (m : Exec QDataStream Unit) (folder : Folder)
      → Writes m bs
      → folder.is_writable (with_suffix name suffix_s) ≡ true
      → write_sealed c name (suc n) m a folder ≡ ok (saved c name (block_of c a bs) folder)
  unfolding write_sealed descriptor_of
  write_sealed-saved n m folder h writable =
      let d = descriptor_of bs in
      let q = roomed bs in
      let e = sealed c a (plain q) in
      let finished = finish-writer ByteArray.empty (0 ∷ 0 ∷ 0 ∷ 0 ∷ bs) in
      let prepared =
        (prepare_encrypted-sealed c a q laws (inr (omega arith))
          (omega (arith, size-roomed bs))).0 in
      rw
        (
          written_descriptor n m h,
          write_encrypted-prepared c a d (init name)
              (ap (λ x. prepare_encrypted c x a) finished ∙ prepared),
          init-session name,
          write_data-session name true [] (of_bytes e) (omega (arith, small)),
          finish-session c name false (block_of c a bs) folder fits_block,
        )
        (write_file-saved c name (block_of c a bs) folder writable)

  -- The stream at the payload.
  abbrev pub payload_stream : QDataStream
  payload_stream = reader (frame read_only false) (little_endian 4 (size (whole (roomed bs)))) bs

  abbrev found_file : FileReadDescriptor
  found_file = record {
    version = app_version;
    payload = (opened (roomed bs)).held;
    stream = (opened (roomed bs)).stream;
  }

  -- What is read from a folder that holds the file.
  pub read_encrypted_file-Holds :
      (folder : Folder)
      → Holds c a name bs folder
      → read_encrypted_file c name folder a ≡ ok found_file
  read_encrypted_file-Holds folder h =
      open_file c name a (sealed c a (plain (roomed bs))) folder (opened (roomed bs))
        (omega (arith, small)) (read_file-HasFile c name (block_of c a bs) folder laws fits_block h)
        (decrypt_local-sealed c a (roomed bs) laws (inr (omega arith))
          (omega (arith, size-roomed bs)))

  pub found_file-stream : found_file.stream ≡ payload_stream
  found_file-stream = opened_stream (roomed bs) refl

-- Other files stay.
pub saved_other :
    (c : Crypto) (name other done : List ℕ) (folder : Folder)
    → beq_list (with_suffix other suffix_s) (with_suffix name suffix_s) ≡ false
    → (saved c name done folder).files (with_suffix other suffix_s)
      ≡ folder.files (with_suffix other suffix_s)
unfolding put
saved_other c name other done folder differ = rw differ refl

-- The same, for a size that is not 0.
pub write_sealed-eq-saved :
    (c : Crypto) (a : AuthKey) (name bs : List ℕ) (n : ℕ) (m : Exec QDataStream Unit)
    (folder : Folder)
    → IsCrypto c
    → length bs < 2 ^ 31 - 4
    → 0 < n
    → Writes m bs
    → folder.is_writable (with_suffix name suffix_s) ≡ true
    → write_sealed c name n m a folder ≡ ok (saved c name (block_of c a bs) folder)
write_sealed-eq-saved c a name bs zero m folder laws fits more h writable = absurd (omega arith)
write_sealed-eq-saved c a name bs (suc n) m folder laws fits more h writable =
    write_sealed-saved c a name bs laws fits n m folder h writable

-- ===== src/Storage/File/RoundTrip.antt =====
-- A file that was written is read back.
use opentele.Prelude.{
  ℕ, ◌+◌, ◌-◌, ◌^◌, ◌<◌, ◌≡◌, refl, ap, ◌∙◌, Bool, true, false, some, List, [], ◌∷◌, ◌++◌, arith,
  ltb, length, length-append, append_assoc, append-nil, beq_list, beq_list_refl, All, lt→ltb,
  take-append_length, drop-append_length, inl, inr, Bool-cases,
}
use opentele.Exception.{Result, ok}
use opentele.Exec.{for_each, continue, ◌>>=◌}
use opentele.Bytes.{big_endian, little_endian, from_little_endian, length-big_endian}
use opentele.Crypto.{Crypto, IsCrypto}
use opentele.Qt.ByteArray.{QByteArray, of_bytes, resize, size, is_null}
use opentele.Qt.Buffer.{read_only, write_only}
use opentele.Qt.Blob.{null_marker}
use opentele.Qt.Session.{reader, writer, frame}
use opentele.Qt.Session.Blobs.{is_null-bytes, qbytearray_bytes, write_qbytearray-Begins}
use opentele.Storage.Local.{attach, to_bytes4}
use opentele.Storage.Local.RoundTrip.{resize_shorter}
use opentele.Storage.File.{Folder, write_file, app_version, tdf_magic}
use opentele.Storage.File.Write.{
  FileWriteDescriptor, init, qbswap, digested_size, write_data, digest, safe_data, finish,
}
use opentele.Storage.File.Read.{Attempt, check_file, read_body, try_file}

four-eq :
    {a b c d a' b' c' d' : ℕ}
    → a ≡ a'
    → b ≡ b'
    → c ≡ c'
    → d ≡ d'
    → a ∷ b ∷ c ∷ d ∷ [] ≡ a' ∷ b' ∷ c' ∷ d' ∷ []
four-eq p q r s = cc

-- The four little-endian bytes of a swapped number of 32 bits are its big-endian bytes.
pub little_endian-qbswap : (n : ℕ) → n < 2 ^ 32 → little_endian 4 (qbswap n) ≡ big_endian 4 n
unfolding little_endian big_endian qbswap
little_endian-qbswap n h = four-eq (omega arith) (omega arith) (omega arith) (omega arith)

-- A descriptor that has written the bytes `done`: digest and size cover just these.
abbrev pub session : List ℕ → Bool → List ℕ → FileWriteDescriptor
session name null done = record {
  file_name = name;
  stream = writer (frame write_only null) done;
  md5 = done;
  full_size = length done;
}

pub init-session : (name : List ℕ) → init name ≡ session name true []
unfolding init reader
init-session name = refl

digested_block :
    (q : QByteArray) → size q < 2 ^ 32 → digested_size false q ++ q.bytes ≡ qbytearray_bytes q
unfolding digested_size qbytearray_bytes
digested_block q h = elim (Bool-cases (is_null q)) [
  | inl n ↦
      rw (n, little_endian-qbswap null_marker (omega arith), is_null-bytes q.bytes q.null n)
        (append-nil (big_endian 4 null_marker))
  | inr n ↦ rw (n, little_endian-qbswap (length q.bytes) h) refl
]

pub length-block : (q : QByteArray) → length (qbytearray_bytes q) ≡ 4 + size q
unfolding qbytearray_bytes
length-block q = elim (Bool-cases (is_null q)) [
  | inl n ↦ rw (n, is_null-bytes q.bytes q.null n) (length-big_endian 4 null_marker)
  | inr n ↦ rw n (
      omega (
        arith,
        length-append (big_endian 4 (length q.bytes)) q.bytes,
        length-big_endian 4 (length q.bytes),
      ))
]

-- On a little-endian host the digest covers what the stream holds.
pub write_data-session :
    (name : List ℕ) (null : Bool) (done : List ℕ) (q : QByteArray)
    → size q < 2 ^ 32
    → write_data false q (session name null done)
      ≡ (ok tt, session name false (done ++ qbytearray_bytes q))
unfolding write_data reader
write_data-session name null done q h =
    rw ((write_qbytearray-Begins q h).at (frame write_only null) done)
      (rw (digested_block q h, length-append done (qbytearray_bytes q), length-block q) refl)

-- What several writes put into a file.
abbrev pub blocks : List QByteArray → List ℕ
blocks [] = []
blocks (q ∷ qs) = qbytearray_bytes q ++ blocks qs

abbrev pub write_all :
    List QByteArray → FileWriteDescriptor → Result (Unit {0}) × FileWriteDescriptor
write_all qs = for_each qs (write_data false)

-- Whether the buffer is null still.
abbrev pub still_null : Bool → List QByteArray → Bool
still_null null [] = null
still_null null (q ∷ qs) = false

false_still : (qs : List QByteArray) → still_null false qs ≡ false
false_still [] = refl
false_still (q ∷ qs) = refl

pub write_all-session :
    (name : List ℕ) (null : Bool) (done : List ℕ) (qs : List QByteArray)
    → All (λ q. size q < 2 ^ 32) qs
    → write_all qs (session name null done)
      ≡ (ok tt, session name (still_null null qs) (done ++ blocks qs))
unfolding for_each ◌>>=◌
write_all-session name null done [] h = rw (append-nil done) refl
write_all-session name null done (q ∷ qs) h =
    ap (continue (λ _. write_all qs)) (write_data-session name null done q h.0)
    ∙ (write_all-session name false (done ++ qbytearray_bytes q) qs h.1
        ∙ rw (append_assoc done (qbytearray_bytes q) (blocks qs), false_still qs) refl)

-- The bytes of a file that was finished.
abbrev pub sealed : Crypto → List ℕ → List ℕ
sealed c done =
    done
    ++ c.md5 (done ++ (little_endian 4 (length done) ++ (little_endian 4 app_version ++ tdf_magic)))

pub finish-session :
    (c : Crypto) (name : List ℕ) (null : Bool) (done : List ℕ) (folder : Folder)
    → length done < 2 ^ 32
    → finish c (session name null done) folder ≡ write_file name (sealed c done) folder
unfolding finish reader digest to_bytes4 safe_data
finish-session c name null done folder h =
    rw (append-nil done, lt→ltb (length done) (2 ^ 32) h) refl

length-sealed :
    (c : Crypto) (done : List ℕ) → IsCrypto c → length (sealed c done) ≡ length done + 16
length-sealed c done laws =
    let text =
      done ++ (little_endian 4 (length done) ++ (little_endian 4 app_version ++ tdf_magic)) in
    omega (arith, length-append done (c.md5 text), laws.length-md5 text)

-- The array is cut where the digest begins.
resize-front :
    (front back : List ℕ) → resize (length front) (of_bytes (front ++ back)) ≡ of_bytes front
resize-front front back =
    resize_shorter (length front) (front ++ back) (omega (arith, length-append front back))
    ∙ ap of_bytes (take-append_length front back)

check_file-sealed :
    (c : Crypto) (done : List ℕ)
    → check_file c app_version (length done) (sealed c done)
      ≡ Attempt.found (record {
        version = app_version;
        payload = of_bytes done;
        stream = reader (frame read_only false) [] done;
      })
unfolding check_file reader attach
check_file-sealed c done =
    let text =
      done ++ (little_endian 4 (length done) ++ (little_endian 4 app_version ++ tdf_magic)) in
    rw
      (
        take-append_length done (c.md5 text),
        drop-append_length done (c.md5 text),
        beq_list_refl (c.md5 text),
        resize-front done (c.md5 text),
      )
      refl

body_test : (n : ℕ) → (ltb (n + 16) 16 ≡ false) × (n + 16 - 16 ≡ n)
body_test n = (ground arith, omega arith)

-- The magic and the version, in front of anything.
pub try_file-content :
    (c : Crypto) (content : List ℕ)
    → try_file c (some (tdf_magic ++ (little_endian 4 app_version ++ content)))
      ≡ read_body c app_version content
unfolding try_file little_endian from_little_endian beq_list
try_file-content c content = refl

pub read_body-sealed :
    (c : Crypto) (done : List ℕ)
    → IsCrypto c
    → length done < 2 ^ 32
    → read_body c app_version (sealed c done)
      ≡ ok (
          Attempt.found (record {
            version = app_version;
            payload = of_bytes done;
            stream = reader (frame read_only false) [] done;
          }))
unfolding read_body to_bytes4
read_body-sealed c done laws h =
    rw
      (
        length-sealed c done laws,
        (body_test (length done)).0,
        (body_test (length done)).1,
        lt→ltb (length done) (2 ^ 32) h,
        check_file-sealed c done,
      )
      refl

-- ===== src/Storage/Local/Opened.antt =====
-- `DecryptLocal` after `PrepareEncrypted`.
use opentele.Prelude.{
  ℕ, ◌+◌, ◌-◌, ◌^◌, ◌≤◌, ◌<◌, ◌≡◌, refl, sym, ap, ◌∙◌, ◌⊎◌, inl, inr, false, List, [], ◌∷◌, ◌++◌,
  arith, length, take, drop, replicate, length-append, length-replicate, length-drop,
  take-append_of_le, drop-append_of_le, take_all, append_assoc, lt→ltb,
}
use opentele.Exception.{ok, ◌>>=◌}
use opentele.Bytes.{
  little_endian, from_little_endian, length-little_endian, from_little_endian-little_endian,
}
use opentele.Crypto.{Crypto, IsCrypto}
use opentele.Auth.{AuthKey}
use opentele.Qt.ByteArray.{QByteArray, of_bytes, size}
use opentele.Qt.Buffer.{read_only}
use opentele.Qt.Session.{reader, frame}
use opentele.Storage.Local.{
  EncryptedDescriptor, attach, pad16, to_bytes4, padded, whole, prepare_encrypted, decrypt_local,
}
use opentele.Storage.Local.RoundTrip.{
  plain, length-sealed, pad16_laws, fill, sealed, encrypt_shape, decrypt_shape,
}

-- The array begins with room for its size, or there is none.
abbrev pub HasHeader : QByteArray → Type 0
HasHeader q = (size q ≡ 0) ⊎ (4 ≤ size q)

-- What is opened: the size in four bytes, which the stream has passed, and the payload.
unfoldable pub opened : QByteArray → EncryptedDescriptor
opened q =
    let header = little_endian 4 (size (whole q)) in
    record {
      held = of_bytes (header ++ drop 4 q.bytes);
      stream = reader (frame read_only false) header (drop 4 q.bytes);
    }

-- A list without bytes stays empty behind its first four.
drop-empty : (bs : List ℕ) → length bs ≡ 0 → drop {A = ℕ} 4 (0 ∷ 0 ∷ 0 ∷ 0 ∷ []) ≡ drop 4 bs
drop-empty [] e = refl
drop-empty (b ∷ bs) e = ground arith

whole_laws :
    (q : QByteArray)
    → HasHeader q
    → (4 ≤ size (whole q)) × (drop 4 (whole q).bytes ≡ drop 4 q.bytes)
unfolding whole
whole_laws q (inl none_there) = rw none_there (omega arith, drop-empty q.bytes none_there)
whole_laws q (inr long) = ground arith

module _ (q : QByteArray) (header : HasHeader q) (fits : size (whole q) < 2 ^ 32) where
  lo : 4 ≤ size (whole q)
  lo = (whole_laws q header).0

  length-padded : length (padded q).bytes ≡ pad16 (size (whole q))
  length-padded =
      let n = pad16 (size (whole q)) - size (whole q) in
      omega (
        arith,
        ap (length {A = ℕ}) (fill q),
        length-append (whole q).bytes (replicate n 0),
        length-replicate {A = ℕ} n 0,
        pad16_laws (size (whole q)),
      )

  length-plain : length (plain q) ≡ pad16 (size (whole q))
  length-plain = omega (
    arith,
    length-append (little_endian 4 (size (whole q))) (drop 4 (padded q).bytes),
    length-little_endian 4 (size (whole q)),
    length-drop 4 (padded q).bytes,
    length-padded,
    pad16_laws (size (whole q)),
    lo,
  )

  read_size : from_little_endian (take 4 (plain q)) ≡ size (whole q)
  read_size =
      let head = little_endian 4 (size (whole q)) in
      let four = length-little_endian 4 (size (whole q)) in
      rw
        (
          take-append_of_le 4 head (drop 4 (padded q).bytes) (omega (arith, four)),
          take_all 4 head (omega (arith, four)),
        )
        (from_little_endian-little_endian 4 (size (whole q)) fits)

  cut : take (size (whole q)) (plain q) ≡ little_endian 4 (size (whole q)) ++ drop 4 q.bytes
  cut =
      let head = little_endian 4 (size (whole q)) in
      let rest = drop 4 (whole q).bytes in
      let zeros = replicate {A = ℕ} (pad16 (size (whole q)) - size (whole q)) 0 in
      let len : length (head ++ rest) ≡ size (whole q) = omega (
        arith,
        length-append head rest,
        length-little_endian 4 (size (whole q)),
        length-drop 4 (whole q).bytes,
        lo,
      ) in
      rw
        (
          fill q,
          drop-append_of_le 4 (whole q).bytes zeros lo,
          ← append_assoc head rest zeros,
          take-append_of_le (size (whole q)) (head ++ rest) zeros (omega (arith, len)),
          take_all (size (whole q)) (head ++ rest) (omega (arith, len)),
        )
        (ap (λ t. head ++ t) (whole_laws q header).1)

attach-reader :
    (n : ℕ) (rest : List ℕ)
    → attach (of_bytes (little_endian 4 n ++ rest)) read_only 4
      ≡ reader (frame read_only false) (little_endian 4 n) rest
unfolding attach reader little_endian
attach-reader n rest = refl

-- What an array is encrypted to, and its size.
pub prepare_encrypted-sealed :
    (c : Crypto) (a : AuthKey) (q : QByteArray)
    → IsCrypto c
    → HasHeader q
    → size (whole q) < 2 ^ 32
    → (prepare_encrypted c q a ≡ ok (of_bytes (sealed c a (plain q))))
      × (length (sealed c a (plain q)) ≡ 16 + pad16 (size (whole q)))
unfolding prepare_encrypted to_bytes4
prepare_encrypted-sealed c a q h header fits =
    let n = size (whole q) in
    let (blocks, le, lt) = pad16_laws n in
    let len = length-plain q header fits in
    (
      rw
          (
            lt→ltb n (2 ^ 32) fits,
            encrypt_shape c h a (plain q) (omega (arith, len, lo q header fits)),
          )
          refl,
      length-sealed c h a (plain q) (rw len blocks) ∙ ap (λ k. 16 + k) len,
    )

-- An array of fewer than 2 ^ 32 bytes, with no bytes or at least four, that was encrypted with a
-- key decrypts with that key to its payload, behind its size.
pub decrypt_local-prepare_encrypted :
    (c : Crypto) (a : AuthKey) (q : QByteArray)
    → IsCrypto c
    → HasHeader q
    → size (whole q) < 2 ^ 32
    → (prepare_encrypted c q a >>= λ e. decrypt_local c e a) ≡ ok (opened q)
unfolding opened
decrypt_local-prepare_encrypted c a q h header fits =
    let n = size (whole q) in
    let (blocks, le, lt) = pad16_laws n in
    let len = length-plain q header fits in
    rw ((prepare_encrypted-sealed c a q h header fits).0) (
      decrypt_shape c h a n (plain q) (read_size q header fits) (lo q header fits)
        (omega (arith, len)) (omega (arith, len)) (rw len blocks)
      ∙ rw (cut q header fits, attach-reader n (drop 4 q.bytes)) refl)

pub decrypt_local-sealed :
    (c : Crypto) (a : AuthKey) (q : QByteArray)
    → IsCrypto c
    → HasHeader q
    → size (whole q) < 2 ^ 32
    → decrypt_local c (of_bytes (sealed c a (plain q))) a ≡ ok (opened q)
decrypt_local-sealed c a q h header fits =
    sym
      (ap (λ r. r >>= λ x. decrypt_local c x a) ((prepare_encrypted-sealed c a q h header fits).0))
    ∙ decrypt_local-prepare_encrypted c a q h header fits

pub size-whole : (q : QByteArray) → size (whole q) ≤ size q + 4
unfolding whole
size-whole q = ground arith

-- ===== src/Storage/Local/RoundTrip.antt =====
-- Local data decrypts to what was encrypted.
use opentele.Prelude.{
  ℕ, ◌+◌, ◌-◌, ◌%◌, ◌≤◌, ◌<◌, ◌≡◌, refl, sym, ap, ◌∙◌, Bool, false, not, ◌||◌, List, ◌++◌, arith,
  ltb, leb, ◌==◌, length, take, drop, replicate, length-append, length-take, beq_list_refl,
  Bool-cases, inl, inr, append-nil, drop_all, take-append_of_le, drop-append_of_le, take_all,
}
use opentele.Exception.{ok}
use opentele.Bytes.{little_endian, from_little_endian}
use opentele.Crypto.{Crypto, IsCrypto}
use opentele.Auth.{AuthKey, prepare_aes_oldmtp}
use opentele.Qt.ByteArray.{QByteArray, of_bytes, resize, size}
use opentele.Qt.Buffer.{read_only}
use opentele.Storage.Local.{
  attach, pad16, padded, whole, encrypt_plain, aes_encrypt_local, aes_decrypt_local, decrypt_local,
  open_decrypted, check_decrypted,
}

-- The payload of an encrypted array: what follows its first four bytes.
abbrev pub payload : QByteArray → List ℕ
payload q = drop 4 q.bytes

-- The smallest multiple of 16 from `n` on.
pub pad16_laws : (n : ℕ) → (pad16 n % 16 ≡ 0) × (n ≤ pad16 n) × (pad16 n < n + 16)
unfolding pad16
pad16_laws n = ground arith

resize_longer :
    (n : ℕ) (q : QByteArray)
    → size q < n
    → resize n q ≡ of_bytes (q.bytes ++ replicate (n - size q) 0)
unfolding resize
resize_longer n q h = ground arith

pub resize_shorter :
    (n : ℕ) (bs : List ℕ) → n ≤ length bs → resize n (of_bytes bs) ≡ of_bytes (take n bs)
unfolding resize
resize_shorter n bs h = ground (arith, take_all n bs)

-- The plain text: the size in four bytes, and the rest of the padded array.
abbrev pub plain : QByteArray → List ℕ
plain q = little_endian 4 (size (whole q)) ++ drop 4 (padded q).bytes

-- The bytes that `padded` adds behind the array.
pub fill :
    (q : QByteArray)
    → (padded q).bytes ≡ (whole q).bytes ++ replicate (pad16 (size (whole q)) - size (whole q)) 0
unfolding padded pad16
fill q = elim (Bool-cases (size (whole q) % 16 == 0)) [
  | inl full ↦
      let none_left : size (whole q) - size (whole q) ≡ 0 = omega arith in
      rw (full, none_left) (sym (append-nil (whole q).bytes))
  | inr part ↦
      rw
        (
          part,
          resize_longer (size (whole q) + (0x10 - size (whole q) % 16)) (whole q) (omega arith),
        )
        refl
]

-- The AES key depends on the first 16 bytes of the message key alone.
prepare_aes_of_eq :
    (c : Crypto) (a : AuthKey) (m m' : List ℕ) (send : Bool)
    → take 16 m ≡ take 16 m'
    → prepare_aes_oldmtp c a m send ≡ prepare_aes_oldmtp c a m' send
unfolding prepare_aes_oldmtp
prepare_aes_of_eq c a m m' send e = rw e

size_test :
    (n len : ℕ)
    → n ≤ len
    → len < n + 16
    → 4 ≤ n
    → (ltb len n || (leb (n + 16) len || ltb n 4)) ≡ false
size_test n len fits short lo = ground arith

guard_test :
    (len : ℕ) → 1 ≤ len → len % 16 ≡ 0 → (leb (16 + len) 16 || not ((16 + len) % 16 == 0)) ≡ false
guard_test len pos blocks = ground arith

-- What a plain text is encrypted to.
abbrev pub sealed : Crypto → AuthKey → List ℕ → List ℕ
sealed c a t = let key = take 16 (c.sha1 t) in key ++ (aes_encrypt_local c (of_bytes t) a key).bytes

module _ (c : Crypto) (h : IsCrypto c) (a : AuthKey) where
  aes_encrypt_of_eq :
      (t m m' : List ℕ)
      → take 16 m ≡ take 16 m'
      → aes_encrypt_local c (of_bytes t) a m ≡ aes_encrypt_local c (of_bytes t) a m'
  unfolding aes_encrypt_local
  aes_encrypt_of_eq t m m' e = rw (prepare_aes_of_eq c a m m' false e)

  take-take : (xs : List ℕ) → take 16 (take 16 xs) ≡ take 16 xs
  take-take xs = take_all 16 (take 16 xs) (omega (arith, length-take 16 xs))

  pub encrypt_shape : (t : List ℕ) → 16 ≤ length t → encrypt_plain c a t ≡ of_bytes (sealed c a t)
  unfolding encrypt_plain
  encrypt_shape t long =
      let digest = c.sha1 t in
      let e =
        take-append_of_le 16 digest (replicate (16 + length t - length digest) 0)
          (omega (arith, h.length-sha1 t)) in
      rw
        (
          resize_longer (16 + length t) (of_bytes digest) (omega (arith, h.length-sha1 t)),
          e,
          aes_encrypt_of_eq t (digest ++ replicate (16 + length t - length digest) 0)
              (take 16 digest) (e ∙ sym (take-take digest)),
        )
        refl

  length-key : (t : List ℕ) → length (take 16 (c.sha1 t)) ≡ 16
  length-key t = omega (arith, length-take 16 (c.sha1 t), h.length-sha1 t)

  sealed_parts :
      (t : List ℕ)
      → (take 16 (sealed c a t) ≡ take 16 (c.sha1 t))
        × (drop 16 (sealed c a t) ≡ (aes_encrypt_local c (of_bytes t) a (take 16 (c.sha1 t))).bytes)
  sealed_parts t =
      let key = take 16 (c.sha1 t) in
      let enc = (aes_encrypt_local c (of_bytes t) a key).bytes in
      (
        take-append_of_le 16 key enc (omega (arith, length-key t)) ∙ take-take (c.sha1 t),
        drop-append_of_le 16 key enc (omega (arith, length-key t))
            ∙ ap (λ r. r ++ enc) (drop_all 16 key (omega (arith, length-key t))),
      )

  pub length-sealed : (t : List ℕ) → length t % 16 ≡ 0 → length (sealed c a t) ≡ 16 + length t
  unfolding aes_encrypt_local
  length-sealed t blocks =
      let key = take 16 (c.sha1 t) in
      let (aes_key, aes_iv) = prepare_aes_oldmtp c a key false in
      omega (
        arith,
        length-append key (c.ige256_encrypt t aes_key aes_iv),
        length-key t,
        h.length-encrypt t aes_key aes_iv blocks,
      )

  -- Decryption with the key that encrypted.
  aes_round :
      (t key : List ℕ)
      → length t % 16 ≡ 0
      → aes_decrypt_local c (of_bytes (aes_encrypt_local c (of_bytes t) a key).bytes) a key
        ≡ of_bytes t
  unfolding aes_decrypt_local aes_encrypt_local
  aes_round t key blocks = ap of_bytes (
      h.decrypt-encrypt t (prepare_aes_oldmtp c a key false).0 (prepare_aes_oldmtp c a key false).1
        blocks)

  open_shape :
      (n : ℕ) (t : List ℕ)
      → from_little_endian (take 4 t) ≡ n
      → 4 ≤ n
      → n ≤ length t
      → length t < n + 16
      → open_decrypted c (length t) (of_bytes t)
        ≡ ok (record {
          held = of_bytes (take n t);
          stream = attach (of_bytes (take n t)) read_only 4;
        })
  unfolding open_decrypted
  open_shape n t e lo fits short =
      rw (e, resize_shorter n t fits, size_test n (length t) fits short lo) refl

  pub decrypt_shape :
      (n : ℕ) (t : List ℕ)
      → from_little_endian (take 4 t) ≡ n
      → 4 ≤ n
      → n ≤ length t
      → length t < n + 16
      → length t % 16 ≡ 0
      → decrypt_local c (of_bytes (sealed c a t)) a
        ≡ ok (record {
          held = of_bytes (take n t);
          stream = attach (of_bytes (take n t)) read_only 4;
        })
  unfolding decrypt_local check_decrypted
  decrypt_shape n t e lo fits short blocks =
      let (front, back) = sealed_parts t in
      let len = length-sealed t blocks in
      let left : 16 + length t - 16 ≡ length t = omega arith in
      rw
        (
          front,
          back,
          len,
          left,
          guard_test (length t) (omega arith) blocks,
          aes_round t (take 16 (c.sha1 t)) blocks,
          beq_list_refl (take 16 (c.sha1 t)),
        )
        (open_shape n t e lo fits short)

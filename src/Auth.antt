-- ===== src/Auth.antt =====
-- `AuthKey` of src/td/auth.py.
use opentele.Prelude.{
  ℕ, ◌+◌, ◌≡◌, Bool, List, ◌++◌, if◌then◌else◌, length, take, slice, length-append, length-take,
  length-drop,
}
use opentele.Prelude.Int.{ℤ, pos}
use opentele.Exec.{Exec, pure, discard, ◌>>=◌}
use opentele.Bytes.{from_little_endian}
use opentele.Crypto.{Crypto, IsCrypto}
use opentele.Qt.DataStream.{QDataStream}
use opentele.Qt.Blob.{read_raw_data, write_raw_data}

pub data AuthKeyType : Type 0 where
  generated temporary read_from_file local : AuthKeyType

pub record AuthKey : Type 0 where
  pub key : List ℕ
  pub type : AuthKeyType
  pub dc_id : ℤ

abbrev pub k_size : ℕ
k_size = 256

module _ (c : Crypto) where
  -- `__countKeyId`
  unfoldable pub count_key_id : AuthKey → ℕ
  unfolding from_little_endian
  count_key_id a = from_little_endian (slice (c.sha1 a.key) 12 (12 + 8))

  -- `prepareAES_oldmtp`: the AES key and the initial vector of a message.
  unfoldable pub prepare_aes_oldmtp : AuthKey → List ℕ → Bool → List ℕ × List ℕ
  prepare_aes_oldmtp a msg_key send =
      let x : ℕ = if send then 0 else 8 in
      let sha1_a = c.sha1 (take 16 msg_key ++ slice a.key x (x + 32)) in
      let sha1_b = c.sha1 (
        slice a.key (x + 32) (x + 32 + 16)
        ++ (take 16 msg_key ++ slice a.key (x + 48) (x + 48 + 16))) in
      let sha1_c = c.sha1 (slice a.key (x + 64) (x + 64 + 32) ++ take 16 msg_key) in
      let sha1_d = c.sha1 (take 16 msg_key ++ slice a.key (x + 96) (x + 96 + 32)) in
      (
        take 8 sha1_a ++ (slice sha1_b 8 (8 + 12) ++ slice sha1_c 4 (4 + 12)),
        slice sha1_a 8 (8 + 12) ++ (take 8 sha1_b ++ (slice sha1_c 16 (16 + 4) ++ take 8 sha1_d)),
      )

-- `AuthKey.write`
abbrev pub write : AuthKey → Exec QDataStream Unit
write a = discard (write_raw_data a.key)

-- `AuthKey.FromStream`
unfoldable pub from_stream : AuthKeyType → ℤ → Exec QDataStream AuthKey
from_stream t dc_id = do
  key_data ← read_raw_data (pos k_size)
  pure (record { key = key_data; type = t; dc_id = dc_id })

-- Whatever the key and the message, the AES key and the vector have 32 bytes each, given digests
-- of the documented size.
pub length-prepare_aes_oldmtp :
    (c : Crypto) (a : AuthKey) (msg_key : List ℕ) (send : Bool)
    → IsCrypto c
    → (length (prepare_aes_oldmtp c a msg_key send).0 ≡ 32)
      × (length (prepare_aes_oldmtp c a msg_key send).1 ≡ 32)
unfolding prepare_aes_oldmtp
length-prepare_aes_oldmtp c a msg_key send h =
    let laws = h.length-sha1 in
    (
      simp (length-append, length-take, length-drop, laws),
      simp (length-append, length-take, length-drop, laws),
    )

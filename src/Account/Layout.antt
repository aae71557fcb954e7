-- ===== src/Account/Layout.antt =====
-- The bytes of an account's authorization: `serializeMtpAuthorization` writes them, and
-- `_setMtpAuthorization` reads them.
use opentele.Prelude.{
  ℕ, ◌*◌, ◌%◌, ◌^◌, ◌≤◌, ◌<◌, ◌≡◌, refl, sym, ap, List, [], ◌∷◌, ◌++◌, arith, length, length-append,
  All, append-nil, append_assoc,
}
use opentele.Prelude.Int.{ℤ, pos, negsuc, mask}
use opentele.Exec.{Exec, repeat, ◌>>=◌, ◌>>◌}
use opentele.Bytes.{big_endian, length-big_endian}
use opentele.Auth.{AuthKey, read_from_file, k_size, from_stream}
use opentele.Qt.DataStream.{QDataStream}
use opentele.Qt.Primitive.{read_int32, read_uint64}
use opentele.Qt.Blob.{read_raw_data}
use opentele.Qt.Session.{Parses, Writes, Begins}
use opentele.Qt.Session.Rules.{
  pure-Parses, bind-Parses, bind-Writes, bind-Begins, Begins-Writes, for_each-Writes, concat_map,
}
use opentele.Qt.Session.Values.{
  IsInt32, map-Parses, read_int32-Parses, write_int32-Begins, write_int64-Begins,
  read_unsigned-Parses,
}
use opentele.Qt.Session.Blobs.{write_raw_data-Begins, read_raw_data-Parses}
use opentele.MapData.Sections.{room_test, expect_stream_status-Parses, bytes_available-reader}
use opentele.Account.{
  Account, wide_ids_tag, joined_ids, read_wide, read_ids, guard_keys, read_key, read_keys,
  write_entry, write_keys, write_authorization,
}

abbrev pub int32_bytes : ℤ → List ℕ
int32_bytes v = big_endian 4 (mask v (256 ^ 4))

abbrev pub int64_bytes : ℤ → List ℕ
int64_bytes v = big_endian 8 (mask v (256 ^ 8))

abbrev pub entry_bytes : AuthKey → List ℕ
entry_bytes k = int32_bytes k.dc_id ++ k.key

abbrev pub keys_bytes : List AuthKey → List ℕ
keys_bytes keys = int32_bytes (pos (length keys)) ++ concat_map entry_bytes keys

abbrev pub authorization_bytes : Account → List ℕ
authorization_bytes a =
    int64_bytes wide_ids_tag
    ++ (int64_bytes a.user_id
        ++ (int32_bytes a.main_dc_id
            ++ (keys_bytes a.mtp_keys ++ keys_bytes a.mtp_keys_to_destroy)))

write_entry-Writes : (k : AuthKey) → Writes (write_entry k) (entry_bytes k)
unfolding write_entry
write_entry-Writes k =
    bind-Writes _ _ _ _ (Begins-Writes _ _ (write_int32-Begins k.dc_id))
      (Begins-Writes _ _ (write_raw_data-Begins k.key))

every_entry : (keys : List AuthKey) → All (λ k. Writes (write_entry k) (entry_bytes k)) keys
every_entry [] = tt
every_entry (k ∷ keys) = (write_entry-Writes k, every_entry keys)

write_keys-Writes : (keys : List AuthKey) → Writes (write_keys keys) (keys_bytes keys)
unfolding write_keys
write_keys-Writes keys =
    bind-Writes _ _ _ _ (Begins-Writes _ _ (write_int32-Begins (pos (length keys))))
      (for_each-Writes write_entry entry_bytes keys (every_entry keys))

pub write_authorization-Begins :
    (a : Account) → Begins (write_authorization a) (authorization_bytes a)
unfolding write_authorization
write_authorization-Begins a = bind-Begins _ _ _ _ (write_int64-Begins wide_ids_tag) (
    bind-Writes _ _ _ _ (Begins-Writes _ _ (write_int64-Begins a.user_id)) (
      bind-Writes _ _ _ _ (Begins-Writes _ _ (write_int32-Begins a.main_dc_id)) (
        bind-Writes _ _ _ _ (write_keys-Writes a.mtp_keys)
          (write_keys-Writes a.mtp_keys_to_destroy))))

-- A key as the file holds it: 256 bytes, and a data centre of 32 bits.
abbrev pub IsFileKey : AuthKey → Type 0
IsFileKey k = (length k.key ≡ 256) × IsInt32 k.dc_id × (k.type ≡ read_from_file)

from_stream-Parses :
    (k : AuthKey) → IsFileKey k → Parses (from_stream read_from_file k.dc_id) k.key k
unfolding from_stream
from_stream-Parses k (len, small, typed) =
    let e : record { key = k.key; type = read_from_file; dc_id = k.dc_id } ≡ k =
      ap (λ t. record { key = k.key; type = t; dc_id = k.dc_id }) (sym typed) in
    rw e at (
      map-Parses {B = AuthKey} (read_raw_data (pos k_size))
        (λ key_data. record { key = key_data; type = read_from_file; dc_id = k.dc_id }) k.key k.key
        (read_raw_data-Parses 256 k.key len))

read_entry-Parses :
    (k : AuthKey) (keys : List AuthKey)
    → IsFileKey k
    → Parses (read_key keys) (entry_bytes k) (keys ++ k ∷ [])
unfolding read_key
read_entry-Parses k keys h = bind-Parses _ _ _ _ _ _ (read_int32-Parses k.dc_id h.1) (
    map-Parses (from_stream read_from_file k.dc_id) (λ key. keys ++ key ∷ []) _ _
      (from_stream-Parses k h))

read_entries-Parses :
    (keys before : List AuthKey)
    → All IsFileKey keys
    → Parses (repeat (length keys) read_key before) (concat_map entry_bytes keys) (before ++ keys)
unfolding repeat
read_entries-Parses [] before h = rw (append-nil before) (pure-Parses before)
read_entries-Parses (k ∷ keys) before h = rw (← append_assoc before (k ∷ []) keys) (
    bind-Parses _ _ _ _ _ _ (read_entry-Parses k before h.0)
      (read_entries-Parses keys (before ++ k ∷ []) h.1))

length-entries :
    (keys : List AuthKey)
    → All IsFileKey keys
    → length (concat_map entry_bytes keys) ≡ length keys * 260
length-entries [] h = refl
length-entries (k ∷ keys) h = omega (
  arith,
  length-append (entry_bytes k) (concat_map entry_bytes keys),
  length-append (int32_bytes k.dc_id) k.key,
  length-big_endian 4 (mask k.dc_id (256 ^ 4)),
  h.0.0,
  length-entries keys h.1,
)

guard_keys-Parses :
    {A : Type 0} (n : ℕ) (k : Exec QDataStream A) (bs : List ℕ) (a : A)
    → n * 260 ≤ length bs
    → Parses k bs a
    → Parses (guard_keys (pos n) >> k) bs a
unfolding guard_keys ◌>>=◌
guard_keys-Parses n k bs a fits h = record {
  at = λ f done rest.
      rw
        (
          bytes_available-reader f done (bs ++ rest),
          room_test n 260 (length (bs ++ rest)) (omega arith)
              (omega (arith, length-append bs rest)),
        )
        (h.at f done rest);
}

-- The keys of an account that its file can hold.
abbrev pub AreFileKeys : List AuthKey → Type 0
AreFileKeys keys = All IsFileKey keys × (length keys < 2 ^ 31)

pub read_keys-Parses :
    (keys : List AuthKey) → AreFileKeys keys → Parses read_keys (keys_bytes keys) keys
unfolding read_keys
read_keys-Parses keys (each, few) =
    bind-Parses _ _ _ _ _ _ (read_int32-Parses (pos (length keys)) (few, omega arith)) (
      bind-Parses _ _ _ _ _ _ expect_stream_status-Parses (
        guard_keys-Parses (length keys) _ _ _ (omega (arith, length-entries keys each))
          (read_entries-Parses keys [] each)))

tag_bytes : int64_bytes wide_ids_tag ≡ int32_bytes (negsuc 0) ++ int32_bytes (negsuc 0)
unfolding big_endian mask
tag_bytes = refl

read_id-Parses : (u : ℕ) → u < 2 ^ 64 → Parses read_uint64 (int64_bytes (pos u)) u
unfolding mask
read_id-Parses u h =
    let e : u % 256 ^ 8 ≡ u = omega arith in rw e (read_unsigned-Parses 8 u (omega arith))

pub read_ids-Parses :
    (u : ℕ) (dc : ℤ)
    → u < 2 ^ 64
    → IsInt32 dc
    → Parses read_ids
        (int64_bytes wide_ids_tag ++ (int64_bytes (pos u) ++ int32_bytes dc))
        (pos u, dc)
unfolding read_ids joined_ids read_wide
read_ids-Parses u dc wide small =
    let minus = read_int32-Parses (negsuc 0) (omega arith, omega arith) in
    rw (tag_bytes, append_assoc (int32_bytes (negsuc 0)))
      (bind-Parses _ _ _ _ _ _ minus (
        bind-Parses _ _ _ _ _ _ minus (
          bind-Parses _ _ _ _ _ _ (read_id-Parses u wide)
            (map-Parses read_int32 (λ d. (pos u, d)) _ _ (read_int32-Parses dc small)))))

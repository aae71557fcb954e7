-- ===== src/MapData/Size.antt =====
-- The size that `prepareToWrite` computes ahead is the size of what it writes.
use opentele.Prelude.{
  ℕ, ◌+◌, ◌*◌, ◌^◌, ◌≡◌, refl, Bool, true, false, List, [], ◌∷◌, ◌++◌, arith, if◌then◌else◌, length,
  length-append,
}
use opentele.Bytes.{big_endian, length-big_endian}
use opentele.Qt.ByteArray.{QByteArray}
use opentele.Qt.Session.Rules.{concat_map}
use opentele.Qt.Session.Blobs.{qbytearray_bytes}
use opentele.MapData.{MapData, Dict}
use opentele.MapData.Keys.{LskType, code}
use opentele.MapData.Write.{any_set, has_tokens, key_size, dict_size, bytearray_size, map_size}
use opentele.MapData.Write.{write_map}
use opentele.Qt.Session.{writer, Frame}
use opentele.Exception.{ok}
use opentele.MapData.Layout.{
  HasPeers, HasShortTokens, write_map-Writes, uint32, uint64, key_bytes, keys_bytes, pair_bytes,
  dict_bytes, tokens_bytes, map_bytes,
}

length-uint32 : (v : ℕ) → length (uint32 v) ≡ 4
length-uint32 v = length-big_endian 4 _

length-uint64 : (v : ℕ) → length (uint64 v) ≡ 8
length-uint64 v = length-big_endian 8 _

pub length-key_bytes : (t : LskType) (key : ℕ) → length (key_bytes t key) ≡ key_size key
unfolding key_bytes
length-key_bytes t key =
    ground (
      arith,
      length-append (uint32 (code t)) (uint64 key),
      length-uint32 (code t),
      length-uint64 key,
    )

length-concat_keys : (keys : List ℕ) → length (concat_map uint64 keys) ≡ length keys * 8
length-concat_keys [] = refl
length-concat_keys (k ∷ ks) =
    omega (
      arith,
      length-append (uint64 k) (concat_map uint64 ks),
      length-uint64 k,
      length-concat_keys ks,
    )

pub length-keys_bytes :
    (t : LskType) (keys : List ℕ)
    → length (keys_bytes t keys) ≡ (if any_set keys then 4 + length keys * 8 else 0)
unfolding keys_bytes
length-keys_bytes t keys = ground (
  arith,
  length-append (uint32 (code t)) (concat_map uint64 keys),
  length-uint32 (code t),
  length-concat_keys keys,
)

pub length-concat_pairs : (d : Dict ℕ) → length (concat_map pair_bytes d) ≡ length d * 16
length-concat_pairs [] = refl
length-concat_pairs ((k, v) ∷ d) = omega (
  arith,
  length-append (pair_bytes (k, v)) (concat_map pair_bytes d),
  length-append (uint64 v) (uint64 (k + 2 ^ 55)),
  length-uint64 v,
  length-uint64 (k + 2 ^ 55),
  length-concat_pairs d,
)

pub length-dict_bytes : (t : LskType) (d : Dict ℕ) → length (dict_bytes t d) ≡ dict_size d
unfolding dict_bytes
length-dict_bytes t d = ground (
  arith,
  length-append (uint32 (code t)) (uint32 (length d) ++ concat_map pair_bytes d),
  length-append (uint32 (length d)) (concat_map pair_bytes d),
  length-uint32 (code t),
  length-uint32 (length d),
  length-concat_pairs d,
)

length-qbytearray_bytes : (q : QByteArray) → length (qbytearray_bytes q) ≡ bytearray_size q
unfolding qbytearray_bytes
length-qbytearray_bytes q = ground (
  arith,
  length-append (big_endian 4 (length q.bytes)) q.bytes,
  length-big_endian 4 (length q.bytes),
  length-big_endian 4 0xffff_ffff,
)

length-if :
    (b : Bool) (xs : List ℕ) (n : ℕ)
    → length xs ≡ n
    → length (if b then xs else []) ≡ (if b then n else 0)
length-if true xs n h = h
length-if false xs n h = refl

pub length-tokens_bytes :
    (m : MapData)
    → length (tokens_bytes m) ≡ (
        if has_tokens m
        then 4
          + bytearray_size m.webview_storage_token_bots
          + bytearray_size m.webview_storage_token_other
        else 0)
unfolding tokens_bytes
length-tokens_bytes m =
    let bots = qbytearray_bytes m.webview_storage_token_bots in
    let other = qbytearray_bytes m.webview_storage_token_other in
    length-if (has_tokens m) (uint32 0x19 ++ (bots ++ other)) _ (
      omega (
        arith,
        length-append (uint32 0x19) (bots ++ other),
        length-append bots other,
        length-uint32 0x19,
        length-qbytearray_bytes m.webview_storage_token_bots,
        length-qbytearray_bytes m.webview_storage_token_other,
      ))

-- `map_size` is the number of bytes that `write_map` appends.
pub length-map_bytes : (m : MapData) → length (map_bytes m) ≡ map_size m
unfolding map_bytes map_size
length-map_bytes m =
    simp
      (length-append, length-key_bytes, length-keys_bytes, length-dict_bytes, length-tokens_bytes)
      (omega arith)

-- When the peer ids can be serialized and the tokens fit their size fields, the sections are
-- appended to a stream over an array that is not null, and what is appended has the size that
-- `map_size` counts.
pub write_map-map_size :
    (m : MapData)
    → HasPeers m
    → HasShortTokens m
    → (f : Frame) (done : List ℕ) → f.null ≡ false
    → (write_map m (writer f done) ≡ (ok tt, writer f (done ++ map_bytes m)))
      × (length (map_bytes m) ≡ map_size m)
write_map-map_size m peers tokens f done there =
    ((write_map-Writes m peers tokens).at f done there, length-map_bytes m)

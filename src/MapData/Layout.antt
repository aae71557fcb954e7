-- ===== src/MapData/Layout.antt =====
-- The bytes of a map's sections, and that `write_map` writes them.
use opentele.Prelude.{
  ℕ, ◌+◌, ◌%◌, ◌^◌, ◌<◌, ◌≡◌, false, List, [], ◌∷◌, ◌++◌, arith, if◌then◌else◌, length, All,
}
use opentele.Bytes.{big_endian}
use opentele.Ids.{is_reserved, reserved_flag, serialize_free}
use opentele.Qt.ByteArray.{QByteArray}
use opentele.Qt.Primitive.{write_uint32, write_uint64}
use opentele.Qt.Session.{Writes}
use opentele.Qt.Session.Rules.{
  Begins-Writes, bind-Writes, when-Writes, for_each-Writes, concat_map, lift-bind,
}
use opentele.Qt.Session.Values.{write_unsigned-Begins}
use opentele.Qt.Session.Blobs.{qbytearray_bytes, write_qbytearray-Begins}
use opentele.MapData.{MapData, Dict}
use opentele.Qt.Blob.{null_marker, write_qbytearray}
use opentele.MapData.Keys.{
  LskType, code, lsk_draft, lsk_draft_position, lsk_locations, lsk_trusted_bots,
  lsk_recent_stickers_old, lsk_stickers_keys, lsk_faved_stickers, lsk_saved_gifs, lsk_user_settings,
  lsk_recent_hashtags_and_bots, lsk_export_settings, lsk_masks_keys, lsk_custom_emoji_keys,
  lsk_search_suggestions, lsk_round_placeholder, lsk_inline_bots_downloads,
  lsk_media_last_playback_positions, lsk_bot_storages, lsk_prefs, lsk_webview_tokens,
}
use opentele.MapData.Write.{
  is_set, any_set, has_items, has_tokens, sticker_keys, mask_keys, emoji_keys, write_key,
  write_keys, write_pair, write_dict, write_tokens, write_map,
}

abbrev pub uint32 : ℕ → List ℕ
uint32 v = big_endian 4 (v % 256 ^ 4)

abbrev pub uint64 : ℕ → List ℕ
uint64 v = big_endian 8 (v % 256 ^ 8)

unfoldable pub key_bytes : LskType → ℕ → List ℕ
key_bytes t key = if is_set key then uint32 (code t) ++ uint64 key else []

unfoldable pub keys_bytes : LskType → List ℕ → List ℕ
keys_bytes t keys = if any_set keys then uint32 (code t) ++ concat_map uint64 keys else []

abbrev pub pair_bytes : ℕ × ℕ → List ℕ
pair_bytes (key, value) = uint64 value ++ uint64 (key + reserved_flag)

unfoldable pub dict_bytes : LskType → Dict ℕ → List ℕ
dict_bytes t d =
    if has_items d then uint32 (code t) ++ (uint32 (length d) ++ concat_map pair_bytes d) else []

-- A peer id that can be serialized, in a dict.
abbrev pub HasPeer : ℕ × ℕ → Type 0
HasPeer (key, value) = is_reserved key ≡ false

write_uint32-Writes : (v : ℕ) → Writes (write_uint32 v) (uint32 v)
write_uint32-Writes v = Begins-Writes _ _ (write_unsigned-Begins 4 v)

write_uint64-Writes : (v : ℕ) → Writes (write_uint64 v) (uint64 v)
write_uint64-Writes v = Begins-Writes _ _ (write_unsigned-Begins 8 v)

pub write_key-Writes : (t : LskType) (key : ℕ) → Writes (write_key t key) (key_bytes t key)
unfolding write_key key_bytes
write_key-Writes t key =
    when-Writes (is_set key) _ _
      (bind-Writes _ _ _ _ (write_uint32-Writes (code t)) (write_uint64-Writes key))

every_key : (keys : List ℕ) → All (λ k. Writes (write_uint64 k) (uint64 k)) keys
every_key [] = tt
every_key (k ∷ ks) = (write_uint64-Writes k, every_key ks)

pub write_keys-Writes :
    (t : LskType) (keys : List ℕ) → Writes (write_keys t keys) (keys_bytes t keys)
unfolding write_keys keys_bytes
write_keys-Writes t keys = when-Writes (any_set keys) _ _ (
    bind-Writes _ _ _ _ (write_uint32-Writes (code t))
      (for_each-Writes write_uint64 uint64 keys (every_key keys)))

write_pair-Writes : (p : ℕ × ℕ) → HasPeer p → Writes (write_pair p) (pair_bytes p)
unfolding write_pair
write_pair-Writes (key, value) h =
    rw (serialize_free key h, lift-bind)
      (bind-Writes _ _ _ _ (write_uint64-Writes value) (write_uint64-Writes (key + reserved_flag)))

every_pair : (d : Dict ℕ) → All HasPeer d → All (λ p. Writes (write_pair p) (pair_bytes p)) d
every_pair [] h = tt
every_pair (p ∷ d) h = (write_pair-Writes p h.0, every_pair d h.1)

pub write_dict-Writes :
    (t : LskType) (d : Dict ℕ) → All HasPeer d → Writes (write_dict t d) (dict_bytes t d)
unfolding write_dict dict_bytes
write_dict-Writes t d h = when-Writes (has_items d) _ _ (
    bind-Writes _ _ _ _ (write_uint32-Writes (code t)) (
      bind-Writes _ _ _ _ (write_uint32-Writes (length d))
        (for_each-Writes write_pair pair_bytes d (every_pair d h))))

unfoldable pub tokens_bytes : MapData → List ℕ
tokens_bytes m =
    if has_tokens m
    then uint32 (code lsk_webview_tokens)
      ++ (qbytearray_bytes m.webview_storage_token_bots
          ++ qbytearray_bytes m.webview_storage_token_other)
    else []

-- The tokens fit the size field of a byte array.
abbrev pub HasShortTokens : MapData → Type 0
HasShortTokens m =
    (length m.webview_storage_token_bots.bytes < null_marker)
    × (length m.webview_storage_token_other.bytes < null_marker)

write_qbytearray-Writes :
    (q : QByteArray)
    → length q.bytes < null_marker
    → Writes (write_qbytearray q) (qbytearray_bytes q)
write_qbytearray-Writes q h = Begins-Writes _ _ (write_qbytearray-Begins q (omega arith))

pub write_tokens-Writes :
    (m : MapData) → HasShortTokens m → Writes (write_tokens m) (tokens_bytes m)
unfolding write_tokens tokens_bytes
write_tokens-Writes m h = when-Writes (has_tokens m) _ _ (
    bind-Writes _ _ _ _ (write_uint32-Writes (code lsk_webview_tokens)) (
      bind-Writes _ _ _ _ (write_qbytearray-Writes m.webview_storage_token_bots h.0)
        (write_qbytearray-Writes m.webview_storage_token_other h.1)))

-- The payload of the map file.
unfoldable pub map_bytes : MapData → List ℕ
map_bytes m =
    dict_bytes lsk_draft m.drafts_map
    ++ (dict_bytes lsk_draft_position m.draft_cursors_map
        ++ (key_bytes lsk_locations m.locations_key
            ++ (key_bytes lsk_trusted_bots m.trusted_bots_key
                ++ (key_bytes lsk_recent_stickers_old m.recent_stickers_key_old
                    ++ (keys_bytes lsk_stickers_keys (sticker_keys m)
                        ++ (key_bytes lsk_faved_stickers m.faved_stickers_key
                            ++ (key_bytes lsk_saved_gifs m.saved_gifs_key
                                ++ (key_bytes lsk_user_settings m.settings_key
                                    ++ (key_bytes lsk_recent_hashtags_and_bots
                                          m.recent_hashtags_and_bots_key
                                        ++ (key_bytes lsk_export_settings m.export_settings_key
                                            ++ (keys_bytes lsk_masks_keys (mask_keys m)
                                                ++ (keys_bytes lsk_custom_emoji_keys (emoji_keys m)
                                                    ++ (key_bytes lsk_search_suggestions
                                                          m.search_suggestions_key
                                                        ++ (tokens_bytes m
                                                            ++ (key_bytes lsk_round_placeholder
                                                            m.round_placeholder
                                                            ++ (key_bytes lsk_inline_bots_downloads
                                                            m.inline_bots_downloads
                                                            ++ (key_bytes
                                                            lsk_media_last_playback_positions
                                                            m.media_last_playback_positions
                                                            ++ (dict_bytes lsk_bot_storages
                                                            m.bot_storages_map
                                                            ++ key_bytes lsk_prefs
                                                            m.prefs_key))))))))))))))))))

-- Every peer id of the map's dicts can be serialized.
pub record HasPeers (m : MapData) : Type 0 where
  pub drafts : All HasPeer m.drafts_map
  pub cursors : All HasPeer m.draft_cursors_map
  pub bot_storages : All HasPeer m.bot_storages_map

-- The rules for the sections, and for one behind the other.
ruleset layout_rules =
    (write_key-Writes, write_keys-Writes, write_dict-Writes, write_tokens-Writes, bind-Writes)

-- `write_map` appends the sections that are set, in this order.
pub write_map-Writes :
    (m : MapData) → HasPeers m → HasShortTokens m → Writes (write_map m) (map_bytes m)
unfolding write_map map_bytes
write_map-Writes m h short = search layout_rules depth 24

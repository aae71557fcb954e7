-- ===== src/Examples.antt =====
-- The theorems at concrete inputs.
mod Mtp
mod Desktop
mod Load
use opentele.Prelude.{
  ◌+◌, ◌*◌, ◌%◌, ◌^◌, ◌<◌, ◌≤◌, ◌-◌, take, inr, ◌≡◌, refl, true, false, none, some, [], ◌∷◌, arith,
  length, replicate, length-replicate, leb,
}
use opentele.Prelude.Int.{pos, negsuc}
use opentele.Exception.{ok, ◌>>=◌}
use opentele.Crypto.{Crypto, IsCrypto}
use opentele.Auth.{AuthKey, local, read_from_file, prepare_aes_oldmtp, length-prepare_aes_oldmtp}
use opentele.Ids
use opentele.Bytes.{little_endian, big_endian}
use opentele.Qt.ByteArray
use opentele.Qt.ByteArray.{QByteArray, of_bytes, resize, size, is_null, size-resize}
use opentele.Qt.Buffer.{read_only, write_only}
use opentele.Qt.DataStream.{reading, bytes_available}
use opentele.Qt.Utf16.{encode, encode_char, is_high, is_low, decode, decode-encode}
use opentele.Qt.Primitive.{read_unsigned, write_unsigned, read_signed, write_signed}
use opentele.Qt.Text.{write_qstring, read_qstring}
use opentele.Qt.Blob.{write_qbytearray, read_qbytearray}
use opentele.Qt.Session.{reader, writer, frame}
use opentele.Qt.Session.Blobs.{qbytearray_bytes}
use opentele.Qt.Session.RoundTrip.{
  reread, written, all_read, read_qstring-write_qstring, read_qbytearray-write_qbytearray,
  read_int32-write_int32, read_unsigned-write_unsigned,
}
use opentele.Account.{
  Account, initial as blank_account, main_key, serialize_mtp_authorization, set_mtp_authorization,
}
use opentele.Account.RoundTrip.{IsStorableAccount, set_mtp_authorization-serialize}
use opentele.MapData.File.{write_and_read, read-write_map_file}
use opentele.MapData.{MapData, initial}
use opentele.MapData.Keys.{lsk_prefs, code, lsk_type, lsk_type-code}
use opentele.MapData.Read.{read_map, guard_count}
use opentele.MapData.Write.{map_size, write_map}
use opentele.MapData.Size.{write_map-map_size}
use opentele.MapData.Layout.{map_bytes}
use opentele.MapData.RoundTrip.{IsPeerDict, IsStorable, kept, read_map-map_bytes}
use opentele.MapData.Descriptor.{storable-HasPeers, save_and_load, read_map-prepare_to_write}
use opentele.MapData.Guard.{guard_count_lem, verdict}
use opentele.Storage.Local
use opentele.Storage.Local.{whole, attach, EncryptedDescriptor, decrypt_local, prepare_encrypted}
use opentele.Storage.Local.RoundTrip.{plain, sealed}
use opentele.Storage.Local.Opened.{
  HasHeader, opened, decrypt_local-sealed, decrypt_local-prepare_encrypted,
}
use opentele.Storage.Local.Checks.{decrypted_text, text_size, decrypt_local-eq-ok}
use opentele.Storage.File.{Folder, app_version}
use opentele.Storage.File.Write.{qbswap}
use opentele.Storage.File.Read.{read_file, read_encrypted_file}
use opentele.Storage.File.RoundTrip.{blocks, little_endian-qbswap}
use opentele.Storage.File.Reload.{
  reloaded, write_out, write_out_encrypted, read_file-write_out,
  read_encrypted_file-write_out_encrypted,
}

-- Digests that depend on the length alone, and a cipher that leaves its text as it is.
abbrev pub sample_crypto : Crypto
sample_crypto = record {
  sha1 = λ bs. replicate 20 (length bs);
  md5 = λ bs. replicate 16 (length bs);
  sha512 = λ bs. replicate 64 (length bs);
  pbkdf2_sha512 = λ password salt n. replicate 256 n;
  ige256_encrypt = λ bs key iv. bs;
  ige256_decrypt = λ bs key iv. bs;
}

pub sample_laws : IsCrypto sample_crypto
sample_laws = record {
  length-sha1 = λ bs. length-replicate 20 (length bs);
  length-md5 = λ bs. length-replicate 16 (length bs);
  length-encrypt = λ bs key iv h. refl;
  decrypt-encrypt = λ bs key iv h. refl;
}

abbrev pub sample_key : AuthKey
sample_key = record { key = replicate 256 7; type = local; dc_id = pos 2 }

abbrev pub sample_folder : Folder
sample_folder = record { files = λ name. none; is_writable = λ name. true }

-- A map with two drafts, a bot storage, single keys, the keys of the masks and the tokens.
abbrev pub sample_map : MapData
sample_map = record initial {
  drafts_map = (777, 11) ∷ (2 ^ 48 + 5, 12) ∷ [];
  bot_storages_map = (42, 13) ∷ [];
  locations_key = 5;
  recent_masks_key = 6;
  webview_storage_token_bots = of_bytes (1 ∷ 2 ∷ []);
  prefs_key = 9;
}

sample_drafts : IsPeerDict sample_map.drafts_map
sample_drafts = record {
  distinct = ((refl, tt), (tt, tt));
  entries = ((refl, omega arith, omega arith), ((refl, omega arith, omega arith), tt));
  count = omega arith;
}

sample_bot_storages : IsPeerDict sample_map.bot_storages_map
sample_bot_storages = record {
  distinct = (tt, tt);
  entries = ((refl, omega arith, omega arith), tt);
  count = omega arith;
}

pub sample_map-IsStorable : IsStorable sample_map
sample_map-IsStorable = record {
  drafts = sample_drafts;
  cursors = record { distinct = tt; entries = tt; count = omega arith };
  bot_storages = sample_bot_storages;
  tokens = (omega arith, omega arith);
  locations_key = omega arith;
  trusted_bots_key = omega arith;
  recent_stickers_key_old = omega arith;
  faved_stickers_key = omega arith;
  saved_gifs_key = omega arith;
  settings_key = omega arith;
  recent_hashtags_and_bots_key = omega arith;
  export_settings_key = omega arith;
  search_suggestions_key = omega arith;
  round_placeholder = omega arith;
  inline_bots_downloads = omega arith;
  media_last_playback_positions = omega arith;
  prefs_key = omega arith;
  installed_stickers_key = omega arith;
  featured_stickers_key = omega arith;
  recent_stickers_key = omega arith;
  archived_stickers_key = omega arith;
  installed_masks_key = omega arith;
  recent_masks_key = omega arith;
  archived_masks_key = omega arith;
  installed_custom_emoji_key = omega arith;
  featured_custom_emoji_key = omega arith;
  archived_custom_emoji_key = omega arith;
}

-- A descriptor whose array has four bytes of room and three of payload.
abbrev sample_descriptor : EncryptedDescriptor
sample_descriptor = record {
  held = of_bytes (0 ∷ 0 ∷ 0 ∷ 0 ∷ 1 ∷ 2 ∷ 3 ∷ []);
  stream = attach (of_bytes (0 ∷ 0 ∷ 0 ∷ 0 ∷ 1 ∷ 2 ∷ 3 ∷ [])) write_only 7;
}

pub sample_size : map_size sample_map ≡ 130
unfolding map_size
sample_size = refl

read_map-prepare_to_write_example :
    save_and_load sample_crypto sample_key false sample_map ≡ ok (some (kept sample_map))
read_map-prepare_to_write_example =
    read_map-prepare_to_write sample_crypto sample_key false sample_map sample_laws
      sample_map-IsStorable (omega (arith, sample_size))

read_map-map_bytes_example :
    read_map true (reader (frame read_only false) (0 ∷ []) (map_bytes sample_map))
    ≡ (ok (some (kept sample_map)), reader (frame read_only false) (0 ∷ map_bytes sample_map) [])
read_map-map_bytes_example =
    read_map-map_bytes true sample_map sample_map-IsStorable (frame read_only false) (0 ∷ [])

write_map-map_size_example :
    (write_map sample_map (writer (frame write_only false) (0 ∷ []))
      ≡ (ok tt, writer (frame write_only false) (0 ∷ map_bytes sample_map)))
    × (length (map_bytes sample_map) ≡ map_size sample_map)
write_map-map_size_example =
    write_map-map_size sample_map (storable-HasPeers sample_map sample_map-IsStorable)
      (omega arith, omega arith) (frame write_only false) (0 ∷ []) refl

-- Two items of 16 bytes do not fit into three bytes.
guard_count_lem_example : guard_count 2 16 (reading (of_bytes (1 ∷ 2 ∷ 3 ∷ []))) ≡ (
  verdict (leb (2 * 16) (bytes_available (reading (of_bytes (1 ∷ 2 ∷ 3 ∷ []))))),
  reading (of_bytes (1 ∷ 2 ∷ 3 ∷ [])),
)
guard_count_lem_example = guard_count_lem 2 16 (reading (of_bytes (1 ∷ 2 ∷ 3 ∷ []))) (omega arith)

decrypt_local-prepare_encrypted_example :
    (prepare_encrypted sample_crypto (of_bytes (0 ∷ 0 ∷ 0 ∷ 0 ∷ 1 ∷ 2 ∷ 3 ∷ [])) sample_key >>= λ e.
    decrypt_local sample_crypto e sample_key)
    ≡ ok (opened (of_bytes (0 ∷ 0 ∷ 0 ∷ 0 ∷ 1 ∷ 2 ∷ 3 ∷ [])))
decrypt_local-prepare_encrypted_example =
    decrypt_local-prepare_encrypted sample_crypto sample_key
      (of_bytes (0 ∷ 0 ∷ 0 ∷ 0 ∷ 1 ∷ 2 ∷ 3 ∷ [])) sample_laws (inr (omega arith))
      (unfold whole in omega arith)

read_file-write_out_example :
    (write_out sample_crypto (100 ∷ []) (of_bytes (1 ∷ 2 ∷ []) ∷ ByteArray.empty ∷ []) sample_folder
      >>= λ f. read_file sample_crypto (100 ∷ []) f)
    ≡ ok (reloaded (blocks (of_bytes (1 ∷ 2 ∷ []) ∷ ByteArray.empty ∷ [])))
read_file-write_out_example =
    read_file-write_out sample_crypto (100 ∷ []) (of_bytes (1 ∷ 2 ∷ []) ∷ ByteArray.empty ∷ [])
      sample_folder sample_laws (omega arith, (omega arith, tt))
      (unfold qbytearray_bytes big_endian in omega arith) refl

sample_finish : Local.finish sample_descriptor ≡ of_bytes (0 ∷ 0 ∷ 0 ∷ 0 ∷ 1 ∷ 2 ∷ 3 ∷ [])
unfolding Local.finish attach
sample_finish = refl

sample_fits : size (Local.finish sample_descriptor) < 2 ^ 31
sample_fits = rw sample_finish (omega arith)

sample_header : HasHeader (Local.finish sample_descriptor)
sample_header = rw sample_finish (inr (omega arith))

read_encrypted_file-write_out_encrypted_example :
    (write_out_encrypted sample_crypto (100 ∷ []) sample_descriptor sample_key sample_folder
      >>= λ f. read_encrypted_file sample_crypto (100 ∷ []) f sample_key)
    ≡ ok (record {
      version = app_version;
      payload = (opened (Local.finish sample_descriptor)).held;
      stream = (opened (Local.finish sample_descriptor)).stream;
    })
read_encrypted_file-write_out_encrypted_example =
    read_encrypted_file-write_out_encrypted sample_crypto (100 ∷ []) sample_key sample_descriptor
      sample_folder sample_laws sample_header sample_fits refl

-- The encrypted array of seven bytes.
abbrev sample_array : QByteArray
sample_array = of_bytes (0 ∷ 0 ∷ 0 ∷ 0 ∷ 1 ∷ 2 ∷ 3 ∷ [])

abbrev sample_sealed : QByteArray
sample_sealed = of_bytes (sealed sample_crypto sample_key (plain sample_array))

decrypt_local-eq-ok_example :
    (16 < size sample_sealed)
    × (size sample_sealed % 16 ≡ 0)
    × (take 16 (sample_crypto.sha1 (decrypted_text sample_crypto sample_sealed sample_key).bytes)
        ≡ take 16 sample_sealed.bytes)
    × ((opened sample_array).held
        ≡ resize
            (text_size sample_crypto sample_sealed sample_key)
            (decrypted_text sample_crypto sample_sealed sample_key))
    × (4 ≤ text_size sample_crypto sample_sealed sample_key)
    × (text_size sample_crypto sample_sealed sample_key
        ≤ size (decrypted_text sample_crypto sample_sealed sample_key))
    × (size sample_sealed - 16 < text_size sample_crypto sample_sealed sample_key + 16)
decrypt_local-eq-ok_example =
    decrypt_local-eq-ok sample_crypto sample_sealed sample_key (opened sample_array) (
      decrypt_local-sealed sample_crypto sample_key sample_array sample_laws (inr (omega arith))
        (unfold whole in omega arith))

little_endian-qbswap_example : little_endian 4 (qbswap 258) ≡ big_endian 4 258
little_endian-qbswap_example = little_endian-qbswap 258 (omega arith)

from_serialized-serialize_example : Ids.from_serialized (777 + 2 ^ 55) ≡ 777
from_serialized-serialize_example =
    Ids.from_serialized-serialize 777 (777 + 2 ^ 55) (unfold Ids.serialize in refl)

serialize-from_serialized_example :
    (Ids.serialize (Ids.from_serialized (2 ^ 33 + 5))
      ≡ ok (Ids.from_serialized (2 ^ 33 + 5) + Ids.reserved_flag))
    × (Ids.from_serialized (2 ^ 33 + 5) + Ids.reserved_flag < 2 ^ 64)
    × (Ids.from_serialized (Ids.from_serialized (2 ^ 33 + 5) + Ids.reserved_flag)
        ≡ Ids.from_serialized (2 ^ 33 + 5))
serialize-from_serialized_example = Ids.serialize-from_serialized (2 ^ 33 + 5) (omega arith)

bare_dc_id-shift_dc_id_example : Ids.bare_dc_id (Ids.shift_dc_id 4 3) ≡ 4
bare_dc_id-shift_dc_id_example = Ids.bare_dc_id-shift_dc_id 4 3 (omega arith)

length-prepare_aes_oldmtp_example :
    (length (prepare_aes_oldmtp sample_crypto sample_key (1 ∷ 2 ∷ []) true).0 ≡ 32)
    × (length (prepare_aes_oldmtp sample_crypto sample_key (1 ∷ 2 ∷ []) true).1 ≡ 32)
length-prepare_aes_oldmtp_example =
    length-prepare_aes_oldmtp sample_crypto sample_key (1 ∷ 2 ∷ []) true sample_laws

size-resize_example :
    (size (resize 5 (of_bytes (1 ∷ 2 ∷ []))) ≡ 5)
    × (is_null (resize 5 (of_bytes (1 ∷ 2 ∷ []))) ≡ false)
size-resize_example = size-resize 5 (of_bytes (1 ∷ 2 ∷ []))

sample_encoded : encode (97 ∷ 128512 ∷ []) ≡ ok (0 ∷ 97 ∷ 216 ∷ 61 ∷ 222 ∷ 0 ∷ [])
unfolding encode encode_char is_high is_low big_endian
sample_encoded = refl

-- A text with a surrogate pair: the bytes of "a" and of U+1F600.
decode-encode_example : decode (0 ∷ 97 ∷ 216 ∷ 61 ∷ 222 ∷ 0 ∷ []) ≡ ok (97 ∷ 128512 ∷ [])
decode-encode_example =
    decode-encode (97 ∷ 128512 ∷ []) (0 ∷ 97 ∷ 216 ∷ 61 ∷ 222 ∷ 0 ∷ [])
      (omega arith, (omega arith, tt)) sample_encoded

read_qstring-write_qstring_example :
    (reread read_qstring (written (write_qstring (some (97 ∷ 128512 ∷ []))))).0
    ≡ ok (97 ∷ 128512 ∷ [])
read_qstring-write_qstring_example =
    read_qstring-write_qstring (97 ∷ 128512 ∷ []) (0 ∷ 97 ∷ 216 ∷ 61 ∷ 222 ∷ 0 ∷ [])
      (omega arith, (omega arith, tt)) sample_encoded (omega arith)

read_qbytearray-write_qbytearray_example :
    reread read_qbytearray (written (write_qbytearray ByteArray.empty))
    ≡ all_read (of_bytes []) (qbytearray_bytes ByteArray.empty)
read_qbytearray-write_qbytearray_example =
    read_qbytearray-write_qbytearray ByteArray.empty (omega arith)

read_int32-write_int32_example :
    (reread (read_signed 4) (written (write_signed 4 (negsuc 1)))).0 ≡ ok (negsuc 1)
read_int32-write_int32_example = read_int32-write_int32 (negsuc 1) (omega arith, omega arith)

read_unsigned-write_unsigned_example :
    ((reread (read_unsigned 4) (written (write_unsigned 4 (2 ^ 32 + 5)))).0
      ≡ ok ((2 ^ 32 + 5) % 2 ^ 32))
    × ((reread (read_unsigned 8) (written (write_unsigned 8 (2 ^ 32 + 5)))).0
        ≡ ok ((2 ^ 32 + 5) % 2 ^ 64))
read_unsigned-write_unsigned_example = read_unsigned-write_unsigned (2 ^ 32 + 5)

abbrev pub sample_file_key : AuthKey
sample_file_key = record { key = replicate 256 7; type = read_from_file; dc_id = pos 2 }

-- A loaded account with a user id of more than 32 bits and two keys.
abbrev pub sample_account : Account
sample_account = record {
  user_id = pos (2 ^ 33 + 1);
  main_dc_id = pos 2;
  mtp_keys = record sample_file_key { dc_id = pos 4 } ∷ sample_file_key ∷ [];
  mtp_keys_to_destroy = [];
  auth_key = some sample_file_key;
  is_loaded = true;
}

pub sample_account-IsStorableAccount : IsStorableAccount sample_account (2 ^ 33 + 1)
sample_account-IsStorableAccount = record {
  loaded = refl;
  user_id = refl;
  wide = omega arith;
  main_dc_id = (omega arith, omega arith);
  mtp_keys = (
    ((refl, (omega arith, omega arith), refl), ((refl, (omega arith, omega arith), refl), tt)),
    omega arith,
  );
  mtp_keys_to_destroy = (tt, omega arith);
}

set_mtp_authorization-serialize_example :
    (serialize_mtp_authorization sample_account >>= λ q. ok (set_mtp_authorization q blank_account))
    ≡ ok (ok tt, record sample_account { auth_key = some sample_file_key; is_loaded = true })
set_mtp_authorization-serialize_example =
    set_mtp_authorization-serialize sample_account blank_account (2 ^ 33 + 1) sample_file_key
      sample_account-IsStorableAccount (unfold main_key in refl)

read-write_map_file_example :
    write_and_read sample_crypto false sample_key ByteArray.empty sample_map sample_folder
    ≡ ok (some (kept sample_map))
read-write_map_file_example =
    read-write_map_file sample_crypto false sample_key ByteArray.empty sample_map sample_folder
      sample_laws sample_map-IsStorable (omega (arith, sample_size)) refl

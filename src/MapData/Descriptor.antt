-- ===== src/MapData/Descriptor.antt =====
-- `MapData.prepareToWrite` as a whole: the descriptor of the size that was counted, and the sections
-- written to its stream.
use opentele.Prelude.{
  ℕ, zero, suc, ◌+◌, ◌^◌, ◌≤◌, ◌<◌, ◌≡◌, refl, sym, ap, ◌∙◌, Bool, true, false, Option, some, List,
  [], ◌∷◌, ◌++◌, arith, ◌==◌, if◌then◌else◌, length, drop, inl, inr, append-nil, All,
}
use opentele.Exception.{Result, ok, err, ◌>>=◌}
use opentele.Exec
use opentele.Exec.{Exec, when, for_each, continue, ◌>>◌, pure}
use opentele.Crypto.{Crypto, IsCrypto}
use opentele.Auth.{AuthKey}
use opentele.Qt.ByteArray
use opentele.Qt.ByteArray.{QByteArray, of_bytes, size, resize}
use opentele.Qt.Buffer.{read_only, write_only}
use opentele.Qt.DataStream
use opentele.Qt.DataStream.{QDataStream}
use opentele.Qt.Session.{reader, writer, frame}
use opentele.MapData.{MapData, Dict}
use opentele.MapData.Keys.{LskType, code, lsk_webview_tokens}
use opentele.MapData.Write.{
  map_size, has_tokens, write_key, write_keys, write_dict, write_tokens, write_map,
}
use opentele.MapData.Layout.{
  HasPeers, map_bytes, key_bytes, keys_bytes, dict_bytes, tokens_bytes, write_map-Writes, uint32,
  HasPeer,
}
use opentele.MapData.Fields.{IsEntry}
use opentele.Bytes.{big_endian, little_endian}
use opentele.MapData.Size.{length-map_bytes}
use opentele.MapData.Read.{read_map}
use opentele.MapData.RoundTrip.{IsStorable, kept, read_map-map_bytes}
use opentele.Storage.Local
use opentele.Storage.Local.{
  EncryptedDescriptor, new_descriptor, whole, prepare_encrypted, decrypt_local,
}
use opentele.Storage.Local.Opened.{
  HasHeader, opened, prepare_encrypted-sealed, decrypt_local-sealed, size-whole,
}

-- The outcome of the writes, in the descriptor.
abbrev pub with_stream :
    EncryptedDescriptor → Result (Unit {0}) × QDataStream → Result EncryptedDescriptor
with_stream d (ok u, s) = ok (record d { stream = s })
with_stream d (err e, s) = err e

-- `MapData.prepareToWrite`
unfoldable pub prepare_to_write : MapData → Result EncryptedDescriptor
prepare_to_write m = let d = new_descriptor (map_size m) in with_stream d (write_map m d.stream)

-- `m`, which would append `bs`, does nothing where that is nothing.
record Quiet (m : Exec QDataStream Unit) (bs : List ℕ) : Type 0 where
  at : bs ≡ [] → (s : QDataStream) → m s ≡ (ok tt, s)

when-Quiet :
    (b : Bool) (m : Exec QDataStream Unit) (v : ℕ) (cs : List ℕ)
    → Quiet (when b m) (if b then uint32 v ++ cs else [])
unfolding when big_endian
when-Quiet true m v cs = record { at = λ e s. cc }
when-Quiet false m v cs = record { at = λ e s. refl }

bind-Quiet :
    (m k : Exec QDataStream Unit) (bs cs : List ℕ)
    → Quiet m bs
    → Quiet k cs
    → Quiet (m >> k) (bs ++ cs)
unfolding Exec.◌>>=◌
bind-Quiet m k [] cs hm hk = record {
  at = λ e s. ap (continue (λ _. k)) (hm.at refl s) ∙ hk.at e s;
}
bind-Quiet m k (b ∷ bs) cs hm hk = record { at = λ e s. cc }

write_key-Quiet : (t : LskType) (key : ℕ) → Quiet (write_key t key) (key_bytes t key)
unfolding write_key key_bytes
write_key-Quiet t key = when-Quiet _ _ _ _

write_keys-Quiet : (t : LskType) (keys : List ℕ) → Quiet (write_keys t keys) (keys_bytes t keys)
unfolding write_keys keys_bytes
write_keys-Quiet t keys = when-Quiet _ _ _ _

write_dict-Quiet : (t : LskType) (d : Dict ℕ) → Quiet (write_dict t d) (dict_bytes t d)
unfolding write_dict dict_bytes
write_dict-Quiet t d = when-Quiet _ _ _ _

write_tokens-Quiet : (m : MapData) → Quiet (write_tokens m) (tokens_bytes m)
unfolding write_tokens tokens_bytes
write_tokens-Quiet m = when-Quiet (has_tokens m) _ (code lsk_webview_tokens) _

ruleset quiet_rules =
    (write_key-Quiet, write_keys-Quiet, write_dict-Quiet, write_tokens-Quiet, bind-Quiet)

-- A map without anything to save writes nothing, also where there is no buffer.
write_map-Quiet : (m : MapData) → Quiet (write_map m) (map_bytes m)
unfolding write_map map_bytes
write_map-Quiet m = search quiet_rules depth 24

nil_of_length : (bs : List ℕ) → length bs ≡ 0 → bs ≡ []
nil_of_length [] e = refl
nil_of_length (b ∷ bs) e = ground arith

peers_of : (d : Dict ℕ) → All IsEntry d → All HasPeer d
peers_of [] h = tt
peers_of ((peer, key) ∷ d) h = (h.0.0, peers_of d h.1)

pub storable-HasPeers : (m : MapData) → IsStorable m → HasPeers m
storable-HasPeers m h = record {
  drafts = peers_of m.drafts_map h.drafts.entries;
  cursors = peers_of m.draft_cursors_map h.cursors.entries;
  bot_storages = peers_of m.bot_storages_map h.bot_storages.entries;
}

-- The array that is encrypted: four bytes of room and the payload, or nothing.
abbrev pub Roomy : List ℕ → QByteArray → Type 0
Roomy bs q = HasHeader q × (drop 4 q.bytes ≡ bs) × (size q ≤ 4 + length bs)

-- A descriptor of a size, before anything is written.
abbrev pub fresh : EncryptedDescriptor
fresh = record { held = of_bytes []; stream = writer (frame write_only false) (0 ∷ 0 ∷ 0 ∷ 0 ∷ []) }

pub finish-writer :
    (held : QByteArray) (bs : List ℕ)
    → Local.finish (record { held = held; stream = writer (frame write_only false) bs })
      ≡ of_bytes bs
unfolding Local.finish reader
finish-writer held bs = rw append-nil refl

-- The size 0 leaves a descriptor without a buffer.
prepared_empty :
    (m : MapData)
    → map_size m ≡ 0
    → (d : EncryptedDescriptor) × (prepare_to_write m ≡ ok d) × Roomy (map_bytes m) (Local.finish d)
unfolding prepare_to_write new_descriptor Local.finish
prepared_empty m e =
    let none_there = nil_of_length (map_bytes m) (length-map_bytes m ∙ e) in
    (
      new_descriptor 0,
      rw (e, (write_map-Quiet m).at none_there DataStream.empty) refl,
      (inl refl, sym none_there, omega arith),
    )

pub descriptor_writer :
    (n : ℕ) → new_descriptor (suc n) ≡ record { held = ByteArray.empty; stream = fresh.stream }
unfolding new_descriptor reader Local.attach resize
descriptor_writer n = let e : (suc n == 0) ≡ false = ground arith in rw e refl

prepared_some :
    (m : MapData) (n : ℕ)
    → IsStorable m
    → map_size m ≡ suc n
    → (d : EncryptedDescriptor) × (prepare_to_write m ≡ ok d) × Roomy (map_bytes m) (Local.finish d)
unfolding prepare_to_write
prepared_some m n h e =
    let bs = 0 ∷ 0 ∷ 0 ∷ 0 ∷ map_bytes m in
    let wrote =
      (write_map-Writes m (storable-HasPeers m h) h.tokens).at (frame write_only false)
        (0 ∷ 0 ∷ 0 ∷ 0 ∷ []) refl in
    (
      record { held = ByteArray.empty; stream = writer (frame write_only false) bs },
      rw (e, descriptor_writer n, wrote) refl,
      rw (finish-writer ByteArray.empty bs) (inr (omega arith), refl, omega arith),
    )

pub prepare_to_write-Roomy :
    (m : MapData)
    → IsStorable m
    → (d : EncryptedDescriptor) × (prepare_to_write m ≡ ok d) × Roomy (map_bytes m) (Local.finish d)
prepare_to_write-Roomy m h = at_size (map_size m) refl
  where
    at_size :
        (n : ℕ)
        → map_size m ≡ n
        → (d : EncryptedDescriptor) × (prepare_to_write m ≡ ok d)
          × Roomy (map_bytes m) (Local.finish d)
    at_size zero e = prepared_empty m e
    at_size (suc n) e = prepared_some m n h e

pub opened_stream :
    (q : QByteArray) {bs : List ℕ}
    → drop 4 q.bytes ≡ bs
    → (opened q).stream ≡ reader (frame read_only false) (little_endian 4 (size (whole q))) bs
unfolding opened
opened_stream q e = rw e refl

-- `MapData` is saved and loaded: the descriptor, its encryption, its decryption, and the sections.
abbrev pub save_and_load : Crypto → AuthKey → Bool → MapData → Result (Option MapData)
save_and_load c a lenient m = prepare_to_write m >>= λ d.
    prepare_encrypted c (Local.finish d) a >>= λ e.
    decrypt_local c e a >>= λ x. (read_map lenient x.stream).0

-- A storable map of fewer than 2 ^ 31 bytes that was prepared and encrypted is decrypted and read
-- back as it is kept, whether unknown keys are tolerated or not.
pub read_map-prepare_to_write :
    (c : Crypto) (a : AuthKey) (lenient : Bool) (m : MapData)
    → IsCrypto c
    → IsStorable m
    → map_size m < 2 ^ 31
    → save_and_load c a lenient m ≡ ok (some (kept m))
read_map-prepare_to_write c a lenient m laws h fits =
    let (d, prepared, room) = prepare_to_write-Roomy m h in
    let (header, rest, short) = room in
    let q = Local.finish d in
    let fits32 : size (whole q) < 2 ^ 32 = omega (arith, size-whole q, short, length-map_bytes m) in
    rw
      (
        prepared,
        (prepare_encrypted-sealed c a q laws header fits32).0,
        decrypt_local-sealed c a q laws header fits32,
        opened_stream q rest,
      )
      (ap (λ r. r.0) (read_map-map_bytes lenient m h (frame read_only false) _))

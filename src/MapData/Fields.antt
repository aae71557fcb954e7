-- ===== src/MapData/Fields.antt =====
-- The sections of each shape: one key, several keys, two byte arrays, a dict.
use opentele.Prelude.{
  ℕ, ◌+◌, ◌^◌, ◌<◌, ◌≡◌, refl, sym, Bool, false, some, List, [], ◌∷◌, ◌++◌, arith, length, All,
  if◌then◌else◌,
}
use opentele.Exec.{Exec, pure, repeat, ◌>>=◌}
use opentele.Ids.{
  from_serialized, is_reserved, reserved_flag, serialize_free, from_serialized-serialize,
}
use opentele.Qt.ByteArray
use opentele.Qt.ByteArray.{QByteArray, of_bytes}
use opentele.Qt.DataStream.{QDataStream}
use opentele.Qt.Primitive.{read_uint64}
use opentele.Qt.Blob.{null_marker, read_qbytearray}
use opentele.Qt.Session.{Parses}
use opentele.Qt.Session.Rules.{pure-Parses, bind-Parses, concat_map}
use opentele.Qt.Session.Values.{map-Parses}
use opentele.Qt.Session.Blobs.{qbytearray_bytes, read_qbytearray-Parses}
use opentele.MapData.{MapData, Dict}
use opentele.MapData.Keys.{LskType, lsk_webview_tokens}
use opentele.MapData.Read.{Next, more, read_key, read_pair, read_pairs, read_payload}
use opentele.MapData.Write.{is_set, any_set, has_items, has_tokens}
use opentele.MapData.Layout.{
  uint32, uint64, key_bytes, keys_bytes, pair_bytes, dict_bytes, tokens_bytes, HasShortTokens,
}
use opentele.MapData.Size.{length-concat_pairs}
use opentele.MapData.Sections.{
  Chain, Chain-section, Chain-if, guard_count-Parses, read_uint32-Parses, read_uint64-Parses,
}

-- A number that fits a `FileKey` on the wire.
abbrev pub IsKey : ℕ → Type 0
IsKey k = k < 2 ^ 64

-- An item of a dict that can be written and read: its peer id and its key.
abbrev pub IsEntry : ℕ × ℕ → Type 0
IsEntry (peer, key) = (is_reserved peer ≡ false) × (peer + reserved_flag < 2 ^ 64) × (key < 2 ^ 64)

unset : (k : ℕ) → is_set k ≡ false → k ≡ 0
unset k h = ground arith

read_pair-Parses : (p : ℕ × ℕ) → IsEntry p → Parses read_pair (pair_bytes p) p
unfolding read_pair
read_pair-Parses (peer, key) h = bind-Parses _ _ _ _ _ _ (read_uint64-Parses key h.2) (
    rw (from_serialized-serialize peer (peer + reserved_flag) (serialize_free peer h.0)) at (
      map-Parses {B = ℕ × ℕ} read_uint64 (λ s. (from_serialized s, key)) _ _
        (read_uint64-Parses (peer + reserved_flag) h.1)))

-- The rounds' changes, in order.
unfoldable pub add_all : (ℕ × ℕ → MapData → MapData) → Dict ℕ → MapData → MapData
add_all add [] m = m
add_all add (p ∷ d) m = add_all add d (add p m)

repeat-Parses :
    (add : ℕ × ℕ → MapData → MapData) (d : Dict ℕ) (m : MapData)
    → All IsEntry d
    → Parses
        (repeat (length d) (λ x. read_pair >>= λ p. pure (add p x)) m)
        (concat_map pair_bytes d)
        (add_all add d m)
unfolding repeat add_all
repeat-Parses add [] m h = pure-Parses m
repeat-Parses add (p ∷ d) m h =
    bind-Parses _ _ _ _ _ _ (map-Parses read_pair (λ q. add q m) _ _ (read_pair-Parses p h.0))
      (repeat-Parses add d (add p m) h.1)

read_pairs-Parses :
    (add : ℕ × ℕ → MapData → MapData) (d : Dict ℕ) (m : MapData)
    → All IsEntry d
    → length d < 2 ^ 32
    → Parses (read_pairs add m) (uint32 (length d) ++ concat_map pair_bytes d) (add_all add d m)
unfolding read_pairs
read_pairs-Parses add d m h fits = bind-Parses _ _ _ _ _ _ (read_uint32-Parses (length d) fits) (
    guard_count-Parses (length d) 16 _ _ _ (omega arith) (omega (arith, length-concat_pairs d))
      (repeat-Parses add d m h))

unset_all : (k : ℕ) (ks : List ℕ) → any_set (k ∷ ks) ≡ false → (k ≡ 0) × (any_set ks ≡ false)
unset_all k ks h = ground arith

-- The reads of three keys, and of four.
abbrev read_three : (ℕ → ℕ → ℕ → MapData) → Exec QDataStream Next
read_three with = do a ← read_uint64; b ← read_uint64; c ← read_uint64; pure (more (with a b c))

abbrev read_four : (ℕ → ℕ → ℕ → ℕ → MapData) → Exec QDataStream Next
read_four with = do
  a ← read_uint64
  b ← read_uint64
  c ← read_uint64
  d ← read_uint64
  pure (more (with a b c d))

read_three-Parses :
    (with : ℕ → ℕ → ℕ → MapData) (a b c : ℕ)
    → All IsKey (a ∷ b ∷ c ∷ [])
    → Parses (read_three with) (concat_map uint64 (a ∷ b ∷ c ∷ [])) (more (with a b c))
read_three-Parses with a b c h = bind-Parses _ _ _ _ _ _ (read_uint64-Parses a h.0) (
    bind-Parses _ _ _ _ _ _ (read_uint64-Parses b h.1.0)
      (bind-Parses _ _ _ _ _ _ (read_uint64-Parses c h.1.1.0) (pure-Parses (more (with a b c)))))

read_four-Parses :
    (with : ℕ → ℕ → ℕ → ℕ → MapData) (a b c d : ℕ)
    → All IsKey (a ∷ b ∷ c ∷ d ∷ [])
    → Parses (read_four with) (concat_map uint64 (a ∷ b ∷ c ∷ d ∷ [])) (more (with a b c d))
read_four-Parses with a b c d h =
    bind-Parses _ _ _ _ _ _ (read_uint64-Parses a h.0) (read_three-Parses (with a) b c d h.1)

-- The reads of two byte arrays.
abbrev read_tokens : (QByteArray → QByteArray → MapData) → Exec QDataStream Next
read_tokens with = do bots ← read_qbytearray; other ← read_qbytearray; pure (more (with bots other))

read_tokens-Parses :
    (with : QByteArray → QByteArray → MapData) (bots other : QByteArray)
    → length bots.bytes < null_marker
    → length other.bytes < null_marker
    → Parses
        (read_tokens with)
        (qbytearray_bytes bots ++ qbytearray_bytes other)
        (more (with (of_bytes bots.bytes) (of_bytes other.bytes)))
read_tokens-Parses with bots other hb ho =
    bind-Parses _ _ _ _ _ _ (read_qbytearray-Parses bots hb) (
      map-Parses read_qbytearray (λ o. more (with (of_bytes bots.bytes) o)) _ _
        (read_qbytearray-Parses other ho))

-- A token array as it comes back: its bytes, or a null array if neither array has any.
abbrev pub normal_token : MapData → QByteArray → QByteArray
normal_token m q = if has_tokens m then of_bytes q.bytes else ByteArray.empty

no_items : (d : Dict ℕ) → has_items d ≡ false → d ≡ []
no_items [] h = refl
no_items (p ∷ d) h = ground arith

module _ (lenient : Bool) (m : MapData) where
  -- A key that is not set is not written, and is 0 in `m` already.
  pub key-Chain :
      (t : LskType) (with : ℕ → MapData → MapData) (key : ℕ)
      → IsKey key
      → read_payload lenient (some t) m ≡ read_key (λ k. with k m)
      → with 0 m ≡ m
      → Chain lenient (key_bytes t key) m (with key m)
  unfolding key_bytes
  key-Chain t with key fits reads default =
      Chain-if lenient (is_set key) _ m (with key m)
        (λ _. Chain-section lenient t (uint64 key) m (with key m) (
          rw reads
            (map-Parses read_uint64 (λ k. more (with k m)) _ _ (read_uint64-Parses key fits))))
        (λ off. rw (unset key off) (sym default))

  pub three-Chain :
      (t : LskType) (with : ℕ → ℕ → ℕ → MapData → MapData) (a b c : ℕ)
      → All IsKey (a ∷ b ∷ c ∷ [])
      → read_payload lenient (some t) m ≡ read_three (λ a b c. with a b c m)
      → with 0 0 0 m ≡ m
      → Chain lenient (keys_bytes t (a ∷ b ∷ c ∷ [])) m (with a b c m)
  unfolding keys_bytes
  three-Chain t with a b c fits reads default =
      Chain-if lenient (any_set (a ∷ b ∷ c ∷ [])) _ m (with a b c m)
        (λ _.
          Chain-section lenient t (concat_map uint64 (a ∷ b ∷ c ∷ [])) m (with a b c m)
            (rw reads (read_three-Parses (λ a b c. with a b c m) a b c fits)))
        (λ off.
          let (za, off1) = unset_all a (b ∷ c ∷ []) off in
          let (zb, off2) = unset_all b (c ∷ []) off1 in
          rw (za, zb, (unset_all c [] off2).0) (sym default))

  pub four-Chain :
      (t : LskType) (with : ℕ → ℕ → ℕ → ℕ → MapData → MapData) (a b c d : ℕ)
      → All IsKey (a ∷ b ∷ c ∷ d ∷ [])
      → read_payload lenient (some t) m ≡ read_four (λ a b c d. with a b c d m)
      → with 0 0 0 0 m ≡ m
      → Chain lenient (keys_bytes t (a ∷ b ∷ c ∷ d ∷ [])) m (with a b c d m)
  unfolding keys_bytes
  four-Chain t with a b c d fits reads default =
      Chain-if lenient (any_set (a ∷ b ∷ c ∷ d ∷ [])) _ m (with a b c d m)
        (λ _.
          Chain-section lenient t (concat_map uint64 (a ∷ b ∷ c ∷ d ∷ [])) m (with a b c d m)
            (rw reads (read_four-Parses (λ a b c d. with a b c d m) a b c d fits)))
        (λ off.
          let (za, off1) = unset_all a (b ∷ c ∷ d ∷ []) off in
          let (zb, off2) = unset_all b (c ∷ d ∷ []) off1 in
          let (zc, off3) = unset_all c (d ∷ []) off2 in
          rw (za, zb, zc, (unset_all d [] off3).0) (sym default))

  pub tokens-Chain :
      (with : QByteArray → QByteArray → MapData → MapData) (x : MapData)
      → HasShortTokens x
      → read_payload lenient (some lsk_webview_tokens) m
        ≡ read_tokens (λ bots other. with bots other m)
      → with ByteArray.empty ByteArray.empty m ≡ m
      → Chain lenient (tokens_bytes x) m (
          with
            (normal_token x x.webview_storage_token_bots)
            (normal_token x x.webview_storage_token_other)
            m)
  unfolding tokens_bytes
  tokens-Chain with x short reads default =
      Chain-if lenient (has_tokens x) _ m _
        (λ on. rw on (
          Chain-section lenient lsk_webview_tokens _ m _ (
            rw reads (
              read_tokens-Parses (λ bots other. with bots other m) x.webview_storage_token_bots
                x.webview_storage_token_other short.0 short.1))))
        (λ off. rw off (sym default))

  pub dict-Chain :
      (t : LskType) (add : ℕ × ℕ → MapData → MapData) (d : Dict ℕ)
      → All IsEntry d
      → length d < 2 ^ 32
      → read_payload lenient (some t) m ≡ (read_pairs add m >>= λ x. pure (more x))
      → Chain lenient (dict_bytes t d) m (add_all add d m)
  unfolding dict_bytes
  dict-Chain t add d h fits reads =
      Chain-if lenient (has_items d) _ m _
        (λ _.
          Chain-section lenient t _ m _
            (rw reads (map-Parses (read_pairs add m) more _ _ (read_pairs-Parses add d m h fits))))
        (λ off. rw (no_items d off) (unfold add_all in refl))

-- ===== src/MapData/Termination.antt =====
-- The loop of `MapData.read` ends on every stream: each round takes the four bytes of a key, or ends it.
use opentele.Prelude.{
  ℕ, zero, suc, ◌≤◌, ◌<◌, ◌≡◌, ◌≢◌, refl, ap, Bool, true, Option, none, some, arith, Bool-cases,
  inl, inr,
}
use opentele.Exception.{Result, ok, err}
use opentele.Exec.{Exec, pure, continue, ◌>>=◌}
use opentele.Qt.DataStream
use opentele.Qt.DataStream.{QDataStream, bytes_available, is_ok, read_bytes}
use opentele.Qt.Primitive.{read_unsigned, unpack_unsigned}
use opentele.MapData.{MapData, initial}
use opentele.MapData.Keys.{
  LskType, lsk_type, lsk_draft, lsk_draft_position, lsk_bot_storages, lsk_legacy_images,
  lsk_legacy_sticker_images, lsk_legacy_audios, lsk_self_serialized, lsk_webview_tokens,
  lsk_background_old, lsk_stickers_keys, lsk_masks_keys, lsk_custom_emoji_keys, lsk_locations,
  lsk_report_spam_statuses_old, lsk_trusted_bots, lsk_recent_stickers_old, lsk_background_old_old,
  lsk_user_settings, lsk_recent_hashtags_and_bots, lsk_stickers_old, lsk_faved_stickers,
  lsk_saved_gifs_old, lsk_saved_gifs, lsk_saved_peers_old, lsk_export_settings,
  lsk_search_suggestions, lsk_round_placeholder, lsk_inline_bots_downloads,
  lsk_media_last_playback_positions, lsk_prefs, lsk_user_map,
}
use opentele.MapData.Read.{
  Next, more, stop, expect_stream_status, read_key, read_payload, checked, read_section, after,
  read_loop, read_map,
}
use opentele.MapData.Progress.{
  Shrinks, pure-Shrinks, raise-Shrinks, bind-Shrinks, if-Shrinks, read_unsigned-Shrinks,
  read_qbytearray-Shrinks, read_pairs-Shrinks, skip_legacy-Shrinks, taken,
}

read_key-Shrinks : (set : ℕ → MapData) → Shrinks (read_key set)
read_key-Shrinks set = bind-Shrinks _ _ (read_unsigned-Shrinks 8) (λ k. pure-Shrinks _)

module _ (lenient : Bool) where
  read_payload-Shrinks : (key : Option LskType) (m : MapData) → Shrinks (read_payload lenient key m)
  unfolding read_payload
  read_payload-Shrinks (some lsk_draft) m =
      bind-Shrinks _ _ (read_pairs-Shrinks _ m) (λ x. pure-Shrinks _)
  read_payload-Shrinks (some lsk_draft_position) m =
      bind-Shrinks _ _ (read_pairs-Shrinks _ m) (λ x. pure-Shrinks _)
  read_payload-Shrinks (some lsk_bot_storages) m =
      bind-Shrinks _ _ (read_pairs-Shrinks _ m) (λ x. pure-Shrinks _)
  read_payload-Shrinks (some lsk_legacy_images) m =
      bind-Shrinks _ _ (skip_legacy-Shrinks m) (λ x. pure-Shrinks _)
  read_payload-Shrinks (some lsk_legacy_sticker_images) m =
      bind-Shrinks _ _ (skip_legacy-Shrinks m) (λ x. pure-Shrinks _)
  read_payload-Shrinks (some lsk_legacy_audios) m =
      bind-Shrinks _ _ (skip_legacy-Shrinks m) (λ x. pure-Shrinks _)
  read_payload-Shrinks (some lsk_self_serialized) m =
      bind-Shrinks _ _ read_qbytearray-Shrinks (λ x. pure-Shrinks _)
  read_payload-Shrinks (some lsk_webview_tokens) m =
      bind-Shrinks _ _ read_qbytearray-Shrinks
        (λ x. bind-Shrinks _ _ read_qbytearray-Shrinks (λ y. pure-Shrinks _))
  read_payload-Shrinks (some lsk_background_old) m =
      bind-Shrinks _ _ (read_unsigned-Shrinks 8)
        (λ k2. bind-Shrinks _ _ (read_unsigned-Shrinks 8) (λ k1. pure-Shrinks _))
  read_payload-Shrinks (some lsk_stickers_keys) m =
      bind-Shrinks _ _ (read_unsigned-Shrinks 8) (λ k4.
        bind-Shrinks _ _ (read_unsigned-Shrinks 8) (λ k3.
          bind-Shrinks _ _ (read_unsigned-Shrinks 8)
            (λ k2. bind-Shrinks _ _ (read_unsigned-Shrinks 8) (λ k1. pure-Shrinks _))))
  read_payload-Shrinks (some lsk_masks_keys) m = bind-Shrinks _ _ (read_unsigned-Shrinks 8) (λ k3.
      bind-Shrinks _ _ (read_unsigned-Shrinks 8)
        (λ k2. bind-Shrinks _ _ (read_unsigned-Shrinks 8) (λ k1. pure-Shrinks _)))
  read_payload-Shrinks (some lsk_custom_emoji_keys) m =
      bind-Shrinks _ _ (read_unsigned-Shrinks 8) (λ k3.
        bind-Shrinks _ _ (read_unsigned-Shrinks 8)
          (λ k2. bind-Shrinks _ _ (read_unsigned-Shrinks 8) (λ k1. pure-Shrinks _)))
  read_payload-Shrinks (some lsk_locations) m = read_key-Shrinks _
  read_payload-Shrinks (some lsk_report_spam_statuses_old) m = read_key-Shrinks _
  read_payload-Shrinks (some lsk_trusted_bots) m = read_key-Shrinks _
  read_payload-Shrinks (some lsk_recent_stickers_old) m = read_key-Shrinks _
  read_payload-Shrinks (some lsk_background_old_old) m = read_key-Shrinks _
  read_payload-Shrinks (some lsk_user_settings) m = read_key-Shrinks _
  read_payload-Shrinks (some lsk_recent_hashtags_and_bots) m = read_key-Shrinks _
  read_payload-Shrinks (some lsk_stickers_old) m = read_key-Shrinks _
  read_payload-Shrinks (some lsk_faved_stickers) m = read_key-Shrinks _
  read_payload-Shrinks (some lsk_saved_gifs_old) m = read_key-Shrinks _
  read_payload-Shrinks (some lsk_saved_gifs) m = read_key-Shrinks _
  read_payload-Shrinks (some lsk_saved_peers_old) m = read_key-Shrinks _
  read_payload-Shrinks (some lsk_export_settings) m = read_key-Shrinks _
  read_payload-Shrinks (some lsk_search_suggestions) m = read_key-Shrinks _
  read_payload-Shrinks (some lsk_round_placeholder) m = read_key-Shrinks _
  read_payload-Shrinks (some lsk_inline_bots_downloads) m = read_key-Shrinks _
  read_payload-Shrinks (some lsk_media_last_playback_positions) m = read_key-Shrinks _
  read_payload-Shrinks (some lsk_prefs) m = read_key-Shrinks _
  read_payload-Shrinks (some lsk_user_map) m =
      if-Shrinks lenient _ _ (pure-Shrinks _) (raise-Shrinks _)
  read_payload-Shrinks none m = if-Shrinks lenient _ _ (pure-Shrinks _) (raise-Shrinks _)

  -- What the status check of a round leaves: a section that goes on has a good status.
  checked_good :
      (next : Next) (s : QDataStream) (m : MapData)
      → (checked lenient next s).0 ≡ ok (more m)
      → (is_ok s ≡ true) × ((checked lenient next s).1 ≡ s)
  unfolding expect_stream_status ◌>>=◌
  checked_good (stop x) s m e = cc
  checked_good (more x) s m e = elim (Bool-cases (is_ok s)) [
    | inl good ↦ (good, rw good refl)
    | inr bad ↦ absurd (let f = rw bad at e in cc)
  ]

  payload_step :
      (r : Result Next × QDataStream) (m : MapData)
      → (continue (checked lenient) r).0 ≡ ok (more m)
      → (is_ok r.1 ≡ true)
        × (bytes_available (continue (checked lenient) r).1 ≤ bytes_available r.1)
  payload_step (ok next, s) m e =
      let (good, same) = checked_good next s m e in (good, rw same (omega arith))
  payload_step (err x, s) m e = cc

  key_step :
      (r : Result ℕ × QDataStream) (m before : MapData)
      → (continue (λ k. read_payload lenient (lsk_type k) before >>= checked lenient) r).0
        ≡ ok (more m)
      → (is_ok r.1 ≡ true)
        × (bytes_available
              (continue (λ k. read_payload lenient (lsk_type k) before >>= checked lenient) r).1
            ≤ bytes_available r.1)
  unfolding ◌>>=◌
  key_step (ok k, s) m before e =
      let shrinks = read_payload-Shrinks (lsk_type k) before in
      let (good, less) = payload_step (read_payload lenient (lsk_type k) before s) m e in
      (shrinks.status s good, omega (arith, less, shrinks.left s))
  key_step (err x, s) m before e = cc

  continue-pure :
      {A B : Type 0} (f : A → B) (r : Result A × QDataStream)
      → (continue (λ a. pure (f a)) r).1 ≡ r.1
  continue-pure f (ok a, s) = refl
  continue-pure f (err x, s) = refl

  -- A section that goes on has taken bytes.
  section_step :
      (before m : MapData) (s : QDataStream)
      → (read_section lenient before s).0 ≡ ok (more m)
      → bytes_available (read_section lenient before s).1 < bytes_available s
  unfolding read_section read_unsigned ◌>>=◌
  section_step before m s e =
      let (good, less) = key_step (read_unsigned 4 s) m before e in
      let same = continue-pure unpack_unsigned (read_bytes 4 s) in
      omega (arith, less, ap bytes_available same, ((taken 4 s).1 (rw same at good)).0)

  after_step :
      (loop : MapData → Exec QDataStream (Option MapData)) (r : Result Next × QDataStream)
      → ((m : MapData) → r.0 ≡ ok (more m) → (loop m r.1).0 ≢ ok none)
      → (continue (after lenient loop) r).0 ≢ ok none
  after_step loop (ok (more m), s) h = h m refl
  after_step loop (ok (stop m), s) h = λ e. cc
  after_step loop (err x, s) h = λ e. cc

  loop_ends :
      (fuel : ℕ) (m : MapData) (s : QDataStream)
      → bytes_available s < fuel
      → (read_loop lenient fuel m s).0 ≢ ok none
  unfolding read_loop ◌>>=◌
  loop_ends zero m s h = absurd (omega arith)
  loop_ends (suc fuel) m s h = elim (Bool-cases (DataStream.at_end s)) [
    | inl end ↦ rw end (λ e. cc)
    | inr more_there ↦ rw more_there (
        after_step (read_loop lenient fuel) (read_section lenient m s)
          (λ x e. loop_ends fuel x _ (omega (arith, section_step m x s e))))
  ]

pub read_map_ends : (lenient : Bool) (s : QDataStream) → (read_map lenient s).0 ≢ ok none
unfolding read_map
read_map_ends lenient s = loop_ends lenient (suc (bytes_available s)) initial s (omega arith)

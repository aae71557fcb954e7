-- ===== src/Storage/Settings/Reads.antt =====
-- `ReadSetting` of src/td/storage.py on the bytes of every settings block.
use opentele.Prelude.{ℕ, ◌≡◌, refl, ap, ◌∙◌, true, List, [], ◌++◌}
use opentele.Prelude.Int.{mask}
use opentele.Exception.{ok}
use opentele.Exec.{Exec, ◌>>=◌}
use opentele.Qt.ByteArray.{of_bytes}
use opentele.Qt.DataStream.{QDataStream}
use opentele.Qt.Text.{read_qstring}
use opentele.Qt.Session.{Parses, Frame, reader}
use opentele.Qt.Session.Rules.{pure-Parses, bind-Parses, bind-Parses_last}
use opentele.Qt.Session.Values.{read_int32-Parses}
use opentele.Qt.Session.Blobs.{read_qbytearray-Parses, read_raw_data-Parses}
use opentele.Qt.Session.Texts.{sized, read_qstring-Parses}
use opentele.MapData.Sections.{expect_stream_status-Parses, read_uint32-Parses}
use opentele.Mtp.{construct_add_one, apply_one_guarded}
use opentele.Mtp.Config.Layout.{IsText}
use opentele.Mtp.Stored.{stored_options, construct_from_serialized-stored_options}
use opentele.Storage.Settings.{
  ReadSettingsContext, Change, dbi, sets, loaded, loads_options, read_block, changed, outcome,
  read_setting,
}
use opentele.Storage.Settings.Layout.{
  Setting, named_address, flagged_address, data_centres, application, chat_size_max,
  saved_gifs_limit, stickers_recent_limit, stickers_faved_limit, megagroup_size_max, main_user,
  file_key, authorization, number, setting_bytes, IsStorableSetting, with_setting,
}

-- A block is read from the bytes of a setting, and its change is that of the setting.
record Yields (m : Exec QDataStream Change) (bs : List ℕ)
    (f : ReadSettingsContext → ReadSettingsContext) : Type 0 where
  change : Change
  reads : Parses m bs change
  changes : (c : ReadSettingsContext) → change c ≡ (ok tt, f c)

sets-Parses :
    (f : ReadSettingsContext → ReadSettingsContext) → Parses (sets f) [] (λ c. (ok tt, f c))
sets-Parses f = bind-Parses_last _ _ _ _ _ expect_stream_status-Parses (pure-Parses _)

-- A block of a read after which a change is set.
last-Yields :
    {A : Type 0} (m : Exec QDataStream A) (bs : List ℕ) (a : A)
    (g : A → ReadSettingsContext → ReadSettingsContext)
    → Parses m bs a
    → Yields (m >>= λ x. sets (g x)) bs (g a)
last-Yields m bs a g p = record {
  change = λ c. (ok tt, g a c);
  reads = bind-Parses_last m (λ x. sets (g x)) bs a _ p (sets-Parses (g a));
  changes = λ c. refl;
}

first-Yields :
    {A : Type 0} (m : Exec QDataStream A) (k : A → Exec QDataStream Change) (bs cs : List ℕ) (a : A)
    (f : ReadSettingsContext → ReadSettingsContext)
    → Parses m bs a
    → Yields (k a) cs f
    → Yields (m >>= k) (bs ++ cs) f
first-Yields m k bs cs a f p y = record {
  change = y.change;
  reads = bind-Parses m k bs cs a y.change p y.reads;
  changes = y.changes;
}

text-Parses :
    {text payload : List ℕ} → IsText text payload → Parses read_qstring (sized payload) text
text-Parses {text} {payload} t = read_qstring-Parses text payload t.points t.encoded t.short

read_block-Yields :
    (x : Setting)
    → IsStorableSetting x
    → Yields (read_block (dbi (number x))) (setting_bytes x) (with_setting x)
unfolding read_block dbi setting_bytes with_setting construct_add_one apply_one_guarded mask
read_block-Yields (named_address dc_id host ip port) (small, host_held, ip_held, port_small) =
    first-Yields _ _ _ _ _ _ (read_uint32-Parses dc_id small) (
      first-Yields _ _ _ _ _ _ (text-Parses host_held) (
        first-Yields _ _ _ _ _ _ (text-Parses ip_held)
          (last-Yields _ _ _ _ (read_uint32-Parses port port_small))))
read_block-Yields (flagged_address dc_id flags ip port) (small, fits, ip_held, port_small) =
    first-Yields _ _ _ _ _ _ (read_uint32-Parses dc_id small) (
      first-Yields _ _ _ _ _ _ (read_int32-Parses flags fits) (
        first-Yields _ _ _ _ _ _ (text-Parses ip_held)
          (last-Yields _ _ _ _ (read_uint32-Parses port port_small))))
read_block-Yields (data_centres endpoints) (stored, count_small, short) = record {
  change = loads_options (of_bytes (stored_options endpoints));
  reads =
      bind-Parses_last _ _ _ _ _
        (read_qbytearray-Parses (of_bytes (stored_options endpoints)) short)
        (bind-Parses_last _ _ _ _ _ expect_stream_status-Parses (pure-Parses _));
  changes = λ c. ap (loaded c) (
      construct_from_serialized-stored_options endpoints c.fallback_config_legacy_dc_options stored
        count_small);
}
read_block-Yields (application serialized) h =
    last-Yields _ _ _ _ (read_qbytearray-Parses (of_bytes serialized) h)
read_block-Yields (chat_size_max v) h = last-Yields _ _ _ _ (read_int32-Parses v h)
read_block-Yields (saved_gifs_limit v) h = last-Yields _ _ _ _ (read_int32-Parses v h)
read_block-Yields (stickers_recent_limit v) h = last-Yields _ _ _ _ (read_int32-Parses v h)
read_block-Yields (stickers_faved_limit v) h = last-Yields _ _ _ _ (read_int32-Parses v h)
read_block-Yields (megagroup_size_max v) h = last-Yields _ _ _ _ (read_int32-Parses v h)
read_block-Yields (main_user user_id dc_id) (fits, small) =
    first-Yields _ _ _ _ _ _ (read_int32-Parses user_id fits)
      (last-Yields _ _ _ _ (read_uint32-Parses dc_id small))
read_block-Yields (file_key dc_id key) (fits, len) =
    first-Yields _ _ _ _ _ _ (read_int32-Parses dc_id fits)
      (last-Yields _ _ _ _ (read_raw_data-Parses 256 key len))
read_block-Yields (authorization serialized) h =
    last-Yields _ _ _ _ (read_qbytearray-Parses (of_bytes serialized) h)

-- For each of the twelve kinds of settings block, from a stream before the bytes of its fields,
-- wherever they start, and given values that their fields can hold, `read_setting` with the number
-- of the block returns true, stops behind the bytes, and changes in the context exactly the fields
-- of that kind: it stores the values, appends an address without a secret under its bare data
-- centre or a key to the keys, replaces the data centres by those that are serialized with their
-- ports, and marks the context as legacy for addresses, data centres and the five limits only.
pub read_setting-setting_bytes :
    (x : Setting) (f : Frame) (done rest : List ℕ) (c : ReadSettingsContext)
    → IsStorableSetting x
    → read_setting (number x) (reader f done (setting_bytes x ++ rest)) c
      ≡ (ok true, (reader f (done ++ setting_bytes x) rest, with_setting x c))
unfolding read_setting
read_setting-setting_bytes x f done rest c h =
    let y = read_block-Yields x h in
    ap (λ r. changed r c) (y.reads.at f done rest)
    ∙ ap (outcome (reader f (done ++ setting_bytes x) rest)) (y.changes c)

-- ===== src/Mtp/Config/Reads.antt =====
-- The bytes of a configuration, read by `Config.FromSerialized`.
use opentele.Prelude.{
  ℕ, ◌<◌, ◌≡◌, refl, Bool, true, false, List, [], ◌++◌, arith, length, if◌then◌else◌,
}
use opentele.Prelude.Int.{ℤ, pos, ◌==ℤ◌}
use opentele.Exec.{Exec, ◌>>=◌}
use opentele.Qt.ByteArray.{of_bytes}
use opentele.Qt.DataStream.{QDataStream}
use opentele.Qt.Primitive.{read_int32}
use opentele.Qt.Blob.{null_marker}
use opentele.Qt.Text.{read_qstring}
use opentele.Qt.Session.{Parses}
use opentele.Qt.Session.Rules.{pure-Parses, bind-Parses, bind-Parses_last}
use opentele.Qt.Session.Values.{IsInt32, map-Parses, read_int32-Parses}
use opentele.Qt.Session.Blobs.{read_qbytearray-Parses}
use opentele.Qt.Session.Texts.{sized, read_qstring-Parses}
use opentele.MapData.Sections.{expect_stream_status-Parses}
use opentele.Account.Layout.{int32_bytes}
use opentele.Mtp.{Environment, production, test}
use opentele.Mtp.Config.{ConfigFields}
use opentele.Mtp.Config.Write.{environment_number}
use opentele.Mtp.Config.Read.{read_flag, read_fields, read_config, environment_of}
use opentele.Mtp.Config.Layout.{flag_bytes, IsText, AreStorable, fields_bytes, config_bytes}

module _ {B : Type 0} {b : B} {cs : List ℕ} where
  int_first :
      {v : ℤ} (k : ℤ → Exec QDataStream B)
      → IsInt32 v
      → Parses (k v) cs b
      → Parses (read_int32 >>= k) (int32_bytes v ++ cs) b
  int_first {v} k h p = bind-Parses read_int32 k (int32_bytes v) cs v b (read_int32-Parses v h) p

  text_first :
      {text payload : List ℕ} (k : List ℕ → Exec QDataStream B)
      → IsText text payload
      → Parses (k text) cs b
      → Parses (read_qstring >>= k) (sized payload ++ cs) b
  text_first {text} {payload} k t p =
      bind-Parses read_qstring k (sized payload) cs text b
        (read_qstring-Parses text payload t.points t.encoded t.short) p

flag-IsInt32 : (b : Bool) → IsInt32 (if b then pos 1 else pos 0)
flag-IsInt32 true = (omega arith, omega arith)
flag-IsInt32 false = (omega arith, omega arith)

flag_back : (b : Bool) → ((if b then pos 1 else pos 0) ==ℤ pos 1) ≡ b
flag_back true = refl
flag_back false = refl

read_flag-Parses : (b : Bool) → Parses read_flag (flag_bytes b) b
read_flag-Parses b = rw (flag_back b) at (
    map-Parses read_int32 (λ v. v ==ℤ pos 1) _ _
      (read_int32-Parses (if b then pos 1 else pos 0) (flag-IsInt32 b)))

flag_first :
    {B : Type 0} {b : B} {cs : List ℕ} {v : Bool} (k : Bool → Exec QDataStream B)
    → Parses (k v) cs b
    → Parses (read_flag >>= k) (flag_bytes v ++ cs) b
flag_first {B} {b} {cs} {v} k p =
    bind-Parses read_flag k (flag_bytes v) cs v b (read_flag-Parses v) p

pub read_fields-Parses :
    (f : ConfigFields) (domain txt : List ℕ)
    → AreStorable f domain txt
    → Parses read_fields (fields_bytes domain txt f) f
unfolding read_fields
read_fields-Parses f domain txt h = int_first _ h.chat_size_max (
    int_first _ h.megagroup_size_max (
      int_first _ h.forwarded_count_max (
        int_first _ h.online_update_period (
          int_first _ h.offline_blur_timeout (
            int_first _ h.offline_idle_timeout (
              int_first _ h.online_focus_timeout (
                int_first _ h.online_cloud_timeout (
                  int_first _ h.notify_cloud_delay (
                    int_first _ h.notify_default_delay (
                      int_first _ h.saved_gifs_limit (
                        int_first _ h.edit_time_limit (
                          int_first _ h.revoke_time_limit (
                            int_first _ h.revoke_private_time_limit (
                              flag_first _ (
                                int_first _ h.stickers_recent_limit (
                                  int_first _ h.stickers_faved_limit (
                                    int_first _ h.pinned_dialogs_count_max (
                                      int_first _ h.pinned_dialogs_in_folder_max (
                                        text_first _ h.internal_links_domain (
                                          int_first _ h.channels_read_media_period (
                                            int_first _ h.call_receive_timeout_ms (
                                              int_first _ h.call_ring_timeout_ms (
                                                int_first _ h.call_connect_timeout_ms (
                                                  int_first _ h.call_packet_timeout_ms (
                                                    int_first _ h.web_file_dc_id (
                                                      text_first _ h.txt_domain_string (
                                                        flag_first _ (
                                                          flag_first _ (
                                                            bind-Parses_last _ _ _ _ _
                                                            (read_int32-Parses f.caption_length_max
                                                            h.caption_length_max)
                                                            (pure-Parses
                                                            f))))))))))))))))))))))))))))))

-- The environment of a mode
abbrev pub mode_environment : Bool → Environment
mode_environment test_mode = if test_mode then test else production

environment_of-Parses :
    (t : Bool) → Parses (environment_of (environment_number t)) [] (mode_environment t)
environment_of-Parses true = pure-Parses test
environment_of-Parses false = pure-Parses production

pub read_config-Parses :
    (t : Bool) (f : ConfigFields) (options domain txt : List ℕ)
    → AreStorable f domain txt
    → length options < null_marker
    → Parses read_config
        (config_bytes t options domain txt f)
        (mode_environment t, (of_bytes options, f))
unfolding read_config
read_config-Parses t f options domain txt h short =
    int_first _ (omega arith, omega arith)
      (bind-Parses _ _ [] _ _ _ (pure-Parses tt) (
        int_first _ (flag-IsInt32 t) (
          bind-Parses _ _ [] _ _ _ (environment_of-Parses t) (
            bind-Parses _ _ _ _ _ _ (read_qbytearray-Parses (of_bytes options) short) (
              bind-Parses_last _ _ _ _ _ (read_fields-Parses f domain txt h)
                (bind-Parses_last _ _ [] _ _ expect_stream_status-Parses (pure-Parses _)))))))

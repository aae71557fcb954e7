-- ===== src/Mtp/Config/Layout.antt =====
-- The bytes of a configuration: `Config.Serialize` writes them, and `Config.FromSerialized` reads
-- them.
use opentele.Prelude.{ℕ, ◌^◌, ◌<◌, ◌≡◌, Bool, some, List, ◌++◌, arith, length, All, if◌then◌else◌}
use opentele.Prelude.Int.{ℤ, pos}
use opentele.Exception.{ok}
use opentele.Exec.{Exec, ◌>>◌}
use opentele.Qt.ByteArray.{of_bytes}
use opentele.Qt.DataStream.{QDataStream}
use opentele.Qt.Primitive.{write_int32}
use opentele.Qt.Blob.{null_marker}
use opentele.Qt.Text.{write_qstring}
use opentele.Qt.Utf16.{encode, IsCodePoint}
use opentele.Qt.Session.{Writes, Begins}
use opentele.Qt.Session.Rules.{bind-Writes, bind-Begins, Begins-Writes}
use opentele.Qt.Session.Values.{IsInt32, write_int32-Begins}
use opentele.Qt.Session.Blobs.{qbytearray_bytes, write_qbytearray-Begins}
use opentele.Qt.Session.Texts.{sized, write_qstring-Begins}
use opentele.Account.Layout.{int32_bytes}
use opentele.Mtp.{is_test_mode}
use opentele.Mtp.Config.{ConfigFields, Config, k_version}
use opentele.Mtp.Config.Write.{write_fields, write_config, environment_number}

abbrev pub flag_bytes : Bool → List ℕ
flag_bytes b = int32_bytes (if b then pos 1 else pos 0)

-- A text that a stream holds, with its encoding.
pub record IsText (text payload : List ℕ) : Type 0 where
  pub points : All IsCodePoint text
  pub encoded : encode text ≡ ok payload
  pub short : length payload < null_marker

-- The bytes of the fields, with the encodings of the two texts.
abbrev pub fields_bytes : List ℕ → List ℕ → ConfigFields → List ℕ
fields_bytes domain txt f =
    int32_bytes f.chat_size_max
    ++ (int32_bytes f.megagroup_size_max
        ++ (int32_bytes f.forwarded_count_max
            ++ (int32_bytes f.online_update_period
                ++ (int32_bytes f.offline_blur_timeout
                    ++ (int32_bytes f.offline_idle_timeout
                        ++ (int32_bytes f.online_focus_timeout
                            ++ (int32_bytes f.online_cloud_timeout
                                ++ (int32_bytes f.notify_cloud_delay
                                    ++ (int32_bytes f.notify_default_delay
                                        ++ (int32_bytes f.saved_gifs_limit
                                            ++ (int32_bytes f.edit_time_limit
                                                ++ (int32_bytes f.revoke_time_limit
                                                    ++ (int32_bytes f.revoke_private_time_limit
                                                        ++ (flag_bytes f.revoke_private_inbox
                                                            ++ (int32_bytes f.stickers_recent_limit
                                                            ++ (int32_bytes f.stickers_faved_limit
                                                            ++ (int32_bytes
                                                            f.pinned_dialogs_count_max
                                                            ++ (int32_bytes
                                                            f.pinned_dialogs_in_folder_max
                                                            ++ (sized domain
                                                            ++ (int32_bytes
                                                            f.channels_read_media_period
                                                            ++ (int32_bytes
                                                            f.call_receive_timeout_ms
                                                            ++ (int32_bytes f.call_ring_timeout_ms
                                                            ++ (int32_bytes
                                                            f.call_connect_timeout_ms
                                                            ++ (int32_bytes f.call_packet_timeout_ms
                                                            ++ (int32_bytes f.web_file_dc_id
                                                            ++ (sized txt
                                                            ++ (flag_bytes f.phone_calls_enabled
                                                            ++ (flag_bytes f.blocked_mode
                                                            ++ (int32_bytes
                                                            f.caption_length_max)))))))))))))))))))))))))))))

-- Fields that a stream holds.
pub record AreStorable (f : ConfigFields) (domain txt : List ℕ) : Type 0 where
  pub chat_size_max : IsInt32 f.chat_size_max
  pub megagroup_size_max : IsInt32 f.megagroup_size_max
  pub forwarded_count_max : IsInt32 f.forwarded_count_max
  pub online_update_period : IsInt32 f.online_update_period
  pub offline_blur_timeout : IsInt32 f.offline_blur_timeout
  pub offline_idle_timeout : IsInt32 f.offline_idle_timeout
  pub online_focus_timeout : IsInt32 f.online_focus_timeout
  pub online_cloud_timeout : IsInt32 f.online_cloud_timeout
  pub notify_cloud_delay : IsInt32 f.notify_cloud_delay
  pub notify_default_delay : IsInt32 f.notify_default_delay
  pub saved_gifs_limit : IsInt32 f.saved_gifs_limit
  pub edit_time_limit : IsInt32 f.edit_time_limit
  pub revoke_time_limit : IsInt32 f.revoke_time_limit
  pub revoke_private_time_limit : IsInt32 f.revoke_private_time_limit
  pub stickers_recent_limit : IsInt32 f.stickers_recent_limit
  pub stickers_faved_limit : IsInt32 f.stickers_faved_limit
  pub pinned_dialogs_count_max : IsInt32 f.pinned_dialogs_count_max
  pub pinned_dialogs_in_folder_max : IsInt32 f.pinned_dialogs_in_folder_max
  pub internal_links_domain : IsText f.internal_links_domain domain
  pub channels_read_media_period : IsInt32 f.channels_read_media_period
  pub call_receive_timeout_ms : IsInt32 f.call_receive_timeout_ms
  pub call_ring_timeout_ms : IsInt32 f.call_ring_timeout_ms
  pub call_connect_timeout_ms : IsInt32 f.call_connect_timeout_ms
  pub call_packet_timeout_ms : IsInt32 f.call_packet_timeout_ms
  pub web_file_dc_id : IsInt32 f.web_file_dc_id
  pub txt_domain_string : IsText f.txt_domain_string txt
  pub caption_length_max : IsInt32 f.caption_length_max

module _ {k : Exec QDataStream Unit} {cs : List ℕ} where
  int_then : (v : ℤ) → Writes k cs → Writes (write_int32 v >> k) (int32_bytes v ++ cs)
  int_then v h = bind-Writes _ _ _ _ (Begins-Writes _ _ (write_int32-Begins v)) h

  text_then :
      {text payload : List ℕ}
      → IsText text payload
      → Writes k cs
      → Writes (write_qstring (some text) >> k) (sized payload ++ cs)
  text_then t h =
      bind-Writes _ _ _ _
        (Begins-Writes _ _ (write_qstring-Begins _ _ t.encoded (omega (arith, t.short)))) h

pub write_fields-Writes :
    (f : ConfigFields) (domain txt : List ℕ)
    → AreStorable f domain txt
    → Writes (write_fields f) (fields_bytes domain txt f)
unfolding write_fields
write_fields-Writes f domain txt h = int_then f.chat_size_max (
    int_then f.megagroup_size_max (
      int_then f.forwarded_count_max (
        int_then f.online_update_period (
          int_then f.offline_blur_timeout (
            int_then f.offline_idle_timeout (
              int_then f.online_focus_timeout (
                int_then f.online_cloud_timeout (
                  int_then f.notify_cloud_delay (
                    int_then f.notify_default_delay (
                      int_then f.saved_gifs_limit (
                        int_then f.edit_time_limit (
                          int_then f.revoke_time_limit (
                            int_then f.revoke_private_time_limit (
                              int_then _ (
                                int_then f.stickers_recent_limit (
                                  int_then f.stickers_faved_limit (
                                    int_then f.pinned_dialogs_count_max (
                                      int_then f.pinned_dialogs_in_folder_max (
                                        text_then h.internal_links_domain (
                                          int_then f.channels_read_media_period (
                                            int_then f.call_receive_timeout_ms (
                                              int_then f.call_ring_timeout_ms (
                                                int_then f.call_connect_timeout_ms (
                                                  int_then f.call_packet_timeout_ms (
                                                    int_then f.web_file_dc_id (
                                                      text_then h.txt_domain_string (
                                                        int_then _ (
                                                          int_then _ (
                                                            Begins-Writes _ _ (
                                                            write_int32-Begins
                                                            f.caption_length_max))))))))))))))))))))))))))))))

abbrev pub config_bytes : Bool → List ℕ → List ℕ → List ℕ → ConfigFields → List ℕ
config_bytes test_mode options domain txt f =
    int32_bytes k_version
    ++ (int32_bytes (environment_number test_mode)
        ++ (qbytearray_bytes (of_bytes options) ++ fields_bytes domain txt f))

pub write_config-Begins :
    (c : Config) (options domain txt : List ℕ)
    → AreStorable c.fields domain txt
    → length options < 2 ^ 32
    → Begins
        (write_config c (of_bytes options))
        (config_bytes (is_test_mode c.dc_options) options domain txt c.fields)
unfolding write_config
write_config-Begins c options domain txt h fits =
    bind-Begins _ _ _ _ (write_int32-Begins k_version) (
      bind-Writes _ _ _ _
        (Begins-Writes _ _ (write_int32-Begins (environment_number (is_test_mode c.dc_options))))
        (bind-Writes _ _ _ _ (Begins-Writes _ _ (write_qbytearray-Begins (of_bytes options) fits))
          (write_fields-Writes c.fields domain txt h)))

-- ===== src/Mtp/Config/Write.antt =====
-- `MTP.Config.Serialize` of src/td/mtp.py.
use opentele.Prelude.{Bool, some, if◌then◌else◌}
use opentele.Prelude.Int.{ℤ, pos}
use opentele.Exception.{Result, ok, err}
use opentele.Exec.{Exec, ◌>>◌}
use opentele.Qt.ByteArray
use opentele.Qt.ByteArray.{QByteArray}
use opentele.Qt.Buffer.{write_only}
use opentele.Qt.DataStream.{QDataStream, of_qbytearray}
use opentele.Qt.Primitive.{write_int32}
use opentele.Qt.Blob.{write_qbytearray}
use opentele.Qt.Text.{write_qstring}
use opentele.Account.{result_of}
use opentele.Mtp.{DcOptions, is_test_mode}
use opentele.Mtp.Options.{write_options}
use opentele.Mtp.Config.{ConfigFields, Config, k_version}

-- `1 if b else 0`
abbrev pub write_flag : Bool → Exec QDataStream Unit
write_flag b = write_int32 (if b then pos 1 else pos 0)

-- The fields, as `Config.Serialize` writes them
unfoldable pub write_fields : ConfigFields → Exec QDataStream Unit
write_fields f = do
  write_int32 f.chat_size_max
  write_int32 f.megagroup_size_max
  write_int32 f.forwarded_count_max
  write_int32 f.online_update_period
  write_int32 f.offline_blur_timeout
  write_int32 f.offline_idle_timeout
  write_int32 f.online_focus_timeout
  write_int32 f.online_cloud_timeout
  write_int32 f.notify_cloud_delay
  write_int32 f.notify_default_delay
  write_int32 f.saved_gifs_limit
  write_int32 f.edit_time_limit
  write_int32 f.revoke_time_limit
  write_int32 f.revoke_private_time_limit
  write_flag f.revoke_private_inbox
  write_int32 f.stickers_recent_limit
  write_int32 f.stickers_faved_limit
  write_int32 f.pinned_dialogs_count_max
  write_int32 f.pinned_dialogs_in_folder_max
  write_qstring (some f.internal_links_domain)
  write_int32 f.channels_read_media_period
  write_int32 f.call_receive_timeout_ms
  write_int32 f.call_ring_timeout_ms
  write_int32 f.call_connect_timeout_ms
  write_int32 f.call_packet_timeout_ms
  write_int32 f.web_file_dc_id
  write_qstring (some f.txt_domain_string)
  write_flag f.phone_calls_enabled
  write_flag f.blocked_mode
  write_int32 f.caption_length_max

-- The number of an environment
abbrev pub environment_number : Bool → ℤ
environment_number test_mode = if test_mode then pos 1 else pos 0

-- The part of `Config.Serialize` behind the options
unfoldable pub write_config : Config → QByteArray → Exec QDataStream Unit
unfolding write_fields
write_config c options = do
  write_int32 k_version
  write_int32 (environment_number (is_test_mode c.dc_options))
  write_qbytearray options
  write_fields c.fields

-- `Serialize` of the options, and of the configuration
abbrev pub written_by : Exec QDataStream Unit → Result QByteArray
written_by m = result_of (m (of_qbytearray ByteArray.empty write_only))

abbrev pub serialized_with : Config → Result QByteArray → Result QByteArray
serialized_with c (ok options) = written_by (write_config c options)
serialized_with c (err x) = err x

unfoldable pub serialize_options : DcOptions → Result QByteArray
unfolding write_options
serialize_options o = written_by (write_options o)

unfoldable pub serialize : Config → Result QByteArray
unfolding serialize_options write_config
serialize c = serialized_with c (serialize_options c.dc_options)

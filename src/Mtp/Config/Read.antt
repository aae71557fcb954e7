-- ===== src/Mtp/Config/Read.antt =====
-- `MTP.Config.FromSerialized` of src/td/mtp.py.
use opentele.Prelude.{Bool, if◌then◌else◌}
use opentele.Prelude.Int.{ℤ, pos, ◌==ℤ◌}
use opentele.Exception.{Result, ok, err, open_tele_exception, value_error}
use opentele.Exec.{Exec, pure, raise, ◌>>=◌, ◌>>◌}
use opentele.Qt.ByteArray.{QByteArray}
use opentele.Qt.DataStream.{QDataStream, reading}
use opentele.Qt.Primitive.{read_int32}
use opentele.Qt.Blob.{read_qbytearray}
use opentele.Qt.Text.{read_qstring}
use opentele.MapData.Read.{expect_stream_status}
use opentele.Mtp.{Environment, production, test, DcOptions}
use opentele.Mtp.Options.{construct_from_serialized}
use opentele.Mtp.Config.{ConfigFields, Config, new_config, k_version}

-- `read(field)` for a Boolean field
abbrev pub read_flag : Exec QDataStream Bool
read_flag = do v ← read_int32; pure (v ==ℤ pos 1)

-- The fields, as `Config.FromSerialized` reads them: none keeps its first value.
unfoldable pub read_fields : Exec QDataStream ConfigFields
read_fields = do
  chat_size_max ← read_int32
  megagroup_size_max ← read_int32
  forwarded_count_max ← read_int32
  online_update_period ← read_int32
  offline_blur_timeout ← read_int32
  offline_idle_timeout ← read_int32
  online_focus_timeout ← read_int32
  online_cloud_timeout ← read_int32
  notify_cloud_delay ← read_int32
  notify_default_delay ← read_int32
  saved_gifs_limit ← read_int32
  edit_time_limit ← read_int32
  revoke_time_limit ← read_int32
  revoke_private_time_limit ← read_int32
  revoke_private_inbox ← read_flag
  stickers_recent_limit ← read_int32
  stickers_faved_limit ← read_int32
  pinned_dialogs_count_max ← read_int32
  pinned_dialogs_in_folder_max ← read_int32
  internal_links_domain ← read_qstring
  channels_read_media_period ← read_int32
  call_receive_timeout_ms ← read_int32
  call_ring_timeout_ms ← read_int32
  call_connect_timeout_ms ← read_int32
  call_packet_timeout_ms ← read_int32
  web_file_dc_id ← read_int32
  txt_domain_string ← read_qstring
  phone_calls_enabled ← read_flag
  blocked_mode ← read_flag
  caption_length_max ← read_int32
  pure (record {
    chat_size_max = chat_size_max;
    megagroup_size_max = megagroup_size_max;
    forwarded_count_max = forwarded_count_max;
    online_update_period = online_update_period;
    offline_blur_timeout = offline_blur_timeout;
    offline_idle_timeout = offline_idle_timeout;
    online_focus_timeout = online_focus_timeout;
    online_cloud_timeout = online_cloud_timeout;
    notify_cloud_delay = notify_cloud_delay;
    notify_default_delay = notify_default_delay;
    saved_gifs_limit = saved_gifs_limit;
    edit_time_limit = edit_time_limit;
    revoke_time_limit = revoke_time_limit;
    revoke_private_time_limit = revoke_private_time_limit;
    revoke_private_inbox = revoke_private_inbox;
    stickers_recent_limit = stickers_recent_limit;
    stickers_faved_limit = stickers_faved_limit;
    pinned_dialogs_count_max = pinned_dialogs_count_max;
    pinned_dialogs_in_folder_max = pinned_dialogs_in_folder_max;
    internal_links_domain = internal_links_domain;
    channels_read_media_period = channels_read_media_period;
    call_receive_timeout_ms = call_receive_timeout_ms;
    call_ring_timeout_ms = call_ring_timeout_ms;
    call_connect_timeout_ms = call_connect_timeout_ms;
    call_packet_timeout_ms = call_packet_timeout_ms;
    web_file_dc_id = web_file_dc_id;
    txt_domain_string = txt_domain_string;
    phone_calls_enabled = phone_calls_enabled;
    blocked_mode = blocked_mode;
    caption_length_max = caption_length_max;
  })

-- `Expects(version == kVersion, ...)`
abbrev pub expects_version : ℤ → Exec QDataStream Unit
expects_version version = if version ==ℤ k_version then pure tt else raise open_tele_exception

-- `MTP.Environment(number)`
abbrev pub environment_of : ℤ → Exec QDataStream Environment
environment_of number =
    if number ==ℤ pos 0
    then pure production
    else if number ==ℤ pos 1
    then pure test
    else raise value_error

-- The part of `Config.FromSerialized` that reads the stream
unfoldable pub read_config : Exec QDataStream (Environment × (QByteArray × ConfigFields))
unfolding read_fields
read_config = do
  version ← read_int32
  expects_version version
  number ← read_int32
  enviroment ← environment_of number
  dc_options_serialized ← read_qbytearray
  fields ← read_fields
  expect_stream_status
  pure (enviroment, (dc_options_serialized, fields))

abbrev pub with_options : ConfigFields → Result (Unit {0}) × DcOptions → Result Config
with_options fields (ok u, o) = ok (record { dc_options = o; fields = fields })
with_options fields (err x, o) = err x

abbrev pub with_read :
    Result (Environment × (QByteArray × ConfigFields)) × QDataStream → Result Config
with_read (ok (e, (options, fields)), s) =
    with_options fields (construct_from_serialized options (new_config e).dc_options)
with_read (err x, s) = err x

-- `Config.FromSerialized`
unfoldable pub from_serialized : QByteArray → Result Config
unfolding read_config
from_serialized serialized = with_read (read_config (reading serialized))

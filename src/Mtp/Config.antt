-- ===== src/Mtp/Config.antt =====
-- `MTP.ConfigFields` and `MTP.Config` of src/td/mtp.py.
pub mod Endpoints
pub mod Write
pub mod Read
pub mod Layout
pub mod Reads
pub mod Reload
pub mod Refusal
use opentele.Prelude.{ℕ, ◌*◌, Bool, true, false, some, List, [], ◌∷◌, if◌then◌else◌}
use opentele.Prelude.Int.{ℤ, pos, ◌==ℤ◌}
use opentele.Prelude.Codes.{codes}
use opentele.Exception.{Exception, Result, ok, err, open_tele_exception, value_error}
use opentele.Exec.{Exec, pure, raise, ◌>>=◌, ◌>>◌}
use opentele.Qt.ByteArray
use opentele.Qt.ByteArray.{QByteArray}
use opentele.Qt.Buffer.{write_only}
use opentele.Qt.DataStream.{QDataStream, of_qbytearray, reading}
use opentele.Qt.Primitive.{read_int32, write_int32}
use opentele.Qt.Blob.{read_qbytearray, write_qbytearray}
use opentele.Qt.Text.{read_qstring, write_qstring}
use opentele.MapData.Read.{expect_stream_status}
use opentele.Account.{result_of}
use opentele.Mtp.{Environment, production, test, DcOptions, is_test_mode, new_options}
use opentele.Mtp.Options.{write_options, construct_from_serialized}

pub record ConfigFields : Type 0 where
  pub chat_size_max : ℤ
  pub megagroup_size_max : ℤ
  pub forwarded_count_max : ℤ
  pub online_update_period : ℤ
  pub offline_blur_timeout : ℤ
  pub offline_idle_timeout : ℤ
  pub online_focus_timeout : ℤ
  pub online_cloud_timeout : ℤ
  pub notify_cloud_delay : ℤ
  pub notify_default_delay : ℤ
  pub saved_gifs_limit : ℤ
  pub edit_time_limit : ℤ
  pub revoke_time_limit : ℤ
  pub revoke_private_time_limit : ℤ
  pub revoke_private_inbox : Bool
  pub stickers_recent_limit : ℤ
  pub stickers_faved_limit : ℤ
  pub pinned_dialogs_count_max : ℤ
  pub pinned_dialogs_in_folder_max : ℤ
  pub internal_links_domain : List ℕ
  pub channels_read_media_period : ℤ
  pub call_receive_timeout_ms : ℤ
  pub call_ring_timeout_ms : ℤ
  pub call_connect_timeout_ms : ℤ
  pub call_packet_timeout_ms : ℤ
  pub web_file_dc_id : ℤ
  pub txt_domain_string : List ℕ
  pub phone_calls_enabled : Bool
  pub blocked_mode : Bool
  pub caption_length_max : ℤ

-- `ConfigFields()`
abbrev pub initial_fields : ConfigFields
initial_fields = record {
  chat_size_max = pos 200;
  megagroup_size_max = pos 10000;
  forwarded_count_max = pos 100;
  online_update_period = pos 120000;
  offline_blur_timeout = pos 5000;
  offline_idle_timeout = pos 30000;
  online_focus_timeout = pos 1000;
  online_cloud_timeout = pos 300000;
  notify_cloud_delay = pos 30000;
  notify_default_delay = pos 1500;
  saved_gifs_limit = pos 200;
  edit_time_limit = pos 172800;
  revoke_time_limit = pos 172800;
  revoke_private_time_limit = pos 172800;
  revoke_private_inbox = false;
  stickers_recent_limit = pos 30;
  stickers_faved_limit = pos 5;
  pinned_dialogs_count_max = pos 5;
  pinned_dialogs_in_folder_max = pos 100;
  internal_links_domain = codes "https://t.me/";
  channels_read_media_period = pos (86400 * 7);
  call_receive_timeout_ms = pos 20000;
  call_ring_timeout_ms = pos 90000;
  call_connect_timeout_ms = pos 30000;
  call_packet_timeout_ms = pos 10000;
  web_file_dc_id = pos 4;
  txt_domain_string = [];
  phone_calls_enabled = true;
  blocked_mode = false;
  caption_length_max = pos 1024;
}

pub record Config : Type 0 where
  pub dc_options : DcOptions
  pub fields : ConfigFields

-- The fields whose first value depends on the mode
abbrev pub mode_fields : Bool → ConfigFields
mode_fields test_mode = record initial_fields {
  web_file_dc_id = if test_mode then pos 2 else pos 4;
  txt_domain_string = if test_mode then codes "tapv3.stel.com" else codes "apv3.stel.com";
}

-- `Config(enviroment)`
unfoldable pub new_config : Environment → Config
unfolding is_test_mode
new_config e =
    let o = new_options e in record { dc_options = o; fields = mode_fields (is_test_mode o) }

-- `Config.kVersion`
abbrev pub k_version : ℤ
k_version = pos 1

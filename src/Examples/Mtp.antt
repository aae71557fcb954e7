-- ===== src/Examples/Mtp.antt =====
-- The theorems about src/td/mtp.py at concrete inputs.
use opentele.Prelude.{ℕ, ◌<◌, ◌≡◌, refl, false, List, [], ◌∷◌, All, length, arith}
use opentele.Prelude.Int.{pos, negsuc, mask}
use opentele.Prelude.Codes.{codes}
use opentele.Exception.{ok, err, t_data_bad_config_data, ◌>>=◌}
use opentele.Bytes.{big_endian}
use opentele.Qt.ByteArray.{of_bytes}
use opentele.Qt.Utf16.{encode, encode_char, is_high, is_low}
use opentele.Mtp.{
  Endpoint, production, test, new_options, construct_from_built_in, add_to_data, apply_one_guarded,
  append_endpoint, is_test_mode,
}
use opentele.Mtp.Options.{is_ascii}
use opentele.Mtp.Layout.{listed}
use opentele.Mtp.Keyed.{IsKeyed, add_one, add_built_in, load, used_all, used_all-new_options}
use opentele.Mtp.Stored.{
  IsStored, stored_options, with_endpoints, construct_from_serialized-stored_options,
}
use opentele.Mtp.Options.{construct_from_serialized}
use opentele.Qt.Blob.{null_marker}
use opentele.Mtp.Config.{Config, new_config, mode_fields}
use opentele.Mtp.Config.Write.{serialize}
use opentele.Mtp.Config.Read.{from_serialized}
use opentele.Mtp.Config.Layout.{AreStorable, IsText}
use opentele.Mtp.Config.Endpoints.{endpoints, by_flags, lookup_centre, endpoints-by_flags}
use opentele.Mtp.Config.Reload.{emptied, from_serialized-serialize-emptied}
use opentele.Mtp.Config.Refusal.{from_serialized-serialize_refused}

used_all-new_options_example :
    IsKeyed
      (used_all
        (load (of_bytes (0 ∷ []))
          ∷ add_one (pos 10002) (pos 0) (codes "127.0.0.1") (pos 80) []
          ∷ add_built_in
          ∷ [])
        (new_options test)).centres
used_all-new_options_example = used_all-new_options test (
    load (of_bytes (0 ∷ []))
    ∷ add_one (pos 10002) (pos 0) (codes "127.0.0.1") (pos 80) []
    ∷ add_built_in
    ∷ [])

abbrev sample_endpoint : Endpoint
sample_endpoint = record {
  id = pos 4;
  flags = pos 17;
  ip = codes "2001:067c";
  port = pos 443;
  secret = [];
}

abbrev sample_second : Endpoint
sample_second = record sample_endpoint { flags = pos 4; ip = codes "149.154.167.91" }

abbrev sample_config : Config
sample_config = record {
  dc_options = record {
    enviroment = production;
    centres = (pos 4, sample_endpoint ∷ sample_second ∷ []) ∷ [];
  };
  fields = mode_fields false;
}

endpoints-by_flags_example :
    endpoints sample_config (pos 4) ≡ ok (by_flags (sample_endpoint ∷ sample_second ∷ []))
endpoints-by_flags_example =
    endpoints-by_flags sample_config (pos 4) (sample_endpoint ∷ sample_second ∷ [])
      (((refl, refl), ((refl, refl), tt)), tt, tt) (unfold lookup_centre in refl)

abbrev encoded : List ℕ → List ℕ
encoded [] = []
encoded (c ∷ s) = 0 ∷ c ∷ encoded s

sample_domain : IsText (codes "https://t.me/") (encoded (codes "https://t.me/"))
unfolding encode encode_char is_high is_low big_endian
sample_domain = record {
  points = (
    omega arith,
    (
      omega arith,
      (
        omega arith,
        (
          omega arith,
          (
            omega arith,
            (
              omega arith,
              (
                omega arith,
                (
                  omega arith,
                  (omega arith, (omega arith, (omega arith, (omega arith, (omega arith, tt))))),
                ),
              ),
            ),
          ),
        ),
      ),
    ),
  );
  encoded = refl;
  short = omega arith;
}

sample_txt : IsText (codes "apv3.stel.com") (encoded (codes "apv3.stel.com"))
unfolding encode encode_char is_high is_low big_endian
sample_txt = record {
  points = (
    omega arith,
    (
      omega arith,
      (
        omega arith,
        (
          omega arith,
          (
            omega arith,
            (
              omega arith,
              (
                omega arith,
                (
                  omega arith,
                  (omega arith, (omega arith, (omega arith, (omega arith, (omega arith, tt))))),
                ),
              ),
            ),
          ),
        ),
      ),
    ),
  );
  encoded = refl;
  short = omega arith;
}

abbrev pub domain_bytes : List ℕ
domain_bytes = encoded (codes "https://t.me/")

abbrev pub txt_bytes : List ℕ
txt_bytes = encoded (codes "apv3.stel.com")

pub sample_fields : AreStorable (mode_fields false) domain_bytes txt_bytes
sample_fields = record {
  chat_size_max = (omega arith, omega arith);
  megagroup_size_max = (omega arith, omega arith);
  forwarded_count_max = (omega arith, omega arith);
  online_update_period = (omega arith, omega arith);
  offline_blur_timeout = (omega arith, omega arith);
  offline_idle_timeout = (omega arith, omega arith);
  online_focus_timeout = (omega arith, omega arith);
  online_cloud_timeout = (omega arith, omega arith);
  notify_cloud_delay = (omega arith, omega arith);
  notify_default_delay = (omega arith, omega arith);
  saved_gifs_limit = (omega arith, omega arith);
  edit_time_limit = (omega arith, omega arith);
  revoke_time_limit = (omega arith, omega arith);
  revoke_private_time_limit = (omega arith, omega arith);
  stickers_recent_limit = (omega arith, omega arith);
  stickers_faved_limit = (omega arith, omega arith);
  pinned_dialogs_count_max = (omega arith, omega arith);
  pinned_dialogs_in_folder_max = (omega arith, omega arith);
  internal_links_domain = sample_domain;
  channels_read_media_period = (omega arith, omega arith);
  call_receive_timeout_ms = (omega arith, omega arith);
  call_ring_timeout_ms = (omega arith, omega arith);
  call_connect_timeout_ms = (omega arith, omega arith);
  call_packet_timeout_ms = (omega arith, omega arith);
  web_file_dc_id = (omega arith, omega arith);
  txt_domain_string = sample_txt;
  caption_length_max = (omega arith, omega arith);
}

-- The configuration without its endpoints
abbrev pub sample_emptied : Config
sample_emptied = record sample_config { dc_options = emptied sample_config.dc_options }

from_serialized-serialize-emptied_example :
    (serialize sample_emptied >>= from_serialized) ≡ ok sample_emptied
from_serialized-serialize-emptied_example =
    from_serialized-serialize-emptied sample_emptied domain_bytes txt_bytes sample_fields
      (unfold listed in refl)

-- The configuration that a new account starts with
abbrev started : Config
started = new_config production

from_serialized-serialize_refused_example :
    (serialize started >>= from_serialized) ≡ err t_data_bad_config_data
unfolding new_config new_options listed construct_from_built_in add_to_data is_test_mode
    apply_one_guarded append_endpoint is_ascii big_endian mask
from_serialized-serialize_refused_example =
    from_serialized-serialize_refused started domain_bytes txt_bytes
      (record {
        id = pos 1;
        flags = pos 16;
        ip = codes "149.154.175.50";
        port = pos 443;
        secret = [];
      })
      _ sample_fields refl
      (record {
        id = (omega arith, omega arith);
        flags = (omega arith, omega arith);
        short = omega arith;
        b0 = 49;
        b1 = 52;
        b2 = 57;
        b3 = 46;
        others = codes "154.175.50";
        ip = refl;
        first = omega arith;
      })
      ((refl, (refl, (refl, (refl, (refl, (refl, (refl, (refl, (refl, (refl, (refl, tt))))))))))))
      (omega arith) (omega arith)

-- Two endpoints of one data centre and, between them, one with a secret
abbrev pub stored_endpoints : List Endpoint
stored_endpoints =
    record { id = pos 2; flags = pos 16; ip = codes "149.154.167.51"; port = pos 443; secret = [] }
    ∷ record {
      id = pos 10004;
      flags = negsuc 0;
      ip = codes "127.0.0.1";
      port = pos 80;
      secret = 1 ∷ 2 ∷ [];
    }
    ∷ record { id = pos 2; flags = pos 17; ip = codes "2001:67c::a"; port = pos 443; secret = [] }
    ∷ []

pub stored_endpoints-IsStored : All IsStored stored_endpoints
unfolding is_ascii
stored_endpoints-IsStored = (
  record {
    id = (omega arith, omega arith);
    flags = (omega arith, omega arith);
    port = (omega arith, omega arith);
    ip_there = omega arith;
    ip_short = omega arith;
    ip_ascii = refl;
    secret_short = omega arith;
  },
  (
    record {
      id = (omega arith, omega arith);
      flags = (omega arith, omega arith);
      port = (omega arith, omega arith);
      ip_there = omega arith;
      ip_short = omega arith;
      ip_ascii = refl;
      secret_short = omega arith;
    },
    (
      record {
        id = (omega arith, omega arith);
        flags = (omega arith, omega arith);
        port = (omega arith, omega arith);
        ip_there = omega arith;
        ip_short = omega arith;
        ip_ascii = refl;
        secret_short = omega arith;
      },
      tt,
    ),
  ),
)

pub stored_endpoints-short : length (stored_options stored_endpoints) < null_marker
unfolding big_endian
stored_endpoints-short = omega arith

construct_from_serialized-stored_options_example :
    construct_from_serialized (of_bytes (stored_options stored_endpoints)) (new_options test)
    ≡ (ok tt, record (new_options test) { centres = with_endpoints stored_endpoints [] })
construct_from_serialized-stored_options_example =
    construct_from_serialized-stored_options stored_endpoints (new_options test)
      stored_endpoints-IsStored (omega arith)

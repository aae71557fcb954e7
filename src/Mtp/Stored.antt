-- ===== src/Mtp/Stored.antt =====
-- The serialized form of data centres that `DcOptions.constructFromSerialized` of src/td/mtp.py
-- reads: the one with a version and with ports.
use opentele.Prelude.{
  ℕ, suc, ◌^◌, ◌≤◌, ◌<◌, ◌≡◌, refl, sym, ap, ◌∙◌, Bool, true, false, List, [], ◌∷◌, ◌++◌, All,
  length, arith, append_assoc,
}
use opentele.Prelude.Int.{ℤ, pos, negsuc}
use opentele.Exception.{ok}
use opentele.Qt.ByteArray.{of_bytes}
use opentele.Qt.Buffer.{read_only}
use opentele.Qt.Session.{Parses, Frame, reader, frame}
use opentele.Qt.Session.Rules.{pure-Parses, bind-Parses, bind-Parses_last, lift-bind, concat_map}
use opentele.Qt.Session.Values.{IsInt32, read_int32-Parses}
use opentele.Qt.Session.Blobs.{read_raw_data-Parses}
use opentele.MapData.Sections.{expect_stream_status-Parses}
use opentele.Account.Layout.{int32_bytes}
use opentele.Mtp.{Endpoint, DcOptions, append_endpoint, apply_one_guarded}
use opentele.Mtp.Options.{
  is_ascii, decode_ascii, k_max_ip_size, k_max_secret_size, is_ip_size, is_secret_size,
  expects_config, read_secret_bytes, read_secret, read_endpoint, after_endpoint, read_endpoints,
  read_count, with_count, construct_from_serialized,
}
use opentele.Mtp.Config.Reload.{reading-of_bytes, read_count-Parses}

-- An endpoint, with its port
abbrev pub stored_endpoint : Endpoint → List ℕ
stored_endpoint e =
    int32_bytes e.id
    ++ (int32_bytes e.flags
        ++ (int32_bytes e.port
            ++ (int32_bytes (pos (length e.ip))
                ++ (e.ip ++ (int32_bytes (pos (length e.secret)) ++ e.secret)))))

-- The version, the count and the endpoints
abbrev pub stored_options : List Endpoint → List ℕ
stored_options es =
    int32_bytes (negsuc 1) ++ (int32_bytes (pos (length es)) ++ concat_map stored_endpoint es)

-- An endpoint that `constructFromSerialized` takes.
pub record IsStored (e : Endpoint) : Type 0 where
  pub id : IsInt32 e.id
  pub flags : IsInt32 e.flags
  pub port : IsInt32 e.port
  pub ip_there : 0 < length e.ip
  pub ip_short : length e.ip ≤ k_max_ip_size
  pub ip_ascii : is_ascii e.ip ≡ true
  pub secret_short : length e.secret ≤ k_max_secret_size

-- The endpoints, each behind those of its data centre, and without their secrets.
abbrev pub with_endpoints : List Endpoint → List (ℤ × List Endpoint) → List (ℤ × List Endpoint)
with_endpoints [] centres = centres
with_endpoints (e ∷ es) centres =
    with_endpoints es (append_endpoint e.id (record e { secret = [] }) centres)

small_size : (n : ℕ) → n ≤ 45 → IsInt32 (pos n)
small_size n h = (omega arith, omega arith)

expects_config-Parses : (b : Bool) → b ≡ true → Parses (expects_config b) [] tt
expects_config-Parses b h = rw h (pure-Parses tt)

ip_size-ok : (n : ℕ) → 0 < n → n ≤ k_max_ip_size → is_ip_size (pos n) ≡ true
ip_size-ok n some_there short = ground arith

secret_size-ok : (n : ℕ) → n ≤ k_max_secret_size → is_secret_size (pos n) ≡ true
secret_size-ok n short = ground arith

read_secret_bytes-Parses :
    (secret : List ℕ) → Parses (read_secret_bytes (pos (length secret))) secret secret
read_secret_bytes-Parses [] = pure-Parses []
read_secret_bytes-Parses (b ∷ bs) = read_raw_data-Parses (suc (length bs)) (b ∷ bs) refl

read_secret-Parses :
    (secret : List ℕ)
    → length secret ≤ k_max_secret_size
    → Parses (read_secret true) (int32_bytes (pos (length secret)) ++ secret) secret
unfolding read_secret
read_secret-Parses secret short =
    bind-Parses _ _ _ _ _ _
      (read_int32-Parses (pos (length secret)) (small_size (length secret) (omega arith)))
      (bind-Parses _ _ [] _ _ _ (expects_config-Parses _ (secret_size-ok (length secret) short))
        (read_secret_bytes-Parses secret))

read_endpoint-Parses :
    (e : Endpoint) → IsStored e → Parses (read_endpoint true) (stored_endpoint e) e
unfolding read_endpoint decode_ascii
read_endpoint-Parses e h = bind-Parses _ _ _ _ _ _ (read_int32-Parses e.id h.id) (
    bind-Parses _ _ _ _ _ _ (read_int32-Parses e.flags h.flags) (
      bind-Parses _ _ _ _ _ _ (read_int32-Parses e.port h.port) (
        bind-Parses _ _ _ _ _ _
          (read_int32-Parses (pos (length e.ip)) (small_size (length e.ip) h.ip_short))
          (bind-Parses _ _ [] _ _ _
            (expects_config-Parses _ (ip_size-ok (length e.ip) h.ip_there h.ip_short))
            (bind-Parses _ _ _ _ _ _ (read_raw_data-Parses (length e.ip) e.ip refl) (
              rw (h.ip_ascii, lift-bind)
                (bind-Parses_last _ _ _ _ _ (read_secret-Parses e.secret h.secret_short)
                  (bind-Parses_last _ _ _ _ _ expect_stream_status-Parses (pure-Parses e)))))))))

read_endpoints-stored :
    (es : List Endpoint) (f : Frame) (done : List ℕ) (o : DcOptions)
    → All IsStored es
    → read_endpoints (length es) true (reader f done (concat_map stored_endpoint es)) o
      ≡ (ok tt, record o { centres = with_endpoints es o.centres })
unfolding read_endpoints apply_one_guarded
read_endpoints-stored [] f done o h = refl
read_endpoints-stored (e ∷ es) f done o h =
    ap (λ r. after_endpoint (read_endpoints (length es) true) r o)
      ((read_endpoint-Parses e h.0).at f done (concat_map stored_endpoint es))
    ∙ read_endpoints-stored es f (done ++ stored_endpoint e)
        (record o { centres = append_endpoint e.id (record e { secret = [] }) o.centres }) h.1

-- Fewer than 2 ^ 31 endpoints, each with an id, flags and a port of 32 bits, an ASCII address of 1
-- to 45 characters and a secret of at most 32 bytes, that are serialized behind a version, each
-- with its port, are loaded: options that had others before have exactly these, each appended in
-- order to the list of its data centre, and without its secret.
pub construct_from_serialized-stored_options :
    (es : List Endpoint) (o : DcOptions)
    → All IsStored es
    → length es < 2 ^ 31
    → construct_from_serialized (of_bytes (stored_options es)) o
      ≡ (ok tt, record o { centres = with_endpoints es [] })
unfolding construct_from_serialized
construct_from_serialized-stored_options es o h short =
    let f = frame read_only false in
    let count = int32_bytes (negsuc 1) ++ int32_bytes (pos (length es)) in
    let rest = concat_map stored_endpoint es in
    ap (λ s. with_count (read_count s) o)
      (reading-of_bytes _
        ∙ ap (λ t. reader f [] t)
            (sym (append_assoc (int32_bytes (negsuc 1)) (int32_bytes (pos (length es))) rest)))
    ∙ ap (λ r. with_count r o) ((read_count-Parses (length es) short).at f [] rest)
    ∙ read_endpoints-stored es f count (record o { centres = [] }) h

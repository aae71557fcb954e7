-- ===== src/Mtp/Config/Refusal.antt =====
-- A configuration with endpoints, which cannot be read back: the port is not written.
use opentele.Prelude.{
  ℕ, suc, ◌^◌, ◌<◌, ◌≡◌, refl, sym, ap, ◌∙◌, Bool, true, false, some, List, [], ◌∷◌, ◌++◌, All,
  length, arith, append_assoc,
}
use opentele.Prelude.Int.{pos, negsuc}
use opentele.Exception.{Exception, Result, ok, err, t_data_bad_config_data, ◌>>=◌}
use opentele.Exec.{Exec}
use opentele.Bytes.{from_big_endian, read_digits}
use opentele.Qt.ByteArray.{of_bytes}
use opentele.Qt.Buffer.{read_only}
use opentele.Qt.Blob.{null_marker}
use opentele.Qt.DataStream.{QDataStream}
use opentele.Qt.Primitive.{unpack_signed, to_signed, read_int32, read_signed}
use opentele.Qt.Session.{Parses, reader, frame}
use opentele.Qt.Session.Rules.{read_bytes-Parses, concat_map}
use opentele.Qt.Session.Raises.{Raises, raise-Raises, first-Raises, bind-Raises}
use opentele.Qt.Session.Values.{IsInt32, map-Parses, read_int32-Parses}
use opentele.Account.Layout.{int32_bytes}
use opentele.Mtp.{Endpoint, DcOptions}
use opentele.Mtp.Layout.{listed, endpoint_bytes, IsAsciiEndpoint, options_bytes}
use opentele.Mtp.Options.{
  is_ip_size, expects_config, read_endpoint, read_endpoints, after_endpoint, read_count, with_count,
  construct_from_serialized,
}
use opentele.Mtp.Config.{ConfigFields, Config}
use opentele.Mtp.Config.Write.{serialize}
use opentele.Mtp.Config.Read.{with_options, from_serialized}
use opentele.Mtp.Config.Layout.{AreStorable}
use opentele.Mtp.Config.Reload.{reading-of_bytes, read_count-Parses, from_serialized-serialize_with}

-- Four characters that begin with no zero, read as the size of an address, are too large for one.
ip_size_refused :
    (b0 b1 b2 b3 : ℕ)
    → 0 < b0
    → is_ip_size (unpack_signed 4 (some (b0 ∷ b1 ∷ b2 ∷ b3 ∷ []))) ≡ false
unfolding unpack_signed from_big_endian read_digits to_signed
ip_size_refused b0 b1 b2 b3 h = ground arith

read_four-Parses :
    (b0 b1 b2 b3 : ℕ)
    → Parses read_int32 (b0 ∷ b1 ∷ b2 ∷ b3 ∷ []) (unpack_signed 4 (some (b0 ∷ b1 ∷ b2 ∷ b3 ∷ [])))
unfolding read_signed
read_four-Parses b0 b1 b2 b3 = map-Parses _ (unpack_signed 4) _ _ (read_bytes-Parses 4 _ refl)

expects_config-Raises : (b : Bool) → b ≡ false → Raises (expects_config b) [] t_data_bad_config_data
expects_config-Raises b h = rw h (raise-Raises t_data_bad_config_data [])

-- An endpoint that a stream holds, whose address has at least four characters.
pub record IsPlain (e : Endpoint) : Type 0 where
  pub id : IsInt32 e.id
  pub flags : IsInt32 e.flags
  pub short : length e.ip < 2 ^ 31
  pub b0 : ℕ
  pub b1 : ℕ
  pub b2 : ℕ
  pub b3 : ℕ
  pub others : List ℕ
  pub ip : e.ip ≡ b0 ∷ b1 ∷ b2 ∷ b3 ∷ others
  pub first : 0 < b0

-- The bytes up to the four that are taken for the size.
abbrev refused_bytes : (e : Endpoint) → IsPlain e → List ℕ
refused_bytes e p =
    int32_bytes e.id
    ++ (int32_bytes e.flags
        ++ (int32_bytes (pos (length e.ip)) ++ ((p.b0 ∷ p.b1 ∷ p.b2 ∷ p.b3 ∷ []) ++ [])))

read_endpoint-Raises :
    (e : Endpoint) (p : IsPlain e)
    → Raises (read_endpoint true) (refused_bytes e p) t_data_bad_config_data
unfolding read_endpoint
read_endpoint-Raises e p = bind-Raises _ _ _ _ _ _ (read_int32-Parses e.id p.id) (
    bind-Raises _ _ _ _ _ _ (read_int32-Parses e.flags p.flags) (
      bind-Raises _ _ _ _ _ _ (read_int32-Parses (pos (length e.ip)) (p.short, omega arith)) (
        bind-Raises _ _ _ _ _ _ (read_four-Parses p.b0 p.b1 p.b2 p.b3) (
          first-Raises _ _ [] _
            (expects_config-Raises _ (ip_size_refused p.b0 p.b1 p.b2 p.b3 p.first))))))

after_endpoint-err :
    (next : QDataStream → Exec DcOptions Unit) (r : Result Endpoint × QDataStream) (o : DcOptions)
    {x : Exception}
    → r.0 ≡ err x
    → (after_endpoint next r o).0 ≡ err x
after_endpoint-err next (ok e, s) o h = cc
after_endpoint-err next (err y, s) o h = cc

regroup :
    (i f l q x r : List ℕ) → (i ++ (f ++ (l ++ (q ++ x)))) ++ r ≡ (i ++ (f ++ (l ++ q))) ++ (x ++ r)
regroup i f l q x r = simp append_assoc

secret_bytes : Endpoint → List ℕ
secret_bytes e = int32_bytes (pos (length e.secret)) ++ e.secret

endpoint_bytes-split :
    (e : Endpoint) (p : IsPlain e) (rest : List ℕ)
    → endpoint_bytes e ++ rest ≡ refused_bytes e p ++ ((p.others ++ secret_bytes e) ++ rest)
unfolding secret_bytes
endpoint_bytes-split e p rest =
    ap
      (λ ip.
        (int32_bytes e.id
          ++ (int32_bytes e.flags ++ (int32_bytes (pos (length e.ip)) ++ (ip ++ secret_bytes e))))
        ++ rest)
      p.ip
    ∙ regroup (int32_bytes e.id) (int32_bytes e.flags) (int32_bytes (pos (length e.ip)))
        (p.b0 ∷ p.b1 ∷ p.b2 ∷ p.b3 ∷ []) (p.others ++ secret_bytes e) rest

-- The options are refused at their first endpoint.
construct_from_serialized-refused :
    (e : Endpoint) (es : List Endpoint) (p : IsPlain e) (o : DcOptions)
    → suc (length es) < 2 ^ 31
    → (construct_from_serialized
        (of_bytes (
          int32_bytes (negsuc 1)
          ++ (int32_bytes (pos (suc (length es)))
              ++ (concat_map endpoint_bytes (e ∷ es) ++ int32_bytes (pos 0)))))
        o).0
      ≡ err t_data_bad_config_data
unfolding construct_from_serialized read_endpoints
construct_from_serialized-refused e es p o small =
    let count = int32_bytes (negsuc 1) ++ int32_bytes (pos (suc (length es))) in
    let tail = concat_map endpoint_bytes es ++ int32_bytes (pos 0) in
    let last = (p.others ++ secret_bytes e) ++ tail in
    let f = frame read_only false in
    let split =
      append_assoc (endpoint_bytes e) (concat_map endpoint_bytes es) (int32_bytes (pos 0))
      ∙ endpoint_bytes-split e p tail in
    ap (λ s. (with_count (read_count s) o).0)
      (reading-of_bytes _
        ∙ ap (λ t. reader f [] t)
            (sym (append_assoc (int32_bytes (negsuc 1)) (int32_bytes (pos (suc (length es)))) _)))
    ∙ ap (λ r. (with_count r o).0)
        ((read_count-Parses (suc (length es)) small).at f []
          (concat_map endpoint_bytes (e ∷ es) ++ int32_bytes (pos 0)))
    ∙ after_endpoint-err (read_endpoints (length es) true) _ (record o { centres = [] })
        (ap (λ t. (read_endpoint true (reader f count t)).0) split
          ∙ (read_endpoint-Raises e p).at f count last)

with_options-err :
    (fields : ConfigFields) (r : Result (Unit {0}) × DcOptions) {x : Exception}
    → r.0 ≡ err x
    → with_options fields r ≡ err x
with_options-err fields (ok u, o) h = cc
with_options-err fields (err y, o) h = cc

-- A configuration with storable fields and at least one endpoint that is written, whose first such
-- endpoint has an id and flags of 32 bits and an address of at least four characters the first of
-- which is not zero, and whose written addresses are ASCII, is refused with `TDataBadConfigData`
-- when its serialized form is read, given that the options have fewer than 2 ^ 31 endpoints and
-- fewer than 2 ^ 32 - 1 bytes.
pub from_serialized-serialize_refused :
    (c : Config) (domain txt : List ℕ) (e : Endpoint) (es : List Endpoint)
    → AreStorable c.fields domain txt
    → listed c.dc_options.centres ≡ e ∷ es
    → IsPlain e
    → All IsAsciiEndpoint (e ∷ es)
    → suc (length es) < 2 ^ 31
    → length (options_bytes c.dc_options.centres) < null_marker
    → (serialize c >>= from_serialized) ≡ err t_data_bad_config_data
from_serialized-serialize_refused c domain txt e es h first p ascii small short =
    from_serialized-serialize_with c domain txt h (rw first ascii) short
    ∙ rw first (with_options-err c.fields _ (construct_from_serialized-refused e es p _ small))

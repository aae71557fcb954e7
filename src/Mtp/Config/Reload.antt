-- ===== src/Mtp/Config/Reload.antt =====
-- A configuration without endpoints, read back from its serialized form.
use opentele.Prelude.{
  ℕ, ◌^◌, ◌<◌, ◌≡◌, refl, ap, ◌∙◌, true, false, List, [], ◌++◌, All, length, arith, append-nil,
}
use opentele.Prelude.Int.{pos, negsuc}
use opentele.Exception.{ok, ◌>>=◌}
use opentele.Exec.{Exec}
use opentele.Bytes.{big_endian}
use opentele.Qt.ByteArray.{of_bytes}
use opentele.Qt.Buffer.{read_only}
use opentele.Qt.Blob.{null_marker}
use opentele.Qt.DataStream.{QDataStream, reading}
use opentele.Qt.Session.{Parses, reader, frame, of_qbytearray-reader}
use opentele.Qt.Session.Rules.{bind-Parses}
use opentele.Qt.Session.Values.{map-Parses, read_int32-Parses}
use opentele.Account.Layout.{int32_bytes}
use opentele.Mtp.{
  Environment, production, test, DcOptions, is_test_mode, new_options, construct_from_built_in,
  add_to_data, apply_one_guarded,
}
use opentele.Mtp.Layout.{
  listed, IsAsciiEndpoint, options_bytes, serialize_options-bytes, written_by-Begins,
}
use opentele.Mtp.Options.{
  read_count, count_behind, with_count, construct_from_serialized, read_endpoints,
}
use opentele.Mtp.Config.{Config, new_config}
use opentele.Mtp.Config.Write.{serialize}
use opentele.Mtp.Config.Read.{read_config, with_read, with_options, from_serialized}
use opentele.Mtp.Config.Layout.{AreStorable, config_bytes, write_config-Begins}
use opentele.Mtp.Config.Reads.{mode_environment, read_config-Parses}

pub reading-of_bytes : (bs : List ℕ) → reading (of_bytes bs) ≡ reader (frame read_only false) [] bs
reading-of_bytes bs = of_qbytearray-reader (of_bytes bs) read_only

pub all-Parses :
    {A : Type 0} (m : Exec QDataStream A) (bs : List ℕ) (a : A)
    → Parses m bs a
    → m (reading (of_bytes bs)) ≡ (ok a, reader (frame read_only false) bs [])
all-Parses m bs a h =
    ap m (reading-of_bytes bs) ∙ rw (append-nil bs) at (h.at (frame read_only false) [] [])

-- The serialized form of a configuration.
pub serialize-config_bytes :
    (c : Config) (domain txt : List ℕ)
    → AreStorable c.fields domain txt
    → All IsAsciiEndpoint (listed c.dc_options.centres)
    → length (options_bytes c.dc_options.centres) < null_marker
    → serialize c
      ≡ ok (
          of_bytes (
            config_bytes
              (is_test_mode c.dc_options)
              (options_bytes c.dc_options.centres)
              domain
              txt
              c.fields))
unfolding serialize
serialize-config_bytes c domain txt h ascii short =
    let options = options_bytes c.dc_options.centres in
    rw (serialize_options-bytes c.dc_options ascii)
      (written_by-Begins _ _ (write_config-Begins c options domain txt h (omega (arith, short))))

-- What a configuration becomes, from what its options become.
pub from_serialized-serialize_with :
    (c : Config) (domain txt : List ℕ)
    → AreStorable c.fields domain txt
    → All IsAsciiEndpoint (listed c.dc_options.centres)
    → length (options_bytes c.dc_options.centres) < null_marker
    → (serialize c >>= from_serialized)
      ≡ with_options c.fields (
          construct_from_serialized
            (of_bytes (options_bytes c.dc_options.centres))
            (new_config (mode_environment (is_test_mode c.dc_options))).dc_options)
unfolding from_serialized
from_serialized-serialize_with c domain txt h ascii short =
    let options = options_bytes c.dc_options.centres in
    let t = is_test_mode c.dc_options in
    rw (serialize-config_bytes c domain txt h ascii short) (
      ap with_read
        (all-Parses read_config _ _ (read_config-Parses t c.fields options domain txt h short)))

pub read_count-Parses :
    (n : ℕ)
    → n < 2 ^ 31
    → Parses read_count (int32_bytes (negsuc 1) ++ int32_bytes (pos n)) (true, pos n)
unfolding read_count count_behind
read_count-Parses n h =
    bind-Parses _ _ _ _ _ _ (read_int32-Parses (negsuc 1) (omega arith, omega arith)) (
      map-Parses _ (λ count. (true, count)) _ _
        (read_int32-Parses (pos n) (omega arith, omega arith)))

new_options-enviroment : (e : Environment) → (new_options e).enviroment ≡ e
unfolding new_options construct_from_built_in add_to_data is_test_mode apply_one_guarded
new_options-enviroment production = refl
new_options-enviroment test = refl

mode_environment-test :
    (e : Environment) → mode_environment (elim e [ production ↦ false | test ↦ true ]) ≡ e
mode_environment-test production = refl
mode_environment-test test = refl

mode_environment-is_test_mode : (o : DcOptions) → mode_environment (is_test_mode o) ≡ o.enviroment
unfolding is_test_mode
mode_environment-is_test_mode o = mode_environment-test o.enviroment

-- The options without endpoints
abbrev pub emptied : DcOptions → DcOptions
emptied o = record o { centres = [] }

construct_from_serialized-empty :
    (o : DcOptions)
    → construct_from_serialized
        (of_bytes (int32_bytes (negsuc 1) ++ (int32_bytes (pos 0) ++ int32_bytes (pos 0))))
        o
      ≡ (ok tt, emptied o)
unfolding construct_from_serialized read_endpoints big_endian
construct_from_serialized-empty o =
    ap (λ s. with_count (read_count s) o) (reading-of_bytes _)
    ∙ ap (λ r. with_count r o)
        ((read_count-Parses 0 (omega arith)).at (frame read_only false) [] (int32_bytes (pos 0)))

-- A configuration with storable fields and no endpoint that is written is read back from its
-- serialized form with its mode and its fields, and with no data centres.
pub from_serialized-serialize-emptied :
    (c : Config) (domain txt : List ℕ)
    → AreStorable c.fields domain txt
    → listed c.dc_options.centres ≡ []
    → (serialize c >>= from_serialized) ≡ ok (record c { dc_options = emptied c.dc_options })
unfolding big_endian new_config new_options
from_serialized-serialize-emptied c domain txt h none_listed =
    let e = mode_environment (is_test_mode c.dc_options) in
    from_serialized-serialize_with c domain txt h (rw none_listed tt) (rw none_listed (omega arith))
    ∙ rw none_listed (
        ap (with_options c.fields) (construct_from_serialized-empty (new_config e).dc_options)
        ∙ ap
            (λ x.
              ok (record {
                dc_options = record { enviroment = x; centres = [] };
                fields = c.fields;
              }))
            (new_options-enviroment e ∙ mode_environment-is_test_mode c.dc_options))

-- ===== src/Mtp/Layout.antt =====
-- The bytes of the options: `DcOptions.Serialize` writes them.
use opentele.Prelude.{
  ℕ, ◌≡◌, refl, sym, ap, ◌∙◌, true, List, [], ◌∷◌, ◌++◌, All, length, arith, length-append,
  append-nil, append_assoc, All-append_left, All-append_right, Bool-cases, inl, inr, if◌then◌else◌,
}
use opentele.Prelude.Int.{ℤ, pos, negsuc}
use opentele.Exception.{ok}
use opentele.Exec.{Exec, for_each, when}
use opentele.Qt.ByteArray.{of_bytes}
use opentele.Qt.Buffer.{write_only}
use opentele.Qt.DataStream.{QDataStream, of_qbytearray}
use opentele.Qt.Session.{Writes, Begins, reader, frame}
use opentele.Qt.Session.Rules.{
  bind-Writes, bind-Begins, Begins-Writes, for_each-Writes, pure-Writes, concat_map, lift-bind,
}
use opentele.Qt.Session.Values.{write_int32-Begins}
use opentele.Qt.Session.Blobs.{write_raw_data-Begins}
use opentele.Account.{result_of, array_of}
use opentele.Account.Layout.{int32_bytes}
use opentele.Mtp.{Endpoint, DcOptions}
use opentele.Mtp.Options.{
  is_ascii, encode_ascii, is_listed, options_count, write_endpoint, write_centre, write_options,
}
use opentele.Mtp.Config.Write.{written_by, serialize_options}

-- What is written of an endpoint: no port.
abbrev pub endpoint_bytes : Endpoint → List ℕ
endpoint_bytes e =
    int32_bytes e.id
    ++ (int32_bytes e.flags
        ++ (int32_bytes (pos (length e.ip))
            ++ (e.ip ++ (int32_bytes (pos (length e.secret)) ++ e.secret))))

-- The endpoints that are written
unfoldable pub listed : List (ℤ × List Endpoint) → List Endpoint
listed [] = []
listed ((id, endpoints) ∷ rest) = (if is_listed id then endpoints else []) ++ listed rest

abbrev pub IsAsciiEndpoint : Endpoint → Type 0
IsAsciiEndpoint e = is_ascii e.ip ≡ true

abbrev pub options_bytes : List (ℤ × List Endpoint) → List ℕ
options_bytes centres =
    int32_bytes (negsuc 1)
    ++ (int32_bytes (pos (length (listed centres)))
        ++ (concat_map endpoint_bytes (listed centres) ++ int32_bytes (pos 0)))

options_count-listed :
    (centres : List (ℤ × List Endpoint)) → options_count centres ≡ length (listed centres)
unfolding options_count listed
options_count-listed [] = refl
options_count-listed ((id, endpoints) ∷ rest) = elim (Bool-cases (is_listed id)) [
  | inl t ↦ rw t (omega (arith, options_count-listed rest, length-append endpoints (listed rest)))
  | inr f ↦ rw f (omega (arith, options_count-listed rest))
]

write_endpoint-Writes :
    (e : Endpoint) → IsAsciiEndpoint e → Writes (write_endpoint e) (endpoint_bytes e)
unfolding write_endpoint encode_ascii
write_endpoint-Writes e ascii = bind-Writes _ _ _ _ (Begins-Writes _ _ (write_int32-Begins e.id)) (
    bind-Writes _ _ _ _ (Begins-Writes _ _ (write_int32-Begins e.flags)) (
      bind-Writes _ _ _ _ (Begins-Writes _ _ (write_int32-Begins (pos (length e.ip)))) (
        rw (ascii, lift-bind)
          (bind-Writes _ _ _ _ (Begins-Writes _ _ (write_raw_data-Begins e.ip)) (
            bind-Writes _ _ _ _ (Begins-Writes _ _ (write_int32-Begins (pos (length e.secret))))
              (Begins-Writes _ _ (write_raw_data-Begins e.secret)))))))

every_endpoint :
    (es : List Endpoint)
    → All IsAsciiEndpoint es
    → All (λ e. Writes (write_endpoint e) (endpoint_bytes e)) es
every_endpoint [] h = tt
every_endpoint (e ∷ es) h = (write_endpoint-Writes e h.0, every_endpoint es h.1)

concat_map-append :
    (f : Endpoint → List ℕ) (xs ys : List Endpoint)
    → concat_map f (xs ++ ys) ≡ concat_map f xs ++ concat_map f ys
concat_map-append f [] ys = refl
concat_map-append f (x ∷ xs) ys =
    ap (λ t. f x ++ t) (concat_map-append f xs ys)
    ∙ sym (append_assoc (f x) (concat_map f xs) (concat_map f ys))

write_centres-Writes :
    (centres : List (ℤ × List Endpoint))
    → All IsAsciiEndpoint (listed centres)
    → Writes (for_each centres write_centre) (concat_map endpoint_bytes (listed centres))
unfolding for_each listed when
write_centres-Writes [] h = pure-Writes
write_centres-Writes ((id, es) ∷ rest) h = elim (Bool-cases (is_listed id)) [
  | inl t ↦
      let all = rw t at h in
      rw (t, concat_map-append endpoint_bytes es (listed rest))
        (bind-Writes _ _ _ _
          (for_each-Writes write_endpoint endpoint_bytes es
            (every_endpoint es (All-append_left IsAsciiEndpoint es (listed rest) all)))
          (write_centres-Writes rest (All-append_right IsAsciiEndpoint es (listed rest) all)))
  | inr f ↦ rw f (bind-Writes _ _ [] _ pure-Writes (write_centres-Writes rest (rw f at h)))
]

write_options-Begins :
    (o : DcOptions)
    → All IsAsciiEndpoint (listed o.centres)
    → Begins (write_options o) (options_bytes o.centres)
unfolding write_options
write_options-Begins o h = rw (options_count-listed o.centres) (
    bind-Begins _ _ _ _ (write_int32-Begins (negsuc 1)) (
      bind-Writes _ _ _ _ (Begins-Writes _ _ (write_int32-Begins (pos (length (listed o.centres)))))
        (bind-Writes _ _ _ _ (write_centres-Writes o.centres h)
          (Begins-Writes _ _ (write_int32-Begins (pos 0))))))

-- A fresh array, written from the start.
pub written_by-Begins :
    (m : Exec QDataStream Unit) (bs : List ℕ) → Begins m bs → written_by m ≡ ok (of_bytes bs)
unfolding reader array_of of_qbytearray
written_by-Begins m bs h = ap result_of (h.at (frame write_only true) []) ∙ rw append-nil refl

pub serialize_options-bytes :
    (o : DcOptions)
    → All IsAsciiEndpoint (listed o.centres)
    → serialize_options o ≡ ok (of_bytes (options_bytes o.centres))
unfolding serialize_options
serialize_options-bytes o h = written_by-Begins _ _ (write_options-Begins o h)

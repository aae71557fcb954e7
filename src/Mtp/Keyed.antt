-- ===== src/Mtp/Keyed.antt =====
-- The endpoints of a data centre stand under its id, each id once, whatever is added or loaded.
use opentele.Prelude.{
  ℕ, zero, suc, ◌≡◌, refl, Bool, false, List, [], ◌∷◌, All, arith, All-append, Bool-cases, inl, inr,
}
use opentele.Prelude.Int.{ℤ, pos_part, ◌==ℤ◌, ==ℤ→eq}
use opentele.Exception.{Result, ok, err}
use opentele.Exec.{Exec}
use opentele.Qt.ByteArray.{QByteArray}
use opentele.Qt.DataStream.{QDataStream, reading}
use opentele.Mtp.{
  Environment, Endpoint, DcOptions, BuiltInDc, append_endpoint, apply_one_guarded,
  construct_add_one, add_to_data, construct_from_built_in, new_options, is_test_mode, f_static,
  f_static_ipv6, k_built_in_dcs, k_built_in_dcs_ipv6, k_built_in_dcs_test, k_built_in_dcs_ipv6_test,
}
use opentele.Mtp.Options.{
  apply_endpoint, read_endpoint, after_endpoint, read_endpoints, read_count, with_count,
  construct_from_serialized,
}

-- An endpoint of the data centre `key`, without a secret
abbrev pub IsOwned : ℤ → Endpoint → Type 0
IsOwned key e = (e.id ≡ key) × (e.secret ≡ [])

-- Every data centre stands once, with its own endpoints.
abbrev pub IsKeyed : List (ℤ × List Endpoint) → Type 0
IsKeyed [] = Unit
IsKeyed ((key, endpoints) ∷ rest) =
    All (IsOwned key) endpoints × All (λ c. (c.0 ==ℤ key) ≡ false) rest × IsKeyed rest

-- A key that is not there stays so when an endpoint of another key is appended.
append_endpoint-free :
    (key id : ℤ) (e : Endpoint) (centres : List (ℤ × List Endpoint))
    → (id ==ℤ key) ≡ false
    → All (λ c. (c.0 ==ℤ key) ≡ false) centres
    → All (λ c. (c.0 ==ℤ key) ≡ false) (append_endpoint id e centres)
unfolding append_endpoint
append_endpoint-free key id e [] other h = (other, tt)
append_endpoint-free key id e ((k, es) ∷ rest) other h = elim (Bool-cases (k ==ℤ id)) [
  | inl same ↦ rw same h
  | inr other_key ↦ rw other_key (h.0, append_endpoint-free key id e rest other h.1)
]

flip_test : (a b : ℤ) → (a ==ℤ b) ≡ false → (b ==ℤ a) ≡ false
flip_test a b h = ground arith

append_endpoint-IsKeyed :
    (id : ℤ) (e : Endpoint) (centres : List (ℤ × List Endpoint))
    → IsOwned id e
    → IsKeyed centres
    → IsKeyed (append_endpoint id e centres)
unfolding append_endpoint
append_endpoint-IsKeyed id e [] own h = ((own, tt), tt, tt)
append_endpoint-IsKeyed id e ((k, es) ∷ rest) own h = elim (Bool-cases (k ==ℤ id)) [
  | inl same ↦
      rw same (All-append (IsOwned k) es (e ∷ []) h.0 (rw (==ℤ→eq k id same) own, tt), h.1, h.2)
  | inr other_key ↦ rw other_key (
    h.0,
    append_endpoint-free k id e rest (flip_test k id other_key) h.1,
    append_endpoint-IsKeyed id e rest own h.2,
  )
]

apply_one_guarded-IsKeyed :
    (id flags : ℤ) (ip : List ℕ) (port : ℤ) (secret : List ℕ) (o : DcOptions)
    → IsKeyed o.centres
    → IsKeyed (apply_one_guarded id flags ip port secret o).centres
unfolding apply_one_guarded
apply_one_guarded-IsKeyed id flags ip port secret o h =
    append_endpoint-IsKeyed id _ o.centres (refl, refl) h

add_to_data-IsKeyed :
    (dcs : List BuiltInDc) (flags : ℤ) (o : DcOptions)
    → IsKeyed o.centres
    → IsKeyed (add_to_data dcs flags o).centres
unfolding add_to_data
add_to_data-IsKeyed [] flags o h = h
add_to_data-IsKeyed (dc ∷ dcs) flags o h =
    add_to_data-IsKeyed dcs flags _ (apply_one_guarded-IsKeyed dc.id flags dc.ip dc.port [] o h)

both-IsKeyed :
    (second first : List BuiltInDc) (o : DcOptions)
    → IsKeyed o.centres
    → IsKeyed (add_to_data second f_static_ipv6 (add_to_data first f_static o)).centres
both-IsKeyed second first o h =
    add_to_data-IsKeyed second f_static_ipv6 _ (add_to_data-IsKeyed first f_static o h)

construct_from_built_in-IsKeyed :
    (o : DcOptions) → IsKeyed o.centres → IsKeyed (construct_from_built_in o).centres
unfolding construct_from_built_in
construct_from_built_in-IsKeyed o h = elim (Bool-cases (is_test_mode o)) [
  | inl t ↦ rw t (both-IsKeyed k_built_in_dcs_ipv6_test k_built_in_dcs_test o h)
  | inr f ↦ rw f (both-IsKeyed k_built_in_dcs_ipv6 k_built_in_dcs o h)
]

after_endpoint-IsKeyed :
    (next : QDataStream → Exec DcOptions Unit) (r : Result Endpoint × QDataStream) (o : DcOptions)
    → ((s : QDataStream) (x : DcOptions) → IsKeyed x.centres → IsKeyed ((next s x).1).centres)
    → IsKeyed o.centres
    → IsKeyed ((after_endpoint next r o).1).centres
after_endpoint-IsKeyed next (ok e, s) o keeps h =
    keeps s (apply_endpoint e o) (apply_one_guarded-IsKeyed e.id e.flags e.ip e.port e.secret o h)
after_endpoint-IsKeyed next (err x, s) o keeps h = h

read_endpoints-IsKeyed :
    (has_version : Bool) (n : ℕ) (s : QDataStream) (o : DcOptions)
    → IsKeyed o.centres
    → IsKeyed ((read_endpoints n has_version s o).1).centres
unfolding read_endpoints
read_endpoints-IsKeyed has_version zero s o h = h
read_endpoints-IsKeyed has_version (suc n) s o h =
    after_endpoint-IsKeyed (read_endpoints n has_version) (read_endpoint has_version s) o
      (read_endpoints-IsKeyed has_version n) h

with_count-IsKeyed :
    (r : Result (Bool × ℤ) × QDataStream) (o : DcOptions)
    → IsKeyed o.centres
    → IsKeyed ((with_count r o).1).centres
with_count-IsKeyed (ok (has_version, count), s) o h =
    read_endpoints-IsKeyed has_version (pos_part count) s (record o { centres = [] }) tt
with_count-IsKeyed (err x, s) o h = h

pub construct_from_serialized-IsKeyed :
    (serialized : QByteArray) (o : DcOptions)
    → IsKeyed o.centres
    → IsKeyed ((construct_from_serialized serialized o).1).centres
unfolding construct_from_serialized
construct_from_serialized-IsKeyed serialized o h =
    with_count-IsKeyed (read_count (reading serialized)) o h

pub construct_add_one-IsKeyed :
    (id flags : ℤ) (ip : List ℕ) (port : ℤ) (secret : List ℕ) (o : DcOptions)
    → IsKeyed o.centres
    → IsKeyed (construct_add_one id flags ip port secret o).centres
unfolding construct_add_one
construct_add_one-IsKeyed id flags ip port secret o h =
    apply_one_guarded-IsKeyed _ flags ip port secret o h

-- What can be done with the options.
pub data Use : Type 0 where
  add_one : (id flags : ℤ) (ip : List ℕ) (port : ℤ) (secret : List ℕ) → Use
  add_built_in : Use
  load : (serialized : QByteArray) → Use

-- The options after one use, also one that raised
unfoldable pub used : Use → DcOptions → DcOptions
unfolding construct_add_one construct_from_serialized
used (add_one id flags ip port secret) o = construct_add_one id flags ip port secret o
used add_built_in o = construct_from_built_in o
used (load serialized) o = (construct_from_serialized serialized o).1

unfoldable pub used_all : List Use → DcOptions → DcOptions
unfolding used
used_all [] o = o
used_all (u ∷ us) o = used_all us (used u o)

used-IsKeyed : (u : Use) (o : DcOptions) → IsKeyed o.centres → IsKeyed (used u o).centres
unfolding used
used-IsKeyed (add_one id flags ip port secret) o h =
    construct_add_one-IsKeyed id flags ip port secret o h
used-IsKeyed add_built_in o h = construct_from_built_in-IsKeyed o h
used-IsKeyed (load serialized) o h = construct_from_serialized-IsKeyed serialized o h

used_all-IsKeyed :
    (us : List Use) (o : DcOptions) → IsKeyed o.centres → IsKeyed (used_all us o).centres
unfolding used_all
used_all-IsKeyed [] o h = h
used_all-IsKeyed (u ∷ us) o h = used_all-IsKeyed us _ (used-IsKeyed u o h)

-- Whatever is added to new options or loaded into them, from whatever bytes and also where the
-- load raises, every data centre stands once and has only endpoints with its own id and without a
-- secret.
pub used_all-new_options :
    (e : Environment) (us : List Use) → IsKeyed (used_all us (new_options e)).centres
unfolding new_options
used_all-new_options e us =
    used_all-IsKeyed us _
      (construct_from_built_in-IsKeyed (record { enviroment = e; centres = [] }) tt)

-- ===== src/Account/RoundTrip.antt =====
-- The authorization of an account, read back from what was serialized.
use opentele.Prelude.{
  ℕ, ◌^◌, ◌<◌, ◌≡◌, refl, sym, ap, ◌∙◌, true, false, Option, none, some, List, [], ◌∷◌, ◌++◌,
  append-nil, append_assoc, Bool-cases, inl, inr,
}
use opentele.Prelude.Int.{ℤ, pos, ◌==ℤ◌}
use opentele.Exception.{ok, ◌>>=◌}
use opentele.Auth.{AuthKey}
use opentele.Qt.ByteArray.{of_bytes}
use opentele.Qt.Buffer.{write_only, read_only}
use opentele.Qt.DataStream.{of_qbytearray, reading}
use opentele.Qt.Session.{Parses, reader, frame, of_qbytearray-reader}
use opentele.Qt.Session.Values.{IsInt32}
use opentele.Account.{
  Account, wide_ids_tag, read_ids, main_key, set_main_key, set_ids, set_keys, set_to_destroy,
  result_of, array_of, set_mtp_authorization, serialize_mtp_authorization,
}
use opentele.Account.Layout.{
  int32_bytes, int64_bytes, keys_bytes, authorization_bytes, AreFileKeys,
  write_authorization-Begins, read_keys-Parses, read_ids-Parses,
}

-- An account that its file can hold: loaded, a user id of 64 bits, a data centre of 32 bits, keys of
-- 256 bytes.
pub record IsStorableAccount (a : Account) (user : ℕ) : Type 0 where
  pub loaded : a.is_loaded ≡ true
  pub user_id : a.user_id ≡ pos user
  pub wide : user < 2 ^ 64
  pub main_dc_id : IsInt32 a.main_dc_id
  pub mtp_keys : AreFileKeys a.mtp_keys
  pub mtp_keys_to_destroy : AreFileKeys a.mtp_keys_to_destroy

pub serialize-bytes :
    (a : Account)
    → a.is_loaded ≡ true
    → serialize_mtp_authorization a ≡ ok (of_bytes (authorization_bytes a))
unfolding serialize_mtp_authorization reader array_of of_qbytearray
serialize-bytes a loaded = rw loaded (
    ap result_of ((write_authorization-Begins a).at (frame write_only true) [])
    ∙ rw append-nil refl)

-- A key that is found is found whatever key was there before.
main_key-found :
    (dc : ℤ) (keys : List AuthKey) (before : Option AuthKey) {k : AuthKey}
    → main_key dc keys none ≡ some k
    → main_key dc keys before ≡ some k
unfolding main_key
main_key-found dc [] before e = cc
main_key-found dc (key ∷ keys) before {k} e = elim (Bool-cases (key.dc_id ==ℤ dc)) [
  | inl same ↦ rw same (rw same at e)
  | inr other ↦ rw other (main_key-found dc keys before (rw other at e))
]

module _ (a before : Account) (user : ℕ) (h : IsStorableAccount a user) (k : AuthKey)
    (found : main_key a.main_dc_id a.mtp_keys none ≡ some k) where
  set_main_key-found :
      (x : Account)
      → main_key x.main_dc_id x.mtp_keys none ≡ some k
      → set_main_key x ≡ (ok tt, record x { auth_key = some k; is_loaded = true })
  unfolding set_main_key
  set_main_key-found x e = rw (main_key-found x.main_dc_id x.mtp_keys x.auth_key e) refl

  abbrev ids_bytes : List ℕ
  ids_bytes = int64_bytes wide_ids_tag ++ (int64_bytes a.user_id ++ int32_bytes a.main_dc_id)

  bytes_split :
      authorization_bytes a
      ≡ ids_bytes ++ (keys_bytes a.mtp_keys ++ keys_bytes a.mtp_keys_to_destroy)
  bytes_split =
      let keys = keys_bytes a.mtp_keys ++ keys_bytes a.mtp_keys_to_destroy in
      sym (
        append_assoc (int64_bytes wide_ids_tag) (int64_bytes a.user_id ++ int32_bytes a.main_dc_id)
          keys
        ∙ ap (λ t. int64_bytes wide_ids_tag ++ t)
            (append_assoc (int64_bytes a.user_id) (int32_bytes a.main_dc_id) keys))

  ids_Parses : Parses read_ids ids_bytes (a.user_id, a.main_dc_id)
  ids_Parses = rw h.user_id (read_ids-Parses user a.main_dc_id h.wide h.main_dc_id)

  -- The account after each of the reads.
  abbrev with_ids : Account
  with_ids = record before {
    user_id = a.user_id;
    main_dc_id = a.main_dc_id;
    mtp_keys = [];
    mtp_keys_to_destroy = [];
  }

  abbrev with_keys : Account
  with_keys = record with_ids { mtp_keys = a.mtp_keys }

  pub set-bytes :
      set_mtp_authorization (of_bytes (authorization_bytes a)) before
      ≡ (ok tt, record a { auth_key = some k; is_loaded = true })
  unfolding set_mtp_authorization reader
  set-bytes =
      let f = frame read_only false in
      let first = keys_bytes a.mtp_keys in
      let second = keys_bytes a.mtp_keys_to_destroy in
      let last = rw append-nil at (
        (read_keys-Parses a.mtp_keys_to_destroy h.mtp_keys_to_destroy).at f (ids_bytes ++ first)
          []) in
      ap (λ bs. set_ids before (read_ids (reading (of_bytes bs)))) bytes_split
      ∙ ap (λ s. set_ids before (read_ids s))
          (of_qbytearray-reader (of_bytes (ids_bytes ++ (first ++ second))) read_only)
      ∙ ap (set_ids before) (ids_Parses.at f [] (first ++ second))
      ∙ ap (set_keys with_ids) ((read_keys-Parses a.mtp_keys h.mtp_keys).at f ids_bytes second)
      ∙ ap (set_to_destroy with_keys) last
      ∙ set_main_key-found (record with_keys { mtp_keys_to_destroy = a.mtp_keys_to_destroy }) found

-- The authorization of a loaded account with a user id of 64 bits, a data centre of 32 bits, fewer
-- than 2 ^ 31 keys in each list, each key of 256 bytes, of the type `ReadFromFile` and with a data
-- centre of 32 bits, and a key of the main data centre is serialized, and any account that reads
-- it becomes that account, with that key as its own.
pub set_mtp_authorization-serialize :
    (a before : Account) (user : ℕ) (k : AuthKey)
    → IsStorableAccount a user
    → main_key a.main_dc_id a.mtp_keys none ≡ some k
    → (serialize_mtp_authorization a >>= λ q. ok (set_mtp_authorization q before))
      ≡ ok (ok tt, record a { auth_key = some k; is_loaded = true })
set_mtp_authorization-serialize a before user k h found =
    rw (serialize-bytes a h.loaded) (ap ok (set-bytes a before user h k found))

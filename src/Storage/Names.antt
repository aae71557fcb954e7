-- ===== src/Storage/Names.antt =====
-- `ComposeDataString`, `ComputeDataNameKey`, `ToFilePart` and `CreateLocalKey` of src/td/storage.py.
pub mod FilePart
pub mod Index
use opentele.Prelude.{
  ℕ, zero, suc, ◌+◌, ◌-◌, ◌*◌, ◌/◌, ◌%◌, ◌^◌, ◌<◌, ◌≤◌, ◌≡◌, refl, ap, ◌∙◌, Bool, true, false, List,
  [], ◌∷◌, ◌++◌, ltb, leb, ◌&&◌, if◌then◌else◌, arith, length, Bool-cases, inl, inr, append_assoc,
  All,
}
use native.Mathlib.Nat.{
  pow-suc, mod-lt, mod-eq_of_lt, div-add-mod, mul-add-mod_self_left, one-le-pow,
}
use opentele.Prelude.Int.{pos}
use opentele.Exception.{Result, ok, err, unicode_encode_error, ◌>>=◌}
use opentele.Bytes.{from_little_endian}
use opentele.Crypto.{Crypto}
use opentele.Auth.{AuthKey, generated}
use opentele.Qt.ByteArray.{QByteArray, is_empty}

-- `str(n)`, on fuel, of which `n + 1` is enough.
unfoldable pub digits : ℕ → ℕ → List ℕ
digits zero n = []
digits (suc fuel) n =
    let front = digits fuel (n / 10) in (if ltb n 10 then [] else front) ++ (48 + n % 10) ∷ []

-- The character "#"
abbrev pub hash_sign : ℕ
hash_sign = 35

-- `ComposeDataString`. The result of its `replace` is not used.
unfoldable pub compose_data_string : List ℕ → ℕ → List ℕ
unfolding digits
compose_data_string data_name index =
    if ltb 0 index then data_name ++ hash_sign ∷ digits (index + 2) (index + 1) else data_name

-- The bytes of a character in UTF-8; a surrogate has none.
unfoldable pub utf8_char : ℕ → Result (List ℕ)
utf8_char c =
    if ltb c 0x80
    then ok (c ∷ [])
    else if ltb c 0x800
    then ok ((0xc0 + c / 64) ∷ (0x80 + c % 64) ∷ [])
    else if leb 0xd800 c && leb c 0xdfff
    then err unicode_encode_error
    else if ltb c 0x10000
    then ok ((0xe0 + c / 4096) ∷ (0x80 + c / 64 % 64) ∷ (0x80 + c % 64) ∷ [])
    else ok
        ((0xf0 + c / 262144) ∷ (0x80 + c / 4096 % 64) ∷ (0x80 + c / 64 % 64) ∷ (0x80 + c % 64) ∷ [])

-- `text.encode("utf-8")`
unfoldable pub encode_utf8 : List ℕ → Result (List ℕ)
unfolding utf8_char
encode_utf8 [] = ok []
encode_utf8 (c ∷ s) = do first ← utf8_char c; rest ← encode_utf8 s; ok (first ++ rest)

-- The character of a digit to the base 16
unfoldable pub hex_digit : ℕ → ℕ
hex_digit v = if ltb v 0x0a then 48 + v else 65 + (v - 0x0a)

-- `n` rounds of the loop in `ToFilePart`
unfoldable pub file_part : ℕ → ℕ → List ℕ
unfolding hex_digit
file_part zero val = []
file_part (suc n) val = hex_digit (val % 16) ∷ file_part n (val / 16)

-- `ToFilePart`
unfoldable pub to_file_part : ℕ → List ℕ
unfolding file_part
to_file_part val = file_part 16 val

module _ (c : Crypto) where
  -- `ComputeDataNameKey`
  unfoldable pub compute_data_name_key : List ℕ → Result ℕ
  unfolding encode_utf8
  compute_data_name_key data_name = do
    bytes ← encode_utf8 data_name
    ok (from_little_endian (c.md5 bytes))

  -- `CreateLocalKey`
  unfoldable pub create_local_key : QByteArray → QByteArray → AuthKey
  create_local_key salt passcode = record {
    key =
        c.pbkdf2_sha512 (c.sha512 (salt.bytes ++ (passcode.bytes ++ salt.bytes))) salt.bytes
          (if is_empty passcode then 1 else 100000);
    type = generated;
    dc_id = pos 0;
  }

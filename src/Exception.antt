-- ===== src/Exception.antt =====
-- src/exception.py: the exceptions that the modelled code raises, with those of Python's own that
-- it can meet, and `Expects`. A message carries no behaviour and is left out.
use opentele.Prelude.{Bool, true, false, ◌≡◌, refl, if◌then◌else◌}

pub data Exception : Type 0 where
  open_tele_exception : Exception
  t_file_not_found t_data_invalid_magic t_data_invalid_check_sum : Exception
  t_data_bad_decrypt_key t_data_bad_encrypted_data_size t_data_bad_decrypted_data_size : Exception
  t_data_bad_config_data q_data_stream_failed account_auth_key_not_found : Exception
  t_data_read_map_data_failed t_data_read_map_data_incorrect_passcode : Exception
  t_data_auth_key_not_found t_data_save_failed : Exception
  struct_error overflow_error value_error key_error : Exception
  unicode_encode_error unicode_decode_error : Exception

-- Whether `except OpenTeleException` catches it. (The exceptions of Python's own are not caught.)
unfoldable pub is_open_tele : Exception → Bool
is_open_tele struct_error = false
is_open_tele overflow_error = false
is_open_tele value_error = false
is_open_tele key_error = false
is_open_tele unicode_encode_error = false
is_open_tele unicode_decode_error = false
is_open_tele _ = true

pub data Result {ℓ} (A : Type ℓ) : Type ℓ where
  err : (raised : Exception) → Result A
  ok : (returned : A) → Result A

infixl 5 ◌>>=◌ ◌>>◌
-- What comes after a call runs on its value, unless it raised.
abbrev pub ◌>>=◌ {ℓ ℓ'} :
    {A : Type ℓ} {B : Type ℓ'} (call : Result A) (next : A → Result B) → Result B
err raised >>= next = err raised
ok returned >>= next = next returned

abbrev pub ◌>>◌ {ℓ} : {B : Type ℓ} (check : Result (Unit {0})) (next : Result B) → Result B
check >> next = check >>= λ passed. next

-- `except OpenTeleException as e: raise x from e`
unfoldable pub rethrow {ℓ} : {A : Type ℓ} → Exception → Result A → Result A
unfolding is_open_tele
rethrow x (ok a) = ok a
rethrow x (err e) = if is_open_tele e then err x else err e

-- `Expects(condition, exception)`
unfoldable pub expects : Bool → Exception → Result (Unit {0})
expects condition e = if condition then ok tt else err e

pub ok-injective {ℓ} : {A : Type ℓ} {a b : A} → ok a ≡ ok b → a ≡ b
ok-injective e = cc

-- A chain that returned: its first call did, and so did the rest on that value.
pub >>=-eq-ok {ℓ ℓ'} :
    {A : Type ℓ} {B : Type ℓ'} (call : Result A) (next : A → Result B) {result : B}
    → (call >>= next) ≡ ok result
    → (a : A) × (call ≡ ok a) × (next a ≡ ok result)
>>=-eq-ok (err raised) next e = cc
>>=-eq-ok (ok a) next e = (a, refl, e)

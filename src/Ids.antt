-- ===== src/Ids.antt =====
-- `PeerId`, `FileKey` and `DcId` of src/td/configs.py. Bits are tested, set and cleared by division
-- and sums: `value & (0x80 << 48)` is not zero exactly where `value / 2 ^ 55` is odd.
use opentele.Prelude.{
  ℕ, ◌+◌, ◌-◌, ◌*◌, ◌/◌, ◌%◌, ◌^◌, ◌<◌, ◌≡◌, Bool, true, false, arith, ◌==◌, if◌then◌else◌,
}
use opentele.Exception.{Result, ok, expects, open_tele_exception, ◌>>◌}

-- `UserId.kReservedBit << 48`
abbrev pub reserved_flag : ℕ
reserved_flag = 2 ^ 55

abbrev pub is_reserved : ℕ → Bool
is_reserved v = v / reserved_flag % 2 == 1

-- `PeerId.Serialize`: under the guard the `|` of the flag is a sum.
unfoldable pub serialize : ℕ → Result ℕ
unfolding expects
serialize v = do
  expects (if is_reserved v then false else true) open_tele_exception
  ok (v + reserved_flag)

-- The kinds of `ChatIdType`, with their `kShift`.
pub data ChatIdType : Type 0 where
  user_id chat_id channel_id fake_chat_id : ChatIdType

abbrev pub k_shift : ChatIdType → ℕ
k_shift user_id = 0
k_shift chat_id = 1
k_shift channel_id = 2
k_shift fake_chat_id = 0x7f

-- `PeerId.FromChatIdType` for a `bare` below 2 ^ 48: the `|` is a sum.
unfoldable pub from_chat_id_type : ChatIdType → ℕ → ℕ
from_chat_id_type t bare = bare + k_shift t * 2 ^ 48

-- `PeerId.FromSerialized`
unfoldable pub from_serialized : ℕ → ℕ
unfolding from_chat_id_type
from_serialized n =
    if is_reserved n
    then n - reserved_flag
    else if n / 2 ^ 32 % 16 == 0
    then from_chat_id_type user_id (n % 2 ^ 32)
    else if n / 2 ^ 32 % 16 == 1
    then from_chat_id_type chat_id (n % 2 ^ 32)
    else if n / 2 ^ 32 % 16 == 2
    then from_chat_id_type channel_id (n % 2 ^ 32)
    else if n / 2 ^ 32 % 16 == 0xf
    then from_chat_id_type fake_chat_id (n % 2 ^ 32)
    else 0

abbrev pub k_dc_shift : ℕ
k_dc_shift = 10000

unfoldable pub bare_dc_id : ℕ → ℕ
bare_dc_id shifted = shifted % k_dc_shift

unfoldable pub shift_dc_id : ℕ → ℕ → ℕ
shift_dc_id dc_id value = dc_id + k_dc_shift * value

-- A peer id that `serialize` takes comes back from its serialized form.
pub from_serialized-serialize : (v s : ℕ) → serialize v ≡ ok s → from_serialized s ≡ v
unfolding serialize from_serialized
from_serialized-serialize v s e = ground arith

from_serialized_range :
    (n : ℕ)
    → n < 2 ^ 64
    → (is_reserved (from_serialized n) ≡ false) × (from_serialized n + reserved_flag < 2 ^ 64)
unfolding from_serialized
from_serialized_range n h = ground arith

pub serialize_free : (v : ℕ) → is_reserved v ≡ false → serialize v ≡ ok (v + reserved_flag)
unfolding serialize
serialize_free v h = ground arith

-- Whatever number of 64 bits was read, legacy or not, its peer id can be serialized again, to a
-- number of 64 bits that has the same peer id.
pub serialize-from_serialized :
    (n : ℕ)
    → n < 2 ^ 64
    → (serialize (from_serialized n) ≡ ok (from_serialized n + reserved_flag))
      × (from_serialized n + reserved_flag < 2 ^ 64)
      × (from_serialized (from_serialized n + reserved_flag) ≡ from_serialized n)
serialize-from_serialized n h =
    let (free, fits) = from_serialized_range n h in
    let e = serialize_free (from_serialized n) free in (e, fits, from_serialized-serialize _ _ e)

-- The bare id of a shifted id of a data centre is the id of the data centre, for ids below 10000.
pub bare_dc_id-shift_dc_id :
    (dc_id value : ℕ) → dc_id < k_dc_shift → bare_dc_id (shift_dc_id dc_id value) ≡ dc_id
unfolding bare_dc_id shift_dc_id
bare_dc_id-shift_dc_id dc_id value h = omega arith

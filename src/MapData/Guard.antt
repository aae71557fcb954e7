-- ===== src/MapData/Guard.antt =====
-- `_GuardCount`, on every stream.
use native.Mathlib.Nat.{le-div_iff_mul-le}
use opentele.Prelude.{
  ℕ, zero, suc, ◌*◌, ◌/◌, ◌≤◌, ◌<◌, ◌≡◌, refl, Bool, true, false, arith, ltb, leb, ◌==◌,
  if◌then◌else◌, Bool-cases, inl, inr,
}
use opentele.Exception.{Result, ok, err, t_data_read_map_data_failed}
use opentele.Exec.{◌>>=◌}
use opentele.Qt.DataStream
use opentele.Qt.DataStream.{QDataStream}
use opentele.MapData.Read.{guard_count}
use opentele.MapData.Sections.{room_test}

no_room_test : (count w avail : ℕ) → 0 < w → avail < count * w → ltb (avail / w) count ≡ true
no_room_test count w avail hw h = elim (Bool-cases (ltb (avail / w) count)) [
  | inl e ↦ e
  | inr e ↦
      let fits : count ≤ avail / w = ground arith in
      absurd (omega (arith, (le-div_iff_mul-le hw).0 fits))
]

-- What the guard answers: `count` items of `w` bytes are there or they are not.
abbrev pub verdict : Bool → Result (Unit {0})
verdict fits = if fits then ok tt else err t_data_read_map_data_failed

leb_le : (a b : ℕ) → leb a b ≡ true → a ≤ b
leb_le a b e = ground arith

leb_gt : (a b : ℕ) → leb a b ≡ false → b < a
leb_gt a b e = ground arith

leb_of_le : (a b : ℕ) → a ≤ b → leb a b ≡ true
leb_of_le a b h = ground arith

-- For items of at least one byte, the guard passes exactly where `count * w` bytes are available
-- and raises `TDataReadMapDataFailed` otherwise, and it leaves the stream as it was.
pub guard_count_lem :
    (count w : ℕ) (s : QDataStream)
    → 0 < w
    → guard_count count w s ≡ (verdict (leb (count * w) (DataStream.bytes_available s)), s)
unfolding guard_count ◌>>=◌
guard_count_lem zero w s hw =
    rw (leb_of_le (0 * w) (DataStream.bytes_available s) (omega arith)) refl
guard_count_lem (suc n) w s hw =
    let avail = DataStream.bytes_available s in
    let some_left : (suc n == 0) ≡ false = ground arith in
    elim (Bool-cases (leb (suc n * w) avail)) [
      | inl fits ↦ rw (some_left, fits, room_test (suc n) w avail hw (leb_le _ _ fits)) refl
      | inr short ↦ rw (some_left, short, no_room_test (suc n) w avail hw (leb_gt _ _ short)) refl
    ]

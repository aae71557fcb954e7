-- ===== src/Storage/Names/FilePart.antt =====
-- The file part of a number, read back.
use opentele.Prelude.{
  ℕ, zero, suc, ◌+◌, ◌-◌, ◌*◌, ◌/◌, ◌%◌, ◌^◌, ◌<◌, ◌≡◌, ap, ◌∙◌, List, [], ◌∷◌, ltb, if◌then◌else◌,
  arith,
}
use native.Mathlib.Nat.{
  pow-suc, mod-lt, mod-eq_of_lt, div-add-mod, mul-add-mod_self_left, one-le-pow,
}
use opentele.Storage.Names.{hex_digit, file_part, to_file_part}

-- The number that a file part stands for, its lowest digit first.
unfoldable pub digit_value : ℕ → ℕ
digit_value d = if ltb d 65 then d - 48 else d - 55

unfoldable pub from_file_part : List ℕ → ℕ
unfolding digit_value
from_file_part [] = 0
from_file_part (d ∷ ds) = digit_value d + 16 * from_file_part ds

digit_value-hex_digit : (v : ℕ) → v < 16 → digit_value (hex_digit v) ≡ v
unfolding hex_digit digit_value
digit_value-hex_digit v h = ground arith

regroup_digits : (val s r q m : ℕ) → val ≡ 16 * (m * q + r) + s → val ≡ (m * 16) * q + (16 * r + s)
regroup_digits val s r q m e = omega arith

-- The lowest digit, and those above it.
mod_digits : (m val : ℕ) → 0 < m → val % (m * 16) ≡ val % 16 + 16 * (val / 16 % m)
mod_digits m val h =
    let r = val / 16 % m in
    let s = val % 16 in
    let q = val / 16 / m in
    let small : r < m = mod-lt (val / 16) h in
    let e : val ≡ (m * 16) * q + (16 * r + s) =
      regroup_digits val s r q m (omega (arith, div-add-mod (val / 16) m, div-add-mod val 16)) in
    ap (λ t. t % (m * 16)) e
    ∙ mul-add-mod_self_left (m * 16) q (16 * r + s)
    ∙ mod-eq_of_lt (omega (arith, small))
    ∙ omega arith

from_file_part-file_part : (n val : ℕ) → from_file_part (file_part n val) ≡ val % 16 ^ n
unfolding file_part from_file_part
from_file_part-file_part zero val = omega arith
from_file_part-file_part (suc n) val = rw (pow-suc 16 n) (
    omega (
      arith,
      digit_value-hex_digit (val % 16) (omega arith),
      from_file_part-file_part n (val / 16),
      mod_digits (16 ^ n) val (omega (arith, one-le-pow n 16 (omega arith))),
    ))

-- The file part of a number, read with its lowest digit first, is the number modulo 2 ^ 64.
pub from_file_part-to_file_part : (val : ℕ) → from_file_part (to_file_part val) ≡ val % 2 ^ 64
unfolding to_file_part
from_file_part-to_file_part val = from_file_part-file_part 16 val

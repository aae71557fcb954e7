-- ===== src/Bytes.antt =====
-- The integers of `struct.pack`, `int.to_bytes` and `int.from_bytes`, big-endian and little-endian.
use opentele.Prelude.{
  ℕ, zero, suc, ◌+◌, ◌*◌, ◌/◌, ◌%◌, ◌^◌, ◌≤◌, ◌<◌, ◌≡◌, refl, ap, List, [], ◌∷◌, ◌++◌, arith,
  length, length-append, All, All-append,
}
use native.Mathlib.Nat.{pow-suc}

abbrev pub IsByte : ℕ → Type 0
IsByte b = b < 256

-- `v` in `w` bytes, the highest first.
unfoldable pub big_endian : ℕ → ℕ → List ℕ
big_endian zero v = []
big_endian (suc w) v = big_endian w (v / 256) ++ (v % 256) ∷ []

unfoldable pub little_endian : ℕ → ℕ → List ℕ
little_endian zero v = []
little_endian (suc w) v = (v % 256) ∷ little_endian w (v / 256)

unfoldable pub read_digits : ℕ → List ℕ → ℕ
read_digits acc [] = acc
read_digits acc (b ∷ bs) = read_digits (acc * 256 + b) bs

unfoldable pub from_big_endian : List ℕ → ℕ
unfolding read_digits
from_big_endian bs = read_digits 0 bs

unfoldable pub from_little_endian : List ℕ → ℕ
from_little_endian [] = 0
from_little_endian (b ∷ bs) = b + 256 * from_little_endian bs

pub length-big_endian : (w v : ℕ) → length (big_endian w v) ≡ w
unfolding big_endian
length-big_endian zero v = refl
length-big_endian (suc w) v =
    omega (
      arith,
      length-append (big_endian w (v / 256)) ((v % 256) ∷ []),
      length-big_endian w (v / 256),
    )

pub length-little_endian : (w v : ℕ) → length (little_endian w v) ≡ w
unfolding little_endian
length-little_endian zero v = refl
length-little_endian (suc w) v = ap suc (length-little_endian w (v / 256))

pub big_endian-IsByte : (w v : ℕ) → All IsByte (big_endian w v)
unfolding big_endian
big_endian-IsByte zero v = tt
big_endian-IsByte (suc w) v =
    All-append IsByte (big_endian w (v / 256)) _ (big_endian-IsByte w (v / 256)) (omega arith)

read_digits-append :
    (acc b : ℕ) (bs : List ℕ) → read_digits acc (bs ++ b ∷ []) ≡ read_digits acc bs * 256 + b
unfolding read_digits
read_digits-append acc b [] = refl
read_digits-append acc b (c ∷ bs) = read_digits-append (acc * 256 + c) b bs

pub from_big_endian-big_endian : (w v : ℕ) → v < 256 ^ w → from_big_endian (big_endian w v) ≡ v
unfolding from_big_endian big_endian
from_big_endian-big_endian zero v h = omega arith
from_big_endian-big_endian (suc w) v h = omega (
  arith,
  pow-suc 256 w,
  read_digits-append 0 (v % 256) (big_endian w (v / 256)),
  from_big_endian-big_endian w (v / 256) (omega (arith, pow-suc 256 w)),
)

pub from_little_endian-little_endian :
    (w v : ℕ) → v < 256 ^ w → from_little_endian (little_endian w v) ≡ v
unfolding from_little_endian little_endian
from_little_endian-little_endian zero v h = omega arith
from_little_endian-little_endian (suc w) v h =
    omega (arith, from_little_endian-little_endian w (v / 256) (omega (arith, pow-suc 256 w)))

-- The digit and the one above it fit below the next power.
room : (b p : ℕ) → b < 256 → (b + 1) * p ≤ 256 * p
room b p h = grind arith

read_digits-lt :
    (acc : ℕ) (bs : List ℕ) → All IsByte bs → read_digits acc bs < (acc + 1) * 256 ^ length bs
unfolding read_digits
read_digits-lt acc [] h = omega arith
read_digits-lt acc (b ∷ bs) h = ground (
  arith,
  pow-suc 256 (length bs),
  read_digits-lt (acc * 256 + b) bs h.1,
  ap (λ (t : ℕ). (acc + 1) * t) (pow-suc 256 (length bs)),
  room b (256 ^ length bs) h.0,
)

pub from_big_endian-lt : (bs : List ℕ) → All IsByte bs → from_big_endian bs < 256 ^ length bs
unfolding from_big_endian
from_big_endian-lt bs h = omega (arith, read_digits-lt 0 bs h)

-- ===== src/Storage/Names/Index.antt =====
-- The names of the accounts of a key file are different.
use opentele.Prelude.{
  lt→ltb, drop, ◌≢◌, length-append, sym, ℕ, zero, suc, ◌+◌, ◌-◌, ◌*◌, ◌/◌, ◌%◌, ◌<◌, ◌≡◌, refl, ap,
  ◌∙◌, List, [], ◌∷◌, ◌++◌, ltb, arith, length, Bool-cases, inl, inr,
}
use opentele.Storage.Names.{digits, hash_sign, compose_data_string}

-- The number that decimal digits stand for, behind the number `acc`.
abbrev from_digits : ℕ → List ℕ → ℕ
from_digits acc [] = acc
from_digits acc (d ∷ ds) = from_digits (acc * 10 + (d - 48)) ds

from_digits-append :
    (acc d : ℕ) (ds : List ℕ) → from_digits acc (ds ++ d ∷ []) ≡ from_digits acc ds * 10 + (d - 48)
from_digits-append acc d [] = refl
from_digits-append acc d (x ∷ ds) = from_digits-append (acc * 10 + (x - 48)) d ds

from_digits-digits : (fuel n : ℕ) → n < fuel → from_digits 0 (digits fuel n) ≡ n
unfolding digits
from_digits-digits zero n h = absurd (omega arith)
from_digits-digits (suc fuel) n h = elim (Bool-cases (ltb n 10)) [
  | inl one ↦ rw one (ground arith)
  | inr more ↦
      let tens : from_digits 0 (digits fuel (n / 10)) ≡ n / 10 =
        from_digits-digits fuel (n / 10) (ground arith) in
      rw more (from_digits-append 0 (48 + n % 10) (digits fuel (n / 10)) ∙ rw tens (omega arith))
]

append-injective : (xs ys zs : List ℕ) → xs ++ ys ≡ xs ++ zs → ys ≡ zs
append-injective [] ys zs e = e
append-injective (x ∷ xs) ys zs e = append-injective xs ys zs cc

digits-injective : (i j : ℕ) → digits (i + 2) (i + 1) ≡ digits (j + 2) (j + 1) → i ≡ j
digits-injective i j e =
    let left = from_digits-digits (i + 2) (i + 1) (omega arith) in
    let right = from_digits-digits (j + 2) (j + 1) (omega arith) in
    omega (arith, left, right, ap (from_digits 0) e)

name-longer : (name ds : List ℕ) (d : ℕ) → name ≡ name ++ d ∷ ds → ⊥
name-longer name ds d e = absurd (omega (arith, ap (length {A = ℕ}) e, length-append name (d ∷ ds)))

composed :
    (name : List ℕ) (j : ℕ)
    → compose_data_string name (suc j) ≡ name ++ hash_sign ∷ digits (suc j + 2) (suc j + 1)
unfolding compose_data_string
composed name j = rw (lt→ltb 0 (suc j) (omega arith)) refl

first : (name : List ℕ) → compose_data_string name 0 ≡ name
unfolding compose_data_string
first name = refl

same_index :
    (data_name : List ℕ) (i j : ℕ)
    → compose_data_string data_name i ≡ compose_data_string data_name j
    → i ≡ j
same_index name zero zero e = refl
same_index name zero (suc j) e =
    absurd (name-longer name _ _ (sym (first name) ∙ e ∙ composed name j))
same_index name (suc i) zero e =
    absurd (name-longer name _ _ (sym (first name) ∙ sym e ∙ composed name i))
same_index name (suc i) (suc j) e =
    let same = append-injective name _ _ (sym (composed name i) ∙ e ∙ composed name j) in
    digits-injective (suc i) (suc j) (ap (drop {A = ℕ} 1) same)

-- Accounts of one key file with different indices have different data names.
pub compose_data_string-injective :
    (data_name : List ℕ) (i j : ℕ)
    → i ≢ j
    → compose_data_string data_name i ≢ compose_data_string data_name j
compose_data_string-injective name i j differ e = differ (same_index name i j e)

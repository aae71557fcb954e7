-- ===== src/Exec.antt =====
-- Code that changes an object and may raise. What was changed before a raise stays changed, so the
-- state comes back beside the exception too.
use opentele.Prelude.{ℕ, zero, suc, List, [], ◌∷◌, Bool, true, false}
use opentele.Exception.{Exception, Result, ok, err}

abbrev pub Exec : Type 0 → Type 0 → Type 0
Exec S A = S → Result A × S

module _ {S : Type 0} where
  abbrev pub pure : {A : Type 0} → A → Exec S A
  pure a s = (ok a, s)

  abbrev pub raise : {A : Type 0} → Exception → Exec S A
  raise e s = (err e, s)

  abbrev pub lift : {A : Type 0} → Result A → Exec S A
  lift r s = (r, s)

  abbrev pub gets : {A : Type 0} → (S → A) → Exec S A
  gets f s = (ok (f s), s)

  abbrev pub modify : (S → S) → Exec S Unit
  modify f s = (ok tt, f s)

  abbrev pub continue : {A B : Type 0} → (A → Exec S B) → Result A × S → Result B × S
  continue f (ok a, s) = f a s
  continue f (err e, s) = (err e, s)

  infixl 5 ◌>>=◌ ◌>>◌
  unfoldable pub ◌>>=◌ : {A B : Type 0} → Exec S A → (A → Exec S B) → Exec S B
  ◌>>=◌ m f s = continue f (m s)

  abbrev pub ◌>>◌ : {B : Type 0} → Exec S (Unit {0}) → Exec S B → Exec S B
  m >> n = m >>= λ _. n

  -- A call whose result is not used.
  unfoldable pub discard : {A : Type 0} → Exec S A → Exec S Unit
  unfolding ◌>>=◌
  discard m = m >>= λ _. pure tt

  -- `if c: m`
  unfoldable pub when : Bool → Exec S Unit → Exec S Unit
  when true m = m
  when false m = pure tt

  -- `for x in xs: m(x)`
  unfoldable pub for_each : {A : Type 0} → List A → (A → Exec S Unit) → Exec S Unit
  for_each [] m = pure tt
  for_each (x ∷ xs) m = m x >> for_each xs m

  -- `for i in range(n)`, over the variables `x` that a round changes.
  unfoldable pub repeat : {A : Type 0} → ℕ → (A → Exec S A) → A → Exec S A
  repeat zero f x = pure x
  repeat (suc n) f x = f x >>= repeat n f

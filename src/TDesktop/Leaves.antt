-- ===== src/TDesktop/Leaves.antt =====
-- What a computation over a client leaves where it returns.
use opentele.Prelude.{◌≡◌, refl, Bool, true, false, if◌then◌else◌}
use opentele.Exception.{Exception, Result, ok, err, ok-injective}
use opentele.Exec.{Exec, continue, ◌>>=◌}
use opentele.TDesktop.{TDesktop}

-- A computation that, where it returns, leaves a state with `Q`.
pub record Leaves {A : Type 0} (Q : A → TDesktop → Type 0) (r : Result A × TDesktop) : Type 0 where
  pub at : (a : A) → r.0 ≡ ok a → Q a r.1

pub continue-Leaves :
    {A B : Type 0} (P : A → TDesktop → Type 0) (Q : B → TDesktop → Type 0) (k : A → Exec TDesktop B)
    (r : Result A × TDesktop)
    → Leaves P r
    → ((a : A) (t : TDesktop) → P a t → Leaves Q (k a t))
    → Leaves Q (continue k r)
continue-Leaves P Q k (ok a, t) h next = next a t (h.at a refl)
continue-Leaves P Q k (err e, t) h next = record { at = λ b eq. cc }

pub bind-Leaves :
    {A B : Type 0} (P : A → TDesktop → Type 0) (Q : B → TDesktop → Type 0) (m : Exec TDesktop A)
    (k : A → Exec TDesktop B) (t : TDesktop)
    → Leaves P (m t)
    → ((a : A) (x : TDesktop) → P a x → Leaves Q (k a x))
    → Leaves Q ((m >>= k) t)
unfolding ◌>>=◌
bind-Leaves P Q m k t h next = continue-Leaves P Q k (m t) h next

pub if-Leaves :
    {A : Type 0} (Q : A → TDesktop → Type 0) (b : Bool) (x y : Result A × TDesktop)
    → (b ≡ true → Leaves Q x)
    → (b ≡ false → Leaves Q y)
    → Leaves Q (if b then x else y)
if-Leaves Q true x y hx hy = hx refl
if-Leaves Q false x y hx hy = hy refl

pub returns-Leaves :
    {A : Type 0} (Q : A → TDesktop → Type 0) (a : A) (t : TDesktop) → Q a t → Leaves Q (ok a, t)
returns-Leaves Q a t h = record { at = λ b e. rw (← ok-injective e) h }

pub raises-Leaves :
    {A : Type 0} (Q : A → TDesktop → Type 0) (x : Exception) (t : TDesktop) → Leaves Q (err x, t)
raises-Leaves Q x t = record { at = λ b e. cc }

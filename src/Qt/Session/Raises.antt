-- ===== src/Qt/Session/Raises.antt =====
-- Reads that raise an exception on given bytes.
use opentele.Prelude.{ℕ, ◌≡◌, refl, ap, ◌∙◌, List, ◌++◌, append_assoc}
use opentele.Exception.{Exception, Result, ok, err}
use opentele.Exec.{Exec, raise, continue, ◌>>=◌}
use opentele.Qt.DataStream.{QDataStream}
use opentele.Qt.Session.{Frame, reader, Parses}

-- `m` raises `e` in front of the bytes `bs`, whatever stands before and behind them.
pub record Raises {A : Type 0} (m : Exec QDataStream A) (bs : List ℕ) (e : Exception) : Type 0 where
  pub at : (f : Frame) (done rest : List ℕ) → (m (reader f done (bs ++ rest))).0 ≡ err e

pub raise-Raises : {A : Type 0} (e : Exception) (bs : List ℕ) → Raises (raise {A = A} e) bs e
raise-Raises e bs = record { at = λ f done rest. refl }

continue-err :
    {A B : Type 0} (k : A → Exec QDataStream B) (r : Result A × QDataStream) {e : Exception}
    → r.0 ≡ err e
    → (continue k r).0 ≡ err e
continue-err k (ok a, s) h = cc
continue-err k (err x, s) h = cc

pub first-Raises :
    {A B : Type 0} (m : Exec QDataStream A) (k : A → Exec QDataStream B) (bs : List ℕ)
    (e : Exception)
    → Raises m bs e
    → Raises (m >>= k) bs e
unfolding ◌>>=◌
first-Raises m k bs e h = record { at = λ f done rest. continue-err k _ (h.at f done rest) }

pub bind-Raises :
    {A B : Type 0} (m : Exec QDataStream A) (k : A → Exec QDataStream B) (bs cs : List ℕ) (a : A)
    (e : Exception)
    → Parses m bs a
    → Raises (k a) cs e
    → Raises (m >>= k) (bs ++ cs) e
unfolding ◌>>=◌
bind-Raises m k bs cs a e hm hk = record {
  at = λ f done rest.
      ap (λ t. (continue k (m (reader f done t))).0) (append_assoc bs cs rest)
      ∙ ap (λ r. (continue k r).0) (hm.at f done (cs ++ rest))
      ∙ hk.at f (done ++ bs) rest;
}

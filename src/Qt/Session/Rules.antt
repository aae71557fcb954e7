-- ===== src/Qt/Session/Rules.antt =====
-- How the reads and writes of parts make up those of the whole.
use opentele.Prelude.{
  ℕ, ◌+◌, ◌-◌, ◌≡◌, refl, sym, ap, Bool, true, false, some, List, [], ◌∷◌, ◌++◌, arith, ltb, length,
  append_assoc, append-nil, if◌then◌else◌, slice_mid, length-append, take-append_length, drop_all,
  replicate, length-replicate, take, drop, ◌∙◌, le→ltb_false, Bool-cases, inl, inr, take_all, All,
}
use opentele.Prelude.Int.{pos}
use opentele.Exception.{ok}
use opentele.Exec.{Exec, pure, lift, continue, when, for_each, ◌>>=◌, ◌>>◌}
use opentele.Qt.Buffer
use opentele.Qt.Buffer.{OpenModeFlag}
use opentele.Qt.DataStream.{QDataStream, read_bytes, write_bytes}
use opentele.Qt.Session.{reader, writer, Parses, Writes, Begins}

read_count_enough : (n k : ℕ) → Buffer.read_count (pos n) (n + k) ≡ n
unfolding Buffer.read_count
read_count_enough n k = ground arith

left_behind :
    (done bs rest : List ℕ) → length (done ++ (bs ++ rest)) - length done ≡ length bs + length rest
left_behind done bs rest = omega (arith, length-append done (bs ++ rest), length-append bs rest)

-- A read of as many bytes as `bs` has, at the position of `bs`.
pub buffer_read_mid :
    (q : Bool) (m : OpenModeFlag) (done bs rest : List ℕ)
    → Buffer.read (pos (length bs)) (record {
      qba = some (record { bytes = done ++ (bs ++ rest); null = q });
      mode = m;
      position = length done;
    })
      ≡ (
        bs,
        record {
          qba = some (record { bytes = done ++ (bs ++ rest); null = q });
          mode = m;
          position = length done + length bs;
        },
      )
unfolding Buffer.read
buffer_read_mid q m done bs rest = rw (left_behind done bs rest, read_count_enough, slice_mid)

pub read_bytes-Parses : (n : ℕ) (bs : List ℕ) → length bs ≡ n → Parses (read_bytes n) bs (some bs)
unfolding read_bytes reader
read_bytes-Parses n bs h = record {
  at = λ f done rest.
      rw (← h, buffer_read_mid, le→ltb_false (length bs) (length bs) (omega arith))
        (rw (append_assoc, length-append));
}

pub pure-Parses : {A : Type 0} (a : A) → Parses (pure a) [] a
pure-Parses a = record { at = λ f done rest. rw append-nil refl }

pub bind-Parses :
    {A B : Type 0} (m : Exec QDataStream A) (k : A → Exec QDataStream B) (bs cs : List ℕ) (a : A)
    (b : B)
    → Parses m bs a
    → Parses (k a) cs b
    → Parses (m >>= k) (bs ++ cs) b
unfolding ◌>>=◌
bind-Parses m k bs cs a b hm hk = record {
  at = λ f done rest.
      ap (λ t. continue k (m (reader f done t))) (append_assoc bs cs rest)
      ∙ ap (continue k) (hm.at f done (cs ++ rest))
      ∙ hk.at f (done ++ bs) rest
      ∙ ap (λ t. (ok b, reader f t rest)) (append_assoc done bs cs);
}

pub lift-bind : {A B : Type 0} (a : A) (k : A → Exec QDataStream B) → (lift (ok a) >>= k) ≡ k a
unfolding ◌>>=◌
lift-bind a k = refl

-- A continuation that takes no bytes.
pub bind-Parses_last :
    {A B : Type 0} (m : Exec QDataStream A) (k : A → Exec QDataStream B) (bs : List ℕ) (a : A)
    (b : B)
    → Parses m bs a
    → Parses (k a) [] b
    → Parses (m >>= k) bs b
bind-Parses_last m k bs a b hm hk = rw append-nil at (bind-Parses m k bs [] a b hm hk)

extend : List ℕ → ℕ → List ℕ
extend bytes end =
    if ltb (length bytes) end then bytes ++ replicate (end - length bytes) 0 else bytes

extend_laws :
    (done : List ℕ) (n : ℕ)
    → (take (length done) (extend done (length done + n)) ≡ done)
      × (drop (length done + n) (extend done (length done + n)) ≡ [])
unfolding extend
extend_laws done n = elim (Bool-cases (ltb (length done) (length done + n))) [
  | inl longer ↦ rw longer (
    take-append_length done _,
    drop_all (length done + n) (done ++ replicate (length done + n - length done) 0) (
        omega (
          arith,
          length-append done (replicate (length done + n - length done) 0),
          length-replicate {A = ℕ} (length done + n - length done) 0,
        )),
  )
  | inr same ↦ rw same (take_all _ done (omega arith), drop_all _ done (omega arith))
]

-- A write at the end appends.
overwrite_end :
    (done payload : List ℕ) → Buffer.overwrite done (length done) payload ≡ done ++ payload
unfolding Buffer.overwrite extend
overwrite_end done payload =
    let (front, back) = extend_laws done (length payload) in rw (front, back, append-nil)

pub write_bytes-Begins : (payload : List ℕ) → Begins (write_bytes payload) payload
unfolding write_bytes reader Buffer.write
write_bytes-Begins payload = record {
  at = λ f done. rw (append-nil, append-nil, overwrite_end, length-append);
}

pub Begins-Writes : (m : Exec QDataStream Unit) (bs : List ℕ) → Begins m bs → Writes m bs
Begins-Writes m bs h = record {
  at = λ f done n.
      h.at f done ∙ ap (λ b. (ok tt, writer (record f { null = b }) (done ++ bs))) (sym n);
}

pub write_bytes-Writes : (payload : List ℕ) → Writes (write_bytes payload) payload
write_bytes-Writes payload = Begins-Writes _ payload (write_bytes-Begins payload)

pub pure-Writes : Writes (pure tt) []
pure-Writes = record { at = λ f done n. rw append-nil refl }

pub bind-Writes :
    (m k : Exec QDataStream Unit) (bs cs : List ℕ)
    → Writes m bs
    → Writes k cs
    → Writes (m >> k) (bs ++ cs)
unfolding ◌>>=◌
bind-Writes m k bs cs hm hk = record {
  at = λ f done n.
      ap (continue (λ _. k)) (hm.at f done n)
      ∙ hk.at f (done ++ bs) n
      ∙ ap (λ t. (ok tt, writer f t)) (append_assoc done bs cs);
}

pub bind-Begins :
    (m k : Exec QDataStream Unit) (bs cs : List ℕ)
    → Begins m bs
    → Writes k cs
    → Begins (m >> k) (bs ++ cs)
unfolding ◌>>=◌
bind-Begins m k bs cs hm hk = record {
  at = λ f done.
      ap (continue (λ _. k)) (hm.at f done)
      ∙ hk.at (record f { null = false }) (done ++ bs) refl
      ∙ ap (λ t. (ok tt, writer (record f { null = false }) t)) (append_assoc done bs cs);
}

pub when-Writes :
    (b : Bool) (m : Exec QDataStream Unit) (bs : List ℕ)
    → Writes m bs
    → Writes (when b m) (if b then bs else [])
unfolding when
when-Writes true m bs h = h
when-Writes false m bs h = pure-Writes

-- The bytes of a loop's rounds, one after the other.
abbrev pub concat_map {ℓ} : {A : Type ℓ} → (A → List ℕ) → List A → List ℕ
concat_map f [] = []
concat_map f (x ∷ xs) = f x ++ concat_map f xs

pub for_each-Writes :
    {A : Type 0} (m : A → Exec QDataStream Unit) (f : A → List ℕ) (xs : List A)
    → All (λ x. Writes (m x) (f x)) xs
    → Writes (for_each xs m) (concat_map f xs)
unfolding for_each
for_each-Writes m f [] h = pure-Writes
for_each-Writes m f (x ∷ xs) h = bind-Writes _ _ _ _ h.0 (for_each-Writes m f xs h.1)

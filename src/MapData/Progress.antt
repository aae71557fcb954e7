-- ===== src/MapData/Progress.antt =====
-- Reads never give bytes back, and never mend a status: so the loop of `MapData.read` ends.
use opentele.Prelude.{
  ℕ, zero, suc, ◌+◌, ◌-◌, ◌≤◌, ◌≡◌, Bool, true, false, Option, none, some, List, ltb, if◌then◌else◌,
  arith, length, Bool-cases, inl, inr, length-take, length-drop, drop,
}
use opentele.Prelude.Int.{pos}
use opentele.Exception.{Exception, Result, ok, err}
use opentele.Exec.{Exec, pure, raise, gets, continue, repeat, ◌>>=◌}
use opentele.Qt.ByteArray.{QByteArray}
use opentele.Qt.Buffer
use opentele.Qt.Buffer.{QBuffer}
use opentele.Qt.DataStream.{QDataStream, Status, read_bytes, bytes_available, is_ok}
use opentele.Qt.Primitive.{read_unsigned, read_signed}
use opentele.MapData.{MapData}
use opentele.MapData.Read.{guard_count, read_pair, read_pairs, skip_item, skip_legacy}
use opentele.Qt.Blob.{read_qbytearray, read_payload as read_blob, read_sized}

-- A read that leaves at most the bytes that were there, and a bad status bad.
pub record Shrinks {A : Type 0} (m : Exec QDataStream A) : Type 0 where
  pub left : (s : QDataStream) → bytes_available (m s).1 ≤ bytes_available s
  pub status : (s : QDataStream) → is_ok (m s).1 ≡ true → is_ok s ≡ true

-- What a buffer returns is gone from it.
parts_left :
    (n p : ℕ) (m : Buffer.OpenModeFlag) (q : Option QByteArray)
    → let b : QBuffer = record { qba = q; mode = m; position = p } in
      length (Buffer.read (pos n) b).0 + Buffer.bytes_available (Buffer.read (pos n) b).1
      ≤ Buffer.bytes_available b
unfolding Buffer.bytes_available Buffer.read Buffer.read_count
parts_left n p m none = omega arith
parts_left n p m (some q) =
    let avail = length q.bytes - p in
    let taken = if ltb avail n then avail else n in
    ground (arith, length-take (p + taken - p) (drop p q.bytes), length-drop p q.bytes)

buffer_left :
    (n : ℕ) (b : QBuffer)
    → length (Buffer.read (pos n) b).0 + Buffer.bytes_available (Buffer.read (pos n) b).1
      ≤ Buffer.bytes_available b
buffer_left n b = parts_left n b.position b.mode b.qba

ltb-false-le : (a b : ℕ) → ltb a b ≡ false → b ≤ a
ltb-false-le a b h = ground arith

-- A read of `n` bytes takes them, or leaves a bad status.
device_left :
    (n v : ℕ) (d : Option QBuffer) (st : Status) (m : Buffer.OpenModeFlag)
    → let s : QDataStream = record { device = d; version = v; status = st; mode = m } in
      (bytes_available (read_bytes n s).1 ≤ bytes_available s)
      × (is_ok (read_bytes n s).1 ≡ true
          → (n + bytes_available (read_bytes n s).1 ≤ bytes_available s) × (is_ok s ≡ true))
unfolding read_bytes bytes_available
device_left n v none st m = (omega arith, λ e. cc)
device_left n v (some b) st m = elim (Bool-cases (ltb (length (Buffer.read (pos n) b).0) n)) [
  | inl short ↦ rw short (omega (arith, buffer_left n b), λ e. cc)
  | inr enough ↦ rw enough (
    omega (arith, buffer_left n b),
    λ e. (omega (arith, buffer_left n b, ltb-false-le _ n enough), e),
  )
]

pub taken :
    (n : ℕ) (s : QDataStream)
    → (bytes_available (read_bytes n s).1 ≤ bytes_available s)
      × (is_ok (read_bytes n s).1 ≡ true
          → (n + bytes_available (read_bytes n s).1 ≤ bytes_available s) × (is_ok s ≡ true))
taken n s = device_left n s.version s.device s.status s.mode

read_bytes-Shrinks : (n : ℕ) → Shrinks (read_bytes n)
read_bytes-Shrinks n = record { left = λ s. (taken n s).0; status = λ s e. ((taken n s).1 e).1 }

pub pure-Shrinks : {A : Type 0} (a : A) → Shrinks (pure a)
pure-Shrinks a = record { left = λ s. omega arith; status = λ s e. e }

pub raise-Shrinks : {A : Type 0} (x : Exception) → Shrinks (raise {A = A} x)
raise-Shrinks x = record { left = λ s. omega arith; status = λ s e. e }

gets-Shrinks : {A : Type 0} (f : QDataStream → A) → Shrinks (gets f)
gets-Shrinks f = record { left = λ s. omega arith; status = λ s e. e }

pub if-Shrinks :
    {A : Type 0} (b : Bool) (x y : Exec QDataStream A)
    → Shrinks x
    → Shrinks y
    → Shrinks (if b then x else y)
if-Shrinks true x y hx hy = hx
if-Shrinks false x y hx hy = hy

continue_left :
    {A B : Type 0} (k : A → Exec QDataStream B) (r : Result A × QDataStream)
    → ((a : A) → Shrinks (k a))
    → bytes_available (continue k r).1 ≤ bytes_available r.1
continue_left k (ok a, s) h = (h a).left s
continue_left k (err e, s) h = omega arith

continue_status :
    {A B : Type 0} (k : A → Exec QDataStream B) (r : Result A × QDataStream)
    → ((a : A) → Shrinks (k a))
    → is_ok (continue k r).1 ≡ true
    → is_ok r.1 ≡ true
continue_status k (ok a, s) h e = (h a).status s e
continue_status k (err x, s) h e = e

pub bind-Shrinks :
    {A B : Type 0} (m : Exec QDataStream A) (k : A → Exec QDataStream B)
    → Shrinks m
    → ((a : A) → Shrinks (k a))
    → Shrinks (m >>= k)
unfolding ◌>>=◌
bind-Shrinks m k hm hk = record {
  left = λ s. omega (arith, continue_left k (m s) hk, hm.left s);
  status = λ s e. hm.status s (continue_status k (m s) hk e);
}

pub read_unsigned-Shrinks : (w : ℕ) → Shrinks (read_unsigned w)
unfolding read_unsigned
read_unsigned-Shrinks w = bind-Shrinks _ _ (read_bytes-Shrinks w) (λ b. pure-Shrinks _)

read_signed-Shrinks : (w : ℕ) → Shrinks (read_signed w)
unfolding read_signed
read_signed-Shrinks w = bind-Shrinks _ _ (read_bytes-Shrinks w) (λ b. pure-Shrinks _)

repeat-Shrinks :
    {A : Type 0} (n : ℕ) (f : A → Exec QDataStream A) (a : A)
    → ((x : A) → Shrinks (f x))
    → Shrinks (repeat n f a)
unfolding repeat
repeat-Shrinks zero f a h = pure-Shrinks a
repeat-Shrinks (suc n) f a h = bind-Shrinks _ _ (h a) (λ x. repeat-Shrinks n f x h)

read_blob-Shrinks : (b : Option (List ℕ)) → Shrinks (read_blob b)
unfolding read_blob read_sized
read_blob-Shrinks none = pure-Shrinks _
read_blob-Shrinks (some size_b) =
    if-Shrinks _ _ _ (pure-Shrinks _)
      (bind-Shrinks _ _ (read_bytes-Shrinks _) (λ payload. pure-Shrinks _))

pub read_qbytearray-Shrinks : Shrinks read_qbytearray
unfolding read_qbytearray
read_qbytearray-Shrinks = bind-Shrinks _ _ (read_bytes-Shrinks 4) read_blob-Shrinks

guard_count-Shrinks : (count w : ℕ) → Shrinks (guard_count count w)
unfolding guard_count
guard_count-Shrinks count w = if-Shrinks _ _ _ (pure-Shrinks _) (
    bind-Shrinks _ _ (gets-Shrinks _)
      (λ available. if-Shrinks _ _ _ (raise-Shrinks _) (pure-Shrinks _)))

pub read_pairs-Shrinks :
    (add : ℕ × ℕ → MapData → MapData) (m : MapData) → Shrinks (read_pairs add m)
unfolding read_pairs read_pair
read_pairs-Shrinks add m = bind-Shrinks _ _ (read_unsigned-Shrinks 4) (λ count.
    bind-Shrinks _ _ (guard_count-Shrinks count 16) (λ u. repeat-Shrinks count _ m (λ x.
      bind-Shrinks _ _
        (bind-Shrinks _ _ (read_unsigned-Shrinks 8)
          (λ key. bind-Shrinks _ _ (read_unsigned-Shrinks 8) (λ peer. pure-Shrinks _)))
        (λ p. pure-Shrinks _))))

pub skip_legacy-Shrinks : (m : MapData) → Shrinks (skip_legacy m)
unfolding skip_legacy skip_item
skip_legacy-Shrinks m = bind-Shrinks _ _ (read_unsigned-Shrinks 4) (λ count.
    bind-Shrinks _ _ (guard_count-Shrinks count 28) (λ u. repeat-Shrinks count _ m (λ x.
      bind-Shrinks _ _ (read_unsigned-Shrinks 8) (λ a.
        bind-Shrinks _ _ (read_unsigned-Shrinks 8) (λ b.
          bind-Shrinks _ _ (read_unsigned-Shrinks 8)
            (λ c. bind-Shrinks _ _ (read_signed-Shrinks 4) (λ d. pure-Shrinks _)))))))

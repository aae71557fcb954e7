-- ===== src/MapData/Sections.antt =====
-- One section read back: the rules for a round of the loop, and for rounds one after the other.
use opentele.Prelude.{
  ℕ, zero, suc, ◌*◌, ◌/◌, ◌%◌, ◌^◌, ◌≤◌, ◌<◌, ◌≡◌, refl, ◌∙◌, Bool, true, false, some, List, [],
  ◌++◌, append_assoc, append-nil, arith, ltb, ◌==◌, if◌then◌else◌, length, length-append,
  Bool-cases, inl, inr,
}
use opentele.Exec.{Exec, ◌>>=◌, ◌>>◌}
use opentele.Bytes.{length-big_endian}
use opentele.Qt.DataStream
use opentele.Qt.DataStream.{QDataStream}
use opentele.Qt.Primitive.{read_uint32, read_uint64}
use opentele.Qt.Session.{Frame, reader, Parses}
use opentele.Qt.Session.Rules.{pure-Parses, bind-Parses, bind-Parses_last}
use opentele.Qt.Session.Values.{read_unsigned-Parses}
use native.Mathlib.Nat.{le-div_iff_mul-le}
use opentele.MapData.{MapData}
use opentele.MapData.Keys.{LskType, code, lsk_type-code, lsk_user_map}
use opentele.MapData.Read.{
  more, guard_count, expect_stream_status, read_payload, read_section, read_loop,
}
use opentele.MapData.Layout.{uint32, uint64}

-- What is left of a stream, and whether it is at its end.
pub bytes_available-reader :
    (f : Frame) (done rest : List ℕ) → DataStream.bytes_available (reader f done rest) ≡ length rest
unfolding DataStream.bytes_available reader
bytes_available-reader f done rest = omega (arith, length-append done rest)

pub at_end-reader :
    (f : Frame) (done rest : List ℕ) → DataStream.at_end (reader f done rest) ≡ (length rest == 0)
unfolding DataStream.at_end reader
at_end-reader f done rest = ground (arith, length-append done rest)

pub expect_stream_status-Parses : Parses expect_stream_status [] tt
unfolding expect_stream_status reader
expect_stream_status-Parses = record { at = λ f done rest. rw append-nil refl }

code-lt : (t : LskType) → code t % 256 ^ 4 ≡ code t
code-lt lsk_user_map = refl
code-lt _ = refl

pub read_uint32-Parses : (v : ℕ) → v < 2 ^ 32 → Parses read_uint32 (uint32 v) v
read_uint32-Parses v h = let e : v % 256 ^ 4 ≡ v = omega arith in rw e (read_unsigned-Parses 4 v h)

pub read_uint64-Parses : (v : ℕ) → v < 2 ^ 64 → Parses read_uint64 (uint64 v) v
read_uint64-Parses v h = let e : v % 256 ^ 8 ≡ v = omega arith in rw e (read_unsigned-Parses 8 v h)

read_code-Parses : (t : LskType) → Parses read_uint32 (uint32 (code t)) (code t)
read_code-Parses t = rw (code-lt t) (read_unsigned-Parses 4 (code t) (omega (arith, code-lt t)))

pub room_test : (count w avail : ℕ) → 0 < w → count * w ≤ avail → ltb (avail / w) count ≡ false
room_test count w avail hw h = ground (arith, (le-div_iff_mul-le hw).1 h)

-- The guard lets a loop pass whose bytes are there.
pub guard_count-Parses :
    {A : Type 0} (count w : ℕ) (k : Exec QDataStream A) (bs : List ℕ) (a : A)
    → 0 < w
    → count * w ≤ length bs
    → Parses k bs a
    → Parses (guard_count count w >> k) bs a
unfolding guard_count ◌>>=◌
guard_count-Parses count w k bs a hw fits h = record {
  at = λ f done rest. elim (Bool-cases (count == 0)) [
    | inl none_left ↦ rw none_left (h.at f done rest)
    | inr some_left ↦
        rw
          (
            some_left,
            bytes_available-reader f done (bs ++ rest),
            room_test count w (length (bs ++ rest)) hw (omega (arith, length-append bs rest)),
          )
          (h.at f done rest)
  ];
}

module _ (lenient : Bool) where
  pub read_section-Parses :
      (t : LskType) (bs : List ℕ) (m m' : MapData)
      → Parses (read_payload lenient (some t) m) bs (more m')
      → Parses (read_section lenient m) (uint32 (code t) ++ bs) (more m')
  unfolding read_section
  read_section-Parses t bs m m' h = bind-Parses _ _ _ _ _ _ (read_code-Parses t) (
      rw lsk_type-code (
        bind-Parses_last _ _ _ _ _ h
          (bind-Parses_last _ _ _ _ _ expect_stream_status-Parses (pure-Parses (more m')))))

  -- From `m`, the loop reads the sections `bs` and goes on with `m'`, on fuel that still suffices.
  pub record Chain (bs : List ℕ) (m m' : MapData) : Type 0 where
    pub at :
        (f : Frame) (done rest : List ℕ) (fuel : ℕ)
        → length (bs ++ rest) < fuel
        → (left : ℕ) × (length rest < left)
          × (read_loop lenient fuel m (reader f done (bs ++ rest))
              ≡ read_loop lenient left m' (reader f (done ++ bs) rest))

  pub Chain-nil : (m : MapData) → Chain [] m m
  Chain-nil m = record { at = λ f done rest fuel h. (fuel, h, rw append-nil refl) }

  pub Chain-append :
      (bs cs : List ℕ) (m m' m'' : MapData)
      → Chain bs m m'
      → Chain cs m' m''
      → Chain (bs ++ cs) m m''
  Chain-append bs cs m m' m'' c d = record {
    at = λ f done rest fuel h.
        let (left, fits, e) = c.at f done (cs ++ rest) fuel (rw append_assoc at h) in
        let (left', fits', e') = d.at f (done ++ bs) rest left fits in
        (left', fits', rw (append_assoc bs cs rest, ← append_assoc done bs cs) (e ∙ e'));
  }

  round :
      (bs : List ℕ) (m m' : MapData) (f : Frame) (done rest : List ℕ) (fuel : ℕ)
      → 0 < length bs
      → Parses (read_section lenient m) bs (more m')
      → read_loop lenient (suc fuel) m (reader f done (bs ++ rest))
        ≡ read_loop lenient fuel m' (reader f (done ++ bs) rest)
  unfolding read_loop ◌>>=◌
  round bs m m' f done rest fuel pos h =
      let e : (length (bs ++ rest) == 0) ≡ false = ground (arith, length-append bs rest) in
      rw (at_end-reader f done (bs ++ rest), e, h.at f done rest) refl

  round_at :
      (bs : List ℕ) (m m' : MapData) (f : Frame) (done rest : List ℕ) (fuel : ℕ)
      → 0 < length bs
      → Parses (read_section lenient m) bs (more m')
      → length (bs ++ rest) < fuel
      → (left : ℕ) × (length rest < left)
        × (read_loop lenient fuel m (reader f done (bs ++ rest))
            ≡ read_loop lenient left m' (reader f (done ++ bs) rest))
  round_at bs m m' f done rest zero pos h fits = absurd (omega arith)
  round_at bs m m' f done rest (suc k) pos h fits =
      (k, omega (arith, length-append bs rest), round bs m m' f done rest k pos h)

  pub Chain-section :
      (t : LskType) (bs : List ℕ) (m m' : MapData)
      → Parses (read_payload lenient (some t) m) bs (more m')
      → Chain (uint32 (code t) ++ bs) m m'
  Chain-section t bs m m' h = record {
    at = λ f done rest fuel fits.
        round_at (uint32 (code t) ++ bs) m m' f done rest fuel
          (omega
            (arith, length-append (uint32 (code t)) bs, length-big_endian 4 (code t % 256 ^ 4)))
          (read_section-Parses t bs m m' h) fits;
  }

  pub Chain-if :
      (b : Bool) (bs : List ℕ) (m m' : MapData)
      → (b ≡ true → Chain bs m m')
      → (b ≡ false → m ≡ m')
      → Chain (if b then bs else []) m m'
  Chain-if true bs m m' h k = h refl
  Chain-if false bs m m' h k = rw (k refl) (Chain-nil m')

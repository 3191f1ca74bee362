-- ===== src/Prometheus/Reader/Poll.antt =====
-- `AsyncRead::poll_read` of src/prometheus.rs. `ReadBuf` is tokio's: its operations are an interface,
-- with what its documentation says of them as laws.
use metrics.Common.{
  ℕ, zero, suc, ◌-◌, ◌≤◌, ◌<◌, ◌≡◌, ◌∙◌, refl, ap, sym, subst, Bool, true, false, Bytes, [], ◌++◌,
  Option, none, some, arith, length, drop, min, ltb, if◌then◌else◌, length-drop, length-take,
  append_assoc, append-nil,
}
use metrics.Common.Panic.{Outcome, ok, panic, undefined}
use metrics.Prometheus.Sample.{Memory}
use metrics.Prometheus.Reader.{
  PrometheusReader, refill, chunk, advance, prefixed, read_loop, read_bytes,
}
use metrics.Prometheus.Reader.Reads.{refill-Refilled, Refilled}

-- `remaining` and `put_slice` of `ReadBuf`, and what it holds.
pub record ReadBuf (B : Type 0) : Type 0 where
  pub remaining : B → ℕ
  pub put_slice : Bytes → B → Outcome B
  pub filled : B → Bytes

-- `put_slice` appends; it panics only if the bytes do not fit.
pub record IsLawful {B : Type 0} (buf : ReadBuf B) : Type 0 where
  pub put_slice-fits :
      (bytes : Bytes) (b : B)
      → length bytes ≤ buf.remaining b
      → (b' : B) × (buf.put_slice bytes b ≡ ok b')
        × (buf.filled b' ≡ buf.filled b ++ bytes)
        × (buf.remaining b' ≡ buf.remaining b - length bytes)

module _ {B : Type 0} (buf : ReadBuf B) (memory : ℕ → ℕ → Memory)
    (finite_text : Bytes → Option Bytes) where
  abbrev then_poll :
      (B → Option (Outcome (B × PrometheusReader)))
      → Outcome B
      → Option (Outcome (B × PrometheusReader))
  then_poll more (ok b) = more b
  then_poll more panic = some panic
  then_poll more undefined = some undefined

  -- One round, behind the test that there is room, and the rounds behind it.
  abbrev poll_round :
      (B → PrometheusReader → Option (Outcome (B × PrometheusReader)))
      → B
      → Bool × PrometheusReader
      → Option (Outcome (B × PrometheusReader))
  poll_round next b (true, r) =
      then_poll (λ b'. next b' (advance (buf.remaining b) r))
        (buf.put_slice (chunk (buf.remaining b) r) b)
  poll_round next b (false, r) = some (ok (b, r))

  -- The loop of `poll_read`; nothing, if the fuel runs out.
  unfoldable pub poll_loop : ℕ → B → PrometheusReader → Option (Outcome (B × PrometheusReader))
  unfolding refill
  poll_loop zero b r = if ltb 0 (buf.remaining b) then none else some (ok (b, r))
  poll_loop (suc fuel) b r =
      let round = poll_round (poll_loop fuel) b (refill memory finite_text r) in
      if ltb 0 (buf.remaining b) then round else some (ok (b, r))

  -- `poll_read`, which is always ready
  unfoldable pub poll_read : B → PrometheusReader → Option (Outcome (B × PrometheusReader))
  unfolding poll_loop
  poll_read b r = poll_loop (buf.remaining b) b r

  -- The buffer has taken what the read gave, and the reader is the same.
  abbrev Matches :
      B → Option (Bytes × PrometheusReader) → Option (Outcome (B × PrometheusReader)) → Type 0
  Matches b read polled =
      (bytes : Bytes) × (b' : B) × (r' : PrometheusReader) × (read ≡ some (bytes, r'))
      × (polled ≡ some (ok (b', r')))
      × (buf.filled b' ≡ buf.filled b ++ bytes)

  -- A round that copies `front`, followed by the other rounds.
  put_round :
      (want : ℕ) (b b1 : B) (front : Bytes)
      (next : B → PrometheusReader → Option (Outcome (B × PrometheusReader)))
      (read : PrometheusReader → Option (Bytes × PrometheusReader)) (r : PrometheusReader)
      {polled : Option (Outcome (B × PrometheusReader))}
      → polled ≡ then_poll (λ b'. next b' (advance want r)) (buf.put_slice front b)
      → buf.put_slice front b ≡ ok b1
      → buf.filled b1 ≡ buf.filled b ++ front
      → Matches b1 (read (advance want r)) (next b1 (advance want r))
      → Matches b (prefixed front (read (advance want r))) polled
  put_round want b b1 front next read r round put holds (bytes, b2, r2, e, f, more) = (
    front ++ bytes,
    b2,
    r2,
    ap (prefixed front) e,
    round ∙ ap (then_poll (λ b'. next b' (advance want r))) put ∙ f,
    more ∙ ap (λ t. t ++ bytes) holds ∙ append_assoc (buf.filled b) front bytes,
  )

  module _ (lawful : IsLawful buf) where
    round-Matches :
        (want : ℕ) (b : B) (next : B → PrometheusReader → Option (Outcome (B × PrometheusReader)))
        (read : ℕ → PrometheusReader → Option (Bytes × PrometheusReader))
        → buf.remaining b ≡ want
        → ((b' : B) (r' : PrometheusReader)
            → buf.remaining b' < want
            → r'.offset ≤ length r'.buffer
            → Matches b' (read (buf.remaining b') r') (next b' r'))
        → 0 < want
        → (before : Bytes) (more : Bool) (r : PrometheusReader)
        → Refilled memory finite_text before (more, r)
        → let n = min want (length r.buffer - r.offset) in
          Matches b
            (if more
              then prefixed (chunk want r) (read (want - n) (advance want r))
              else some ([], r))
            (poll_round next b (more, r))
    round-Matches want b next read room behind some_want before false r h =
        ([], b, r, refl, refl, sym (append-nil (buf.filled b)))
    round-Matches want b next read room behind some_want before true r (same, some_left) =
        let n = min want (length r.buffer - r.offset) in
        let size : length (chunk want r) ≡ n =
          length-take n (drop r.offset r.buffer) (omega (arith, length-drop r.offset r.buffer)) in
        let (b1, put, holds, left) = lawful.put_slice-fits (chunk want r) b (omega (arith, size)) in
        let fewer : buf.remaining b1 ≡ want - n = omega (arith, size, left) in
        subst
          (λ k.
            Matches b (prefixed (chunk want r) (read k (advance want r)))
              (poll_round next b (true, r)))
          fewer
          (put_round want b b1 (chunk want r) next (read (buf.remaining b1)) r
            (ap (λ k. then_poll (λ b'. next b' (advance k r)) (buf.put_slice (chunk k r) b)) room)
            put holds (behind b1 (advance want r) (omega arith) (omega arith)))

    poll_loop_full :
        (fuel : ℕ) (b : B) (r : PrometheusReader)
        → buf.remaining b ≡ 0
        → poll_loop fuel b r ≡ some (ok (b, r))
    unfolding poll_loop
    poll_loop_full zero b r room = rw room
    poll_loop_full (suc fuel) b r room = rw room

    poll_loop-Matches :
        (fuel want : ℕ) (b : B) (r : PrometheusReader)
        → buf.remaining b ≡ want
        → want ≤ fuel
        → r.offset ≤ length r.buffer
        → Matches b (read_loop memory finite_text fuel want r) (poll_loop fuel b r)
    unfolding read_loop poll_loop
    poll_loop-Matches fuel zero b r room le valid =
        ([], b, r, refl, poll_loop_full fuel b r room, sym (append-nil (buf.filled b)))
    poll_loop-Matches zero (suc want) b r room le valid = absurd (omega arith)
    poll_loop-Matches (suc fuel) (suc want) b r room le valid =
        let next = refill memory finite_text r in
        let some_room : ltb 0 (buf.remaining b) ≡ true = ground (arith, room) in
        rw some_room (
          round-Matches (suc want) b (poll_loop fuel) (read_loop memory finite_text fuel) room
            (λ b' r' lt ok'. poll_loop-Matches fuel (buf.remaining b') b' r' refl (omega arith) ok')
            (omega arith) _ next.0 next.1 (refill-Refilled memory finite_text r valid))

    -- Over any `ReadBuf` that behaves as documented, and for a reader whose offset is in its buffer,
    -- `poll_read` ends, is ready and never panics; it appends to what the buffer holds exactly the bytes
    -- that `read` puts into a slice of the room that is left, and leaves the reader as `read` does.
    pub poll_read-read_bytes :
        (b : B) (r : PrometheusReader)
        → r.offset ≤ length r.buffer
        → (bytes : Bytes) × (b' : B) × (r' : PrometheusReader) × (read_bytes memory finite_text
              (buf.remaining b)
              r
            ≡ some (bytes, r'))
          × (poll_read b r ≡ some (ok (b', r')))
          × (buf.filled b' ≡ buf.filled b ++ bytes)
    unfolding read_bytes poll_read
    poll_read-read_bytes b r valid =
        poll_loop-Matches (buf.remaining b) (buf.remaining b) b r refl (omega arith) valid

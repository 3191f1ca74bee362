-- ===== src/Prometheus/Reader/Reads.antt =====
-- Reads in pieces of any sizes give the text of the scrape, and each read ends.
use metrics.Common.{
  take-front, drop-front, drop-drop, take_empty, drop_empty, take-take, ℕ, zero, suc, ◌+◌, ◌-◌, ◌≤◌,
  ◌<◌, ◌≡◌, ◌∙◌, refl, ap, sym, subst, Bool, true, false, Bytes, List, [], ◌∷◌, ◌++◌, Option, some,
  arith, length, take, drop, min, Bool-cases, inl, inr, ◌==◌, if◌then◌else◌, length-drop, drop_all,
  sum_of,
}
use metrics.State.{StateSnapshot}
use metrics.Prometheus.Source.{Source}
use metrics.Prometheus.Reader.{
  PrometheusReader, new_reader, next_sample, refill, chunk, advance, prefixed, read_loop, and_then,
  read_bytes, read_all,
}
use metrics.Prometheus.Sample.{Memory, state_header}
use metrics.Prometheus.Reader.Text.{text, remaining, exposition, left_text, families_text}
use metrics.Prometheus.Reader.Step.{left_text-offset, left_text-head, next_sample-Steps}
use metrics.Prometheus.Reader.States.{Steps, states_from_zero}

module _ (memory : ℕ → ℕ → Memory) (finite_text : Bytes → Option Bytes) where
  abbrev rest : PrometheusReader → Bytes
  rest r = remaining memory finite_text r

  -- The bytes that are left, before and after the test at the head of a round.
  abbrev pub Refilled : Bytes → Bool × PrometheusReader → Type 0
  Refilled before (true, r) = (before ≡ rest r) × (r.offset < length r.buffer)
  Refilled before (false, r) = (before ≡ []) × (rest r ≡ []) × (r.offset ≤ length r.buffer)

  Steps-Refilled :
      (before : Bytes) (more : Bool) (r : PrometheusReader)
      → Steps memory finite_text before (more, r)
      → Refilled before (more, r)
  Steps-Refilled before true r (e, some_left, o) =
      (e ∙ ap (λ n. drop n r.buffer ++ text memory finite_text r) (sym o), omega arith)
  Steps-Refilled before false r (e, none_left, empty, o) = (
    e,
    ap (λ n. drop n r.buffer ++ text memory finite_text r) o
        ∙ ap (λ b. b ++ text memory finite_text r) empty
        ∙ none_left,
    omega arith,
  )

  pub refill-Refilled :
      (r : PrometheusReader)
      → r.offset ≤ length r.buffer
      → Refilled (rest r) (refill memory finite_text r)
  unfolding refill
  refill-Refilled r h = elim (Bool-cases (r.offset == length r.buffer)) [
    | inl e ↦
        let next = next_sample memory finite_text r in
        let done : drop r.offset r.buffer ≡ [] = drop_all r.offset r.buffer (ground arith) in
        let step =
          Steps-Refilled (text memory finite_text r) next.0 next.1
            (next_sample-Steps memory finite_text r) in
        subst (λ b. Refilled (rest r) (if b then next else (true, r))) (sym e)
          (subst (λ t. Refilled t next) (sym (ap (λ d. d ++ text memory finite_text r) done)) step)
    | inr e ↦
        let next = next_sample memory finite_text r in
        subst (λ b. Refilled (rest r) (if b then next else (true, r))) (sym e) (refl, ground arith)
  ]

  -- What a call of `read` is to do: the bytes at the front of what is left, and the reader behind them.
  abbrev Reads : ℕ → PrometheusReader → Option (Bytes × PrometheusReader) → Type 0
  Reads want r result =
      (r' : PrometheusReader) × (result ≡ some (take want (rest r), r'))
      × (rest r' ≡ drop want (rest r))
      × (r'.offset ≤ length r'.buffer)

  -- A round that copies `n` bytes, followed by the other rounds.
  copied :
      (want : ℕ) (r : PrometheusReader) (result : Option (Bytes × PrometheusReader))
      → r.offset ≤ length r.buffer
      → Reads (want - min want (length r.buffer - r.offset)) (advance want r) result
      → Reads want r (prefixed (chunk want r) result)
  copied want r result h (r', e, left, valid) =
      let n = min want (length r.buffer - r.offset) in
      let front = drop r.offset r.buffer in
      let more = text memory finite_text r in
      let size : n ≤ length front = omega (arith, length-drop r.offset r.buffer) in
      let moved : rest (advance want r) ≡ drop n front ++ more =
        ap (λ d. d ++ left_text memory finite_text (10 - r.family) (advance want r))
          (sym (drop-drop n r.offset r.buffer))
        ∙ ap (λ t. drop n front ++ t)
            (left_text-offset memory finite_text (10 - r.family) r (r.offset + n)) in
      (
        r',
        ap (prefixed (chunk want r)) e
            ∙ ap (λ t. some (take n front ++ take (want - n) t, r')) moved
            ∙ ap (λ t. some (t, r')) (sym (take-front want n front more (omega arith) size)),
        left ∙ ap (drop (want - n)) moved ∙ sym (drop-front want n front more (omega arith) size),
        valid,
      )

  -- A round of the loop, if the rounds behind it do what they are to do.
  round-Reads :
      (want : ℕ) (r : PrometheusReader)
      (next : ℕ → PrometheusReader → Option (Bytes × PrometheusReader))
      → ((w : ℕ) (r' : PrometheusReader)
          → w < want
          → r'.offset ≤ length r'.buffer
          → Reads w r' (next w r'))
      → 0 < want
      → (more : Bool) (r' : PrometheusReader) → Refilled (rest r) (more, r')
      → let n = min want (length r'.buffer - r'.offset) in
        Reads want r (
          if more
          then prefixed (chunk want r') (next (want - n) (advance want r'))
          else some ([], r'))
  round-Reads want r next behind some_want true r' (same, some_left) =
      let n = min want (length r'.buffer - r'.offset) in
      let (r'', e, left, valid) =
        copied want r' (next (want - n) (advance want r')) (omega arith)
          (behind (want - n) (advance want r') (omega arith) (omega arith)) in
      (
        r'',
        e ∙ ap (λ t. some (take want t, r'')) (sym same),
        left ∙ ap (drop want) (sym same),
        valid,
      )
  round-Reads want r next behind some_want false r' (none_left, ended, valid) = (
    r',
    ap (λ t. some (t, r')) (sym (ap (take want) none_left ∙ take_empty want)),
    ended ∙ sym (ap (drop want) none_left ∙ drop_empty want),
    valid,
  )

  read_loop-Reads :
      (fuel want : ℕ) (r : PrometheusReader)
      → want ≤ fuel
      → r.offset ≤ length r.buffer
      → Reads want r (read_loop memory finite_text fuel want r)
  unfolding read_loop
  read_loop-Reads fuel zero r h k = (r, refl, refl, k)
  read_loop-Reads zero (suc want) r h k = absurd (omega arith)
  read_loop-Reads (suc fuel) (suc want) r h k =
      round-Reads (suc want) r (read_loop memory finite_text fuel)
        (λ w r' w_lt valid. read_loop-Reads fuel w r' (omega arith) valid) (omega arith)
        (refill memory finite_text r).0 (refill memory finite_text r).1 (refill-Refilled r k)

  read_all-Reads :
      (wants : List ℕ) (r : PrometheusReader)
      → r.offset ≤ length r.buffer
      → Reads (sum_of (λ n. n) wants) r (read_all memory finite_text wants r)
  unfolding read_all read_bytes
  read_all-Reads [] r h = (r, refl, refl, h)
  read_all-Reads (want ∷ wants) r h =
      let (r', e, left, valid) = read_loop-Reads want want r (omega arith) h in
      let (r'', e', left', valid') = read_all-Reads wants r' valid in
      let total = sum_of (λ n. n) wants in
      (
        r'',
        ap (and_then (read_all memory finite_text wants)) e
            ∙ ap (prefixed (take want (rest r))) e'
            ∙ ap (λ t. some (take want (rest r) ++ take total t, r'')) left
            ∙ ap (λ t. some (t, r'')) (take-take want total (rest r)),
        left' ∙ ap (drop total) left ∙ drop-drop total want (rest r),
        valid',
      )

  new_reader-exposition :
      (sources : List Source) (states : List StateSnapshot)
      → rest (new_reader sources states) ≡ exposition memory finite_text sources states
  unfolding new_reader left_text exposition families_text
  new_reader-exposition sources states =
      left_text-head memory finite_text 10 (new_reader sources states) refl refl
      ∙ ap (λ t. families_text memory finite_text sources 10 0 ++ (state_header ++ t))
          (states_from_zero memory finite_text states)

  -- Reads into buffers of any sizes all end, and together they give the front of the text of the scrape
  -- that the buffers have room for: the sizes do not matter, and behind the end every read gives nothing.
  pub read_all-exposition :
      (sources : List Source) (states : List StateSnapshot) (wants : List ℕ)
      → (r : PrometheusReader) × (read_all memory finite_text wants (new_reader sources states)
          ≡ some (take (sum_of (λ n. n) wants) (exposition memory finite_text sources states), r))
  read_all-exposition sources states wants =
      let start = new_reader-exposition sources states in
      let (r, e, left, valid) =
        read_all-Reads wants (new_reader sources states) (unfold new_reader in omega arith) in
      (r, e ∙ ap (λ t. some (take (sum_of (λ n. n) wants) t, r)) start)

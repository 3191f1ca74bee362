-- ===== src/Prometheus/Reader/Ends.antt =====
-- A scrape is finite: `next_sample` says at last that nothing is left.
use metrics.Common.{
  ℕ, zero, suc, ◌+◌, ◌<◌, ◌≡◌, ◌∙◌, refl, ap, sym, Bool, true, false, Bytes, List, [], ◌∷◌, ◌++◌,
  Option, none, some, arith, length, All, length-append,
}
use metrics.Prometheus.Sample.{Memory}
use metrics.Prometheus.Reader.{PrometheusReader, next_sample}
use metrics.Prometheus.Reader.Text.{text}
use metrics.Prometheus.Reader.Step.{next_sample-Steps}
use metrics.Prometheus.Reader.States.{Steps}

abbrev pub joined : List Bytes → Bytes
joined [] = []
joined (line ∷ lines) = line ++ joined lines

abbrev pub IsSome : Bytes → Type 0
IsSome line = 0 < length line

module _ (memory : ℕ → ℕ → Memory) (finite_text : Bytes → Option Bytes) where
  abbrev with_line : Bytes → Option (List Bytes) → Option (List Bytes)
  with_line line none = none
  with_line line (some lines) = some (line ∷ lines)

  abbrev line_or_end :
      (PrometheusReader → Option (List Bytes)) → Bool × PrometheusReader → Option (List Bytes)
  line_or_end next (true, r) = with_line r.buffer (next r)
  line_or_end next (false, r) = some []

  -- The lines of all calls until one says that none is left; nothing, if these are not enough.
  unfoldable pub lines : ℕ → PrometheusReader → Option (List Bytes)
  lines zero r = none
  lines (suc calls) r = line_or_end (lines calls) (next_sample memory finite_text r)

  abbrev Ends : Bytes → Option (List Bytes) → Type 0
  Ends t result = (ls : List Bytes) × (result ≡ some ls) × (joined ls ≡ t) × All IsSome ls

  line_or_end-Ends :
      (t : Bytes) (next : PrometheusReader → Option (List Bytes)) (more : Bool)
      (r : PrometheusReader)
      → Steps memory finite_text t (more, r)
      → (length (text memory finite_text r) < length t → Ends (text memory finite_text r) (next r))
      → Ends t (line_or_end next (more, r))
  line_or_end-Ends t next false r (e, _, _, _) behind = ([], refl, sym e, tt)
  line_or_end-Ends t next true r (e, some_left, o) behind =
      let size = length-append r.buffer (text memory finite_text r) in
      let (ls, f, j, each) = behind (omega (arith, ap length e, size)) in
      (
        r.buffer ∷ ls,
        ap (with_line r.buffer) f,
        ap (λ u. r.buffer ++ u) j ∙ sym e,
        (some_left, each),
      )

  lines-Ends :
      (calls : ℕ) (r : PrometheusReader)
      → length (text memory finite_text r) < calls
      → Ends (text memory finite_text r) (lines calls r)
  unfolding lines
  lines-Ends zero r h = absurd (omega arith)
  lines-Ends (suc calls) r h =
      let next = next_sample memory finite_text r in
      line_or_end-Ends (text memory finite_text r) (lines calls) next.0 next.1
        (next_sample-Steps memory finite_text r) (λ lt. lines-Ends calls next.1 (omega arith))

  -- From every state of a reader, `next_sample` says after finitely many calls, at most one more than
  -- bytes are left, that nothing is left. None of the lines that it gave before is empty, and together
  -- they are the text that was left.
  pub lines-text :
      (r : PrometheusReader)
      → (ls : List Bytes) × (lines (length (text memory finite_text r) + 1) r ≡ some ls)
        × (joined ls ≡ text memory finite_text r)
        × All IsSome ls
  lines-text r = lines-Ends (length (text memory finite_text r) + 1) r (omega arith)

-- ===== src/Prometheus/Reader/States.antt =====
-- The states at the end of a scrape: what a call of `next_sample` does behind the families.
use metrics.Common.{
  ℕ, zero, suc, ◌+◌, ◌-◌, ◌≤◌, ◌<◌, ◌≡◌, ◌∙◌, refl, ap, sym, subst, Bool, true, false, Bytes, List,
  [], ◌∷◌, ◌++◌, Option, none, some, arith, length, drop, Option-cases, Bool-cases, inl, inr,
  append_assoc, if◌then◌else◌, length-append,
}
use metrics.State.{StateSnapshot}
use metrics.Prometheus.Source.{Source}
use metrics.Prometheus.Reader.{PrometheusReader, next_field, state_loop, state_part}
use metrics.Prometheus.Sample.{
  Memory, Group, family_row, type_line, write_labels, value_text, sample_text, state_header,
  state_labels, state_text,
}
use metrics.Prometheus.Reader.Text.{field_lines, states_text, states_from, unless, left_text, text}

pub longer : (a b : Bytes) (c : ℕ) → 0 < length (a ++ b ++ c ∷ [])
longer a b c = omega (arith, length-append (a ++ b) (c ∷ []))

pub sample_text_some : (family : ℕ) (s : Source) (g : Group) → 0 < length (sample_text family s g)
unfolding sample_text
sample_text_some family s g =
    longer (write_labels (family_row family).0 s) (value_text family g) b'\n'

state_text_some : (s : StateSnapshot) (field value : Bytes) → 0 < length (state_text s field value)
unfolding state_text
state_text_some s field value = longer (state_labels s field) value b'\n'

pub type_line_some : (family : ℕ) → 0 < length (type_line family)
unfolding type_line
type_line_some family = omega arith

drop-suc :
    {A : Type 0} (xs : List A) (i : ℕ) (a : A) (rest : List A)
    → drop i xs ≡ a ∷ rest
    → drop (suc i) xs ≡ rest
drop-suc [] zero a rest h = absurd (ground arith)
drop-suc [] (suc i) a rest h = absurd (ground arith)
drop-suc (x ∷ xs) zero a rest h = cc h
drop-suc (x ∷ xs) (suc i) a rest h = drop-suc xs i a rest h

drop-next :
    {A : Type 0} (xs : List A) (i : ℕ) (a : A) (rest : List A)
    → drop i xs ≡ a ∷ rest
    → drop (i + 1) xs ≡ rest
drop-next xs i a rest h =
    let e : i + 1 ≡ suc i = omega arith in ap (λ n. drop n xs) e ∙ drop-suc xs i a rest h

module _ (memory : ℕ → ℕ → Memory) (finite_text : Bytes → Option Bytes) where
  -- The bytes `before` are the line that a call has put in the buffer and what is left then; or there
  -- are none, and none are left.
  abbrev pub Steps : Bytes → Bool × PrometheusReader → Type 0
  Steps before (true, r) =
      (before ≡ r.buffer ++ text memory finite_text r) × (0 < length r.buffer) × (r.offset ≡ 0)
  Steps before (false, r) =
      (before ≡ []) × (text memory finite_text r ≡ []) × (r.buffer ≡ []) × (r.offset ≡ 0)

  -- What the next sample of a state is, in terms of the lines of its fields.
  abbrev Found : StateSnapshot → Bytes → Option (Bytes × ℕ) → Type 0
  Found state before none = before ≡ []
  Found state before (some (line, i)) =
      (before ≡ line ++ field_lines memory finite_text state (drop i state.fields))
      × (0 < length line)

  next_field-Found :
      (state : StateSnapshot) (i : ℕ) (rest : List (Bytes × Bytes))
      → drop i state.fields ≡ rest
      → Found state
          (field_lines memory finite_text state rest)
          (next_field memory finite_text state i rest)
  unfolding next_field field_lines
  next_field-Found state i [] h = refl
  next_field-Found state i ((field, value) ∷ rest) h = elim (Option-cases (finite_text value)) [
    | inl bad ↦
        rw bad
          (next_field-Found state (i + 1) rest (drop-next state.fields i (field, value) rest h))
    | inr (line, good) ↦
        let behind = drop-next state.fields i (field, value) rest h in
        rw good (
          ap (λ fields. state_text state field line ++ field_lines memory finite_text state fields)
              (sym behind),
          state_text_some state field line,
        )
  ]

  -- The families are behind the reader.
  record Behind (r : PrometheusReader) : Type 0 where
    families : 10 ≤ r.family
    header : r.header ≡ true
    buffer : r.buffer ≡ []
    offset : r.offset ≡ 0

  text-Behind :
      (r : PrometheusReader)
      → 10 ≤ r.family
      → r.header ≡ true
      → text memory finite_text r
        ≡ states_from memory finite_text r.state_field (drop r.state r.states)
  unfolding left_text
  text-Behind r h e =
      let none_left : 10 - r.family ≡ 0 = omega arith in
      ap (λ n. left_text memory finite_text n r) none_left ∙ rw e refl

  pub states_from_zero :
      (rest : List StateSnapshot)
      → states_from memory finite_text 0 rest ≡ states_text memory finite_text rest
  unfolding states_from states_text
  states_from_zero [] = refl
  states_from_zero (s ∷ rest) = refl

  state_loop-Steps :
      (rest : List StateSnapshot) (r : PrometheusReader)
      → drop r.state r.states ≡ rest
      → Behind r
      → Steps
          (states_from memory finite_text r.state_field rest)
          (state_loop memory finite_text rest r)
  unfolding state_loop states_from
  state_loop-Steps [] r e b =
      (refl, text-Behind r b.families b.header ∙ rw e refl, b.buffer, b.offset)
  state_loop-Steps (s ∷ rest) r e b =
      let later = record r { state = r.state + 1; state_field = 0 } in
      let f = next_field-Found s r.state_field (drop r.state_field s.fields) refl in
      elim (Option-cases
        (next_field memory finite_text s r.state_field (drop r.state_field s.fields))) [
          | inl done ↦
              rw (done, rw done at f, ← states_from_zero rest)
                (state_loop-Steps rest later (drop-next r.states r.state s rest e) (record {
                  families = b.families;
                  header = b.header;
                  buffer = b.buffer;
                  offset = b.offset;
                }))
          | inr ((line, i), found) ↦
              let here = rw found at f in
              let r' : PrometheusReader = record r { state_field = i; buffer = line } in
              let behind : text memory finite_text r'
                  ≡ field_lines memory finite_text s (drop i s.fields)
                    ++ states_text memory finite_text rest =
                text-Behind r' b.families b.header ∙ rw e refl in
              rw found (
                ap (λ before. before ++ states_text memory finite_text rest) here.0
                    ∙ append_assoc line (field_lines memory finite_text s (drop i s.fields))
                        (states_text memory finite_text rest)
                    ∙ ap (λ more. line ++ more) (sym behind),
                here.1,
                b.offset,
              )
        ]

  pub state_part-Steps :
      (r : PrometheusReader)
      → 10 ≤ r.family
      → r.buffer ≡ []
      → r.offset ≡ 0
      → Steps (left_text memory finite_text 0 r) (state_part memory finite_text r)
  unfolding state_part left_text
  state_part-Steps r past e o =
      let more = states_from memory finite_text r.state_field (drop r.state r.states) in
      let later = state_loop memory finite_text (drop r.state r.states) r in
      let r' : PrometheusReader = record r { header = true; buffer = state_header } in
      elim (Bool-cases r.header) [
        | inl h ↦
            subst
              (λ done.
                Steps (unless done state_header ++ more) (if done then later else (true, r')))
              (sym h)
              (state_loop-Steps (drop r.state r.states) r refl
                (record { families = past; header = h; buffer = e; offset = o }))
        | inr h ↦
            subst
              (λ done.
                Steps (unless done state_header ++ more) (if done then later else (true, r')))
              (sym h) (ap (λ t. state_header ++ t) (sym (text-Behind r' past refl)), omega arith, o)
      ]

-- ===== src/Prometheus/Reader/Text.antt =====
-- The text that a scrape is to give, described at once, and the part of it that a reader has left.
use metrics.Common.{
  ℕ, zero, suc, ◌+◌, ◌-◌, Bool, if◌then◌else◌, Bytes, List, [], ◌∷◌, ◌++◌, Option, none, some,
  length, get_elem?, drop,
}
use metrics.Common.Int.{pos}
use metrics.State.{StateSnapshot}
use metrics.Prometheus.Source.{Source, supports}
use metrics.Prometheus.Reader.{PrometheusReader, group}
use metrics.Prometheus.Sample.{Memory, Group, type_line, sample_text, state_header, state_text}

-- A head line, unless it was given.
abbrev pub unless : Bool → Bytes → Bytes
unless done text = if done then [] else text

module _ (memory : ℕ → ℕ → Memory) (finite_text : Bytes → Option Bytes) where
  -- The group of the sources that begins at an index.
  abbrev pub group_at : List Source → ℕ → ℕ → Source → Group
  group_at sources family i first =
      group memory finite_text family first (record { value = 0; gauge = pos 0; next = i })
        (drop i sources)

  -- At a source that the family is of, the sample of its group and what follows the group; at another
  -- one, what follows it.
  abbrev pub lines_at : List Source → ℕ → ℕ → (ℕ → Bytes) → Option Source → Bytes
  lines_at sources family i more none = []
  lines_at sources family i more (some first) =
      let g = group_at sources family i first in
      if supports first.kind family then sample_text family first g ++ more g.next else more (i + 1)

  -- The samples of a family from a source on; `k` bounds how many sources are looked at.
  unfoldable pub lines : List Source → ℕ → ℕ → ℕ → Bytes
  lines sources family zero i = []
  lines sources family (suc k) i =
      lines_at sources family i (lines sources family k) (get_elem? sources i)

  -- The families from one on.
  unfoldable pub families_text : List Source → ℕ → ℕ → Bytes
  unfolding lines
  families_text sources zero family = []
  families_text sources (suc n) family =
      type_line family
      ++ (lines sources family (length sources) 0 ++ families_text sources n (family + 1))

  abbrev field_line : StateSnapshot → Bytes → Option Bytes → Bytes
  field_line state field none = []
  field_line state field (some text) = state_text state field text

  unfoldable pub field_lines : StateSnapshot → List (Bytes × Bytes) → Bytes
  field_lines state [] = []
  field_lines state ((field, value) ∷ rest) =
      field_line state field (finite_text value) ++ field_lines state rest

  unfoldable pub states_text : List StateSnapshot → Bytes
  unfolding field_lines
  states_text [] = []
  states_text (s ∷ rest) = field_lines s s.fields ++ states_text rest

  -- The whole text of a scrape
  unfoldable pub exposition : List Source → List StateSnapshot → Bytes
  unfolding families_text states_text
  exposition sources states = families_text sources 10 0 ++ (state_header ++ states_text states)

  -- What is left of the states from a field of the first one on.
  unfoldable pub states_from : ℕ → List StateSnapshot → Bytes
  unfolding states_text field_lines
  states_from field [] = []
  states_from field (s ∷ rest) = field_lines s (drop field s.fields) ++ states_text rest

  -- What a reader has left behind its buffer, with the given number of families.
  unfoldable pub left_text : ℕ → PrometheusReader → Bytes
  unfolding states_from families_text
  left_text zero r =
      unless r.header state_header ++ states_from r.state_field (drop r.state r.states)
  left_text (suc n) r =
      unless r.header (type_line r.family)
      ++ (lines r.sources r.family (length r.sources - r.source) r.source
          ++ (families_text r.sources n (r.family + 1)
              ++ (state_header ++ states_from r.state_field (drop r.state r.states))))

  abbrev pub text : PrometheusReader → Bytes
  text r = left_text (10 - r.family) r

  -- What a reader has still to give.
  abbrev pub remaining : PrometheusReader → Bytes
  remaining r = drop r.offset r.buffer ++ text r

-- ===== src/Scalar/Totals.antt =====
-- What counters and gauges of src/scalar.rs read after a program over their handles.
use metrics.Common.{
  ℕ, ◌+◌, ◌%◌, ◌^◌, ◌<◌, ◌≡◌, ◌≢◌, ◌∙◌, refl, sym, ap, List, [], ◌∷◌, arith, ite, All, sum_of,
}
use mathlib.Core.Logic.{if_pos, if_neg}
use metrics.Common.Int.{pos}
use metrics.Common.Panic.{ok}
use metrics.Kind.{MetricType, validate}
use metrics.Scalar.{counter, gauge, ScalarRegistry, HashKey, new_registry}
use metrics.Scalar.Keys.{HashKey-discrete}
use metrics.Scalar.Handles.{
  Target, by_plain, by_resource, CounterMetric, GaugeMetric, read_word, request_for, IsValid-for,
}
use metrics.Scalar.Serves.{key_of}
use metrics.Scalar.Value.{
  Update, UpdateFits, IsI64, meaning, update_all, gauge_get, counter_get, counter_add, update_word,
  gauge_get-update_all,
}
use metrics.Scalar.Programs.{
  Command, counts, changes, IsAccepted, word_after, counter_to, gauge_to, exec_all,
  counter_to-perform, gauge_to-perform,
}
use metrics.Scalar.Executed.{perform-after}

-- The updates of the gauges of an identity, in order.
unfoldable pub updates_under : HashKey → List Command → List Update
updates_under k [] = []
updates_under k (counts kind target value ∷ rest) = updates_under k rest
updates_under k (changes kind target update ∷ rest) =
    let behind = updates_under k rest in
    ite (HashKey-discrete (key_of (request_for gauge kind target)) k) (update ∷ behind) behind

-- What a command adds to the counter of an identity.
unfoldable pub amount : HashKey → Command → ℕ
amount k (counts kind target value) =
    ite (HashKey-discrete (key_of (request_for counter kind target)) k) value 0
amount k (changes kind target update) = 0

-- Counters and gauges have different identities.
modes_apart :
    (kind kind' : MetricType) (target target' : Target)
    → key_of (request_for gauge kind target) ≢ key_of (request_for counter kind' target')
modes_apart kind kind' (by_plain name) (by_plain name') h = absurd (ground arith)
modes_apart kind kind' (by_plain name) (by_resource labels') h = absurd (ground arith)
modes_apart kind kind' (by_resource labels) (by_plain name') h = absurd (ground arith)
modes_apart kind kind' (by_resource labels) (by_resource labels') h = absurd (ground arith)

word_after-update_all :
    (kind : MetricType) (target : Target) (commands : List Command) (word : ℕ)
    → let key = key_of (request_for gauge kind target) in
      word_after key commands word ≡ update_all (updates_under key commands) word
unfolding word_after updates_under update_all
word_after-update_all kind target [] word = refl
word_after-update_all kind target (counts kind' target' value ∷ rest) word =
    let key = key_of (request_for gauge kind target) in
    ap (word_after key rest) (
      if_neg (HashKey-discrete (key_of (request_for counter kind' target')) key)
        (λ same. modes_apart kind kind' target target' (sym same)) _ _)
    ∙ word_after-update_all kind target rest word
word_after-update_all kind target (changes kind' target' update ∷ rest) word =
    let key = key_of (request_for gauge kind target) in
    let key' = key_of (request_for gauge kind' target') in
    elim (HashKey-discrete key' key) [
      | yes same ↦
          ap (word_after key rest) (if_pos (HashKey-discrete key' key) same _ _)
          ∙ word_after-update_all kind target rest (update_word update word)
          ∙ ap (λ us. update_all us word) (sym (if_pos (HashKey-discrete key' key) same _ _))
      | no other ↦
          ap (word_after key rest) (if_neg (HashKey-discrete key' key) other _ _)
          ∙ word_after-update_all kind target rest word
          ∙ ap (λ us. update_all us word) (sym (if_neg (HashKey-discrete key' key) other _ _))
    ]

word_after-amount :
    (kind : MetricType) (target : Target) (commands : List Command) (word : ℕ)
    → word < 2 ^ 64
    → let key = key_of (request_for counter kind target) in
      word_after key commands word ≡ (word + sum_of (amount key) commands) % 2 ^ 64
unfolding word_after amount counter_add
word_after-amount kind target [] word h = omega arith
word_after-amount kind target (changes kind' target' update ∷ rest) word h =
    let key = key_of (request_for counter kind target) in
    let behind = word_after-amount kind target rest word h in
    ap (word_after key rest) (
      if_neg (HashKey-discrete (key_of (request_for gauge kind' target')) key)
        (modes_apart kind' kind target' target) _ _)
    ∙ omega (arith, behind)
word_after-amount kind target (counts kind' target' value ∷ rest) word h =
    let key = key_of (request_for counter kind target) in
    let key' = key_of (request_for counter kind' target') in
    elim (HashKey-discrete key' key) [
      | yes same ↦
          let behind = word_after-amount kind target rest (counter_add value word) (omega arith) in
          let own = if_pos (HashKey-discrete key' key) same value 0 in
          ap (word_after key rest) (if_pos (HashKey-discrete key' key) same _ _)
          ∙ omega (arith, behind, own)
      | no other ↦
          let behind = word_after-amount kind target rest word h in
          let none_of_it = if_neg (HashKey-discrete key' key) other value 0 in
          ap (word_after key rest) (if_neg (HashKey-discrete key' key) other _ _)
          ∙ omega (arith, behind, none_of_it)
    ]

-- From a fresh registry every program with valid kinds runs to its end without a panic and without
-- touching memory that is no word. Whoever then asks for a gauge, by a name or by labels, reads the
-- exact result of the program's updates under that identity, in their order, whenever their amounts
-- and that result are `i64`s: counters, other gauges and handles obtained again do not matter.
pub exec_all-gauge :
    (hash : HashKey → ℕ) (commands : List Command) (kind : MetricType) (target : Target)
    → All IsAccepted commands
    → validate kind ≡ ok tt
    → let updates = updates_under (key_of (request_for gauge kind target)) commands in
      All UpdateFits updates
      → IsI64 (meaning updates (pos 0))
      → (registry registry' : ScalarRegistry) × (metric : GaugeMetric) × (word : ℕ) × (exec_all hash
            commands new_registry
          ≡ ok registry)
        × (gauge_to hash kind target registry ≡ ok (metric, registry'))
        × (read_word metric.item registry' ≡ ok word)
        × (gauge_get word ≡ meaning updates (pos 0))
exec_all-gauge hash commands kind target accepted valid fits bound =
    let request = request_for gauge kind target in
    let (registry, registry', p, ran, e, read) =
      perform-after hash commands request accepted (IsValid-for gauge kind target valid) in
    (
      registry,
      registry',
      record { item = p },
      word_after (key_of request) commands 0,
      ran,
      gauge_to-perform hash kind target registry registry' p e,
      read,
      ap gauge_get (word_after-update_all kind target commands 0)
          ∙ gauge_get-update_all (updates_under (key_of request) commands) fits bound,
    )

-- From a fresh registry every program with valid kinds runs to its end without a panic and without
-- touching memory that is no word. Whoever then asks for a counter, by a name or by labels, reads the
-- sum of what the program's commands under that identity add, modulo 2 ^ 64.
pub exec_all-counter :
    (hash : HashKey → ℕ) (commands : List Command) (kind : MetricType) (target : Target)
    → All IsAccepted commands
    → validate kind ≡ ok tt
    → (registry registry' : ScalarRegistry) × (metric : CounterMetric) × (word : ℕ) × (exec_all hash
          commands new_registry
        ≡ ok registry)
      × (counter_to hash kind target registry ≡ ok (metric, registry'))
      × (read_word metric.item registry' ≡ ok word)
      × (counter_get word
          ≡ sum_of (amount (key_of (request_for counter kind target))) commands % 2 ^ 64)
unfolding counter_get
exec_all-counter hash commands kind target accepted valid =
    let request = request_for counter kind target in
    let (registry, registry', p, ran, e, read) =
      perform-after hash commands request accepted (IsValid-for counter kind target valid) in
    (
      registry,
      registry',
      record { item = p },
      word_after (key_of request) commands 0,
      ran,
      counter_to-perform hash kind target registry registry' p e,
      read,
      word_after-amount kind target commands 0 (omega arith) ∙ omega arith,
    )

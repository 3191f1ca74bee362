-- ===== src/Scalar/Programs.antt =====
-- Programs over the handles of src/scalar.rs: each command asks for a handle and updates its word.
use metrics.Common.{
  ℕ, ◌≡◌, sym, subst, List, [], ◌∷◌, none, some, arith, ite, get_elem?_lt, Option-cases, inl, inr,
}
use metrics.Common.Panic.{Outcome, ok, ◌>>=◌}
use metrics.Kind.{MetricType, validate}
use metrics.Storage.{ItemPtr, read_slot}
use metrics.Storage.Holds.{ptr_of}
use metrics.Scalar.{counter, gauge, ScalarRegistry, HashKey}
use metrics.Scalar.Keys.{HashKey-discrete}
use metrics.Scalar.Handles.{
  CounterMetric, GaugeMetric, Target, by_plain, by_resource, new_counter, new_counter_resource,
  new_gauge, new_gauge_resource, read_word, update_word_at, request_for, IsValid-for,
}
use metrics.Scalar.Serves.{
  Request, key_of, IsValid, Contents, find, Serves, Shows, shard_of, perform,
}
use metrics.Scalar.Value.{Update, update_word, counter_add}

-- A counter is asked for and added to; a gauge is asked for and updated.
pub data Command : Type 0 where
  counts : MetricType → Target → ℕ → Command
  changes : MetricType → Target → Update → Command

abbrev pub request_of : Command → Request
request_of (counts kind target value) = request_for counter kind target
request_of (changes kind target update) = request_for gauge kind target

abbrev pub effect : Command → ℕ → ℕ
effect (counts kind target value) word = counter_add value word
effect (changes kind target update) word = update_word update word

-- Kinds without an invalid status code.
abbrev pub IsAccepted : Command → Type 0
IsAccepted (counts kind target value) = validate kind ≡ ok tt
IsAccepted (changes kind target update) = validate kind ≡ ok tt

pub request_of-IsValid : (command : Command) → IsAccepted command → IsValid (request_of command)
request_of-IsValid (counts kind target value) h = IsValid-for counter kind target h
request_of-IsValid (changes kind target update) h = IsValid-for gauge kind target h

-- The word of an identity after the commands.
unfoldable pub word_after : HashKey → List Command → ℕ → ℕ
word_after k [] word = word
word_after k (command ∷ rest) word =
    word_after k rest
      (ite (HashKey-discrete (key_of (request_of command)) k) (effect command word) word)

module _ (hash : HashKey → ℕ) where
  unfoldable pub counter_to :
      MetricType → Target → ScalarRegistry → Outcome (CounterMetric × ScalarRegistry)
  counter_to kind (by_plain name) registry = new_counter hash kind name registry
  counter_to kind (by_resource labels) registry = new_counter_resource hash kind labels registry

  unfoldable pub gauge_to :
      MetricType → Target → ScalarRegistry → Outcome (GaugeMetric × ScalarRegistry)
  gauge_to kind (by_plain name) registry = new_gauge hash kind name registry
  gauge_to kind (by_resource labels) registry = new_gauge_resource hash kind labels registry

  unfoldable pub exec : Command → ScalarRegistry → Outcome ScalarRegistry
  exec (counts kind target value) registry = do
    (metric, registry') ← counter_to kind target registry
    update_word_at metric.item (counter_add value) registry'
  exec (changes kind target update) registry = do
    (metric, registry') ← gauge_to kind target registry
    update_word_at metric.item (update_word update) registry'

  unfoldable pub exec_all : List Command → ScalarRegistry → Outcome ScalarRegistry
  exec_all [] registry = ok registry
  exec_all (command ∷ rest) registry = do registry' ← exec command registry; exec_all rest registry'

  pub counter_to-perform :
      (kind : MetricType) (target : Target) (registry r1 : ScalarRegistry) (p : ItemPtr)
      → perform hash (request_for counter kind target) registry ≡ ok (p, r1)
      → counter_to kind target registry ≡ ok (record { item = p }, r1)
  unfolding counter_to new_counter new_counter_resource perform
  counter_to-perform kind (by_plain name) registry r1 p e = rw e
  counter_to-perform kind (by_resource labels) registry r1 p e = rw e

  pub gauge_to-perform :
      (kind : MetricType) (target : Target) (registry r1 : ScalarRegistry) (p : ItemPtr)
      → perform hash (request_for gauge kind target) registry ≡ ok (p, r1)
      → gauge_to kind target registry ≡ ok (record { item = p }, r1)
  unfolding gauge_to new_gauge new_gauge_resource perform
  gauge_to-perform kind (by_plain name) registry r1 p e = rw e
  gauge_to-perform kind (by_resource labels) registry r1 p e = rw e

  pub exec-perform :
      (command : Command) (registry r1 : ScalarRegistry) (p : ItemPtr)
      → perform hash (request_of command) registry ≡ ok (p, r1)
      → exec command registry ≡ update_word_at p (effect command) r1
  unfolding exec
  exec-perform (counts kind target value) registry r1 p e =
      rw (counter_to-perform kind target registry r1 p e)
  exec-perform (changes kind target update) registry r1 p e =
      rw (gauge_to-perform kind target registry r1 p e)

  pub Shows-read :
      (registry : ScalarRegistry) (c : Contents) (k : HashKey) (n v : ℕ)
      → Serves registry c
      → find k (c (shard_of hash k)) ≡ some n
      → Shows registry c (shard_of hash k) k v
      → read_word (ptr_of (shard_of hash k) n) registry ≡ ok v
  unfolding read_word ptr_of
  Shows-read registry c k n v s found h =
      let j = shard_of hash k in
      let (shard, here) = get_elem?_lt registry.shards j (omega (arith, s.count)) in
      let (r, region) = s.each j shard here in
      rw here (
        subst (λ (g : ℕ). read_slot (ptr_of g n) shard.storage ≡ ok v) region
          (rw found at (h shard here)))

  pub Shows-none :
      (registry : ScalarRegistry) (c : Contents) (k : HashKey) (v : ℕ)
      → Serves registry c
      → find k (c (shard_of hash k)) ≡ none
      → Shows registry c (shard_of hash k) k v
      → v ≡ 0
  Shows-none registry c k v s new h =
      let (shard, here) = get_elem?_lt registry.shards (shard_of hash k) (omega (arith, s.count)) in
      rw new at (h shard here)

  pub read-Shows :
      (registry : ScalarRegistry) (c : Contents) (k : HashKey) (v : ℕ)
      → Serves registry c
      → ((n : ℕ)
          → find k (c (shard_of hash k)) ≡ some n
          → read_word (ptr_of (shard_of hash k) n) registry ≡ ok v)
      → (find k (c (shard_of hash k)) ≡ none → v ≡ 0)
      → Shows registry c (shard_of hash k) k v
  unfolding read_word ptr_of
  read-Shows registry c k v s read new shard here =
      elim (Option-cases (find k (c (shard_of hash k)))) [
        | inl absent ↦ rw absent (new absent)
        | inr (n, found) ↦
            let (r, region) = s.each (shard_of hash k) shard here in
            let value : read_slot (ptr_of (shard_of hash k) n) shard.storage ≡ ok v =
              rw here at (read n found) in
            rw found
              (subst (λ (g : ℕ). read_slot (ptr_of g n) shard.storage ≡ ok v) (sym region) value)
      ]

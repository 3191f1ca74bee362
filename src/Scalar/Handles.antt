-- ===== src/Scalar/Handles.antt =====
-- The handles of src/scalar.rs: how `CounterMetric`, `GaugeMetric` and `ConnMetric` are made over the
-- registry, and the words that they read and update through their pointers.
use metrics.Common.{ℕ, ◌≡◌, ◌≢◌, ◌∙◌, ap, refl, true, false, [], Bytes, arith, get_elem?, set}
use metrics.Common.Panic.{Outcome, ok, panic, ◌>>=◌, ◌>>◌, check, deref, ok-injective}
use metrics.Kind.{MetricType, validate, is_conn, api}
use metrics.Resource.{ResourceLabels}
use metrics.Storage.{ItemPtr, read_slot, update_slot}
use metrics.Scalar.{
  ScalarKind, counter, gauge, ScalarRegistry, HashKey, register_name, register_resource,
}
use metrics.Scalar.Connection
use metrics.Scalar.Value.{gauge_inc, gauge_dec, counter_inc}
use metrics.Scalar.Serves.{
  Request, named, labelled, key_of, IsValid, Contents, Serves, InUse, perform,
}
use metrics.Scalar.Identity.{perform_all, perform-Apart}

pub record CounterMetric : Type 0 where
  pub item : ItemPtr

pub record GaugeMetric : Type 0 where
  pub item : ItemPtr

pub record ConnMetric : Type 0 where
  pub current : GaugeMetric
  pub total : CounterMetric

-- `ScalarPtr::read`: the load behind a pointer.
unfoldable pub read_word : ItemPtr → ScalarRegistry → Outcome ℕ
read_word p registry = do
  shard ← deref (get_elem? registry.shards p.region)
  read_slot p shard.storage

-- An atomic update behind a pointer.
unfoldable pub update_word_at : ItemPtr → (ℕ → ℕ) → ScalarRegistry → Outcome ScalarRegistry
update_word_at p f registry = do
  shard ← deref (get_elem? registry.shards p.region)
  storage' ← update_slot p f shard.storage
  ok (record { shards = set registry.shards p.region (record shard { storage = storage' }) })

abbrev as_gauge : ItemPtr → GaugeMetric
as_gauge item = record { item = item }

abbrev as_counter : ItemPtr → CounterMetric
as_counter item = record { item = item }

abbrev as_conn : GaugeMetric → CounterMetric → ConnMetric
as_conn current total = record { current = current; total = total }

-- The words of a `ConnMetric`: `current` and `total`
unfoldable pub words_of : ConnMetric → ScalarRegistry → Outcome Connection.ConnMetric
words_of conn registry = do
  current ← read_word conn.current.item registry
  total ← read_word conn.total.item registry
  ok (record { current = current; total = total })

-- `ConnMetric::connected`, and the part of `ConnMetric::connection` before the guard
unfoldable pub connect : ConnMetric → ScalarRegistry → Outcome ScalarRegistry
connect conn registry = do
  registry1 ← update_word_at conn.current.item gauge_inc registry
  update_word_at conn.total.item counter_inc registry1

-- `ConnMetric::disconnected`, and the drop of a guard
unfoldable pub disconnect : ConnMetric → ScalarRegistry → Outcome ScalarRegistry
disconnect conn registry = update_word_at conn.current.item gauge_dec registry

-- A name or labels
pub data Target : Type 0 where
  by_plain : Bytes → Target
  by_resource : ResourceLabels → Target

abbrev pub request_for : ScalarKind → MetricType → Target → Request
request_for mode kind (by_plain name) = named kind mode name
request_for mode kind (by_resource labels) = labelled kind mode labels

pub IsValid-for :
    (mode : ScalarKind) (kind : MetricType) (target : Target)
    → validate kind ≡ ok tt
    → IsValid (request_for mode kind target)
IsValid-for mode kind (by_plain name) h = h
IsValid-for mode kind (by_resource labels) h = h

module _ (hash : HashKey → ℕ) where
  -- `CounterMetric::new` and `CounterMetric::new_resource`
  unfoldable pub new_counter :
      MetricType → Bytes → ScalarRegistry → Outcome (CounterMetric × ScalarRegistry)
  new_counter kind name registry = do
    (item, registry') ← register_name hash kind counter name registry
    ok (record { item = item }, registry')

  unfoldable pub new_counter_resource :
      MetricType → ResourceLabels → ScalarRegistry → Outcome (CounterMetric × ScalarRegistry)
  new_counter_resource kind labels registry = do
    (item, registry') ← register_resource hash kind counter labels registry
    ok (record { item = item }, registry')

  -- `GaugeMetric::new` and `GaugeMetric::new_resource`
  unfoldable pub new_gauge :
      MetricType → Bytes → ScalarRegistry → Outcome (GaugeMetric × ScalarRegistry)
  new_gauge kind name registry = do
    (item, registry') ← register_name hash kind gauge name registry
    ok (record { item = item }, registry')

  unfoldable pub new_gauge_resource :
      MetricType → ResourceLabels → ScalarRegistry → Outcome (GaugeMetric × ScalarRegistry)
  new_gauge_resource kind labels registry = do
    (item, registry') ← register_resource hash kind gauge labels registry
    ok (record { item = item }, registry')

  -- `ConnMetric::new` and `ConnMetric::new_resource`
  unfoldable pub new_conn :
      MetricType → Bytes → ScalarRegistry → Outcome (ConnMetric × ScalarRegistry)
  new_conn kind name registry = do
    check (is_conn kind)
    (current, registry1) ← new_gauge kind name registry
    (total, registry2) ← new_counter kind name registry1
    ok (record { current = current; total = total }, registry2)

  unfoldable pub new_conn_resource :
      MetricType → ResourceLabels → ScalarRegistry → Outcome (ConnMetric × ScalarRegistry)
  new_conn_resource kind labels registry = do
    check (is_conn kind)
    (current, registry1) ← new_gauge_resource kind labels registry
    (total, registry2) ← new_counter_resource kind labels registry1
    ok (record { current = current; total = total }, registry2)

  -- The constructor for either
  unfoldable pub connect_to :
      MetricType → Target → ScalarRegistry → Outcome (ConnMetric × ScalarRegistry)
  connect_to kind (by_plain name) = new_conn kind name
  connect_to kind (by_resource labels) = new_conn_resource kind labels

  modes_differ :
      (kind : MetricType) (target : Target)
      → key_of (request_for gauge kind target) ≢ key_of (request_for counter kind target)
  modes_differ kind (by_plain name) h = absurd (ground arith)
  modes_differ kind (by_resource labels) h = absurd (ground arith)

  -- A kind of connections carries no status code.
  is_conn-IsValid : (kind : MetricType) → is_conn kind ≡ true → validate kind ≡ ok tt
  unfolding is_conn validate
  is_conn-IsValid (api code) h = absurd (ground arith)
  is_conn-IsValid kind h = refl

  connect_to-refused :
      (kind : MetricType) (target : Target) (registry : ScalarRegistry)
      → is_conn kind ≡ false
      → connect_to kind target registry ≡ panic
  unfolding connect_to new_conn new_conn_resource
  connect_to-refused kind (by_plain name) registry h = rw h
  connect_to-refused kind (by_resource labels) registry h = rw h

  connect_to-made :
      (kind : MetricType) (target : Target) (registry r1 r2 : ScalarRegistry) (p q : ItemPtr)
      → is_conn kind ≡ true
      → perform hash (request_for gauge kind target) registry ≡ ok (p, r1)
      → perform hash (request_for counter kind target) r1 ≡ ok (q, r2)
      → connect_to kind target registry ≡ ok (as_conn (as_gauge p) (as_counter q), r2)
  unfolding connect_to new_conn new_conn_resource new_gauge new_gauge_resource new_counter
      new_counter_resource perform
  connect_to-made kind (by_plain name) registry r1 r2 p q h e f = rw (h, e, f)
  connect_to-made kind (by_resource labels) registry r1 r2 p q h e f = rw (h, e, f)

  -- On a registry that satisfies the invariant, a `ConnMetric` is made, by a name or by labels, exactly
  -- if the kind is one of connections, and panics otherwise. Then the gauge of current connections and
  -- the counter of all that were made are different words in use, and the invariant holds after it.
  pub connect_to-outcome :
      (kind : MetricType) (target : Target) (registry : ScalarRegistry) (c : Contents)
      → Serves registry c
      → (is_conn kind ≡ false → connect_to kind target registry ≡ panic)
        × (is_conn kind ≡ true
            → (conn : ConnMetric) × (registry' : ScalarRegistry) × (c' : Contents) × (connect_to
                  kind target registry
                ≡ ok (conn, registry'))
              × Serves registry' c'
              × InUse c' conn.current.item
              × InUse c' conn.total.item
              × (conn.current.item ≢ conn.total.item))
  unfolding perform_all
  connect_to-outcome kind target registry c s = (
    connect_to-refused kind target registry,
    λ h.
        let valid = is_conn-IsValid kind h in
        let a =
          perform-Apart hash (request_for gauge kind target) (request_for counter kind target) []
            registry c (IsValid-for gauge kind target valid) (IsValid-for counter kind target valid)
            tt s in
        let second =
          ap (perform hash (request_for counter kind target)) (ok-injective a.between_done)
          ∙ a.second_done in
        (
          as_conn (as_gauge a.p) (as_counter a.q),
          a.r3,
          a.c,
          connect_to-made kind target registry a.r1 a.r3 a.p a.q h a.first_done second,
          a.serves,
          a.p_used,
          a.q_used,
          λ same. modes_differ kind target (a.same_iff.0 same),
        ),
  )

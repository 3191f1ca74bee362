-- ===== src/Scalar/Words.antt =====
-- The words behind the handles of src/scalar.rs: an update changes one of them alone, and a
-- `ConnMetric` does to its two words what the steps of connections say.
use metrics.Common.{
  ℕ, ◌≡◌, ◌≢◌, ◌∙◌, refl, sym, ap, some, arith, get_elem?, set, length-set, inl, inr,
}
use metrics.Common.Panic.{ok, ok-injective, ◌>>=◌}
use metrics.Storage.{Storage, ItemPtr}
use metrics.Storage.Holds.{Holds, ptr_of}
use metrics.Storage.Lists.{get_elem?-set_cases}
use metrics.Keyed.Registered.{RegisteredIn-storage}
use metrics.Keyed.Words.{read_at, update_at, update_at-registry, update_at-Updated}
use metrics.Scalar.{ScalarMeta, Shard, ScalarRegistry}
use metrics.Scalar.Keys.{HashKey-discrete, meta_key, existing_key, existing_key-storage}
use metrics.Scalar.Serves.{Contents, Serves, InUse}
use metrics.Scalar.Value.{gauge_inc, gauge_dec, counter_inc}
use metrics.Scalar.Connection
use metrics.Scalar.Connection.{connected, disconnected}
use metrics.Scalar.Handles.{ConnMetric, read_word, update_word_at, words_of, connect, disconnect}

abbrev storage_of : Shard → Storage ℕ ScalarMeta
storage_of shard = shard.storage

abbrev with_storage : Storage ℕ ScalarMeta → Shard → Shard
with_storage s shard = record shard { storage = s }

read_word-read_at :
    (p : ItemPtr) (registry : ScalarRegistry)
    → read_word p registry ≡ read_at storage_of with_storage (λ s shard. refl) p registry.shards
unfolding read_word read_at
read_word-read_at p registry = refl

update_word_at-update_at :
    (p : ItemPtr) (f : ℕ → ℕ) (registry : ScalarRegistry)
    → update_word_at p f registry ≡ (
        update_at storage_of with_storage (λ s shard. refl) p f registry.shards >>= λ shards'.
        ok (record { shards = shards' }))
unfolding update_word_at
update_word_at-update_at p f registry =
    update_at-registry storage_of with_storage (λ s shard. refl)
      (λ shards. record { shards = shards }) p f registry.shards

-- What an update of the word behind a pointer leaves.
pub record UpdatedTo (registry registry' : ScalarRegistry) (c : Contents) (p : ItemPtr) (f : ℕ → ℕ)
    : Type 0 where
  pub serves : Serves registry' c
  pub value : ℕ
  pub before : read_word p registry ≡ ok value
  pub after : read_word p registry' ≡ ok (f value)
  pub others : (q : ItemPtr) → InUse c q → p ≢ q → read_word q registry' ≡ read_word q registry

set_same-Serves :
    (registry : ScalarRegistry) (c : Contents) (i : ℕ) (shard : Shard) (s' : Storage ℕ ScalarMeta)
    → Serves registry c
    → get_elem? registry.shards i ≡ some shard
    → Holds 0 s' (c i)
    → s'.region ≡ i
    → Serves (record { shards = set registry.shards i (with_storage s' shard) }) c
set_same-Serves registry c i shard s' s found h region = record {
  count = length-set registry.shards i (with_storage s' shard) ∙ s.count;
  each = λ j x e. elim (get_elem?-set_cases registry.shards i (with_storage s' shard) j e) [
    | inl (other, old) ↦ s.each j x old
    | inr (same, eq) ↦
        let (r, there) = s.each i shard found in
        rw (same, ← eq)
          (
            RegisteredIn-storage 0 HashKey-discrete meta_key (λ m. m.item)
                (λ k. existing_key k shard) _ shard.storage s' (c i) r h (region ∙ sym there)
                (λ k. existing_key-storage k shard s'),
            region,
          )
  ];
}

pub update_word_at-UpdatedTo :
    (registry : ScalarRegistry) (c : Contents) (p : ItemPtr) (f : ℕ → ℕ)
    → Serves registry c
    → InUse c p
    → (registry' : ScalarRegistry) × (update_word_at p f registry ≡ ok registry')
      × UpdatedTo registry registry' c p f
update_word_at-UpdatedTo registry c p f s used =
    let u =
      update_at-Updated storage_of with_storage (λ s shard. refl) 0 registry.shards c used.shard
        used.place f (λ j shard e. ((s.each j shard e).0.holds, (s.each j shard e).1))
        (omega (arith, s.count, used.shard_lt)) used.place_lt in
    let shard' = with_storage u.storage' u.shard in
    let registry' : ScalarRegistry = record { shards = set registry.shards used.shard shard' } in
    (
      registry',
      update_word_at-update_at p f registry ∙ rw (used.at, u.done),
      record {
        serves =
            set_same-Serves registry c used.shard u.shard u.storage' s u.found u.holds u.region;
        value = u.value;
        before = rw (used.at, read_word-read_at (ptr_of used.shard used.place) registry) u.read;
        after = rw (used.at, read_word-read_at (ptr_of used.shard used.place) registry') u.self;
        others = λ q other apart.
            rw (other.at, read_word-read_at (ptr_of other.shard other.place) registry')
              (u.others other.shard other.place other.place_lt
                  (λ e. apart (cc (used.at, other.at, e.0, e.1)))
                ∙ sym (read_word-read_at (ptr_of other.shard other.place) registry));
      },
    )

-- Let both words of a `ConnMetric` be in use, and different, in a registry that satisfies the invariant.
-- Then `connected` and `disconnected` through its handles succeed and keep the invariant; they do to the
-- two words what the steps of connections do to a pair of words, and change no other word in use.
pub connect-words :
    (registry : ScalarRegistry) (c : Contents) (conn : ConnMetric)
    → Serves registry c
    → InUse c conn.current.item
    → InUse c conn.total.item
    → conn.current.item ≢ conn.total.item
    → (w : Connection.ConnMetric) × (r1 r2 : ScalarRegistry) × (words_of conn registry ≡ ok w)
      × (connect conn registry ≡ ok r1)
      × Serves r1 c
      × (words_of conn r1 ≡ ok (connected w))
      × (disconnect conn registry ≡ ok r2)
      × Serves r2 c
      × (words_of conn r2 ≡ ok (disconnected w))
      × ((q : ItemPtr)
          → InUse c q
          → conn.current.item ≢ q
          → conn.total.item ≢ q
          → (read_word q r1 ≡ read_word q registry) × (read_word q r2 ≡ read_word q registry))
unfolding words_of connect disconnect connected disconnected
connect-words registry c conn s current total apart =
    let (r0, up, u) = update_word_at-UpdatedTo registry c conn.current.item gauge_inc s current in
    let (r1, counted, t) =
      update_word_at-UpdatedTo r0 c conn.total.item counter_inc u.serves total in
    let (r2, down, d) = update_word_at-UpdatedTo registry c conn.current.item gauge_dec s current in
    let total_before = sym (u.others conn.total.item total apart) ∙ t.before in
    let current_after = t.others conn.current.item current (λ e. apart (sym e)) ∙ u.after in
    let total_kept = d.others conn.total.item total apart ∙ total_before in
    let same : ok d.value ≡ ok u.value = sym d.before ∙ u.before in
    (
      record { current = u.value; total = t.value },
      r1,
      r2,
      rw (u.before, total_before),
      rw (up, counted),
      t.serves,
      rw (current_after, t.after),
      down,
      d.serves,
      rw (d.after, total_kept)
          (ap (λ x. ok (record { current = gauge_dec x; total = t.value })) (ok-injective same)),
      λ q used first second.
          (t.others q used second ∙ u.others q used first, d.others q used first),
    )

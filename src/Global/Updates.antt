-- ===== src/Global/Updates.antt =====
-- An update through a handle changes the counters of its identity, and no other.
use metrics.Common.{
  ℕ, ◌<◌, ◌≡◌, ◌≢◌, ◌∙◌, sym, ap, refl, subst, Option, none, some, arith, length, get_elem?, set,
  Option-cases, inl, inr, length-set,
}
use mathlib.Core.Logic.{if_pos, if_neg}
use metrics.Common.Panic.{ok, ◌>>=◌}
use metrics.Slot.{Slot, default}
use metrics.Storage.{Storage, ItemPtr}
use metrics.Storage.Holds.{ptr_of, Holds}
use metrics.Storage.Lists.{get_elem?-set_cases}
use metrics.Keyed.Words.{read_at, update_at, update_at-registry, update_at-Updated}
use metrics.Registry.{MetricMeta, Shard}
use metrics.Keyed.Find.{find_by_lt, find_by-injective}
use metrics.Registry.Keys.{Key, Key-discrete, find_key, meta_key, existing_key}
use metrics.Keyed.Registered.{RegisteredIn-storage}
use metrics.Registry.Maps.{existing_key-storage}
use metrics.Global.{Registry, shard_count, shard_of, read_item, update_item}
use metrics.Global.Defined.{Contents, Serves}
use metrics.Global.Counters.{View, put, or_default, at, lift, find, Views, some-or_default}

abbrev storage_of : Shard → Storage Slot MetricMeta
storage_of shard = shard.storage

abbrev with_storage : Storage Slot MetricMeta → Shard → Shard
with_storage s shard = record shard { storage = s }

read_item-read_at :
    (p : ItemPtr) (registry : Registry)
    → read_item p registry ≡ read_at storage_of with_storage (λ s shard. refl) p registry.shards
unfolding read_item read_at
read_item-read_at p registry = refl

update_item-update_at :
    (p : ItemPtr) (f : Slot → Slot) (registry : Registry)
    → update_item p f registry ≡ (
        update_at storage_of with_storage (λ s shard. refl) p f registry.shards >>= λ shards'.
        ok (record { shards = shards' }))
unfolding update_item
update_item-update_at p f registry =
    update_at-registry storage_of with_storage (λ s shard. refl)
      (λ shards. record { shards = shards }) p f registry.shards

slot_shown :
    (o : Option Slot) (slot : Slot)
    → lift (some (or_default o)) ≡ some (ok slot)
    → or_default o ≡ slot
slot_shown none slot h = cc h
slot_shown (some x) slot h = cc h

module _ (hash : Key → ℕ) where
  -- A shard with its slots updated has registered what it had.
  set_same-Serves :
      (registry : Registry) (c : Contents) (i : ℕ) (shard : Shard) (s' : Storage Slot MetricMeta)
      → Serves hash registry c
      → get_elem? registry.shards i ≡ some shard
      → Holds default s' (c i)
      → s'.region ≡ i
      → Serves hash (record { shards = set registry.shards i (with_storage s' shard) }) c
  set_same-Serves registry c i shard s' s found h region = record {
    count = length-set registry.shards i (with_storage s' shard) ∙ s.count;
    each = λ j x e. elim (get_elem?-set_cases registry.shards i (with_storage s' shard) j e) [
      | inl (other, old) ↦ s.each j x old
      | inr (same, eq) ↦
          let (r, there) = s.each i shard found in
          rw (same, ← eq)
            (
              RegisteredIn-storage default Key-discrete meta_key (λ m. m.item)
                  (λ k. existing_key k shard) _ shard.storage s' (c i) r h (region ∙ sym there)
                  (λ k. existing_key-storage k shard s'),
              region,
            )
    ];
    routed = s.routed;
  }

  -- The slot of a place in use can be read and updated; the registry stays in good order, and no
  -- other slot in use changes.
  update_item-Serves :
      (registry : Registry) (c : Contents) (i n : ℕ) (f : Slot → Slot)
      → Serves hash registry c
      → i < shard_count
      → n < length (c i)
      → (registry' : Registry) × (slot : Slot) × (read_item (ptr_of i n) registry ≡ ok slot)
        × (update_item (ptr_of i n) f registry ≡ ok registry')
        × Serves hash registry' c
        × (read_item (ptr_of i n) registry' ≡ ok (f slot))
        × ((j k : ℕ)
            → k < length (c j)
            → ¬ ((i ≡ j) × (k ≡ n))
            → read_item (ptr_of j k) registry' ≡ read_item (ptr_of j k) registry)
  update_item-Serves registry c i n f s i_lt n_lt =
      let u =
        update_at-Updated storage_of with_storage (λ s shard. refl) default registry.shards c i n f
          (λ j shard e. ((s.each j shard e).0.holds, (s.each j shard e).1))
          (omega (arith, s.count, i_lt)) n_lt in
      let registry' : Registry = record {
        shards = set registry.shards i (with_storage u.storage' u.shard);
      } in
      (
        registry',
        u.value,
        read_item-read_at (ptr_of i n) registry ∙ u.read,
        update_item-update_at (ptr_of i n) f registry ∙ rw u.done,
        set_same-Serves registry c i u.shard u.storage' s u.found u.holds u.region,
        read_item-read_at (ptr_of i n) registry' ∙ u.self,
        λ j k k_lt apart.
            read_item-read_at (ptr_of j k) registry'
            ∙ u.others j k k_lt apart
            ∙ sym (read_item-read_at (ptr_of j k) registry),
      )

  -- Another identity's counters stand elsewhere.
  at-others :
      (registry registry' : Registry) (c : Contents) (key : Key) (n : ℕ) (k : Key)
      → find hash c key ≡ some n
      → key ≢ k
      → ((j m : ℕ)
          → m < length (c j)
          → ¬ ((shard_of hash key ≡ j) × (m ≡ n))
          → read_item (ptr_of j m) registry' ≡ read_item (ptr_of j m) registry)
      → at registry' (shard_of hash k) (find hash c k)
        ≡ at registry (shard_of hash k) (find hash c k)
  at-others registry registry' c key n k found other kept = elim (Option-cases (find hash c k)) [
    | inl new ↦ rw new
    | inr (m, there) ↦
        let apart : ¬ ((shard_of hash key ≡ shard_of hash k) × (m ≡ n)) = λ e. other (
          find_by-injective Key-discrete meta_key key k (c (shard_of hash k))
            (ap (λ (g : ℕ). find_key key (c g)) (sym e.0) ∙ found) there (sym e.1)) in
        rw (
          there,
          kept (shard_of hash k) m (find_by_lt Key-discrete meta_key k (c (shard_of hash k)) there)
              apart,
        )
  ]

  -- The slot behind a registered identity can be updated; the registry stays in good order, and the
  -- counters of that identity alone change.
  pub update-Views :
      (registry : Registry) (c : Contents) (view : View) (key : Key) (n : ℕ) (f : Slot → Slot)
      → Views hash registry c view
      → find hash c key ≡ some n
      → (registry' : Registry) × (update_item (ptr_of (shard_of hash key) n) f registry
          ≡ ok registry')
        × Views hash registry' c (put view key (f (or_default (view key))))
  update-Views registry c view key n f v found =
      let i = shard_of hash key in
      let (registry', slot, value, done, serves, self, others) =
        update_item-Serves registry c i n f v.serves (omega arith)
          (find_by_lt Key-discrete meta_key key (c i) found) in
      let seen : some (read_item (ptr_of i n) registry) ≡ lift (view key) =
        rw found at (v.shown key) in
      let current : or_default (view key) ≡ slot =
        slot_shown (view key) slot (sym (some-or_default (view key) seen) ∙ ap some value) in
      (
        registry',
        done,
        record {
          serves = serves;
          shown = λ k. elim (Key-discrete key k) [
            | yes same ↦
                subst
                  (λ (k : Key).
                    at registry' (shard_of hash k) (find hash c k)
                    ≡ lift (some (f (or_default (view key)))))
                  same (rw (found, self, current))
                ∙ ap lift (sym (if_pos (Key-discrete key k) same _ _))
            | no other ↦
                at-others registry registry' c key n k found other others
                ∙ v.shown k
                ∙ ap lift (sym (if_neg (Key-discrete key k) other _ _))
          ];
        },
      )

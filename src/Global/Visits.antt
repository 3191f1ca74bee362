-- ===== src/Global/Visits.antt =====
-- A visit of the whole registry, and its length.
use metrics.Common.{
  ℕ, zero, suc, ◌+◌, ◌<◌, ◌≡◌, ◌≢◌, ◌∙◌, refl, sym, ap, ◌≤◌, All, All-append, All-imp, get_elem?_lt,
  List, [], ◌∷◌, ◌++◌, some, arith, length, get_elem?,
}
use metrics.Common.Panic.{ok}
use metrics.Slot.{Slot, default}
use metrics.Storage.{Storage}
use metrics.Keyed.Visits.{all_of, Shards-each, visits-Shards, sums-Shards}
use metrics.Registry.{MetricMeta, Shard}
use metrics.Registry.Keys.{Key, meta_key, find_key}
use metrics.Global.{Registry, shard_of, visit_shards, for_each_meta, sum_shards}
use metrics.Global.Defined.{Contents, Serves}

-- A property of every place of a list is one of all its elements.
pub All-each :
    (P : MetricMeta → Type 0) (ms : List MetricMeta)
    → ((n : ℕ) (m : MetricMeta) → get_elem? ms n ≡ some m → P m)
    → All P ms
All-each P [] h = tt
All-each P (m ∷ ms) h = (h 0 m refl, All-each P ms (λ n x e. h (suc n) x e))

-- No two items stand for one identity.
abbrev pub Distinct : List MetricMeta → Type 0
Distinct [] = Unit
Distinct (m ∷ ms) = All (λ x. meta_key m ≢ meta_key x) ms × Distinct ms

Distinct-each :
    (ms : List MetricMeta)
    → ((n k : ℕ) (m x : MetricMeta)
        → get_elem? ms n ≡ some m
        → get_elem? ms k ≡ some x
        → meta_key m ≡ meta_key x
        → n ≡ k)
    → Distinct ms
Distinct-each [] h = tt
Distinct-each (m ∷ ms) h = (
  All-each (λ x. meta_key m ≢ meta_key x) ms
      (λ n x e same. absurd (omega (arith, h 0 (suc n) m x refl e same))),
  Distinct-each ms (λ n k m' x e e' same. omega (arith, h (suc n) (suc k) m' x e e' same)),
)

Distinct-append :
    (xs ys : List MetricMeta)
    → Distinct xs
    → Distinct ys
    → All (λ x. All (λ y. meta_key x ≢ meta_key y) ys) xs
    → Distinct (xs ++ ys)
Distinct-append [] ys hx hy apart = hy
Distinct-append (x ∷ xs) ys (first, hx) hy (far, apart) =
    (All-append (λ y. meta_key x ≢ meta_key y) xs ys first far, Distinct-append xs ys hx hy apart)

abbrev storage : Shard → Storage Slot MetricMeta
storage shard = shard.storage

module _ (hash : Key → ℕ) (registry : Registry) (c : Contents)
    (serves : Serves hash registry c) where
  abbrev route : MetricMeta → ℕ
  route m = shard_of hash (meta_key m)

  routed_from : (i n : ℕ) → All (λ m. i ≤ route m) (all_of c i n)
  routed_from i zero = tt
  routed_from i (suc n) =
      All-append (λ m. i ≤ route m) (c i) (all_of c (suc i) n)
        (All-each (λ m. i ≤ route m) (c i) (λ k m e. omega (arith, serves.routed i k m e)))
        (All-imp (λ m h. omega arith) (all_of c (suc i) n) (routed_from (suc i) n))

  shard_at : (i : ℕ) → i < 64 → (shard : Shard) × (get_elem? registry.shards i ≡ some shard)
  shard_at i h = get_elem?_lt registry.shards i (omega (arith, serves.count))

  once : (i : ℕ) → i < 64 → Distinct (c i)
  once i h =
      let (shard, at) = shard_at i h in
      let r = (serves.each i shard at).0 in
      Distinct-each (c i) (λ n k m x e e' same.
        let both : some n ≡ some k =
          sym (r.once n m e) ∙ ap (λ key. find_key key (c i)) same ∙ r.once k x e' in
        cc both)

  all_of-Distinct : (i n : ℕ) → i + n ≤ 64 → Distinct (all_of c i n)
  all_of-Distinct i zero h = tt
  all_of-Distinct i (suc n) h =
      Distinct-append (c i) (all_of c (suc i) n) (once i (omega arith))
        (all_of-Distinct (suc i) n (omega arith))
        (All-each (λ x. All (λ y. meta_key x ≢ meta_key y) (all_of c (suc i) n)) (c i)
          (λ k x e.
            All-imp
              (λ y far same.
                let there = serves.routed i k x e in
                let moved = ap (shard_of hash) same in absurd (omega arith))
              (all_of c (suc i) n) (routed_from (suc i) n)))

  -- On a registry whose shards have registered `c`, a visit shows all of it, shard by shard and in the
  -- order of registration, without a panic or a read of an entry that was not written; no identity is
  -- shown twice; and the sum of the published lengths is the number of the items shown.
  pub for_each_meta-Serves :
      (for_each_meta registry ≡ ok (all_of c 0 64))
      × Distinct (all_of c 0 64)
      × (sum_shards registry.shards ≡ ok (length (all_of c 0 64)))
  unfolding for_each_meta visit_shards sum_shards
  for_each_meta-Serves =
      let good =
        Shards-each storage default c registry.shards
          (λ j shard e. (serves.each j shard e).0.holds) in
      (
        visits-Shards storage default visit_shards refl (λ shard rest. refl) c 0 registry.shards
              good
            ∙ ap (λ n. ok (all_of c 0 n)) serves.count,
        all_of-Distinct 0 64 (omega arith),
        sums-Shards storage default sum_shards refl (λ shard rest. refl) c 0 registry.shards good
            ∙ ap (λ n. ok (length (all_of c 0 n))) serves.count,
      )

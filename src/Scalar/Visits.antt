-- ===== src/Scalar/Visits.antt =====
-- A visit of the registry of counters and gauges, and its length.
use metrics.Common.{ℕ, ◌≡◌, ◌∙◌, refl, ap, length}
use metrics.Common.Panic.{ok}
use metrics.Storage.{Storage}
use metrics.Keyed.Visits.{all_of, Shards-each, visits-Shards, sums-Shards}
use metrics.Scalar.{ScalarMeta, Shard, ScalarRegistry, visit_shards, for_each, sum_shards, len}
use metrics.Scalar.Serves.{Contents, Serves}

abbrev storage : Shard → Storage ℕ ScalarMeta
storage shard = shard.storage

-- A visit shows all that was registered, shard by shard and in order, and the length counts it.
pub for_each-Serves :
    (registry : ScalarRegistry) (c : Contents)
    → Serves registry c
    → (for_each registry ≡ ok (all_of c 0 64)) × (len registry ≡ ok (length (all_of c 0 64)))
unfolding for_each visit_shards len sum_shards
for_each-Serves registry c serves =
    let good =
      Shards-each storage 0 c registry.shards (λ j shard e. (serves.each j shard e).0.holds) in
    (
      visits-Shards storage 0 visit_shards refl (λ shard rest. refl) c 0 registry.shards good
          ∙ ap (λ n. ok (all_of c 0 n)) serves.count,
      sums-Shards storage 0 sum_shards refl (λ shard rest. refl) c 0 registry.shards good
          ∙ ap (λ n. ok (length (all_of c 0 n))) serves.count,
    )

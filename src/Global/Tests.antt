-- ===== src/Global/Tests.antt =====
-- Client programs, under a hash function that sends everything to one shard.
use metrics.Common.{ℕ, ◌%◌, ◌^◌, ◌≡◌, ◌↔◌, false, List, [], ◌∷◌, none, codes, sum_of, length}
use metrics.Common.Panic.{ok, panic}
use metrics.Kind.{redis, http, req, conn}
use metrics.Resource
use metrics.Slot.{Slot, Counter, read}
use metrics.Slot.Atomic.{recorded, incremented}
use metrics.Registry.{Metric}
use metrics.Registry.Keys.{Key}
use metrics.Registry.Refinement.{Request, named, labelled, request_key, policy_of}
use metrics.Global.{
  Registry, new_registry, new, for_each_meta, visit_all, sum_shards, serve, read_item, Visited,
}
use metrics.Global.Handles.{
  Command, registered, used, exec_all, amount, serve-same_item_iff, new_registry-Views,
  exec_all-Views,
}
use metrics.Global.Producer.{IsTiming, new-outcome}
use metrics.Global.Defined.{Contents}
use metrics.Keyed.Visits.{all_of}
use metrics.Global.Counters.{View, Views}
use metrics.Global.Shown.{AreRows, visit_all-AreRows}
use metrics.Global.Visits.{Distinct, for_each_meta-Serves}
use metrics.Global.Totals.{exec_all-totals}

abbrev hash : Key → ℕ
hash k = 63

abbrev cache : Request
cache = named (codes "cache") (redis req)

abbrev feed : Request
feed = labelled (http req) (Resource.new (codes "feed") (codes "10.0.0.1"))

abbrev program : List Command
program =
    used cache (recorded (record { secs = 1; nanos = 0 }) false)
    ∷ registered feed
    ∷ used feed incremented
    ∷ used cache incremented
    ∷ []

exec_all-totals_example :
    (registry registry' : Registry) × (metric : Metric) × (slot : Slot) × (exec_all hash program
        new_registry
      ≡ ok registry)
    × (serve hash cache registry ≡ ok (metric, registry'))
    × (metric.policy ≡ policy_of cache)
    × (read_item metric.item registry' ≡ ok slot)
    × ((ctr : Counter) → read ctr slot ≡ sum_of (amount (request_key cache) ctr) program % 2 ^ 64)
exec_all-totals_example = exec_all-totals hash program cache

serve-same_item_iff_example :
    (m1 m2 : Metric) × (registry1 registry2 registry3 : Registry) × (serve hash cache new_registry
      ≡ ok (m1, registry1))
    × (exec_all hash program registry1 ≡ ok registry2)
    × (serve hash feed registry2 ≡ ok (m2, registry3))
    × ((m1.item ≡ m2.item) ↔ (request_key cache ≡ request_key feed))
serve-same_item_iff_example =
    serve-same_item_iff hash cache feed program new_registry (λ i. []) (λ k. none)
      (new_registry-Views hash)

new-outcome_example :
    (new hash (redis conn) (codes "cache") new_registry ≡ panic) ↔ ¬ (IsTiming (redis conn))
new-outcome_example =
    new-outcome hash (redis conn) (codes "cache") new_registry (λ i. []) (λ k. none)
      (new_registry-Views hash)

-- The registry after the program, what it has registered, and the counters that it shows.
ran :
    (registry : Registry) × (c : Contents) × (view : View) × (exec_all hash program new_registry
      ≡ ok registry)
    × Views hash registry c view
ran =
    let (registry, c, done, v, kept) =
      exec_all-Views hash program new_registry (λ i. []) (λ k. none) (new_registry-Views hash) in
    (registry, c, _, done, v)

visit_all-AreRows_example :
    (rows : List Visited) × (visit_all ran.0 ≡ ok rows) × AreRows ran.2 (all_of ran.1 0 64) rows
visit_all-AreRows_example = visit_all-AreRows hash ran.0 ran.1 ran.2 ran.4

for_each_meta-Serves_example :
    (for_each_meta ran.0 ≡ ok (all_of ran.1 0 64))
    × Distinct (all_of ran.1 0 64)
    × (sum_shards ran.0.shards ≡ ok (length (all_of ran.1 0 64)))
for_each_meta-Serves_example = for_each_meta-Serves hash ran.0 ran.1 ran.4.serves

-- ===== src/Registry/Registered.antt =====
-- The invariant of a shard: its maps, its storage and its index agree on what was registered.
use metrics.Common.{ℕ, ◌≡◌, refl, List, [], none}
use metrics.Common.Assoc
use metrics.Slot.{default}
use metrics.Keyed.Registered.{RegisteredIn, empty-RegisteredIn}
use metrics.Registry.{MetricMeta, Shard, new_shard, existing, existing_resource, existing_profile}
use metrics.Registry.Keys.{
  Key, by_name, by_labels, by_identity, Key-discrete, meta_key, existing_key,
}

-- `ms` is what the shard has registered, in order.
abbrev pub Registered : Shard → List MetricMeta → Type 0
Registered shard ms =
    RegisteredIn default Key-discrete meta_key (λ m. m.item) (λ k. existing_key k shard)
      shard.storage ms

new_shard_empty : (region : ℕ) (k : Key) → existing_key k (new_shard region) ≡ none
unfolding new_shard existing_key existing existing_resource existing_profile Assoc.get
    Assoc.get_under
new_shard_empty region (by_name kind name) = refl
new_shard_empty region (by_labels kind labels) = refl
new_shard_empty region (by_identity policy identity) = refl

pub new_shard-Registered : (region : ℕ) → Registered (new_shard region) []
unfolding new_shard
new_shard-Registered region =
    empty-RegisteredIn default Key-discrete meta_key (λ m. m.item)
      (λ k. existing_key k (new_shard region)) region (new_shard_empty region)

-- ===== src/Keyed.antt =====
-- What the shards of src/registry.rs and src/scalar.rs share: a map that gives each identity its
-- item, over the append-only storage, and a registration that looks an identity up before it appends.
pub mod Find
pub mod Registered
pub mod Register
pub mod Shown
pub mod Visits
pub mod Words
use metrics.Common.{◌≡◌, ◌≢◌, Option, none, some}
use metrics.Common.Panic.{Outcome, ok, ◌>>=◌}
use metrics.Storage.{ItemPtr, Storage, append}

-- A shard as its registrations use it: its storage, the lookup of an identity, and the shard with a
-- new storage that remembers an item under an identity.
pub record Maps (Shard S T K : Type 0) : Type 0 where
  pub storage : Shard → Storage S T
  pub existing : K → Shard → Option ItemPtr
  pub put : K → ItemPtr → Storage S T → Shard → Shard

-- The laws of its maps.
pub record MapsLaws {Shard S T K : Type 0} (m : Maps Shard S T K) : Type 0 where
  pub put-storage :
      (k : K) (item : ItemPtr) (s : Storage S T) (shard : Shard)
      → m.storage (m.put k item s shard) ≡ s
  pub put_self :
      (k : K) (item : ItemPtr) (s : Storage S T) (shard : Shard)
      → m.existing k (m.put k item s shard) ≡ some item
  pub put_other :
      (k k' : K) (item : ItemPtr) (s : Storage S T) (shard : Shard)
      → k ≢ k'
      → m.existing k' (m.put k item s shard) ≡ m.existing k' shard

module _ {Shard S T K : Type 0} (m : Maps Shard S T K) (default : S) where
  unfoldable pub register_new : K → (ItemPtr → T) → Shard → Outcome (ItemPtr × Shard)
  register_new k meta shard = do
    (storage', item) ← append default meta (m.storage shard)
    ok (item, m.put k item storage' shard)

  abbrev pub known_or :
      Option ItemPtr → Shard → Outcome (ItemPtr × Shard) → Outcome (ItemPtr × Shard)
  known_or none shard rest = rest
  known_or (some item) shard rest = ok (item, shard)

  -- A registration: the item that is there, or a new one that is appended and remembered.
  unfoldable pub register : K → (ItemPtr → T) → Shard → Outcome (ItemPtr × Shard)
  unfolding register_new
  register k meta shard = known_or (m.existing k shard) shard (register_new k meta shard)

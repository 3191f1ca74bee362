-- ===== src/Storage/Writer.antt =====
-- `ShardState::allocate` of src/registry.rs as the steps that another thread's visit can tell apart:
-- the stores that it publishes with, and the write that must come before them.
pub mod Atomic
pub mod Working
pub mod Steps
use metrics.Common.{
  ℕ, ◌+◌, ◌/◌, ◌%◌, Bool, List, [], ◌∷◌, ◌++◌, Option, ltb, leb, ◌==◌, if◌then◌else◌, length,
  get_elem?, set, some,
}
use metrics.Common.Panic.{Outcome, ok, ◌>>=◌, ◌>>◌, check, index}
use metrics.Storage.{chunk_size, MetaChunk, ShardIndex, Storage, ItemPtr, add_chunk, count_up}

-- How far the shard's writer is with its registration, in whose mutex no other writer stands: idle;
-- behind `if is_new_chunk`; behind the write of the entry; behind the store of `published_len`.
pub data Phase (T : Type 0) : Type 0 where
  idle : Phase T
  grown : Bool → (ItemPtr → T) → Phase T
  written : Bool → T → Phase T
  released : Bool → T → Phase T

-- `items` is the history: what the registrations that have returned have appended.
pub record Writer (S T : Type 0) : Type 0 where
  pub storage : Storage S T
  pub phase : Phase T
  pub items : List T

module _ {T : Type 0} where
  -- The front of `MetaChunk::publish`: its `debug_assert`s, and the write of the entry.
  unfoldable pub write_entry : ℕ → T → MetaChunk T → Outcome (MetaChunk T)
  write_entry offset meta c = do
    check (ltb offset chunk_size)
    check (c.published_len == offset)
    _ ← index (get_elem? c.entries offset)
    ok (record c { entries = set c.entries offset (some meta) })

  -- Its last call, `published_len.store(offset + 1, Release)`
  unfoldable pub release : ℕ → MetaChunk T → MetaChunk T
  release offset c = record c { published_len = offset + 1 }

module _ {S T : Type 0} where
  abbrev pub is_new_chunk : Storage S T → Bool
  is_new_chunk s = leb (length s.meta_chunks) (s.len / chunk_size)

  -- The slot, and `publish` up to the write of the entry
  unfoldable pub write_meta : (ItemPtr → T) → Storage S T → Outcome (Storage S T × T)
  write_meta meta s = do
    let chunk_index = s.len / chunk_size
    let offset = s.len % chunk_size
    let item : ItemPtr = record { region = s.region; chunk = chunk_index; offset = offset }
    _ ← index (get_elem? s.slots chunk_index)
    chunk ← index (get_elem? s.meta_chunks chunk_index)
    chunk' ← write_entry offset (meta item) chunk
    ok (record s { meta_chunks = set s.meta_chunks chunk_index chunk' }, meta item)

  -- The store of `published_len`
  unfoldable pub release_chunk : Storage S T → Outcome (Storage S T)
  release_chunk s = do
    chunk ← index (get_elem? s.meta_chunks (s.len / chunk_size))
    let chunk' = release (s.len % chunk_size) chunk
    ok (record s { meta_chunks = set s.meta_chunks (s.len / chunk_size) chunk' })

  -- `self.len += 1`, and the store of a new index if there is a new chunk
  unfoldable pub finish : Bool → Storage S T → Storage S T
  finish is_new s = record s {
    len = s.len + 1;
    published_index =
        if is_new then record { chunks = count_up 0 (length s.meta_chunks) } else s.published_index;
  }

module _ {S T : Type 0} (default : S) where
  -- `if is_new_chunk { … }`
  unfoldable pub grow : Storage S T → Storage S T
  grow s = if is_new_chunk s then add_chunk default s else s

  -- The writer's next step, where `meta` is what the next registration appends.
  unfoldable pub step_from : (ItemPtr → T) → Phase T → Storage S T → List T → Outcome (Writer S T)
  step_from meta idle s items =
      ok (record { storage = grow s; phase = grown (is_new_chunk s) meta; items = items })
  step_from meta (grown is_new m) s items = do
    (s', t) ← write_meta m s
    ok (record { storage = s'; phase = written is_new t; items = items })
  step_from meta (written is_new t) s items = do
    s' ← release_chunk s
    ok (record { storage = s'; phase = released is_new t; items = items })
  step_from meta (released is_new t) s items =
      ok (record { storage = finish is_new s; phase = idle; items = items ++ t ∷ [] })

  unfoldable pub writer_step : (ItemPtr → T) → Writer S T → Outcome (Writer S T)
  writer_step meta w = step_from meta w.phase w.storage w.items

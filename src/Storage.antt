-- ===== src/Storage.antt =====
-- Append-only storage of one shard: `MetaChunk` and `ShardIndex` of src/registry.rs, and the part of
-- `ShardState::allocate` that the scalar shards of src/scalar.rs repeat.
--
-- An `Arc<MetaChunk>` that the published index shares with the shard is named by its position among
-- the shard's chunks; so a visitor that holds an old index sees what is published later in a chunk
-- that it has. A pointer to a slot is the shard's region, the box and the place in the box.
pub mod Chunk
pub mod Lists
pub mod Holds
pub mod Append
pub mod Visit
pub mod Slots
pub mod Prefix
pub mod Writer
pub mod Visitor
pub mod Tests
use metrics.Common.{
  ℕ, zero, suc, ◌+◌, ◌/◌, ◌%◌, Bool, List, [], ◌∷◌, ◌++◌, Option, none, some, ltb, leb, ◌==◌,
  if◌then◌else◌, length, get_elem?, set, replicate,
}
use metrics.Common.Panic.{Outcome, ok, panic, ◌>>=◌, ◌>>◌, check, index, deref}

abbrev pub chunk_size : ℕ
chunk_size = 256

-- `NonNull<Slot>` and `NonNull<ScalarSlot>`
pub record ItemPtr : Type 0 where
  pub region : ℕ
  pub chunk : ℕ
  pub offset : ℕ

-- An entry is `none` until it is written.
pub record MetaChunk (T : Type 0) : Type 0 where
  pub entries : List (Option T)
  pub published_len : ℕ

module _ {T : Type 0} where
  -- `MetaChunk::new`
  unfoldable pub new_chunk : MetaChunk T
  new_chunk = record { entries = replicate chunk_size none; published_len = 0 }

  -- `MetaChunk::publish`, with its `debug_assert`s
  unfoldable pub publish : ℕ → T → MetaChunk T → Outcome (MetaChunk T)
  publish offset meta c = do
    check (ltb offset chunk_size)
    check (c.published_len == offset)
    _ ← index (get_elem? c.entries offset)
    ok (record { entries = set c.entries offset (some meta); published_len = offset + 1 })

  -- `MetaChunk::get`, with its `debug_assert`
  unfoldable pub chunk_get : ℕ → MetaChunk T → Outcome T
  chunk_get offset c = do
    check (ltb offset c.published_len)
    entry ← index (get_elem? c.entries offset)
    deref entry

  -- `for offset in offset..offset + n { f(chunk.get(offset)) }`: what `f` is called with
  unfoldable pub chunk_scan : ℕ → ℕ → MetaChunk T → Outcome (List T)
  unfolding chunk_get
  chunk_scan zero offset c = ok []
  chunk_scan (suc n) offset c = do
    t ← chunk_get offset c
    rest ← chunk_scan n (offset + 1) c
    ok (t ∷ rest)

  -- `MetaChunk::drop`: what `assume_init_drop` drops, entry by entry.
  unfoldable pub drop_entries : ℕ → ℕ → MetaChunk T → Outcome (List T)
  drop_entries zero offset c = ok []
  drop_entries (suc n) offset c = do
    entry ← index (get_elem? c.entries offset)
    t ← deref entry
    rest ← drop_entries n (offset + 1) c
    ok (t ∷ rest)

  unfoldable pub drop_chunk : MetaChunk T → Outcome (List T)
  unfolding drop_entries
  drop_chunk c = drop_entries c.published_len 0 c

-- The chunks, by their positions.
pub record ShardIndex : Type 0 where
  pub chunks : List ℕ

pub record Storage (S T : Type 0) : Type 0 where
  pub region : ℕ
  pub slots : List (List S)
  pub meta_chunks : List (MetaChunk T)
  pub len : ℕ
  pub published_index : ShardIndex

-- The positions from `i` on.
abbrev pub count_up : ℕ → ℕ → List ℕ
count_up i zero = []
count_up i (suc n) = i ∷ count_up (i + 1) n

-- `std::array::from_fn(|_| Slot::default())`
unfoldable pub new_box : {S : Type 0} → S → List S
new_box default = replicate chunk_size default

module _ {S T : Type 0} where
  -- The storage of `Shard::new`, with the index `ShardIndex::empty()`.
  unfoldable pub empty : ℕ → Storage S T
  empty region = record {
    region = region;
    slots = [];
    meta_chunks = [];
    len = 0;
    published_index = record { chunks = [] };
  }

  -- `slots.push(Box::new(…))` and `meta_chunks.push(Arc::new(MetaChunk::new()))`
  unfoldable pub add_chunk : S → Storage S T → Storage S T
  add_chunk default s = record s {
    slots = s.slots ++ new_box default ∷ [];
    meta_chunks = s.meta_chunks ++ new_chunk ∷ [];
  }

  -- The rest of `ShardState::allocate`, behind the `if is_new_chunk` that adds a chunk: a slot, its
  -- metadata published behind the ones before it, and a new index if a chunk was added.
  unfoldable pub place : Bool → (ItemPtr → T) → Storage S T → Outcome (Storage S T × ItemPtr)
  place is_new_chunk meta s = do
    let chunk_index = s.len / chunk_size
    let offset = s.len % chunk_size
    let item : ItemPtr = record { region = s.region; chunk = chunk_index; offset = offset }
    _ ← index (get_elem? s.slots chunk_index)
    chunk ← index (get_elem? s.meta_chunks chunk_index)
    chunk' ← publish offset (meta item) chunk
    let chunks = set s.meta_chunks chunk_index chunk'
    let published : ShardIndex =
        if is_new_chunk then record { chunks = count_up 0 (length chunks) } else s.published_index
    ok (record s { meta_chunks = chunks; len = s.len + 1; published_index = published }, item)

  -- `ShardState::allocate`
  unfoldable pub append : S → (ItemPtr → T) → Storage S T → Outcome (Storage S T × ItemPtr)
  append default meta s =
      let is_new_chunk = leb (length s.meta_chunks) (s.len / chunk_size) in
      place is_new_chunk meta (if is_new_chunk then add_chunk default s else s)

  -- The visit of one chunk: its published prefix.
  unfoldable pub visit_chunk : ℕ → Storage S T → Outcome (List T)
  visit_chunk i s = do
    chunk ← index (get_elem? s.meta_chunks i)
    chunk_scan chunk.published_len 0 chunk

  -- The visit of the chunks of an index, in order: what `f` is called with.
  unfoldable pub visit_chunks : List ℕ → Storage S T → Outcome (List T)
  unfolding visit_chunk
  visit_chunks [] s = ok []
  visit_chunks (i ∷ is) s = do here ← visit_chunk i s; rest ← visit_chunks is s; ok (here ++ rest)

  -- The body of `for_each_meta` and of `for_each` for one shard.
  unfoldable pub visit : Storage S T → Outcome (List T)
  unfolding visit_chunks
  visit s = visit_chunks s.published_index.chunks s

  -- `chunks.iter().map(|chunk| chunk.published_len()).sum()`
  unfoldable pub published_sum : List ℕ → Storage S T → Outcome ℕ
  published_sum [] s = ok 0
  published_sum (i ∷ is) s = do
    chunk ← index (get_elem? s.meta_chunks i)
    rest ← published_sum is s
    ok (chunk.published_len + rest)

  -- `ItemPtr::as_ref` and `ScalarPtr::atomic`: the slot behind a pointer into this storage.
  unfoldable pub read_slot : ItemPtr → Storage S T → Outcome S
  read_slot p s = do box ← deref (get_elem? s.slots p.chunk); deref (get_elem? box p.offset)

  -- The storage after an update of the slot behind a pointer.
  unfoldable pub update_slot : ItemPtr → (S → S) → Storage S T → Outcome (Storage S T)
  update_slot p f s = do
    box ← deref (get_elem? s.slots p.chunk)
    slot ← deref (get_elem? box p.offset)
    ok (record s { slots = set s.slots p.chunk (set box p.offset (f slot)) })

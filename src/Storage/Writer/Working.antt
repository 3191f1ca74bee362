-- ===== src/Storage/Writer/Working.antt =====
-- The invariant of a shard while a registration runs.
use metrics.Common.{
  ◌+◌, ◌*◌, ◌/◌, ◌%◌, ◌≡◌, Bool, true, List, [], ◌∷◌, ◌++◌, length, get_elem?, set, some,
  if◌then◌else◌,
}
use metrics.Storage.{chunk_size, MetaChunk, Storage, count_up}
use metrics.Storage.Holds.{Rows, Holds}
use metrics.Storage.Writer.{Writer, Phase, idle, grown, written, released, release}

module _ {S T : Type 0} (default : S) where
  -- Between the growth of a registration and its end: the last chunk is the one that it writes to, and
  -- the index that is published lacks that chunk as long as it is new.
  pub record Open (is_new : Bool) (s : Storage S T) (items : List T) : Type 0 where
    pub len_eq : s.len ≡ length items
    pub count : length s.meta_chunks ≡ length items / chunk_size + 1
    pub indexed :
        s.published_index.chunks
        ≡ count_up 0 (if is_new then length items / chunk_size else length items / chunk_size + 1)
    pub full : is_new ≡ true → length items ≡ length items / chunk_size * chunk_size

  -- The entry is written: were it released, it would be the next one.
  pub record IsWritten (s : Storage S T) (items : List T) (t : T) : Type 0 where
    pub chunk : MetaChunk T
    pub found : get_elem? s.meta_chunks (length items / chunk_size) ≡ some chunk
    pub unreleased : chunk.published_len ≡ length items % chunk_size
    pub rows :
        Rows default s.slots
          (set s.meta_chunks
            (length items / chunk_size)
            (release (length items % chunk_size) chunk))
          (items ++ t ∷ [])

  -- The invariant, phase by phase.
  unfoldable pub WorkingAt : Phase T → Storage S T → List T → Type 0
  WorkingAt idle s items = Holds default s items
  WorkingAt (grown is_new m) s items =
      Open is_new s items × Rows default s.slots s.meta_chunks items
  WorkingAt (written is_new t) s items = Open is_new s items × IsWritten s items t
  WorkingAt (released is_new t) s items =
      Open is_new s items × Rows default s.slots s.meta_chunks (items ++ t ∷ [])

  abbrev pub Working : Writer S T → Type 0
  Working w = WorkingAt w.phase w.storage w.items

-- What a visit may show: the registrations that have returned, and the one that was released.
unfoldable pub published_at : {T : Type 0} → Phase T → List T → List T
published_at (released is_new t) items = items ++ t ∷ []
published_at _ items = items

abbrev pub published : {S T : Type 0} → Writer S T → List T
published w = published_at w.phase w.items

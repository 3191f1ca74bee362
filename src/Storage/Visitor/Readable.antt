-- ===== src/Storage/Visitor/Readable.antt =====
-- What a visitor's loads find in a shard, whatever its writer is doing.
use metrics.Common.{
  ℕ, ◌+◌, ◌-◌, ◌*◌, ◌/◌, ◌%◌, ◌≤◌, ◌≡◌, refl, sym, subst, Bool, true, false, List, [], ◌∷◌, ◌++◌,
  arith, length, get_elem?, some, ◌∙◌, length-append, get_elem?-set_self, get_elem?-set_ne,
  lt_of_get_elem?, get_elem?-append_left, ltb, ℕ_discrete,
}
use metrics.Common.Panic.{ok}
use metrics.Storage.{chunk_size, MetaChunk, Storage, count_up, chunk_get}
use metrics.Storage.Chunk.{ChunkHolds, chunk_get-ok}
use metrics.Storage.Holds.{row_of, Holds}
use metrics.Storage.Prefix.{IsPrefix, IsPrefix-refl}
use metrics.Storage.Append.{row_of-append_self, row_of-append_ne, length-row_of_last}
use metrics.Storage.Writer.{Phase, idle, grown, written, released, release}
use metrics.Storage.Writer.Working.{Open, IsWritten, WorkingAt, published_at}

module _ {T : Type 0} where
  -- The chunk's published prefix is the row.
  pub record Shows (c : MetaChunk T) (row : List T) : Type 0 where
    pub len : c.published_len ≡ length row
    pub entry : (j : ℕ) (t : T) → get_elem? row j ≡ some t → chunk_get j c ≡ ok t

  ChunkHolds-Shows : (c : MetaChunk T) (row : List T) → ChunkHolds c row → Shows c row
  ChunkHolds-Shows c row h = record { len = h.published; entry = λ j t e. chunk_get-ok c row h j e }

  -- A chunk whose last entry is not released yet shows the others.
  unreleased-Shows :
      (c : MetaChunk T) (row : List T) (t : T)
      → c.published_len ≡ length row
      → ChunkHolds (release (length row) c) (row ++ t ∷ [])
      → Shows c row
  unfolding chunk_get release
  unreleased-Shows c row t e h = record {
    len = e;
    entry = λ j u f.
        let below = lt_of_get_elem? row j f in
        let released : ltb j (length row + 1) ≡ true = ground arith in
        let in_prefix : ltb j c.published_len ≡ true = ground (arith, e) in
        let there : get_elem? (row ++ t ∷ []) j ≡ some u =
          get_elem?-append_left row (t ∷ []) j below ∙ f in
        rw in_prefix
          (rw released at (chunk_get-ok (release (length row) c) (row ++ t ∷ []) h j there));
  }

module _ {S T : Type 0} where
  -- The index that is published names the first `count` chunks: all items that were registered are in
  -- them, and all but the last are full.
  pub record Indexed (s : Storage S T) (items ps : List T) : Type 0 where
    pub count : ℕ
    pub chunks_eq : s.published_index.chunks ≡ count_up 0 count
    pub in_range : count ≤ length s.meta_chunks
    pub covers : length items ≤ count * chunk_size
    pub full : (count - 1) * chunk_size ≤ length ps

  pub record Readable (s : Storage S T) (items ps : List T) : Type 0 where
    pub front : IsPrefix items ps
    pub indexed : Indexed s items ps
    pub shows :
        (i : ℕ) (c : MetaChunk T) → get_elem? s.meta_chunks i ≡ some c → Shows c (row_of i ps)

  module _ (default : S) where
    Holds-Indexed : (s : Storage S T) (ms : List T) → Holds default s ms → Indexed s ms ms
    Holds-Indexed s ms h = record {
      count = length s.meta_chunks;
      chunks_eq = h.indexed;
      in_range = omega arith;
      covers = omega (arith, h.chunks_eq);
      full = omega (arith, h.chunks_eq);
    }

    Open-Indexed :
        (is_new : Bool) (s : Storage S T) (items ps : List T)
        → Open default is_new s items
        → length items ≤ length ps
        → Indexed s items ps
    Open-Indexed true s items ps o le = record {
      count = length items / chunk_size;
      chunks_eq = o.indexed;
      in_range = omega (arith, o.count);
      covers = omega (arith, o.full refl);
      full = omega arith;
    }
    Open-Indexed false s items ps o le = record {
      count = length items / chunk_size + 1;
      chunks_eq = o.indexed;
      in_range = omega (arith, o.count);
      covers = omega arith;
      full = omega arith;
    }

    last-Shows :
        (s : Storage S T) (items : List T) (t : T) (w : IsWritten default s items t)
        → length s.meta_chunks ≡ length items / chunk_size + 1
        → Shows w.chunk (row_of (length items / chunk_size) items)
    last-Shows s items t w count =
        let n = length items / chunk_size in
        let d = release (length items % chunk_size) w.chunk in
        let row = row_of n items in
        let size = length-row_of_last default items n refl in
        let there = get_elem?-set_self s.meta_chunks n d (omega (arith, count)) in
        unreleased-Shows w.chunk row t (w.unreleased ∙ sym size) (
          subst (λ k. ChunkHolds (release k w.chunk) (row ++ t ∷ [])) (sym size)
            (subst (ChunkHolds d) (row_of-append_self default items t n refl)
              (w.rows.row n d there)))

    -- While the last chunk's new entry waits to be released.
    written-Shows :
        (s : Storage S T) (items : List T) (t : T)
        → IsWritten default s items t
        → length s.meta_chunks ≡ length items / chunk_size + 1
        → (i : ℕ) (c : MetaChunk T) → get_elem? s.meta_chunks i ≡ some c
        → Shows c (row_of i items)
    written-Shows s items t w count i c e =
        let n = length items / chunk_size in
        let d = release (length items % chunk_size) w.chunk in
        let below = lt_of_get_elem? s.meta_chunks i e in
        elim (ℕ_discrete n i) [
          | no apart ↦
              let kept = get_elem?-set_ne s.meta_chunks d apart ∙ e in
              ChunkHolds-Shows c (row_of i items)
                (rw (row_of-append_ne default items t i (omega arith)) at (w.rows.row i c kept))
          | yes same ↦
              let eq : w.chunk ≡ c = cc (w.found, e, same) in
              subst (λ k. Shows c (row_of k items)) same
                (subst (λ x. Shows x (row_of n items)) eq (last-Shows s items t w count))
        ]

    pub Working-Readable :
        (p : Phase T) (s : Storage S T) (items : List T)
        → WorkingAt default p s items
        → Readable s items (published_at p items)
    unfolding WorkingAt published_at
    Working-Readable idle s items h = record {
      front = IsPrefix-refl items;
      indexed = Holds-Indexed s items h;
      shows = λ i c e. ChunkHolds-Shows c (row_of i items) (h.rows.row i c e);
    }
    Working-Readable (grown is_new m) s items (o, rows) = record {
      front = IsPrefix-refl items;
      indexed = Open-Indexed is_new s items items o (omega arith);
      shows = λ i c e. ChunkHolds-Shows c (row_of i items) (rows.row i c e);
    }
    Working-Readable (written is_new t) s items (o, w) = record {
      front = IsPrefix-refl items;
      indexed = Open-Indexed is_new s items items o (omega arith);
      shows = written-Shows s items t w o.count;
    }
    Working-Readable (released is_new t) s items (o, rows) =
        let more = length-append items (t ∷ []) in
        record {
          front = (t ∷ [], refl);
          indexed = Open-Indexed is_new s items (items ++ t ∷ []) o (omega (arith, more));
          shows = λ i c e. ChunkHolds-Shows c (row_of i (items ++ t ∷ [])) (rows.row i c e);
        }

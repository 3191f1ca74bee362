-- ===== src/Storage/Append.antt =====
-- `append` stores one more item behind the others: it never panics, and leaves the rest alone.
use metrics.Common.{
  ℕ, ◌+◌, ◌*◌, ◌/◌, ◌%◌, ◌≤◌, ◌<◌, ◌≡◌, refl, sym, subst, Bool, true, false, List, [], ◌∷◌, ◌++◌,
  some, arith, leb, if◌then◌else◌, length, get_elem?, set, drop, length-append, length-set,
  get_elem?-append_left, get_elem?_lt, lt_of_get_elem?, length-drop, drop_all, Bool-cases, inl, inr,
}
use metrics.Common.Panic.{ok}
use metrics.Storage.{
  chunk_size, MetaChunk, Storage, ItemPtr, new_chunk, new_box, publish, place, add_chunk, append,
  count_up,
}
use metrics.Storage.Chunk.{ChunkHolds, new_chunk-ChunkHolds, publish-ChunkHolds}
use metrics.Storage.Holds.{ptr_of, row_of, IsFresh, Rows, Holds}
use metrics.Storage.Lists.{
  get_elem?-append_cases, get_elem?-set_cases, length-new_box, get_elem?-new_box, take_all,
  take-append_left, drop-append_left,
}

module _ {S T : Type 0} (default : S) where
  -- One more box and one more chunk, where every row is full.
  pub add-Rows :
      (slots : List (List S)) (chunks : List (MetaChunk T)) (ms : List T)
      → Rows default slots chunks ms
      → length ms ≤ length chunks * chunk_size
      → Rows default (slots ++ new_box default ∷ []) (chunks ++ new_chunk ∷ []) ms
  add-Rows slots chunks ms r full = record {
    boxes = omega (
      arith,
      length-append slots (new_box default ∷ []),
      length-append {A = MetaChunk T} chunks (new_chunk ∷ []),
      r.boxes,
    );
    box_size = λ i b h. elim (get_elem?-append_cases slots (new_box default) i h) [
      | inl old ↦ r.box_size i b old
      | inr (e, f) ↦ rw (← f) (length-new_box default)
    ];
    fresh = λ i b j h lt le. elim (get_elem?-append_cases slots (new_box default) i h) [
      | inl old ↦ r.fresh i b j old lt le
      | inr (e, f) ↦ rw (← f) (get_elem?-new_box default j lt)
    ];
    row = λ i c h. elim (get_elem?-append_cases chunks new_chunk i h) [
      | inl old ↦ r.row i c old
      | inr (e, f) ↦
          let none_left : row_of i ms ≡ [] =
            rw (drop_all (i * chunk_size) ms (omega (arith, e, full))) in
          rw (← f, none_left) new_chunk-ChunkHolds
    ];
  }

  -- The row of the next item grows by it, and no other row changes.
  pub row_of-append_self :
      (ms : List T) (t : T) (i : ℕ)
      → i ≡ length ms / chunk_size
      → row_of i (ms ++ t ∷ []) ≡ row_of i ms ++ t ∷ []
  row_of-append_self ms t i e =
      let cut = drop-append_left (i * chunk_size) ms (t ∷ []) (omega arith) in
      let size = length-drop (i * chunk_size) ms in
      rw (
        cut,
        take_all chunk_size (drop (i * chunk_size) ms ++ t ∷ [])
            (omega (arith, size, length-append (drop (i * chunk_size) ms) (t ∷ []))),
        take_all chunk_size (drop (i * chunk_size) ms) (omega (arith, size)),
      )

  pub row_of-append_ne :
      (ms : List T) (t : T) (i : ℕ)
      → i < length ms / chunk_size
      → row_of i (ms ++ t ∷ []) ≡ row_of i ms
  row_of-append_ne ms t i h =
      let size = length-drop (i * chunk_size) ms in
      rw (
        drop-append_left (i * chunk_size) ms (t ∷ []) (omega arith),
        take-append_left chunk_size (drop (i * chunk_size) ms) (t ∷ []) (omega (arith, size)),
      )

  pub length-row_of_last :
      (ms : List T) (i : ℕ)
      → i ≡ length ms / chunk_size
      → length (row_of i ms) ≡ length ms % chunk_size
  length-row_of_last ms i e =
      let size = length-drop (i * chunk_size) ms in
      rw (take_all chunk_size (drop (i * chunk_size) ms) (omega (arith, size)))
        (omega (arith, size))

  -- Publishing the next item into the last chunk.
  pub publish-Rows :
      (slots : List (List S)) (chunks : List (MetaChunk T)) (ms : List T) (t : T)
      → Rows default slots chunks ms
      → length chunks ≡ length ms / chunk_size + 1
      → (c : MetaChunk T) × (c' : MetaChunk T) × (get_elem? chunks (length ms / chunk_size)
          ≡ some c)
        × (publish (length ms % chunk_size) t c ≡ ok c')
        × Rows default slots (set chunks (length ms / chunk_size) c') (ms ++ t ∷ [])
  publish-Rows slots chunks ms t r count = (c, c', found, published.1, rows)
    where
      n : ℕ
      n = length ms / chunk_size

      last : (c : MetaChunk T) × (get_elem? chunks n ≡ some c)
      last = get_elem?_lt chunks n (omega arith)

      c : MetaChunk T
      c = last.0

      found : get_elem? chunks n ≡ some c
      found = last.1

      size : length (row_of n ms) ≡ length ms % chunk_size
      size = length-row_of_last ms n refl

      published :
          (c' : MetaChunk T) × (publish (length ms % chunk_size) t c ≡ ok c')
          × ChunkHolds c' (row_of n ms ++ t ∷ [])
      published =
          publish-ChunkHolds c (row_of n ms) (r.row n c found) t (length ms % chunk_size) (sym size)
            (omega (arith, size))

      c' : MetaChunk T
      c' = published.0

      rows : Rows default slots (set chunks n c') (ms ++ t ∷ [])
      rows = record {
        boxes = omega (arith, r.boxes, length-set chunks n c');
        box_size = r.box_size;
        fresh = λ i b j h lt le. r.fresh i b j h lt (omega (arith, length-append ms (t ∷ [])));
        row = λ i d h. elim (get_elem?-set_cases chunks n c' i h) [
          | inl (other, old) ↦
              let below = lt_of_get_elem? chunks i old in
              rw (row_of-append_ne ms t i (omega arith)) (r.row i d old)
          | inr (same, e) ↦ rw (← e, row_of-append_self ms t i same, same) published.2
        ];
      }

  place-Holds :
      (is_new : Bool) (g : Storage S T) (ms : List T) (meta : ItemPtr → T)
      → Rows default g.slots g.meta_chunks ms
      → g.len ≡ length ms
      → length g.meta_chunks ≡ length ms / chunk_size + 1
      → (is_new ≡ false → g.published_index.chunks ≡ count_up 0 (length g.meta_chunks))
      → (s' : Storage S T) × (place is_new meta g ≡ ok (s', ptr_of g.region (length ms)))
        × Holds default s' (ms ++ meta (ptr_of g.region (length ms)) ∷ [])
        × (s'.region ≡ g.region)
        × (s'.slots ≡ g.slots)
  unfolding place ptr_of
  place-Holds is_new g ms meta r len_eq count indexed =
      let item = ptr_of g.region (length ms) in
      let n = length ms / chunk_size in
      let (c, c', found, published, rows) =
        publish-Rows g.slots g.meta_chunks ms (meta item) r count in
      let (b, boxed) = get_elem?_lt g.slots n (omega (arith, r.boxes)) in
      let size = length-set g.meta_chunks n c' in
      let more = length-append ms (meta item ∷ []) in
      (
        record g {
          meta_chunks = set g.meta_chunks n c';
          len = length ms + 1;
          published_index =
              if is_new
              then record { chunks = count_up 0 (length (set g.meta_chunks n c')) }
              else g.published_index;
        },
        rw (len_eq, boxed, found, published),
        record {
          rows = rows;
          len_eq = omega (arith, more);
          chunks_eq = omega (arith, more, size, count);
          indexed = ground (arith, size, indexed);
        },
        refl,
        refl,
      )

  -- A storage that holds some items takes one more without a panic: the new item's pointer is the next
  -- place and its slot has the default value, the other items stay what and where they were, and boxes
  -- that stood already are not touched.
  pub append-Holds :
      (s : Storage S T) (ms : List T) (meta : ItemPtr → T)
      → Holds default s ms
      → (s' : Storage S T) × (append default meta s ≡ ok (s', ptr_of s.region (length ms)))
        × Holds default s' (ms ++ meta (ptr_of s.region (length ms)) ∷ [])
        × (s'.region ≡ s.region)
        × ((i : ℕ) → i < length s.slots → get_elem? s'.slots i ≡ get_elem? s.slots i)
        × IsFresh default s'.slots (length ms)
  unfolding append add_chunk
  append-Holds s ms meta h = elim (Bool-cases (leb (length s.meta_chunks) (s.len / chunk_size))) [
    | inl full ↦
        let many : length s.meta_chunks ≡ length ms / chunk_size = ground arith in
        let grown = add-Rows s.slots s.meta_chunks ms h.rows (omega (arith, h.chunks_eq)) in
        let (s', e, holds, same, slots) =
          place-Holds true (add_chunk default s) ms meta grown h.len_eq
            (omega (arith, many, length-append s.meta_chunks (new_chunk ∷ [])))
            (λ absurd_case. cc) in
        (
          s',
          rw full e,
          holds,
          same,
          λ i lt. rw slots (get_elem?-append_left s.slots (new_box default ∷ []) i lt),
          subst (λ b. IsFresh default b (length ms)) (sym slots) grown.fresh,
        )
    | inr room ↦
        let many : length s.meta_chunks ≡ length ms / chunk_size + 1 = ground arith in
        let (s', e, holds, same, slots) =
          place-Holds false s ms meta h.rows h.len_eq many (λ _. h.indexed) in
        (
          s',
          rw room e,
          holds,
          same,
          λ i lt. rw slots,
          subst (λ b. IsFresh default b (length ms)) (sym slots) h.rows.fresh,
        )
  ]

-- ===== src/Storage/Writer/Steps.antt =====
-- Every step of a registration keeps the invariant of its shard.
use metrics.Common.{
  ℕ, ◌+◌, ◌/◌, ◌%◌, ◌≤◌, ◌≡◌, refl, sym, ap, Bool, true, false, List, [], ◌∷◌, ◌++◌, arith, ltb,
  ◌==◌, length, get_elem?, set, Bool-cases, inl, inr, some, Option-cases, ◌∙◌, length-append,
  length-set, get_elem?-set_self, get_elem?_lt, if◌then◌else◌,
}
use metrics.Common.Panic.{ok}
use metrics.Storage.{
  chunk_size, MetaChunk, ShardIndex, Storage, ItemPtr, publish, add_chunk, count_up, new_chunk,
}
use metrics.Storage.Holds.{ptr_of}
use metrics.Storage.Append.{add-Rows, publish-Rows, length-row_of_last}
use metrics.Storage.Writer.{
  Writer, Phase, idle, grown, written, released, write_entry, release, is_new_chunk, grow,
  write_meta, release_chunk, finish, step_from,
}
use metrics.Storage.Writer.Atomic.{set-set}
use metrics.Storage.Writer.Working.{WorkingAt, Working, published_at, published}
use metrics.Storage.Prefix.{IsPrefix, IsPrefix-refl}

module _ {T : Type 0} where
  -- What a `publish` that succeeds writes, before it releases it.
  publish-inverse :
      (offset : ℕ) (t : T) (c c' : MetaChunk T)
      → publish offset t c ≡ ok c'
      → (d : MetaChunk T) × (write_entry offset t c ≡ ok d)
        × (release offset d ≡ c')
        × (d.published_len ≡ c.published_len)
  unfolding publish write_entry release
  publish-inverse offset t c c' h = elim (Bool-cases (ltb offset chunk_size)) [
    | inr out ↦ absurd (ground arith)
    | inl in_chunk ↦ elim (Bool-cases (c.published_len == offset)) [
      | inr other ↦ absurd (ground arith)
      | inl at_end ↦ elim (Option-cases (get_elem? c.entries offset)) [
        | inl beyond ↦ absurd (ground arith)
        | inr (e, found) ↦
            let same : ok _ ≡ ok c' = rw (in_chunk, at_end, found) at h in
            (
              record c { entries = set c.entries offset (some t) },
              rw (in_chunk, at_end, found),
              cc same,
              refl,
            )
      ]
    ]
  ]

-- The index that the end of a registration leaves.
index_after :
    (is_new : Bool) (i : ShardIndex) (m n : ℕ)
    → m ≡ n + 1
    → i.chunks ≡ count_up 0 (if is_new then n else n + 1)
    → (if is_new then record { chunks = count_up 0 m } else i).chunks ≡ count_up 0 m
index_after true i m n e h = refl
index_after false i m n e h = h ∙ ap (count_up 0) (sym e)

module _ {S T : Type 0} (default : S) where
  grow-Working :
      (s : Storage S T) (items : List T) (meta : ItemPtr → T)
      → WorkingAt default idle s items
      → WorkingAt default (grown (is_new_chunk s) meta) (grow default s) items
  unfolding WorkingAt grow add_chunk
  grow-Working s items meta h = elim (Bool-cases (is_new_chunk s)) [
    | inl full ↦
        let many : length s.meta_chunks ≡ length items / chunk_size = ground arith in
        rw full (
          record {
            len_eq = h.len_eq;
            count = omega (arith, many, length-append s.meta_chunks (new_chunk ∷ []));
            indexed = h.indexed ∙ ap (count_up 0) many;
            full = λ _. omega (arith, many, h.chunks_eq);
          },
          add-Rows default s.slots s.meta_chunks items h.rows (omega (arith, h.chunks_eq)),
        )
    | inr room ↦
        let many : length s.meta_chunks ≡ length items / chunk_size + 1 = ground arith in
        rw room (
          record {
            len_eq = h.len_eq;
            count = many;
            indexed = h.indexed ∙ ap (count_up 0) many;
            full = λ absurd_case. cc;
          },
          h.rows,
        )
  ]

  finish-Working :
      (is_new : Bool) (s : Storage S T) (items : List T) (t : T)
      → WorkingAt default (released is_new t) s items
      → WorkingAt default idle (finish is_new s) (items ++ t ∷ [])
  unfolding WorkingAt finish
  finish-Working is_new s items t (o, rows) =
      let more = length-append items (t ∷ []) in
      record {
        rows = rows;
        len_eq = omega (arith, more, o.len_eq);
        chunks_eq = omega (arith, more, o.count);
        indexed = index_after is_new s.published_index _ _ o.count o.indexed;
      }

  write-Working :
      (is_new : Bool) (m : ItemPtr → T) (s : Storage S T) (items : List T)
      → WorkingAt default (grown is_new m) s items
      → (s' : Storage S T) × (t : T) × (write_meta m s ≡ ok (s', t))
        × WorkingAt default (written is_new t) s' items
        × (length s'.meta_chunks ≡ length s.meta_chunks)
  unfolding WorkingAt write_meta ptr_of
  write-Working is_new m s items (o, rows) =
      let n = length items / chunk_size in
      let offset = length items % chunk_size in
      let t = m (ptr_of s.region (length items)) in
      let (c, c', found, published, next) =
        publish-Rows default s.slots s.meta_chunks items t rows o.count in
      let (d, wrote, same, len) = publish-inverse offset t c c' published in
      let (b, boxed) = get_elem?_lt s.slots n (omega (arith, rows.boxes, o.count)) in
      let size = length-set s.meta_chunks n d in
      (
        record s { meta_chunks = set s.meta_chunks n d },
        t,
        rw (o.len_eq, boxed, found, wrote),
        (
          record { len_eq = o.len_eq; count = size ∙ o.count; indexed = o.indexed; full = o.full },
          record {
            chunk = d;
            found = get_elem?-set_self s.meta_chunks n d (omega (arith, o.count));
            unreleased =
                len ∙ (rows.row n c found).published ∙ length-row_of_last default items n refl;
            rows = rw (set-set s.meta_chunks n d (release offset d), same) next;
          },
        ),
        size,
      )

  release-Working :
      (is_new : Bool) (s : Storage S T) (items : List T) (t : T)
      → WorkingAt default (written is_new t) s items
      → (s' : Storage S T) × (release_chunk s ≡ ok s')
        × WorkingAt default (released is_new t) s' items
        × (length s'.meta_chunks ≡ length s.meta_chunks)
  unfolding WorkingAt release_chunk
  release-Working is_new s items t (o, w) =
      let n = length items / chunk_size in
      let d = release (length items % chunk_size) w.chunk in
      let size = length-set s.meta_chunks n d in
      (
        record s { meta_chunks = set s.meta_chunks n d },
        rw (o.len_eq, w.found),
        (
          record { len_eq = o.len_eq; count = size ∙ o.count; indexed = o.indexed; full = o.full },
          w.rows,
        ),
        size,
      )

  length-grow : (s : Storage S T) → length s.meta_chunks ≤ length (grow default s).meta_chunks
  unfolding grow add_chunk
  length-grow s = elim (Bool-cases (is_new_chunk s)) [
    | inl full ↦ rw full (omega (arith, length-append s.meta_chunks (new_chunk ∷ [])))
    | inr room ↦ rw room (omega arith)
  ]

  -- What a step leaves: nothing that was published or registered is lost, and no chunk goes.
  pub record Extends (w w' : Writer S T) : Type 0 where
    pub more_published : IsPrefix (published w) (published w')
    pub more_items : IsPrefix w.items w'.items
    pub more_chunks : length w.storage.meta_chunks ≤ length w'.storage.meta_chunks

  pub step_from-Working :
      (meta : ItemPtr → T) (p : Phase T) (s : Storage S T) (items : List T)
      → WorkingAt default p s items
      → (w' : Writer S T) × (step_from default meta p s items ≡ ok w')
        × Working default w'
        × Extends (record { storage = s; phase = p; items = items }) w'
  unfolding step_from published_at finish
  step_from-Working meta idle s items h = (
    record { storage = grow default s; phase = grown (is_new_chunk s) meta; items = items },
    refl,
    grow-Working s items meta h,
    record {
      more_published = IsPrefix-refl items;
      more_items = IsPrefix-refl items;
      more_chunks = length-grow s;
    },
  )
  step_from-Working meta (grown is_new m) s items h =
      let (s', t, e, h', size) = write-Working is_new m s items h in
      (
        record { storage = s'; phase = written is_new t; items = items },
        rw e,
        h',
        record {
          more_published = IsPrefix-refl items;
          more_items = IsPrefix-refl items;
          more_chunks = omega (arith, size);
        },
      )
  step_from-Working meta (written is_new t) s items h =
      let (s', e, h', size) = release-Working is_new s items t h in
      (
        record { storage = s'; phase = released is_new t; items = items },
        rw e,
        h',
        record {
          more_published = (t ∷ [], refl);
          more_items = IsPrefix-refl items;
          more_chunks = omega (arith, size);
        },
      )
  step_from-Working meta (released is_new t) s items h = (
    record { storage = finish is_new s; phase = idle; items = items ++ t ∷ [] },
    refl,
    finish-Working is_new s items t h,
    record {
      more_published = IsPrefix-refl (items ++ t ∷ []);
      more_items = (t ∷ [], refl);
      more_chunks = omega arith;
    },
  )

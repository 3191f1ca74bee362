-- ===== src/Storage/Chunk.antt =====
-- One metadata chunk: its entries below the published length are what was published, and a visit
-- reads these alone.
use metrics.Common.{
  ℕ, zero, suc, ◌+◌, ◌-◌, ◌≤◌, ◌<◌, ◌≡◌, refl, true, List, [], ◌∷◌, ◌++◌, map, Option, none, some,
  arith, ltb, ◌==◌, length, get_elem?, set, take, drop, replicate, length-append, get_elem?_lt,
  lt_of_get_elem?, ap, ◌∙◌,
}
use metrics.Common.Panic.{ok}
use metrics.Storage.{
  chunk_size, MetaChunk, new_chunk, publish, chunk_get, chunk_scan, drop_entries, drop_chunk,
}
use metrics.Storage.Lists.{set-filled, drop-get_elem?, take_all}

module _ {T : Type 0} where
  -- The chunk holds exactly this metadata, in this order.
  pub record ChunkHolds (c : MetaChunk T) (ms : List T) : Type 0 where
    pub published : c.published_len ≡ length ms
    pub bounded : length ms ≤ chunk_size
    pub filled : c.entries ≡ map some ms ++ replicate (chunk_size - length ms) none

  pub new_chunk-ChunkHolds : ChunkHolds new_chunk []
  unfolding new_chunk
  new_chunk-ChunkHolds = record { published = refl; bounded = omega arith; filled = refl }

  get_elem?-some :
      (ms : List T) (ys : List (Option T)) (i : ℕ) {t : T}
      → get_elem? ms i ≡ some t
      → get_elem? (map some ms ++ ys) i ≡ some (some t)
  get_elem?-some [] ys i h = absurd (ground arith)
  get_elem?-some (x ∷ ms) ys zero h = ground arith
  get_elem?-some (x ∷ ms) ys (suc i) h = get_elem?-some ms ys i h

  get_elem?-rest :
      (ms : List T) (n : ℕ)
      → 0 < n
      → get_elem? (map some ms ++ replicate n none) (length ms) ≡ some none
  get_elem?-rest [] zero h = absurd (omega arith)
  get_elem?-rest [] (suc n) h = refl
  get_elem?-rest (x ∷ ms) n h = get_elem?-rest ms n h

  module _ (c : MetaChunk T) (ms : List T) (holds : ChunkHolds c ms) where
    -- Publishing at the end of a chunk that is not full passes its assertions.
    pub publish-ChunkHolds :
        (t : T) (offset : ℕ)
        → offset ≡ length ms
        → length ms < chunk_size
        → (c' : MetaChunk T) × (publish offset t c ≡ ok c') × ChunkHolds c' (ms ++ t ∷ [])
    unfolding publish
    publish-ChunkHolds t offset e room = (
      record { entries = set c.entries offset (some t); published_len = offset + 1 },
      rw (in_chunk, in_order, vacant),
      record {
        published = omega (arith, length-append ms (t ∷ []), e);
        bounded = omega (arith, length-append ms (t ∷ []));
        filled =
            rw (holds.filled, e, set-filled some ms t none _ (chunk_size - length ms) left)
              (ap (λ k. map some (ms ++ t ∷ []) ++ replicate k none) fewer);
      },
    )
      where
        in_chunk : ltb offset chunk_size ≡ true
        in_chunk = ground arith

        in_order : (c.published_len == offset) ≡ true
        in_order = ground (arith, holds.published)

        vacant : get_elem? c.entries offset ≡ some none
        vacant = rw (holds.filled, e) (get_elem?-rest ms (chunk_size - length ms) (omega arith))

        left : chunk_size - length ms ≡ suc (chunk_size - length ms - 1)
        left = omega arith

        fewer : chunk_size - length ms - 1 ≡ chunk_size - length (ms ++ t ∷ [])
        fewer = omega (arith, length-append ms (t ∷ []))

    entry-written :
        (offset : ℕ) {t : T}
        → get_elem? ms offset ≡ some t
        → get_elem? c.entries offset ≡ some (some t)
    entry-written offset h = rw holds.filled (get_elem?-some ms _ offset h)

    pub chunk_get-ok :
        (offset : ℕ) {t : T} → get_elem? ms offset ≡ some t → chunk_get offset c ≡ ok t
    unfolding chunk_get
    chunk_get-ok offset {t} h =
        let below = lt_of_get_elem? ms offset h in
        let published : ltb offset c.published_len ≡ true = ground (arith, holds.published) in
        rw (published, entry-written offset h)

    -- A scan of any part of the published prefix calls the visitor with just that metadata: no panic
    -- and no entry that was not written.
    pub chunk_scan-ok :
        (n offset : ℕ)
        → offset + n ≤ length ms
        → chunk_scan n offset c ≡ ok (take n (drop offset ms))
    unfolding chunk_scan
    chunk_scan-ok zero offset h = refl
    chunk_scan-ok (suc n) offset h =
        let (t, e) = get_elem?_lt ms offset (omega arith) in
        rw (
          chunk_get-ok offset e,
          chunk_scan-ok n (offset + 1) (omega arith),
          drop-get_elem? ms offset e,
        )

    drop_entries-ok :
        (n offset : ℕ)
        → offset + n ≤ length ms
        → drop_entries n offset c ≡ ok (take n (drop offset ms))
    unfolding drop_entries
    drop_entries-ok zero offset h = refl
    drop_entries-ok (suc n) offset h =
        let (t, e) = get_elem?_lt ms offset (omega arith) in
        rw (
          entry-written offset e,
          drop_entries-ok n (offset + 1) (omega arith),
          drop-get_elem? ms offset e,
        )

    -- The release of a chunk drops what was published, each entry once, and touches no other.
    pub drop_chunk-ok : drop_chunk c ≡ ok ms
    unfolding drop_chunk
    drop_chunk-ok =
        ap (λ n. drop_entries n 0 c) holds.published
        ∙ drop_entries-ok (length ms) 0 (omega arith)
        ∙ ap ok (take_all (length ms) ms (omega arith))

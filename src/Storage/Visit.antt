-- ===== src/Storage/Visit.antt =====
-- A visit goes over what was registered, in order.
use metrics.Common.{
  ℕ, zero, suc, ◌+◌, ◌-◌, ◌*◌, ◌<◌, ◌≡◌, ◌∙◌, sym, ap, List, arith, length, drop, get_elem?_lt,
  take-append-drop, drop_all,
}
use metrics.Common.Panic.{ok}
use metrics.Storage.{chunk_size, Storage, count_up, visit_chunk, visit_chunks, visit, published_sum}
use metrics.Storage.Chunk.{chunk_scan-ok}
use metrics.Storage.Holds.{row_of, Holds}
use metrics.Storage.Prefix.{length-row_of}
use metrics.Storage.Lists.{drop-drop, take_all}

module _ {S T : Type 0} (default : S) where
  -- The visit of one chunk calls the visitor with its row: it does not panic and touches no entry
  -- that was not written.
  pub visit_chunk-row :
      (s : Storage S T) (ms : List T) (i : ℕ)
      → Holds default s ms
      → i < length s.meta_chunks
      → visit_chunk i s ≡ ok (row_of i ms)
  unfolding visit_chunk
  visit_chunk-row s ms i h lt =
      let (c, found) = get_elem?_lt s.meta_chunks i lt in
      let r = h.rows.row i c found in
      rw
        (found, r.published, chunk_scan-ok c (row_of i ms) r (length (row_of i ms)) 0 (omega arith))
        (ap ok (take_all _ (row_of i ms) (omega arith)))

  -- The rows from `i` on, up to the end.
  visit_chunks-drop :
      (s : Storage S T) (ms : List T) (i k : ℕ)
      → Holds default s ms
      → i + k ≡ length s.meta_chunks
      → visit_chunks (count_up i k) s ≡ ok (drop (i * chunk_size) ms)
  unfolding visit_chunks
  visit_chunks-drop s ms i zero h e =
      ap ok (sym (drop_all (i * chunk_size) ms (omega (arith, h.chunks_eq))))
  visit_chunks-drop s ms i (suc k) h e =
      let next : (i + 1) * chunk_size ≡ i * chunk_size + chunk_size = omega arith in
      rw (
        visit_chunk-row s ms i h (omega arith),
        visit_chunks-drop s ms (i + 1) k h (omega arith),
        next,
        ← drop-drop chunk_size (i * chunk_size) ms,
        take-append-drop chunk_size (drop (i * chunk_size) ms),
      )

  -- A visit of a shard calls the visitor once for each item, in the order of registration; it never
  -- panics and never touches an entry that was not written.
  pub visit-Holds : (s : Storage S T) (ms : List T) → Holds default s ms → visit s ≡ ok ms
  unfolding visit
  visit-Holds s ms h =
      ap (λ is. visit_chunks is s) h.indexed
      ∙ visit_chunks-drop s ms 0 (length s.meta_chunks) h (omega arith)

  published_sum-drop :
      (s : Storage S T) (ms : List T) (i k : ℕ)
      → Holds default s ms
      → i + k ≡ length s.meta_chunks
      → published_sum (count_up i k) s ≡ ok (length ms - i * chunk_size)
  unfolding published_sum
  published_sum-drop s ms i zero h e = ap ok (omega (arith, h.chunks_eq))
  published_sum-drop s ms i (suc k) h e =
      let (c, found) = get_elem?_lt s.meta_chunks i (omega arith) in
      let r = h.rows.row i c found in
      rw (found, published_sum-drop s ms (i + 1) k h (omega arith))
        (ap ok (omega (arith, r.published, length-row_of ms i, h.chunks_eq)))

  -- In a storage that holds some items, the sum of the published lengths is their number.
  pub published_sum-Holds :
      (s : Storage S T) (ms : List T)
      → Holds default s ms
      → published_sum s.published_index.chunks s ≡ ok (length ms)
  published_sum-Holds s ms h =
      ap (λ is. published_sum is s) h.indexed
      ∙ published_sum-drop s ms 0 (length s.meta_chunks) h (omega arith)
      ∙ ap ok less_none
    where
      less_none : length ms - 0 * chunk_size ≡ length ms
      less_none = omega arith

-- ===== src/Storage/Holds.antt =====
-- What a storage holds: its metadata in the order of registration, row by row.
use metrics.Common.{
  ℕ, ◌+◌, ◌*◌, ◌/◌, ◌%◌, ◌≤◌, ◌<◌, ◌≡◌, refl, List, [], some, arith, length, get_elem?, take, drop,
}
use metrics.Storage.{chunk_size, MetaChunk, Storage, ItemPtr, empty, count_up}
use metrics.Storage.Chunk.{ChunkHolds}

-- The place of the `n`-th item.
unfoldable pub ptr_of : ℕ → ℕ → ItemPtr
ptr_of region n = record { region = region; chunk = n / chunk_size; offset = n % chunk_size }

abbrev pub row_of {ℓ} : {A : Type ℓ} → ℕ → List A → List A
row_of i ms = take chunk_size (drop (i * chunk_size) ms)

-- Every slot from place `n` on has the default value.
abbrev pub IsFresh : {S : Type 0} → S → List (List S) → ℕ → Type 0
IsFresh default slots n =
    (i : ℕ) (b : List _) (j : ℕ)
    → get_elem? slots i ≡ some b
    → j < chunk_size
    → n ≤ i * chunk_size + j
    → get_elem? b j ≡ some default

module _ {S T : Type 0} (default : S) where
  -- Box `i` and chunk `i` belong to row `i`, and a slot that is not taken holds the default.
  pub record Rows (slots : List (List S)) (chunks : List (MetaChunk T)) (ms : List T) : Type 0 where
    pub boxes : length slots ≡ length chunks
    pub box_size : (i : ℕ) (b : List S) → get_elem? slots i ≡ some b → length b ≡ chunk_size
    pub fresh : IsFresh default slots (length ms)
    pub row : (i : ℕ) (c : MetaChunk T) → get_elem? chunks i ≡ some c → ChunkHolds c (row_of i ms)

  pub record Holds (s : Storage S T) (ms : List T) : Type 0 where
    pub rows : Rows s.slots s.meta_chunks ms
    pub len_eq : s.len ≡ length ms
    pub chunks_eq : length s.meta_chunks ≡ (length ms + 255) / chunk_size
    pub indexed : s.published_index.chunks ≡ count_up 0 (length s.meta_chunks)

  pub empty-Holds : (region : ℕ) → Holds (empty region) []
  unfolding empty
  empty-Holds region = record {
    rows = record {
      boxes = refl;
      box_size = λ i b h. ground arith;
      fresh = λ i b j h lt le. ground arith;
      row = λ i c h. absurd (ground arith);
    };
    len_eq = refl;
    chunks_eq = refl;
    indexed = refl;
  }

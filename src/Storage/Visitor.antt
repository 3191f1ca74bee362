-- ===== src/Storage/Visitor.antt =====
-- The loops of `for_each_meta` of src/registry.rs and `for_each` of src/scalar.rs for one shard, load
-- by load, while a writer of the shard makes its own steps.
pub mod Readable
pub mod Seen
pub mod Alone
pub mod Progress
pub mod During
mod Tests
use metrics.Common.{ℕ, zero, suc, ◌+◌, ◌≡◌, List, [], ◌∷◌, ◌++◌, length, get_elem?}
use metrics.Common.Panic.{Outcome, ok, ◌>>=◌, index}
use metrics.Storage.{Storage, chunk_get, ItemPtr}
use metrics.Storage.Writer.{Writer, writer_step}

-- Where the visit stands. `seen` is what `f` was called with; inside chunk `i` the next offset and
-- the number of those left follow; `is` are the chunks of the loaded index that are left.
pub data Visitor (T : Type 0) : Type 0 where
  start : Visitor T
  between : (is : List ℕ) → (seen : List T) → Visitor T
  inside : (i offset left : ℕ) → (is : List ℕ) → (seen : List T) → Visitor T
  done : (seen : List T) → Visitor T

module _ {S T : Type 0} where
  -- The visitor's next step: the load of the index, of a chunk's `published_len`, of an entry, or the
  -- end of a loop.
  unfoldable pub visitor_step : Storage S T → Visitor T → Outcome (Visitor T)
  visitor_step s start = ok (between s.published_index.chunks [])
  visitor_step s (between [] seen) = ok (done seen)
  visitor_step s (between (i ∷ is) seen) = do
    chunk ← index (get_elem? s.meta_chunks i)
    ok (inside i 0 chunk.published_len is seen)
  visitor_step s (inside i offset zero is seen) = ok (between is seen)
  visitor_step s (inside i offset (suc left) is seen) = do
    chunk ← index (get_elem? s.meta_chunks i)
    t ← chunk_get offset chunk
    ok (inside i (offset + 1) left is (seen ++ t ∷ []))
  visitor_step s (done seen) = ok (done seen)

  -- The two threads, in any order: the writer registers whatever it is asked to, any number of times.
  pub data Steps (default : S) : Writer S T → Visitor T → Writer S T → Visitor T → Type 0 where
    stop : {w : Writer S T} {v : Visitor T} → Steps default w v w v
    write :
        {w w' w'' : Writer S T} {v v' : Visitor T} (meta : ItemPtr → T)
        → Steps default w v w' v'
        → writer_step default meta w' ≡ ok w''
        → Steps default w v w'' v'
    visit :
        {w w' : Writer S T} {v v' v'' : Visitor T}
        → Steps default w v w' v'
        → visitor_step w'.storage v' ≡ ok v''
        → Steps default w v w' v''

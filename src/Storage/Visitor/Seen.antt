-- ===== src/Storage/Visitor/Seen.antt =====
-- What a visitor has seen so far, and what is ahead of it.
use metrics.Common.{ℕ, ◌+◌, ◌-◌, ◌*◌, ◌≤◌, ◌≡◌, ◌<◌, List, arith, length}
use metrics.Storage.{chunk_size, count_up}
use metrics.Storage.Prefix.{IsPrefix, IsPrefix-trans, length-IsPrefix}
use metrics.Storage.Visitor.{Visitor, start, between, inside, done}

module _ {T : Type 0} where
  -- A visit that is to show `old` has seen a prefix of what is published; behind the `left` entries
  -- of the current chunk come the index's chunks from `i` on.
  pub record Ahead (chunks : ℕ) (old ps : List T) (i left : ℕ) (is : List ℕ) (seen : List T)
      : Type 0 where
    pub count : ℕ
    pub is_eq : is ≡ count_up i count
    pub prefix : IsPrefix seen ps
    pub fits : length seen + left ≤ length ps
    pub aligned : 0 < count → length seen + left ≡ i * chunk_size
    pub in_range : i + count ≤ chunks
    pub full : 0 < count → (i + count - 1) * chunk_size ≤ length ps
    pub covers : length old ≤ length seen + left + count * chunk_size

  unfoldable pub SeenAt : ℕ → List T → List T → Visitor T → Type 0
  SeenAt chunks old ps start = Unit
  SeenAt chunks old ps (between is seen) = (i : ℕ) × Ahead chunks old ps i 0 is seen
  SeenAt chunks old ps (inside j offset left is seen) =
      (length seen ≡ j * chunk_size + offset)
      × (offset + left ≤ chunk_size)
      × Ahead chunks old ps (j + 1) left is seen
  SeenAt chunks old ps (done seen) = IsPrefix seen ps × (length old ≤ length seen)

  -- What was seen stays so while more is published.
  Ahead-extends :
      {chunks chunks' : ℕ} {old ps ps' : List T} {i left : ℕ} {is : List ℕ} {seen : List T}
      → chunks ≤ chunks'
      → IsPrefix ps ps'
      → Ahead chunks old ps i left is seen
      → Ahead chunks' old ps' i left is seen
  Ahead-extends {ps} {ps'} {seen} le more a =
      let longer = length-IsPrefix ps ps' more in
      record {
        count = a.count;
        is_eq = a.is_eq;
        prefix = IsPrefix-trans seen ps ps' a.prefix more;
        aligned = a.aligned;
        covers = a.covers;
        fits = omega (arith, a.fits);
        in_range = omega (arith, a.in_range);
        full = λ h. omega (arith, a.full h);
      }

  pub SeenAt-extends :
      (chunks chunks' : ℕ) (old ps ps' : List T) (v : Visitor T)
      → chunks ≤ chunks'
      → IsPrefix ps ps'
      → SeenAt chunks old ps v
      → SeenAt chunks' old ps' v
  unfolding SeenAt
  SeenAt-extends chunks chunks' old ps ps' start le more h = tt
  SeenAt-extends chunks chunks' old ps ps' (between is seen) le more (i, a) =
      (i, Ahead-extends le more a)
  SeenAt-extends chunks chunks' old ps ps' (inside j offset left is seen) le more (e, f, a) =
      (e, f, Ahead-extends le more a)
  SeenAt-extends chunks chunks' old ps ps' (done seen) le more (p, h) =
      (IsPrefix-trans seen ps ps' p more, h)

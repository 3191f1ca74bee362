-- ===== src/Storage/Slots.antt =====
-- The slots behind the pointers that `append` gave out: none dangles, and updates stay apart.
use metrics.Common.{
  ℕ, ◌/◌, ◌%◌, ◌<◌, ◌≡◌, ◌≢◌, ◌∙◌, ap, refl, List, [], ◌∷◌, ◌++◌, length-append, inl, inr, some,
  arith, length, get_elem?, set, get_elem?_lt, get_elem?-set_self, get_elem?-set_ne, length-set,
  lt_of_get_elem?, ℕ_discrete,
}
use metrics.Common.Panic.{ok}
use metrics.Storage.{chunk_size, Storage, ItemPtr, read_slot, update_slot}
use metrics.Storage.Holds.{ptr_of, Rows, Holds, IsFresh}
use metrics.Storage.Lists.{get_elem?-set_cases}

-- Different places have different pointers.
pub ptr_of-injective : (g m n : ℕ) → ptr_of g m ≡ ptr_of g n → m ≡ n
unfolding ptr_of
ptr_of-injective g m n h =
    omega (arith, ap (λ (p : ItemPtr). p.chunk) h, ap (λ (p : ItemPtr). p.offset) h)

pub ptr_of-region : (g g' m n : ℕ) → ptr_of g m ≡ ptr_of g' n → g ≡ g'
unfolding ptr_of
ptr_of-region g g' m n h = ap (λ (p : ItemPtr). p.region) h

module _ {S T : Type 0} (default : S) (s : Storage S T) (ms : List T) (h : Holds default s ms) where
  -- Where the slot of a place stands.
  located :
      (n : ℕ)
      → n < length ms
      → (b : List S) × (v : S) × (get_elem? s.slots (n / chunk_size) ≡ some b)
        × (get_elem? b (n % chunk_size) ≡ some v)
  located n lt =
      let (b, found) =
        get_elem?_lt s.slots (n / chunk_size) (omega (arith, h.rows.boxes, h.chunks_eq)) in
      let (v, there) =
        get_elem?_lt b (n % chunk_size) (omega (arith, h.rows.box_size (n / chunk_size) b found)) in
      (b, v, found, there)

  -- The pointer of a registered item never dangles.
  pub read_slot-ok : (n : ℕ) → n < length ms → (v : S) × (read_slot (ptr_of s.region n) s ≡ ok v)
  unfolding read_slot ptr_of
  read_slot-ok n lt = let (b, v, found, there) = located n lt in (v, rw (found, there))

  -- With the box `b` and the value `w` of a place's slot at hand:
  module _ (n : ℕ) (f : S → S) (lt : n < length ms) (b : List S) (w : S)
      (found : get_elem? s.slots (n / chunk_size) ≡ some b)
      (there : get_elem? b (n % chunk_size) ≡ some w) where
    written : List S
    written = set b (n % chunk_size) (f w)

    Rows-update : Rows default (set s.slots (n / chunk_size) written) s.meta_chunks ms
    unfolding written
    Rows-update = record {
      boxes = omega (arith, h.rows.boxes, length-set s.slots (n / chunk_size) written);
      box_size = λ i c e. elim (get_elem?-set_cases s.slots (n / chunk_size) written i e) [
        | inl (other, old) ↦ h.rows.box_size i c old
        | inr (same, eq) ↦
            rw (← eq, length-set b (n % chunk_size) (f w))
              (h.rows.box_size (n / chunk_size) b found)
      ];
      fresh = λ i c j e small le. elim (get_elem?-set_cases s.slots (n / chunk_size) written i e) [
        | inl (other, old) ↦ h.rows.fresh i c j old small le
        | inr (same, eq) ↦
            let apart : n % chunk_size ≢ j = omega arith in
            rw (← eq, get_elem?-set_ne b (f w) apart)
              (h.rows.fresh (n / chunk_size) b j found small (omega arith))
      ];
      row = h.rows.row;
    }

    update_self :
        read_slot (ptr_of s.region n) (record s { slots = set s.slots (n / chunk_size) written })
        ≡ ok (f w)
    unfolding read_slot ptr_of written
    update_self =
        let box_lt = lt_of_get_elem? s.slots (n / chunk_size) found in
        let slot_lt = lt_of_get_elem? b (n % chunk_size) there in
        rw (
          get_elem?-set_self s.slots (n / chunk_size) (set b (n % chunk_size) (f w)) box_lt,
          get_elem?-set_self b (n % chunk_size) (f w) slot_lt,
        )

    update_other :
        (k : ℕ)
        → k ≢ n
        → read_slot (ptr_of s.region k) (record s { slots = set s.slots (n / chunk_size) written })
          ≡ read_slot (ptr_of s.region k) s
    unfolding read_slot ptr_of written
    update_other k other = elim (ℕ_discrete (n / chunk_size) (k / chunk_size)) [
      | no apart ↦ rw (get_elem?-set_ne s.slots (set b (n % chunk_size) (f w)) apart)
      | yes same ↦
          let box_lt = lt_of_get_elem? s.slots (n / chunk_size) found in
          let apart : n % chunk_size ≢ k % chunk_size = omega arith in
          rw (
            ← same,
            get_elem?-set_self s.slots (n / chunk_size) (set b (n % chunk_size) (f w)) box_lt,
            found,
            get_elem?-set_ne b (f w) apart,
          )
    ]

  -- In a storage that holds some items, an update of one item's slot keeps the invariant, and changes
  -- that slot alone among those of the items.
  pub update_slot-Holds :
      (n : ℕ) (f : S → S) {v : S}
      → n < length ms
      → read_slot (ptr_of s.region n) s ≡ ok v
      → (s' : Storage S T) × (update_slot (ptr_of s.region n) f s ≡ ok s')
        × Holds default s' ms
        × (s'.region ≡ s.region)
        × (read_slot (ptr_of s.region n) s' ≡ ok (f v))
        × ((k : ℕ)
            → k < length ms
            → k ≢ n
            → read_slot (ptr_of s.region k) s' ≡ read_slot (ptr_of s.region k) s)
  unfolding read_slot update_slot ptr_of written
  update_slot-Holds n f {v} lt value =
      let (b, w, found, there) = located n lt in
      let same : ok w ≡ ok v = rw (found, there) at value in
      (
        record s { slots = set s.slots (n / chunk_size) (set b (n % chunk_size) (f w)) },
        rw (found, there),
        record {
          rows = Rows-update n f lt b w found there;
          len_eq = h.len_eq;
          chunks_eq = h.chunks_eq;
          indexed = h.indexed;
        },
        refl,
        update_self n f lt b w found there ∙ ap ok (cc same),
        λ k k_lt other. update_other n f lt b w found there k other,
      )

-- After one more item, the slots of the others are what they were, and its own has the default value.
pub append-slots :
    {S T : Type 0} (default : S) (s s' : Storage S T) (ms : List T) (m : T)
    → Holds default s ms
    → Holds default s' (ms ++ m ∷ [])
    → s'.region ≡ s.region
    → ((i : ℕ) → i < length s.slots → get_elem? s'.slots i ≡ get_elem? s.slots i)
    → IsFresh default s'.slots (length ms)
    → ((k : ℕ) → k < length ms → read_slot (ptr_of s.region k) s' ≡ read_slot (ptr_of s.region k) s)
      × (read_slot (ptr_of s.region (length ms)) s' ≡ ok default)
unfolding read_slot ptr_of
append-slots default s s' ms m h h' same kept fresh = (
  λ k lt. rw (kept (k / chunk_size) (omega (arith, h.rows.boxes, h.chunks_eq))),
  let n = length ms in
      let more = length-append ms (m ∷ []) in
      let (b, found) =
        get_elem?_lt s'.slots (n / chunk_size) (omega (arith, h'.rows.boxes, h'.chunks_eq)) in
      rw (found, fresh (n / chunk_size) b (n % chunk_size) found (omega arith) (omega arith)),
)

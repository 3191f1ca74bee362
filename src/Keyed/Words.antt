-- ===== src/Keyed/Words.antt =====
-- The slots behind pointers into the shards of a registry: an update of one changes no other.
use metrics.Common.{
  ℕ, ◌<◌, ◌≡◌, ◌≢◌, ◌∙◌, refl, sym, subst, List, some, length, get_elem?, set, get_elem?_lt,
  get_elem?-set_self, get_elem?-set_ne, ℕ_discrete, Option-cases, inl, inr,
}
use metrics.Common.Panic.{Outcome, ok, ◌>>=◌, deref, Outcome-cases}
use metrics.Storage.{Storage, ItemPtr, read_slot, update_slot}
use metrics.Storage.Holds.{Holds, ptr_of}
use metrics.Storage.Slots.{read_slot-ok, update_slot-Holds}

module _ {Shard S T : Type 0} (storage : Shard → Storage S T)
    (with_storage : Storage S T → Shard → Shard)
    (stored : (s : Storage S T) (shard : Shard) → storage (with_storage s shard) ≡ s) where
  -- The load and the update behind a pointer.
  unfoldable pub read_at : ItemPtr → List Shard → Outcome S
  read_at p shards = do shard ← deref (get_elem? shards p.region); read_slot p (storage shard)

  unfoldable pub update_at : ItemPtr → (S → S) → List Shard → Outcome (List Shard)
  update_at p f shards = do
    shard ← deref (get_elem? shards p.region)
    storage' ← update_slot p f (storage shard)
    ok (set shards p.region (with_storage storage' shard))

  -- The same update where the shards stand in a registry.
  pub update_at-registry :
      {R : Type 0} (wrap : List Shard → R) (p : ItemPtr) (f : S → S) (shards : List Shard)
      → (do
        shard ← deref (get_elem? shards p.region)
        storage' ← update_slot p f (storage shard)
        ok (wrap (set shards p.region (with_storage storage' shard))))
        ≡ (update_at p f shards >>= λ shards'. ok (wrap shards'))
  unfolding update_at
  update_at-registry wrap p f shards = elim (Option-cases (get_elem? shards p.region)) [
    | inl none_there ↦ rw none_there
    | inr (shard, found) ↦ elim (Outcome-cases (update_slot p f (storage shard))) [
      | inl e ↦ rw (found, e)
      | inr (inl e) ↦ rw (found, e)
      | inr (inr (s', e)) ↦ rw (found, e)
    ]
  ]

  read_at-shard :
      (shards : List Shard) (i n : ℕ) (shard : Shard) {s : Storage S T}
      → get_elem? shards i ≡ some shard
      → storage shard ≡ s
      → read_at (ptr_of i n) shards ≡ read_slot (ptr_of i n) s
  unfolding read_at ptr_of
  read_at-shard shards i n shard h e = rw (h, e)

  read_at-set_ne :
      (shards : List Shard) (i j k : ℕ) (shard : Shard)
      → i ≢ j
      → read_at (ptr_of j k) (set shards i shard) ≡ read_at (ptr_of j k) shards
  unfolding read_at ptr_of
  read_at-set_ne shards i j k shard other = rw (get_elem?-set_ne shards shard other)

  update_at-shard :
      (shards : List Shard) (i n : ℕ) (f : S → S) (shard : Shard) (s' : Storage S T)
      → get_elem? shards i ≡ some shard
      → update_slot (ptr_of i n) f (storage shard) ≡ ok s'
      → update_at (ptr_of i n) f shards ≡ ok (set shards i (with_storage s' shard))
  unfolding update_at ptr_of
  update_at-shard shards i n f shard s' found done = rw (found, done)

  module _ (default : S) where
    -- The slot of a place in use can be read and updated; its shard holds what it held, and no other
    -- slot in use changes.
    pub record Updated (shards : List Shard) (c : ℕ → List T) (i n : ℕ) (f : S → S) : Type 0 where
      pub shard : Shard
      pub storage' : Storage S T
      pub value : S
      pub found : get_elem? shards i ≡ some shard
      pub read : read_at (ptr_of i n) shards ≡ ok value
      pub done : update_at (ptr_of i n) f shards ≡ ok (set shards i (with_storage storage' shard))
      pub holds : Holds default storage' (c i)
      pub region : storage'.region ≡ i
      pub self : read_at (ptr_of i n) (set shards i (with_storage storage' shard)) ≡ ok (f value)
      pub others :
          (j k : ℕ)
          → k < length (c j)
          → ¬ ((i ≡ j) × (k ≡ n))
          → read_at (ptr_of j k) (set shards i (with_storage storage' shard))
            ≡ read_at (ptr_of j k) shards

    pub update_at-Updated :
        (shards : List Shard) (c : ℕ → List T) (i n : ℕ) (f : S → S)
        → ((j : ℕ) (shard : Shard)
            → get_elem? shards j ≡ some shard
            → Holds default (storage shard) (c j) × ((storage shard).region ≡ j))
        → i < length shards
        → n < length (c i)
        → Updated shards c i n f
    update_at-Updated shards c i n f each i_lt n_lt =
        let (shard, here) = get_elem?_lt shards i i_lt in
        let (h, region) = each i shard here in
        let (value, read) = read_slot-ok default (storage shard) (c i) h n n_lt in
        let (s', done, h', same, self, others) =
          update_slot-Holds default (storage shard) (c i) h n f n_lt read in
        let shards' = set shards i (with_storage s' shard) in
        let there = get_elem?-set_self shards i (with_storage s' shard) i_lt in
        record {
          shard = shard;
          storage' = s';
          value = value;
          found = here;
          read =
              read_at-shard shards i n shard here refl
              ∙ subst (λ (g : ℕ). read_slot (ptr_of g n) (storage shard) ≡ ok value) region read;
          done =
              update_at-shard shards i n f shard s' here
                (subst (λ (g : ℕ). update_slot (ptr_of g n) f (storage shard) ≡ ok s') region done);
          holds = h';
          region = same ∙ region;
          self =
              read_at-shard shards' i n (with_storage s' shard) there (stored s' shard)
              ∙ subst (λ (g : ℕ). read_slot (ptr_of g n) s' ≡ ok (f value)) region self;
          others = λ j k k_lt apart. elim (ℕ_discrete i j) [
            | no other ↦ read_at-set_ne shards i j k (with_storage s' shard) other
            | yes at_i ↦
                subst
                  (λ (g : ℕ).
                    k < length (c g) → read_at (ptr_of g k) shards' ≡ read_at (ptr_of g k) shards)
                  at_i
                  (λ k_lt'.
                    read_at-shard shards' i k (with_storage s' shard) there (stored s' shard)
                    ∙ subst
                        (λ (g : ℕ).
                          read_slot (ptr_of g k) s' ≡ read_slot (ptr_of g k) (storage shard))
                        region (others k k_lt' (λ e. apart (at_i, e)))
                    ∙ sym (read_at-shard shards i k shard here refl))
                  k_lt
          ];
        }

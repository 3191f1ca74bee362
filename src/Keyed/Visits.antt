-- ===== src/Keyed/Visits.antt =====
-- Visits and lengths of all shards of a registry, whose loops src/registry.rs and src/scalar.rs share.
use metrics.Common.{
  ℕ, zero, suc, ◌+◌, ◌≡◌, ◌∙◌, refl, subst, List, [], ◌∷◌, ◌++◌, some, arith, length, get_elem?,
  length-append,
}
use metrics.Common.Panic.{Outcome, ok, ◌>>=◌}
use metrics.Storage.{Storage, visit, published_sum}
use metrics.Storage.Holds.{Holds}
use metrics.Storage.Visit.{visit-Holds, published_sum-Holds}

-- What the shards from one on have registered, shard by shard.
abbrev pub all_of {ℓ} : {A : Type ℓ} → (ℕ → List A) → ℕ → ℕ → List A
all_of c i zero = []
all_of c i (suc n) = c i ++ all_of c (suc i) n

module _ {Shard S T : Type 0} (storage : Shard → Storage S T) (default : S) where
  -- The shards of a list hold what they are to hold, from the given number on.
  abbrev pub Shards : (ℕ → List T) → ℕ → List Shard → Type 0
  Shards c i [] = Unit
  Shards c i (shard ∷ rest) = Holds default (storage shard) (c i) × Shards c (suc i) rest

  Shards-from :
      (c : ℕ → List T) (i : ℕ) (shards : List Shard)
      → ((j : ℕ) (shard : Shard)
          → get_elem? shards j ≡ some shard
          → Holds default (storage shard) (c (i + j)))
      → Shards c i shards
  Shards-from c i [] h = tt
  Shards-from c i (shard ∷ rest) h =
      let here : i + 0 ≡ i = omega arith in
      (
        subst (λ k. Holds default (storage shard) (c k)) here (h 0 shard refl),
        Shards-from c (suc i) rest (λ j s e.
            let there : i + suc j ≡ suc i + j = omega arith in
            subst (λ k. Holds default (storage s) (c k)) there (h (suc j) s e)),
      )

  pub Shards-each :
      (c : ℕ → List T) (shards : List Shard)
      → ((j : ℕ) (shard : Shard)
          → get_elem? shards j ≡ some shard
          → Holds default (storage shard) (c j))
      → Shards c 0 shards
  Shards-each c shards h = Shards-from c 0 shards (λ j shard e.
      let same : j ≡ 0 + j = omega arith in
      subst (λ k. Holds default (storage shard) (c k)) same (h j shard e))

  -- A loop that visits each shard shows everything, in order.
  pub visits-Shards :
      (loop : List Shard → Outcome (List T))
      → loop [] ≡ ok []
      → ((shard : Shard) (rest : List Shard)
          → loop (shard ∷ rest)
            ≡ (visit (storage shard) >>= λ here. loop rest >>= λ others. ok (here ++ others)))
      → (c : ℕ → List T) (i : ℕ) (shards : List Shard) → Shards c i shards
      → loop shards ≡ ok (all_of c i (length shards))
  visits-Shards loop start step c i [] h = start
  visits-Shards loop start step c i (shard ∷ rest) (r, h) =
      step shard rest
      ∙ rw
          (
            visit-Holds default (storage shard) (c i) r,
            visits-Shards loop start step c (suc i) rest h,
          )
          refl

  -- And one that adds up the published lengths counts it.
  pub sums-Shards :
      (loop : List Shard → Outcome ℕ)
      → loop [] ≡ ok 0
      → ((shard : Shard) (rest : List Shard)
          → loop (shard ∷ rest) ≡ (
              published_sum (storage shard).published_index.chunks (storage shard) >>= λ here.
              loop rest >>= λ others. ok (here + others)))
      → (c : ℕ → List T) (i : ℕ) (shards : List Shard) → Shards c i shards
      → loop shards ≡ ok (length (all_of c i (length shards)))
  sums-Shards loop start step c i [] h = start
  sums-Shards loop start step c i (shard ∷ rest) (r, h) =
      step shard rest
      ∙ rw
          (
            published_sum-Holds default (storage shard) (c i) r,
            sums-Shards loop start step c (suc i) rest h,
            length-append (c i) (all_of c (suc i) (length rest)),
          )
          refl

-- ===== src/Prometheus/Source/Ordered.antt =====
-- The order of the sources is total, so the sources of a scrape are sorted and distinct.
use metrics.Common.{ℕ, ◌≡◌, ap, arith, List, ◌++◌, map, All, ◌↔◌}
use metrics.Resource.{MetricAccess, ConnectionRole}
use metrics.Storage.{ItemPtr}
use metrics.Registry.{MetricMeta}
use metrics.Scalar.{ScalarMeta}
use metrics.Compare.{IsOrder, cmp_nat, cmp_bytes, cmp_pair}
use metrics.Compare.Orders.{
  cmp_nat-IsOrder, cmp_on-IsOrder, cmp_option-IsOrder, cmp_pair-IsOrder, cmp_bytes-IsOrder,
}
use metrics.Compare.Sort.{Ascending, dedup-sort}
use metrics.Prometheus.Source.{
  Source, SourceKind, SourceItem, timing, counter, gauge, access_rank, role_rank, kind_key,
  cmp_labels, cmp_output, cmp_kind, item_key, cmp_source, sources, all_timing, scalar_source,
}

access_rank-injective : (a b : MetricAccess) → access_rank a ≡ access_rank b → a ≡ b
access_rank-injective a b h = ground arith

role_rank-injective : (a b : ConnectionRole) → role_rank a ≡ role_rank b → a ≡ b
role_rank-injective a b h = ground arith

kind_key-injective : (a b : SourceKind) → kind_key a ≡ kind_key b → a ≡ b
kind_key-injective a b h = ground (arith, ap (λ p. p.0) h, ap (λ p. p.1) h)

cmp_labels-IsOrder : IsOrder cmp_labels
cmp_labels-IsOrder =
    cmp_on-IsOrder _ _
      (λ a b h. cc (ap (λ p. p.0) h, ap (λ p. p.1.0) h, ap (λ p. p.1.1.0) h, ap (λ p. p.1.1.1) h))
      (cmp_pair-IsOrder cmp_bytes cmp_bytes-IsOrder _ (
        cmp_pair-IsOrder cmp_bytes cmp_bytes-IsOrder _ (
          cmp_pair-IsOrder _
            (cmp_option-IsOrder _
              (cmp_on-IsOrder access_rank cmp_nat access_rank-injective cmp_nat-IsOrder))
            _
            (cmp_option-IsOrder _
              (cmp_on-IsOrder role_rank cmp_nat role_rank-injective cmp_nat-IsOrder)))))

pub cmp_output-IsOrder : IsOrder cmp_output
cmp_output-IsOrder =
    cmp_on-IsOrder _ _ (λ a b h. cc (ap (λ p. p.0) h, ap (λ p. p.1.0) h, ap (λ p. p.1.1) h))
      (cmp_pair-IsOrder cmp_bytes cmp_bytes-IsOrder _ (
        cmp_pair-IsOrder cmp_bytes cmp_bytes-IsOrder _
          (cmp_option-IsOrder cmp_labels cmp_labels-IsOrder)))

numbers-IsOrder : IsOrder (cmp_pair cmp_nat cmp_nat)
numbers-IsOrder = cmp_pair-IsOrder cmp_nat cmp_nat-IsOrder cmp_nat cmp_nat-IsOrder

pub cmp_kind-IsOrder : IsOrder cmp_kind
cmp_kind-IsOrder = cmp_on-IsOrder kind_key _ kind_key-injective numbers-IsOrder

-- Distinct slots have distinct addresses.
module _ (address : ItemPtr → ℕ) (distinct : (p q : ItemPtr) → address p ≡ address q → p ≡ q) where
  item_key-injective : (a b : SourceItem) → item_key address a ≡ item_key address b → a ≡ b
  item_key-injective (timing p) (timing q) h = ap timing (distinct p q (ap (λ k. k.1) h))
  item_key-injective (counter p) (counter q) h = ap counter (distinct p q (ap (λ k. k.1) h))
  item_key-injective (gauge p) (gauge q) h = ap gauge (distinct p q (ap (λ k. k.1) h))
  item_key-injective a b h = ground (arith, ap (λ k. k.0) h)

  pub cmp_source-IsOrder : IsOrder (cmp_source address)
  unfolding cmp_source
  cmp_source-IsOrder =
      cmp_on-IsOrder _ _ (λ a b h. cc (ap (λ p. p.0.0) h, ap (λ p. p.0.1) h, ap (λ p. p.1) h))
        (cmp_pair-IsOrder _
          (cmp_pair-IsOrder cmp_output cmp_output-IsOrder cmp_kind cmp_kind-IsOrder) _
          (cmp_on-IsOrder (item_key address) _ item_key-injective numbers-IsOrder))

  -- A scrape's sources are those of all the metadata, each of them once, in strictly ascending order:
  -- duplicate views of one slot are dropped, and no other.
  pub sources-ordered :
      (timings : List MetricMeta) (scalars : List ScalarMeta)
      → Ascending (cmp_source address) (sources address timings scalars)
        × ((P : Source → Type 0)
            → All P (sources address timings scalars)
              ↔ All P (all_timing timings ++ map scalar_source scalars))
  unfolding sources
  sources-ordered timings scalars =
      dedup-sort (cmp_source address) cmp_source-IsOrder
        (all_timing timings ++ map scalar_source scalars)

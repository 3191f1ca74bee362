-- ===== src/Prometheus/Source/Tests.antt =====
-- The sources of a small registry, with addresses that tell all pointers apart.
use metrics.Common.{
  ℕ, zero, suc, ◌+◌, ◌<◌, ◌≤◌, ◌≡◌, ◌↔◌, ap, ◌-◌, List, [], ◌∷◌, arith, codes, dec_lt, none,
}
use metrics.Kind.{api_timeout, redis, req, conn}
use metrics.Plan.{single}
use metrics.Storage.{ItemPtr}
use metrics.Registry.{MetricMeta}
use metrics.Scalar.{ScalarKind, ScalarMeta}
use metrics.Compare.Sort.{Ascending}
use metrics.Prometheus.Source.{Source, cmp_source, sources}
use mathlib.Core.List.{Memᴰ}
use metrics.Prometheus.Source.Listed.{IsSource, IsTypeOf, IsGaugeKind}
use metrics.Prometheus.Source.Families.{IsGauge, sources-Apart}
use metrics.Common.{refl}
use metrics.Kind.{output, is_conn}
use metrics.Prometheus.Source.{supports, conn_gauge, SourceItem}
use metrics.Prometheus.Source.Members.{sources-IsSource}

abbrev triangle : ℕ → ℕ
triangle zero = 0
triangle (suc n) = suc n + triangle n

triangle_le : (s k : ℕ) → triangle s ≤ triangle (k + s)
triangle_le s zero = let e : s ≡ 0 + s = omega arith in omega (arith, ap triangle e)
triangle_le s (suc k) =
    let e : suc (k + s) ≡ suc k + s = omega arith in omega (arith, ap triangle e, triangle_le s k)

triangle_lt : (s t : ℕ) → s < t → triangle s + s < triangle t
triangle_lt s t h =
    let e : (t - suc s) + suc s ≡ t = omega arith in
    omega (arith, ap triangle e, triangle_le (suc s) (t - suc s))

triangle_eq : (s t : ℕ) → s ≡ t → triangle s ≡ triangle t
triangle_eq s t h = ap triangle h

abbrev paired : ℕ → ℕ → ℕ
paired a b = triangle (a + b) + b

paired-injective : (a b a' b' : ℕ) → paired a b ≡ paired a' b' → (a ≡ a') × (b ≡ b')
paired-injective a b a' b' h = elim (dec_lt (a + b) (a' + b')) [
  | yes lt ↦ absurd (omega (arith, triangle_lt (a + b) (a' + b') lt))
  | no ge ↦ elim (dec_lt (a' + b') (a + b)) [
    | yes gt ↦ absurd (omega (arith, triangle_lt (a' + b') (a + b) gt))
    | no le ↦ let same = triangle_eq (a + b) (a' + b') (omega arith) in (omega arith, omega arith)
  ]
]

abbrev address : ItemPtr → ℕ
address p = paired p.region (paired p.chunk p.offset)

address-injective : (p q : ItemPtr) → address p ≡ address q → p ≡ q
address-injective p q h =
    let (region, inner) =
      paired-injective p.region (paired p.chunk p.offset) q.region (paired q.chunk q.offset) h in
    let (chunk, offset) = paired-injective p.chunk p.offset q.chunk q.offset inner in
    cc (region, chunk, offset)

abbrev place : ℕ → ItemPtr
place n = record { region = 5; chunk = 0; offset = n }

abbrev metas : List MetricMeta
metas =
    record { item = place 1; profile = single (codes "cache") (redis req) }
    ∷ record { item = place 0; profile = single (codes "feed") api_timeout }
    ∷ []

abbrev pool : ScalarMeta
pool = record {
  name = codes "cache";
  resource = none;
  kind = redis conn;
  mode = ScalarKind.gauge;
  item = place 0;
}

abbrev scalars : List ScalarMeta
scalars = pool ∷ []

sources-IsSource_example :
    Ascending (cmp_source address) (sources address metas scalars)
    × ((s : Source) → Memᴰ s (sources address metas scalars) ↔ IsSource metas scalars s)
sources-IsSource_example = sources-IsSource address metas scalars address-injective

-- The pool's gauge, in the family of connection gauges.
abbrev pool_source : Source
pool_source = record {
  output = record { metric_type = (output (redis conn)).0; name = codes "cache"; resource = none };
  kind = conn_gauge;
  item = SourceItem.gauge (place 0);
}

pool_source-Mem : Memᴰ pool_source (sources address metas scalars)
unfolding is_conn
pool_source-Mem = ((sources-IsSource address metas scalars address-injective).1 pool_source).1 (
    IsSource.of_gauge pool (output (redis conn)).0 conn_gauge (Memᴰ.head refl) refl
      (IsTypeOf.of_other (redis conn) (λ h. h)) (IsGaugeKind.of_conn refl))

sources-Apart_example : (8 < 10) × ((8 ≤ 8) ↔ IsGauge pool_source.item)
unfolding supports
sources-Apart_example =
    sources-Apart address metas scalars pool_source 8 address-injective pool_source-Mem refl

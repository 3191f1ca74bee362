-- ===== src/Prometheus/Source/Members.antt =====
-- The sources that `from_registry` of src/prometheus.rs makes are those of the process, sorted.
use mathlib.Core.List.Memᴰ
use mathlib.Core.List.{Memᴰ}
use metrics.Common.{
  ℕ, ◌≡◌, ◌↔◌, refl, sym, ap, subst, Bytes, List, [], ◌∷◌, ◌++◌, map, Option, none, some, All,
  All-append, inl, inr,
}
use metrics.Common.Members.{Mem-append, Mem-map, All-Mem, Mem-All, All-map}
use metrics.Kind.{MetricType}
use metrics.Plan.{ProfileOutput, ProfilePlan, ProfileMeta, single, resource, fanout}
use metrics.Resource.{ResourceLabels}
use metrics.Storage.{ItemPtr}
use metrics.Registry.{MetricMeta}
use metrics.Scalar.{ScalarKind, ScalarMeta}
use metrics.Compare.Sort.{Ascending}
use metrics.Prometheus.Source.{
  Source, SourceKind, timing, output_type, timing_kind, fanout_kind, timing_sources, scalar_kind,
  scalar_source, all_timing, cmp_source, sources, aggregate_of, scalar_item,
}
use metrics.Prometheus.Source.Ordered.{sources-ordered}
use metrics.Prometheus.Source.Listed.{IsNamed, IsOutput, IsSource, source_of}
use metrics.Prometheus.Source.Kinds.{
  output_type-IsTypeOf, IsTypeOf-output_type, timing_kind-IsTimingKind, IsTimingKind-timing_kind,
  scalar_kind-IsCounterKind, IsCounterKind-scalar_kind, scalar_kind-IsGaugeKind,
  IsGaugeKind-scalar_kind, fanout_kind-IsViewKind, IsViewKind-fanout_kind,
}

module _ (timings : List MetricMeta) (scalars : List ScalarMeta) where
  abbrev Is : Source → Type 0
  Is = IsSource timings scalars

  abbrev meta_of : ItemPtr → ProfileMeta → MetricMeta
  meta_of item profile = record { item = item; profile = profile }

  outputs_sound :
      (plan : ProfilePlan) (o : ProfileOutput)
      → Memᴰ o (plan.outputs ++ aggregate_of plan.aggregate)
      → IsOutput plan o
  outputs_sound plan o i = elim (Mem-append o plan.outputs (aggregate_of plan.aggregate) i) [
    | inl listed ↦ IsOutput.listed listed
    | inr one ↦ IsOutput.aggregated (only plan.aggregate one)
  ]
    where
      only : (a : Option ProfileOutput) → Memᴰ o (aggregate_of a) → a ≡ some o
      only none j = elim j [ ]
      only (some a) (Memᴰ.head e) = ap some (sym e)
      only (some a) (Memᴰ.tail j) = elim j [ ]

  timing_sound :
      (item : ItemPtr) (p : ProfileMeta)
      → Memᴰ (meta_of item p) timings
      → All Is (timing_sources (meta_of item p))
  unfolding timing_sources
  timing_sound item (single name kind) i = (
    IsSource.of_timing (meta_of item (single name kind)) (output_type kind) name none kind
        (timing_kind kind) i (IsNamed.by_name name kind) (output_type-IsTypeOf kind)
        (timing_kind-IsTimingKind kind),
    tt,
  )
  timing_sound item (resource labels kind) i = (
    IsSource.of_timing (meta_of item (resource labels kind)) (output_type kind) labels.name
        (some labels) kind (timing_kind kind) i (IsNamed.by_labels labels kind)
        (output_type-IsTypeOf kind) (timing_kind-IsTimingKind kind),
    tt,
  )
  timing_sound item (fanout plan) i =
      All-map Is (λ o. record { output = o; kind = fanout_kind o; item = timing item })
        (plan.outputs ++ aggregate_of plan.aggregate)
        (Mem-All _ (plan.outputs ++ aggregate_of plan.aggregate) (λ o j.
          IsSource.of_plan (meta_of item (fanout plan)) plan o (fanout_kind o) i refl
            (outputs_sound plan o j) (fanout_kind-IsViewKind o)))

  all_timing_sound :
      (ms : List MetricMeta)
      → ((m : MetricMeta) → Memᴰ m ms → Memᴰ m timings)
      → All Is (all_timing ms)
  all_timing_sound [] h = tt
  all_timing_sound (m ∷ ms) h =
      All-append Is (timing_sources m) (all_timing ms)
        (timing_sound m.item m.profile (h m (Memᴰ.head refl)))
        (all_timing_sound ms (λ m' i. h m' (Memᴰ.tail i)))

  scalar_sound : (m : ScalarMeta) → Memᴰ m scalars → Is (scalar_source m)
  unfolding scalar_source
  scalar_sound m i = of_mode m.mode refl
    where
      of_mode : (mode : ScalarKind) → m.mode ≡ mode → Is (scalar_source m)
      of_mode ScalarKind.counter e =
          subst
            (λ mode. Is (
              source_of (output_type m.kind) m.name m.resource (scalar_kind mode m.kind)
                (scalar_item mode m.item)))
            (sym e)
            (IsSource.of_counter m (output_type m.kind) (scalar_kind ScalarKind.counter m.kind) i e
              (output_type-IsTypeOf m.kind) (scalar_kind-IsCounterKind m.kind))
      of_mode ScalarKind.gauge e =
          subst
            (λ mode. Is (
              source_of (output_type m.kind) m.name m.resource (scalar_kind mode m.kind)
                (scalar_item mode m.item)))
            (sym e)
            (IsSource.of_gauge m (output_type m.kind) (scalar_kind ScalarKind.gauge m.kind) i e
              (output_type-IsTypeOf m.kind) (scalar_kind-IsGaugeKind m.kind))

  abbrev made : List Source
  made = all_timing timings ++ map scalar_source scalars

  made_sound : All Is made
  made_sound =
      All-append Is (all_timing timings) (map scalar_source scalars)
        (all_timing_sound timings (λ m i. i))
        (All-map Is scalar_source scalars (Mem-All _ scalars scalar_sound))

  timing_made :
      (ms : List MetricMeta) (m : MetricMeta) (s : Source)
      → Memᴰ m ms
      → Memᴰ s (timing_sources m)
      → Memᴰ s (all_timing ms)
  timing_made [] m s i j = elim i [ ]
  timing_made (x ∷ ms) m s (Memᴰ.head e) j =
      Memᴰ.append_left (all_timing ms) (subst (λ (y : MetricMeta). Memᴰ s (timing_sources y)) e j)
  timing_made (x ∷ ms) m s (Memᴰ.tail i) j =
      Memᴰ.append_right (timing_sources x) (timing_made ms m s i j)

  profile_made :
      (item : ItemPtr) (p : ProfileMeta) (name t : Bytes) (labels : Option ResourceLabels)
      (kind : MetricType) (k : SourceKind)
      → IsNamed p name labels kind
      → output_type kind ≡ t
      → timing_kind kind ≡ k
      → Memᴰ (source_of t name labels k (timing item)) (timing_sources (meta_of item p))
  unfolding timing_sources
  profile_made item p name t labels kind k (IsNamed.by_name _ _) e f = Memᴰ.head (cc (e, f))
  profile_made item p name t labels kind k (IsNamed.by_labels _ _) e f = Memᴰ.head (cc (e, f))

  output_made :
      (plan : ProfilePlan) (o : ProfileOutput)
      → IsOutput plan o
      → Memᴰ o (plan.outputs ++ aggregate_of plan.aggregate)
  output_made plan o (IsOutput.listed i) = Memᴰ.append_left (aggregate_of plan.aggregate) i
  output_made plan o (IsOutput.aggregated e) =
      Memᴰ.append_right plan.outputs (subst (λ a. Memᴰ o (aggregate_of a)) (sym e) (Memᴰ.head refl))

  plan_made :
      (item : ItemPtr) (p : ProfileMeta) (plan : ProfilePlan) (o : ProfileOutput) (k : SourceKind)
      → p ≡ fanout plan
      → IsOutput plan o
      → fanout_kind o ≡ k
      → Memᴰ (record { output = o; kind = k; item = timing item }) (timing_sources (meta_of item p))
  unfolding timing_sources
  plan_made item p plan o k e is f =
      subst
        (λ (q : ProfileMeta).
          Memᴰ (record { output = o; kind = k; item = timing item })
            (timing_sources (meta_of item q)))
        (sym e)
        (subst
          (λ (k : SourceKind).
            Memᴰ (record { output = o; kind = k; item = timing item })
              (timing_sources (meta_of item (fanout plan))))
          f
          (Mem-map (λ o. record { output = o; kind = fanout_kind o; item = timing item }) o
            (plan.outputs ++ aggregate_of plan.aggregate) (output_made plan o is)))

  scalar_made :
      (m : ScalarMeta) (t : Bytes) (k : SourceKind) (mode : ScalarKind)
      → Memᴰ m scalars
      → m.mode ≡ mode
      → output_type m.kind ≡ t
      → scalar_kind mode m.kind ≡ k
      → Memᴰ (source_of t m.name m.resource k (scalar_item mode m.item)) made
  unfolding scalar_source
  scalar_made m t k mode i e f g =
      let made_of = Mem-map scalar_source m scalars i in
      let same : scalar_source m ≡ source_of t m.name m.resource k (scalar_item mode m.item) =
        cc (e, f, g) in
      Memᴰ.append_right (all_timing timings)
        (subst (λ (s : Source). Memᴰ s (map scalar_source scalars)) same made_of)

  all_made : (s : Source) → Is s → Memᴰ s made
  all_made s (IsSource.of_timing m t name labels kind k i named typed kinded) =
      Memᴰ.append_left (map scalar_source scalars) (
        timing_made timings m _ i (
          profile_made m.item m.profile name t labels kind k named
            (IsTypeOf-output_type kind t typed) (IsTimingKind-timing_kind kind k kinded)))
  all_made s (IsSource.of_plan m plan o k i e is kinded) =
      Memᴰ.append_left (map scalar_source scalars) (
        timing_made timings m _ i
          (plan_made m.item m.profile plan o k e is (IsViewKind-fanout_kind o k kinded)))
  all_made s (IsSource.of_counter m t k i e typed kinded) =
      scalar_made m t k ScalarKind.counter i e (IsTypeOf-output_type m.kind t typed)
        (IsCounterKind-scalar_kind m.kind k kinded)
  all_made s (IsSource.of_gauge m t k i e typed kinded) =
      scalar_made m t k ScalarKind.gauge i e (IsTypeOf-output_type m.kind t typed)
        (IsGaugeKind-scalar_kind m.kind k kinded)

-- A scrape's sources stand in strictly ascending order, so each of them once, and are exactly those of
-- the process: one for each timing metric under its name or labels; one for each output of a plan and
-- for its aggregate; and one for each counter and each gauge; each with the type and the source kind of
-- its kind.
pub sources-IsSource :
    (address : ItemPtr → ℕ) (timings : List MetricMeta) (scalars : List ScalarMeta)
    → ((p q : ItemPtr) → address p ≡ address q → p ≡ q)
    → Ascending (cmp_source address) (sources address timings scalars)
      × ((s : Source) → Memᴰ s (sources address timings scalars) ↔ IsSource timings scalars s)
sources-IsSource address timings scalars distinct =
    let (ascending, same) = sources-ordered address distinct timings scalars in
    let all = sources address timings scalars in
    (
      ascending,
      λ s. (
        All-Mem (IsSource timings scalars) all s
            ((same (IsSource timings scalars)).1 (made_sound timings scalars)),
        λ is.
            All-Mem (λ x. Memᴰ x all) (made timings scalars) s
              ((same (λ x. Memᴰ x all)).0 (Mem-All (λ x. Memᴰ x all) all (λ x i. i)))
              (all_made timings scalars s is),
      ),
    )

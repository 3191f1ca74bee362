-- ===== src/Global/Shown.antt =====
-- The public `visit` of src/lib.rs: the rows that it shows, with the counters of each identity.
use metrics.Common.{
  Bytes, map, ℕ, zero, suc, ◌+◌, ◌<◌, ◌≡◌, ◌∙◌, refl, ap, List, [], ◌∷◌, ◌++◌, some, arith,
  get_elem?, All, All-append, get_elem?_lt,
}
use metrics.Common.Panic.{ok}
use metrics.Kind.{MetricType, output}
use metrics.Resource.{ResourceLabels}
use metrics.Plan.{ProfileOutput, ProfilePlan, ProfileMeta, single, resource, fanout}
use metrics.Slot.{snapshot, MetricSnapshot}
use metrics.Storage.Holds.{ptr_of}
use metrics.Keyed.Visits.{all_of}
use metrics.Registry.{MetricMeta}
use metrics.Registry.Keys.{Key, meta_key}
use metrics.Global.{Registry, read_item, Visited, visited_rows, visit_metas, visit_all}
use metrics.Global.Defined.{Contents}
use metrics.Global.Counters.{View, Views, or_default, some-or_default}
use metrics.Global.Visits.{All-each, for_each_meta-Serves}

-- The rows of all items, in order, each with a snapshot of its identity's counters.
unfoldable rows_of : View → List MetricMeta → List Visited
rows_of view [] = []
rows_of view (m ∷ ms) =
    visited_rows m.profile (snapshot (or_default (view (meta_key m)))) ++ rows_of view ms

all_of-All :
    (P : MetricMeta → Type 0) (c : Contents) (i n : ℕ)
    → ((j : ℕ) → j < i + n → All P (c j))
    → All P (all_of c i n)
all_of-All P c i zero h = tt
all_of-All P c i (suc n) h =
    All-append P (c i) (all_of c (suc i) n) (h i (omega arith))
      (all_of-All P c (suc i) n (λ j lt. h j (omega arith)))

module _ (hash : Key → ℕ) (registry : Registry) (c : Contents) (view : View)
    (v : Views hash registry c view) where
  abbrev IsShown : MetricMeta → Type 0
  IsShown m = read_item m.item registry ≡ ok (or_default (view (meta_key m)))

  item-IsShown : (i n : ℕ) (m : MetricMeta) → i < 64 → get_elem? (c i) n ≡ some m → IsShown m
  item-IsShown i n m lt e =
      let (shard, here) = get_elem?_lt registry.shards i (omega (arith, v.serves.count)) in
      let (r, region) = v.serves.each i shard here in
      let routed = v.serves.routed i n m e in
      let place : m.item ≡ ptr_of i n = r.items n m e ∙ ap (λ (g : ℕ). ptr_of g n) region in
      let seen = rw (routed, r.once n m e) at (v.shown (meta_key m)) in
      rw place (cc (some-or_default (view (meta_key m)) seen))

  visit_metas-IsShown :
      (ms : List MetricMeta) → All IsShown ms → visit_metas ms registry ≡ ok (rows_of view ms)
  unfolding visit_metas rows_of
  visit_metas-IsShown [] h = refl
  visit_metas-IsShown (m ∷ ms) (shown, h) = rw (shown, visit_metas-IsShown ms h)

  visit_all-rows_of : visit_all registry ≡ ok (rows_of view (all_of c 0 64))
  unfolding visit_all
  visit_all-rows_of =
      let all =
        all_of-All IsShown c 0 64
          (λ j lt. All-each IsShown (c j) (λ n m e. item-IsShown j n m (omega arith) e)) in
      rw
        ((for_each_meta-Serves hash registry c v.serves).0, visit_metas-IsShown (all_of c 0 64) all)

-- The counters that an item's identity has in a view.
abbrev pub counters : View → MetricMeta → MetricSnapshot
counters view m = snapshot (or_default (view (meta_key m)))

-- One row for each output, under its name and type.
pub data AreViews (s : MetricSnapshot) : List ProfileOutput → List Visited → Type 0 where
  no_output : AreViews s [] []
  output_row :
      (o : ProfileOutput) (os : List ProfileOutput) (rows : List Visited)
      → AreViews s os rows
      → AreViews s (o ∷ os) ((o.name, o.metric_type, s) ∷ rows)

-- The rows of items, in order: an item without a plan has one, under its name and the type of its kind,
-- and another has one for each output.
pub data AreRows (view : View) : List MetricMeta → List Visited → Type 0 where
  no_item : AreRows view [] []
  by_name :
      (m : MetricMeta) (ms : List MetricMeta) (rows : List Visited) (name : Bytes)
      (kind : MetricType)
      → m.profile ≡ single name kind
      → AreRows view ms rows
      → AreRows view (m ∷ ms) ((name, (output kind).0, counters view m) ∷ rows)
  by_labels :
      (m : MetricMeta) (ms : List MetricMeta) (rows : List Visited) (labels : ResourceLabels)
      (kind : MetricType)
      → m.profile ≡ resource labels kind
      → AreRows view ms rows
      → AreRows view (m ∷ ms) ((labels.name, (output kind).0, counters view m) ∷ rows)
  by_plan :
      (m : MetricMeta) (ms : List MetricMeta) (views rows : List Visited) (plan : ProfilePlan)
      → m.profile ≡ fanout plan
      → AreViews (counters view m) plan.outputs views
      → AreRows view ms rows
      → AreRows view (m ∷ ms) (views ++ rows)

map-AreViews :
    (s : MetricSnapshot) (os : List ProfileOutput)
    → AreViews s os (map (λ o. (o.name, o.metric_type, s)) os)
map-AreViews s [] = no_output
map-AreViews s (o ∷ os) = output_row o os _ (map-AreViews s os)

rows_of-AreRows : (view : View) (ms : List MetricMeta) → AreRows view ms (rows_of view ms)
unfolding rows_of visited_rows
rows_of-AreRows view [] = no_item
rows_of-AreRows view (m ∷ ms) = head_rows m.profile refl (rows_of-AreRows view ms)
  where
    head_rows :
        (p : ProfileMeta)
        → m.profile ≡ p
        → AreRows view ms (rows_of view ms)
        → AreRows view (m ∷ ms) (visited_rows p (counters view m) ++ rows_of view ms)
    head_rows (single name kind) e rest = by_name m ms _ name kind e rest
    head_rows (resource labels kind) e rest = by_labels m ms _ labels kind e rest
    head_rows (fanout plan) e rest =
        by_plan m ms _ _ plan e (map-AreViews (counters view m) plan.outputs) rest

-- On a registry that satisfies the invariant, the public `visit` neither panics nor reads what is no
-- slot. It shows, for every item that was registered, in order, one row under its name and type, or
-- one for each output of its plan, with a snapshot of the counters of the item's identity.
pub visit_all-AreRows :
    (hash : Key → ℕ) (registry : Registry) (c : Contents) (view : View)
    → Views hash registry c view
    → (rows : List Visited) × (visit_all registry ≡ ok rows) × AreRows view (all_of c 0 64) rows
visit_all-AreRows hash registry c view v = (
  rows_of view (all_of c 0 64),
  visit_all-rows_of hash registry c view v,
  rows_of-AreRows view (all_of c 0 64),
)

-- ===== src/Prometheus/Sample.antt =====
-- What a sample is and how it is written: the rows of the families, the sum over a group of sources,
-- and the lines that `next_sample` of src/prometheus.rs puts in the buffer.
use metrics.Common.{
  ℕ, ◌+◌, ◌-◌, ◌^◌, min, Bool, true, false, leb, if◌then◌else◌, ite, Bytes, codes, [], ◌∷◌, ◌++◌,
  Option, none, some, ℕ_discrete, get_elem?,
}
use metrics.Common.Int.{ℤ, pos, negsuc, ◌+ℤ◌}
use metrics.Resource.{MetricAccess, access_label, ConnectionRole, role_label, ResourceLabels}
use metrics.Plan.{ProfileOutput-discrete}
use metrics.Slot.{Slot, Counter, total, read, u64_max}
use metrics.Storage.{ItemPtr}
use metrics.Scalar.Value.{to_i64}
use metrics.State
use metrics.State.{StateSnapshot}
use metrics.Prometheus.Label.{label}
use metrics.Prometheus.Number.{decimal, signed_decimal, seconds_text}
use metrics.Prometheus.Source.{families, SourceKind, SourceItem, timing, counter, gauge, Source}

-- The slots behind the pointers of a reader.
pub record Memory : Type 0 where
  pub slot : ItemPtr → Slot
  pub scalar : ItemPtr → ℕ

abbrev pub family_row : ℕ → Bytes × Counter × Bool
family_row family = elim (get_elem? families family) [ none ↦ ([], total, false) | some row ↦ row ]

-- `# TYPE {name} {mode}`
unfoldable pub type_line : ℕ → Bytes
type_line family =
    codes "# TYPE "
    ++ (family_row family).0
    ++ (if leb 8 family then codes " gauge" else codes " counter")
    ++ b'\n' ∷ []

unfoldable pub SourceKind-discrete : Discrete SourceKind
unfolding ℕ_discrete
SourceKind-discrete = hlevel ℕ_discrete

-- `output == *output && kind == kind`
unfoldable pub same_series : Source → Source → Bool
unfolding ProfileOutput-discrete SourceKind-discrete
same_series first s =
    ite (ProfileOutput-discrete s.output first.output)
      (ite (SourceKind-discrete s.kind first.kind) true false) false

-- `u64::saturating_add` and `i64::saturating_add`
abbrev pub saturating_add : ℕ → ℕ → ℕ
saturating_add a b = min (a + b) u64_max

abbrev pub clamp : ℤ → ℤ
clamp (pos n) = pos (min n (2 ^ 63 - 1))
clamp (negsuc n) = negsuc (min n (2 ^ 63 - 1))

unfoldable pub saturating_add_i64 : ℤ → ℤ → ℤ
unfolding ◌+ℤ◌
saturating_add_i64 a b = clamp (a +ℤ b)

-- What the inner loop has added up, and the index behind the group.
pub record Group : Type 0 where
  pub value : ℕ
  pub gauge : ℤ
  pub next : ℕ

-- One round of the inner loop: the load of a source and its addition.
unfoldable pub add_item : Memory → Counter → SourceItem → Group → Group
unfolding saturating_add_i64 read to_i64
add_item memory c (timing item) g = record {
  value = saturating_add g.value (read c (memory.slot item));
  gauge = g.gauge;
  next = g.next + 1;
}
add_item memory c (counter item) g = record {
  value = saturating_add g.value (memory.scalar item);
  gauge = g.gauge;
  next = g.next + 1;
}
add_item memory c (gauge item) g = record {
  value = g.value;
  gauge = saturating_add_i64 g.gauge (to_i64 (memory.scalar item));
  next = g.next + 1;
}

-- `, access="…`
abbrev pub write_access : Bytes → Option MetricAccess → Bytes
write_access buffer none = buffer
write_access buffer (some access) = label (buffer ++ codes "\",access=\"") (access_label access)

abbrev pub write_role : Bytes → Option ConnectionRole → Bytes
write_role buffer none = buffer
write_role buffer (some role) = label (buffer ++ codes "\",role=\"") (role_label role)

abbrev pub write_resource : Bytes → Option ResourceLabels → Bytes
write_resource buffer none = buffer
write_resource buffer (some resource) =
    write_role
      (write_access (label (buffer ++ codes "\",endpoint=\"") resource.endpoint) resource.access)
      resource.role

abbrev pub write_code : Bytes → SourceKind → Bytes
write_code buffer (SourceKind.api code) = buffer ++ codes "\",status_code=\"" ++ decimal code
write_code buffer SourceKind.timeout = buffer ++ codes "\",status_code=\"timeout"
write_code buffer _ = buffer

-- The labels of a sample, up to the closing brace
unfoldable pub write_labels : Bytes → Source → Bytes
unfolding access_label role_label label decimal
write_labels name source =
    let typed = label (name ++ codes "{type=\"") source.output.metric_type in
    let named = label (typed ++ codes "\",name=\"") source.output.name in
    write_code (write_resource named source.output.resource) source.kind ++ codes "\"} "

-- The value of a sample
unfoldable pub value_text : ℕ → Group → Bytes
unfolding signed_decimal decimal seconds_text
value_text family g =
    let plain = decimal g.value in
    let seconds = seconds_text g.value in
    let signed = signed_decimal g.gauge in
    if leb 8 family then signed else if (family_row family).2 then seconds else plain

unfoldable pub sample_text : ℕ → Source → Group → Bytes
unfolding write_labels value_text
sample_text family source g =
    write_labels (family_row family).0 source ++ value_text family g ++ b'\n' ∷ []

abbrev pub state_header : Bytes
state_header = codes "# TYPE brz_rpc_state gauge\n"

-- The labels of a state's sample, up to the closing brace
unfoldable pub state_labels : StateSnapshot → Bytes → Bytes
unfolding State.metric_type label
state_labels state field =
    let typed = label (codes "brz_rpc_state{type=\"") (State.metric_type state.state_type) in
    let named = label (typed ++ codes "\",name=\"") state.name in
    label (named ++ codes "\",field=\"") field ++ codes "\"} "

-- A sample of a state: its value as `f64` prints it.
unfoldable pub state_text : StateSnapshot → Bytes → Bytes → Bytes
unfolding state_labels
state_text state field value = state_labels state field ++ value ++ b'\n' ∷ []

-- ===== src/Prometheus/Labels.antt =====
-- The labels of a sample as a list of keys and values.
use metrics.Common.{
  ◌≡◌, ◌∙◌, refl, sym, ap, List, [], ◌∷◌, ◌++◌, append_assoc, append-nil, Option, none, some, Bytes,
  codes,
}
use metrics.Resource.{MetricAccess, access_label, ConnectionRole, role_label, ResourceLabels}
use metrics.Prometheus.Label.{escape, label, label-escape}
use metrics.Prometheus.Number.{decimal}
use metrics.Prometheus.Source.{Source, SourceKind}
use metrics.Prometheus.Sample.{write_labels, write_access, write_role, write_resource, write_code}

-- A key and the text of its value between the quotes.
abbrev Pair : Type 0
Pair = Bytes × Bytes

abbrev access_pairs : Option MetricAccess → List Pair
access_pairs none = []
access_pairs (some access) = (codes "access", escape (access_label access)) ∷ []

abbrev role_pairs : Option ConnectionRole → List Pair
role_pairs none = []
role_pairs (some role) = (codes "role", escape (role_label role)) ∷ []

abbrev resource_pairs : Option ResourceLabels → List Pair
resource_pairs none = []
resource_pairs (some r) =
    (codes "endpoint", escape r.endpoint) ∷ (access_pairs r.access ++ role_pairs r.role)

abbrev code_pairs : SourceKind → List Pair
code_pairs (SourceKind.api code) = (codes "status_code", decimal code) ∷ []
code_pairs SourceKind.timeout = (codes "status_code", codes "timeout") ∷ []
code_pairs _ = []

-- `key="value"` for each pair behind another one: the quote of that one closes first.
unfoldable pub pairs_text : List Pair → Bytes
pairs_text [] = []
pairs_text ((key, value) ∷ rest) =
    codes "\"," ++ (key ++ (codes "=\"" ++ (value ++ pairs_text rest)))

-- The labels of a source, in order
abbrev pub pairs_of : Source → List Pair
pairs_of s =
    (codes "name", escape s.output.name) ∷ (resource_pairs s.output.resource ++ code_pairs s.kind)

pairs_text-append : (xs ys : List Pair) → pairs_text (xs ++ ys) ≡ pairs_text xs ++ pairs_text ys
unfolding pairs_text
pairs_text-append [] ys = refl
pairs_text-append ((key, value) ∷ xs) ys =
    ap (λ t. codes "\"," ++ (key ++ (codes "=\"" ++ (value ++ t)))) (pairs_text-append xs ys)
    ∙ ap (λ t. codes "\"," ++ (key ++ (codes "=\"" ++ t)))
        (sym (append_assoc value (pairs_text xs) (pairs_text ys)))
    ∙ ap (λ t. codes "\"," ++ (key ++ t))
        (sym (append_assoc (codes "=\"") (value ++ pairs_text xs) (pairs_text ys)))
    ∙ ap (λ t. codes "\"," ++ t)
        (sym (append_assoc key (codes "=\"" ++ (value ++ pairs_text xs)) (pairs_text ys)))

-- The text between two values, and a value behind it, as a writer leaves them in the buffer.
behind :
    (buffer between value : Bytes)
    → label (buffer ++ between) value ≡ buffer ++ (between ++ (escape value ++ []))
behind buffer between value =
    label-escape (buffer ++ between) value
    ∙ append_assoc buffer between (escape value)
    ∙ ap (λ t. buffer ++ (between ++ t)) (sym (append-nil (escape value)))

write_access_lem :
    (buffer : Bytes) (o : Option MetricAccess)
    → write_access buffer o ≡ buffer ++ pairs_text (access_pairs o)
unfolding pairs_text
write_access_lem buffer none = sym (append-nil buffer)
write_access_lem buffer (some a) = behind buffer (codes "\",access=\"") (access_label a)

write_role_lem :
    (buffer : Bytes) (o : Option ConnectionRole)
    → write_role buffer o ≡ buffer ++ pairs_text (role_pairs o)
unfolding pairs_text
write_role_lem buffer none = sym (append-nil buffer)
write_role_lem buffer (some r) = behind buffer (codes "\",role=\"") (role_label r)

write_code_lem :
    (buffer : Bytes) (kind : SourceKind)
    → write_code buffer kind ≡ buffer ++ pairs_text (code_pairs kind)
unfolding pairs_text
write_code_lem buffer (SourceKind.api code) =
    append_assoc buffer (codes "\",status_code=\"") (decimal code)
    ∙ ap (λ t. buffer ++ (codes "\",status_code=\"" ++ t)) (sym (append-nil (decimal code)))
write_code_lem buffer SourceKind.timeout = refl
write_code_lem buffer _ = sym (append-nil buffer)

write_resource_lem :
    (buffer : Bytes) (o : Option ResourceLabels)
    → write_resource buffer o ≡ buffer ++ pairs_text (resource_pairs o)
write_resource_lem buffer none = unfold pairs_text in sym (append-nil buffer)
write_resource_lem buffer (some r) =
    let endpoint : Pair = (codes "endpoint", escape r.endpoint) in
    let b1 = label (buffer ++ codes "\",endpoint=\"") r.endpoint in
    let first : b1 ≡ buffer ++ pairs_text (endpoint ∷ []) =
      unfold pairs_text in behind buffer (codes "\",endpoint=\"") r.endpoint in
    let accesses = pairs_text (access_pairs r.access) in
    let roles = pairs_text (role_pairs r.role) in
    write_role_lem (write_access b1 r.access) r.role
    ∙ ap (λ b. b ++ roles) (write_access_lem b1 r.access)
    ∙ ap (λ b. (b ++ accesses) ++ roles) first
    ∙ append_assoc (buffer ++ pairs_text (endpoint ∷ [])) accesses roles
    ∙ append_assoc buffer (pairs_text (endpoint ∷ [])) (accesses ++ roles)
    ∙ ap (λ t. buffer ++ (pairs_text (endpoint ∷ []) ++ t))
        (sym (pairs_text-append (access_pairs r.access) (role_pairs r.role)))
    ∙ ap (λ t. buffer ++ t)
        (sym (pairs_text-append (endpoint ∷ []) (access_pairs r.access ++ role_pairs r.role)))

-- The labels are written as the braces around the list of `key="value"`, with commas between them: the
-- type, the name, what the source has of endpoint, access and role, and a status code where it has one.
pub write_labels-pairs_text :
    (name : Bytes) (s : Source)
    → write_labels name s
      ≡ name
        ++ (codes "{type=\""
            ++ (escape s.output.metric_type ++ (pairs_text (pairs_of s) ++ codes "\"} ")))
unfolding write_labels
write_labels-pairs_text name s =
    let start = name ++ codes "{type=\"" in
    let typed = label start s.output.metric_type in
    let named = label (typed ++ codes "\",name=\"") s.output.name in
    let pair : Pair = (codes "name", escape s.output.name) in
    let first : named ≡ typed ++ pairs_text (pair ∷ []) =
      unfold pairs_text in behind typed (codes "\",name=\"") s.output.name in
    let resources = resource_pairs s.output.resource in
    let code = code_pairs s.kind in
    let written : write_code (write_resource named s.output.resource) s.kind
        ≡ typed ++ pairs_text (pairs_of s) =
      write_code_lem (write_resource named s.output.resource) s.kind
      ∙ ap (λ b. b ++ pairs_text code) (write_resource_lem named s.output.resource)
      ∙ ap (λ b. (b ++ pairs_text resources) ++ pairs_text code) first
      ∙ append_assoc (typed ++ pairs_text (pair ∷ [])) (pairs_text resources) (pairs_text code)
      ∙ append_assoc typed (pairs_text (pair ∷ [])) (pairs_text resources ++ pairs_text code)
      ∙ ap (λ t. typed ++ (pairs_text (pair ∷ []) ++ t)) (sym (pairs_text-append resources code))
      ∙ ap (λ t. typed ++ t) (sym (pairs_text-append (pair ∷ []) (resources ++ code))) in
    ap (λ b. b ++ codes "\"} ") written
    ∙ append_assoc typed (pairs_text (pairs_of s)) (codes "\"} ")
    ∙ ap (λ b. b ++ (pairs_text (pairs_of s) ++ codes "\"} "))
        (label-escape start s.output.metric_type)
    ∙ append_assoc start (escape s.output.metric_type) (pairs_text (pairs_of s) ++ codes "\"} ")
    ∙ append_assoc name (codes "{type=\"")
        (escape s.output.metric_type ++ (pairs_text (pairs_of s) ++ codes "\"} "))

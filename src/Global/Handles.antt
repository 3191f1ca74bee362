-- ===== src/Global/Handles.antt =====
-- Client programs: handles are shared by identity, and the counters are the totals of all calls.
use metrics.Common.{ℕ, ◌≡◌, ◌↔◌, ◌∙◌, sym, ap, subst, refl, List, [], ◌∷◌, none, some, ite, foldl}
use metrics.Common.Panic.{Outcome, ok, ◌>>=◌}
use metrics.Slot.{Counter, record_operation, increment}
use metrics.Slot.Atomic.{Call, recorded, incremented, run_call}
use metrics.Slot.Totals.{contribution}
use metrics.Storage.Holds.{ptr_of}
use metrics.Storage.Slots.{ptr_of-injective, ptr_of-region}
use metrics.Registry.{Metric, from_item}
use metrics.Keyed.Find.{find_by, find_by-injective}
use metrics.Registry.Keys.{Key, Key-discrete, find_key, meta_key}
use metrics.Registry.Refinement.{Request, request_key, policy_of}
use metrics.Global.{
  Registry, new_registry, shard_of, serve, read_item, record_metric, increment_metric,
}
use metrics.Global.Defined.{Contents, requested, new_registry-Serves}
use metrics.Global.Counters.{
  View, put, or_default, lift, find, Views, serve-Views, find-requested_self, find-requested_ne,
  some-or_default,
}
use metrics.Global.Updates.{update-Views}

-- What a client does: it obtains a handle, or obtains one and makes a call through it.
pub data Command : Type 0 where
  registered : Request → Command
  used : Request → Call → Command

unfoldable pub call_metric : Metric → Call → Registry → Outcome Registry
call_metric metric (recorded elapsed success) = record_metric metric elapsed success
call_metric metric incremented = increment_metric metric

abbrev pub command_request : Command → Request
command_request (registered request) = request
command_request (used request call) = request

-- What a command means for a counter of an identity.
unfoldable pub amount : Key → Counter → Command → ℕ
amount key c (registered request) = 0
amount key c (used request call) =
    ite (Key-discrete (request_key request) key) (contribution (policy_of request) c call) 0

-- The counters after a command, on their own.
abbrev pub after : Command → View → View
after (registered request) view =
    put view (request_key request) (or_default (view (request_key request)))
after (used request call) view =
    let key = request_key request in
    let view' = put view key (or_default (view key)) in
    put view' key (run_call (policy_of request) call (or_default (view' key)))

module _ (hash : Key → ℕ) where
  unfoldable pub exec : Command → Registry → Outcome Registry
  exec (registered request) registry = do
    (metric, registry') ← serve hash request registry
    ok registry'
  exec (used request call) registry = do
    (metric, registry') ← serve hash request registry
    call_metric metric call registry'

  unfoldable pub exec_all : List Command → Registry → Outcome Registry
  exec_all [] registry = ok registry
  exec_all (command ∷ rest) registry = do registry' ← exec command registry; exec_all rest registry'

  -- An identity that was found stays where it is.
  abbrev pub Keeps : Contents → Contents → Type 0
  Keeps c c' = (key : Key) (n : ℕ) → find hash c key ≡ some n → find hash c' key ≡ some n

  requested-Keeps : (request : Request) (c : Contents) → Keeps c (requested hash request c)
  requested-Keeps request c key n found = elim (Key-discrete (request_key request) key) [
    | no other ↦ find-requested_ne hash request c key other ∙ found
    | yes same ↦
        subst
          (λ (k : Key). find hash c k ≡ some n → find hash (requested hash request c) k ≡ some n)
          same (λ h. find-requested_self hash request c ∙ rw h) found
  ]

  call_metric-Views :
      (registry : Registry) (c : Contents) (view : View) (key : Key) (n : ℕ) (metric : Metric)
      (call : Call)
      → Views hash registry c view
      → find hash c key ≡ some n
      → metric.item ≡ ptr_of (shard_of hash key) n
      → (registry' : Registry) × (call_metric metric call registry ≡ ok registry')
        × Views hash registry' c
            (put view key (run_call metric.policy call (or_default (view key))))
  unfolding call_metric record_metric increment_metric run_call
  call_metric-Views registry c view key n metric (recorded elapsed success) v found item =
      let (registry', done, v') =
        update-Views hash registry c view key n (record_operation metric.policy elapsed success) v
          found in
      (registry', rw item done, v')
  call_metric-Views registry c view key n metric incremented v found item =
      let (registry', done, v') = update-Views hash registry c view key n increment v found in
      (registry', rw item done, v')

  exec-Views :
      (command : Command) (registry : Registry) (c : Contents) (view : View)
      → Views hash registry c view
      → (registry' : Registry) × (exec command registry ≡ ok registry')
        × Views hash registry' (requested hash (command_request command) c) (after command view)
  unfolding exec
  exec-Views (registered request) registry c view v =
      let (registry', n, served, found, v') = serve-Views hash request registry c view v in
      (registry', rw served, v')
  exec-Views (used request call) registry c view v =
      let (registry1, n, served, found, v1) = serve-Views hash request registry c view v in
      let key = request_key request in
      let (registry', done, v') =
        call_metric-Views registry1 (requested hash request c)
          (put view key (or_default (view key))) key n
          (from_item (ptr_of (shard_of hash key) n) (policy_of request)) call v1 found refl in
      (registry', rw served done, v')

  -- A program runs to its end, on any registry in good order.
  pub exec_all-Views :
      (commands : List Command) (registry : Registry) (c : Contents) (view : View)
      → Views hash registry c view
      → (registry' : Registry) × (c' : Contents) × (exec_all commands registry ≡ ok registry')
        × Views hash registry' c' (foldl (λ w command. after command w) view commands)
        × Keeps c c'
  unfolding exec_all
  exec_all-Views [] registry c view v = (registry, c, refl, v, λ key n h. h)
  exec_all-Views (command ∷ rest) registry c view v =
      let (registry1, done, v1) = exec-Views command registry c view v in
      let (registry', c', finished, v', kept) =
        exec_all-Views rest registry1 (requested hash (command_request command) c)
          (after command view) v1 in
      (
        registry',
        c',
        rw done finished,
        v',
        λ key n h. kept key n (requested-Keeps (command_request command) c key n h),
      )

  same_place_iff :
      (c : Contents) (k k' : Key) (n n' : ℕ)
      → find hash c k ≡ some n
      → find hash c k' ≡ some n'
      → (ptr_of (shard_of hash k) n ≡ ptr_of (shard_of hash k') n') ↔ (k ≡ k')
  same_place_iff c k k' n n' h h' = (forth, back)
    where
      forth : ptr_of (shard_of hash k) n ≡ ptr_of (shard_of hash k') n' → k ≡ k'
      forth e =
          let region : shard_of hash k ≡ shard_of hash k' =
            ptr_of-region (shard_of hash k) (shard_of hash k') n n' e in
          let place : n ≡ n' =
            ptr_of-injective (shard_of hash k) n n'
              (e ∙ ap (λ (g : ℕ). ptr_of g n') (sym region)) in
          find_by-injective Key-discrete meta_key k k' (c (shard_of hash k)) h
            (ap (λ (g : ℕ). find_key k' (c g)) region ∙ h') place

      back : k ≡ k' → ptr_of (shard_of hash k) n ≡ ptr_of (shard_of hash k') n'
      back e =
          let both : some n ≡ some n' = sym h ∙ ap (find hash c) e ∙ h' in
          let place : n ≡ n' = cc both in
          ap (λ (g : Key). ptr_of (shard_of hash g) n) e ∙ ap (ptr_of (shard_of hash k')) place

  -- On a registry that satisfies the invariant, let any program run between two requests. The handles point to the same counters exactly when
  -- the two were registered under one identity: kind and name, kind and labels, or policy and plan
  -- identity.
  pub serve-same_item_iff :
      (first second : Request) (commands : List Command) (registry : Registry) (c : Contents)
      (view : View)
      → Views hash registry c view
      → (m1 m2 : Metric) × (registry1 registry2 registry3 : Registry) × (serve hash first registry
          ≡ ok (m1, registry1))
        × (exec_all commands registry1 ≡ ok registry2)
        × (serve hash second registry2 ≡ ok (m2, registry3))
        × ((m1.item ≡ m2.item) ↔ (request_key first ≡ request_key second))
  serve-same_item_iff first second commands registry c view v =
      let (registry1, n1, served1, found1, v1) = serve-Views hash first registry c view v in
      let (registry2, c2, ran, v2, kept2) =
        exec_all-Views commands registry1 (requested hash first c)
          (put view (request_key first) (or_default (view (request_key first)))) v1 in
      let (registry3, n2, served2, found2, v3) =
        serve-Views hash second registry2 c2
          (foldl (λ w command. after command w)
            (put view (request_key first) (or_default (view (request_key first)))) commands)
          v2 in
      let c3 = requested hash second c2 in
      let first_found : find hash c3 (request_key first) ≡ some n1 =
        requested-Keeps second c2 (request_key first) n1 (kept2 (request_key first) n1 found1) in
      (
        from_item (ptr_of (shard_of hash (request_key first)) n1) (policy_of first),
        from_item (ptr_of (shard_of hash (request_key second)) n2) (policy_of second),
        registry1,
        registry2,
        registry3,
        served1,
        ran,
        served2,
        same_place_iff c3 (request_key first) (request_key second) n1 n2 first_found found2,
      )

  -- The fresh registry shows no counters.
  pub new_registry-Views : Views hash new_registry (λ i. []) (λ k. none)
  unfolding find_by
  new_registry-Views = record { serves = new_registry-Serves hash; shown = λ k. refl }

  -- What is read at the place of an identity is what the view shows.
  pub shown-read :
      (registry : Registry) (c : Contents) (view : View) (key : Key) (n : ℕ)
      → Views hash registry c view
      → find hash c key ≡ some n
      → read_item (ptr_of (shard_of hash key) n) registry ≡ ok (or_default (view key))
  shown-read registry c view key n v found =
      let seen : some (read_item (ptr_of (shard_of hash key) n) registry) ≡ lift (view key) =
        rw found at (v.shown key) in
      let e : some (read_item (ptr_of (shard_of hash key) n) registry)
          ≡ lift (some (or_default (view key))) =
        some-or_default (view key) seen in
      cc e

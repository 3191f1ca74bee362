-- ===== src/Global/Producer.antt =====
-- The constructors of `Metric` in src/lib.rs, and which requests they refuse.
use metrics.Common.{
  ℕ, ◌≤◌, ◌≡◌, ◌↔◌, ◌⊎◌, ◌∙◌, refl, ap, Bool, true, false, ◌&&◌, leb, not, Bytes, Bool-cases, inl,
  inr, arith,
}
use metrics.Common.Panic.{Outcome, ok, panic, ◌>>◌, check}
use metrics.Kind.{
  MetricType, log, redis, mysql, memcache, mc_detail, http, http_all, api_all, api, api_3xx,
  api_4xx, api_5xx, api_timeout, service, rpc_service_whole, req, is_conn, validate,
}
use metrics.Registry.{Metric}
use metrics.Registry.Keys.{Key}
use metrics.Registry.Refinement.{named}
use metrics.Global.{Registry, serve, new}
use metrics.Global.Defined.{Contents}
use metrics.Global.Counters.{View, Views, serve-Views}

-- A response code of HTTP.
abbrev pub IsStatus : ℕ → Type 0
IsStatus code = (100 ≤ code) × (code ≤ 599)

-- What may be a timing metric: no connection kind, and a response code of HTTP if it is one.
unfoldable pub IsTiming : MetricType → Type 0
IsTiming (api code) = IsStatus code
IsTiming kind = is_conn kind ≡ false

module _ (hash : Key → ℕ) where
  -- `Metric::register_single`
  abbrev pub register_single : Bytes → MetricType → Registry → Outcome (Metric × Registry)
  register_single name kind = serve hash (named name kind)

  abbrev pub new_log : Bytes → Registry → Outcome (Metric × Registry)
  new_log name = register_single name log

  abbrev pub new_redis : Bytes → Registry → Outcome (Metric × Registry)
  new_redis name = register_single name (redis req)

  abbrev pub new_mysql : Bytes → Registry → Outcome (Metric × Registry)
  new_mysql name = register_single name (mysql req)

  abbrev pub new_mc : Bytes → Registry → Outcome (Metric × Registry)
  new_mc name = register_single name (memcache req)

  abbrev pub new_mc_detail : Bytes → Registry → Outcome (Metric × Registry)
  new_mc_detail name = register_single name mc_detail

  abbrev pub new_http : Bytes → Registry → Outcome (Metric × Registry)
  new_http name = register_single name (http req)

  abbrev pub new_http_all : Bytes → Registry → Outcome (Metric × Registry)
  new_http_all name = register_single name http_all

  abbrev pub new_api : Bytes → Registry → Outcome (Metric × Registry)
  new_api name = register_single name api_all

  -- `Metric::api_status`, with its `assert!`
  unfoldable pub api_status : Bytes → ℕ → Registry → Outcome (Metric × Registry)
  api_status name status_code registry = do
    check (leb 100 status_code && leb status_code 599)
    register_single name (api status_code) registry

  abbrev pub new_api_3xx : Bytes → Registry → Outcome (Metric × Registry)
  new_api_3xx name = register_single name api_3xx

  abbrev pub new_api_4xx : Bytes → Registry → Outcome (Metric × Registry)
  new_api_4xx name = register_single name api_4xx

  abbrev pub new_api_5xx : Bytes → Registry → Outcome (Metric × Registry)
  new_api_5xx name = register_single name api_5xx

  abbrev pub new_api_timeout : Bytes → Registry → Outcome (Metric × Registry)
  new_api_timeout name = register_single name api_timeout

  abbrev pub new_service : Bytes → Registry → Outcome (Metric × Registry)
  new_service name = register_single name (service req)

  abbrev pub new_rpc_service_whole : Bytes → Registry → Outcome (Metric × Registry)
  new_rpc_service_whole name = register_single name rpc_service_whole

  validate-api : (code : ℕ) → (leb 100 code && leb code 599 ≡ true) ↔ IsStatus code
  validate-api code = (λ h. ground arith, λ h. ground arith)

  checks : MetricType → Outcome (Unit {0})
  checks kind = validate kind >> check (not (is_conn kind))

  check-not : (b : Bool) → (check (not b) ≡ ok tt) ↔ (b ≡ false)
  check-not true = (λ h. absurd (ground arith), λ h. absurd (ground arith))
  check-not false = (λ h. refl, λ h. refl)

  -- The two assertions hold exactly of what may be a timing metric.
  checks-IsTiming : (kind : MetricType) → (checks kind ≡ ok tt) ↔ IsTiming kind
  unfolding checks validate is_conn IsTiming
  checks-IsTiming (api code) = elim (Bool-cases (leb 100 code && leb code 599)) [
    | inl e ↦ rw e (λ h. (validate-api code).0 e, λ h. refl)
    | inr e ↦
        rw e (λ h. absurd (ground arith), λ h. absurd (ground (arith, (validate-api code).1 h)))
  ]
  checks-IsTiming kind = check-not (is_conn kind)

  new-checks :
      (kind : MetricType) (name : Bytes) (registry : Registry)
      → new hash kind name registry ≡ (checks kind >> serve hash (named name kind) registry)
  unfolding new checks validate is_conn
  new-checks (api code) name registry = elim (Bool-cases (leb 100 code && leb code 599)) [
    | inl e ↦ rw e refl
    | inr e ↦ rw e refl
  ]
  new-checks kind name registry = refl

  check_cases : (b : Bool) → (check b ≡ ok tt) ⊎ (check b ≡ panic)
  check_cases true = inl refl
  check_cases false = inr refl

  checks_cases : (kind : MetricType) → (checks kind ≡ ok tt) ⊎ (checks kind ≡ panic)
  unfolding checks validate is_conn
  checks_cases (api code) = elim (Bool-cases (leb 100 code && leb code 599)) [
    | inl e ↦ inl (rw e refl)
    | inr e ↦ inr (rw e refl)
  ]
  checks_cases kind = check_cases (not (is_conn kind))

  -- On a registry that satisfies the invariant, `Metric::new` panics exactly if the kind is one of
  -- connections or a code outside 100..=599.
  pub new-outcome :
      (kind : MetricType) (name : Bytes) (registry : Registry) (c : Contents) (view : View)
      → Views hash registry c view
      → (new hash kind name registry ≡ panic) ↔ ¬ (IsTiming kind)
  new-outcome kind name registry c view v =
      let (registry', n, served, found, v') =
        serve-Views hash (named name kind) registry c view v in
      let accepted = checks-IsTiming kind in
      elim (checks_cases kind) [
        | inl e ↦
            let done =
              new-checks kind name registry
              ∙ ap (λ o. o >> serve hash (named name kind) registry) e
              ∙ served in
            (λ h. absurd (ground (arith, h, done)), λ h. absurd (h (accepted.0 e)))
        | inr e ↦
            let stopped =
              new-checks kind name registry
              ∙ ap (λ o. o >> serve hash (named name kind) registry) e in
            (λ h k. absurd (ground (arith, accepted.1 k, e)), λ h. stopped)
      ]

  -- On a registry that satisfies the invariant, `api_status` panics exactly if its code is outside
  -- 100..=599.
  pub api_status-outcome :
      (name : Bytes) (code : ℕ) (registry : Registry) (c : Contents) (view : View)
      → Views hash registry c view
      → (api_status name code registry ≡ panic) ↔ ¬ (IsStatus code)
  unfolding api_status
  api_status-outcome name code registry c view v =
      let (registry', n, served, found, v') =
        serve-Views hash (named name (api code)) registry c view v in
      elim (Bool-cases (leb 100 code && leb code 599)) [
        | inl e ↦
            rw (e, served) (λ h. absurd (ground arith), λ h. absurd (h ((validate-api code).0 e)))
        | inr e ↦ rw e (λ h k. absurd (ground (arith, (validate-api code).1 k)), λ h. refl)
      ]

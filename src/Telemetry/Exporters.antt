-- ===== src/Telemetry/Exporters.antt =====
-- Which exporters are opened, and which are shut down.
use cternal.Prelude.{
  ℕ, ◌≡◌, refl, sym, ap, ◌∙◌, arith, true, inl, inr, none, some, List, [], ◌∷◌, Bytes, codes,
  is_empty, Bool-cases,
}
use mathlib.Core.Path.{subst}
use cternal.Runtime.{Reply, gives, fails}
use cternal.Runtime.Docker.Calls.{Reply-cases, gives-injective}
use cternal.Telemetry.{
  up_down_counter, histogram, counter, Metrics, Exporting, Provider, Sdk, Environment, ◌>>=◌,
  register_metrics, resource_of, providers, init, shutdown,
}

bind-gives :
    {A B : Type 0} (r : Reply A) (f : A → Reply B) (b : B)
    → (r >>= f) ≡ gives b
    → (a : A) × (r ≡ gives a) × (f a ≡ gives b)
bind-gives (gives a) f b h = (a, refl, h)
bind-gives (fails e) f b h = absurd (ground arith)

-- The instruments, each under its name.
pub record AreRegistered (sdk : Sdk) (m : Metrics) : Type 0 where
  pub sessions :
      sdk.instrument up_down_counter (codes "cternal.sessions.active") ≡ gives m.active_sessions
  pub duration :
      sdk.instrument histogram (codes "cternal.sessions.duration_seconds")
      ≡ gives m.session_duration
  pub messages : sdk.instrument counter (codes "cternal.ws.messages_total") ≡ gives m.ws_messages
  pub latency : sdk.instrument histogram (codes "cternal.api.latency_seconds") ≡ gives m.api_latency
  pub webhooks :
      sdk.instrument counter (codes "cternal.webhook.errors_total") ≡ gives m.webhook_errors

register_metrics_lem :
    (sdk : Sdk) (m : Metrics) → register_metrics sdk ≡ gives m → AreRegistered sdk m
unfolding register_metrics
register_metrics_lem sdk m h =
    let (a, ea, h1) = bind-gives _ _ m h in
    let (b, eb, h2) = bind-gives _ _ m h1 in
    let (c, ec, h3) = bind-gives _ _ m h2 in
    let (d, ed, h4) = bind-gives _ _ m h3 in
    let (e, ee, h5) = bind-gives _ _ m h4 in
    subst (AreRegistered sdk) (gives-injective _ _ h5)
      (record { sessions = ea; duration = eb; messages = ec; latency = ed; webhooks = ee })

-- What the providers export to has been opened, and nothing else, if they are given.
record AreOpen (opened : List ℕ) (res : ℕ) (m : Metrics) (both : Exporting × Exporting)
    : Type 0 where
  pub shut :
      opened ≡ shutdown (record { tracer_provider = both.0; meter_provider = both.1; metrics = m })
  pub traces : both.0.resource ≡ res
  pub measures : both.1.resource ≡ res

providers-AreOpen :
    (sdk : Sdk) (endpoint : Bytes) (res : ℕ) (m : Metrics) (both : Exporting × Exporting)
    → (providers sdk endpoint res).1 ≡ gives both
    → AreOpen (providers sdk endpoint res).0 res m both
unfolding providers shutdown
providers-AreOpen sdk endpoint res m both h = elim (Bool-cases (is_empty endpoint)) [
  | inl none_given ↦
      rw (providers, none_given)
        (subst (AreOpen [] res m) (gives-injective _ _ (rw (providers, none_given) at h))
          (record { shut = refl; traces = refl; measures = refl }))
  | inr given ↦ elim (Reply-cases (sdk.trace_exporter endpoint)) [
    | inr (e, te) ↦ absurd (let h' = rw (providers, given, te) at h in cc)
    | inl (t, te) ↦ elim (Reply-cases (sdk.metric_exporter endpoint)) [
      | inr (e, me) ↦ absurd (let h' = rw (providers, given, te, me) at h in cc)
      | inl (x, me) ↦
          rw (providers, given, te, me)
            (subst (AreOpen (t ∷ x ∷ []) res m)
              (gives-injective _ _ (rw (providers, given, te, me) at h))
              (record { shut = refl; traces = refl; measures = refl }))
    ]
  ]
]

providers-none :
    (sdk : Sdk) (endpoint : Bytes) (res : ℕ)
    → is_empty endpoint ≡ true
    → providers sdk endpoint res ≡ (
      [],
      gives
          (record { resource = res; exporter = none }, record { resource = res; exporter = none }),
    )
unfolding providers
providers-none sdk endpoint res h = rw (providers, h) refl

module _ (sdk : Sdk) (env : Environment) (version : Bytes) where
  -- If Init succeeds, its providers are those that are set for all, and have one resource; each of the five
  -- instruments is the one that the meter has made under that metric's name; and Shutdown shuts down all
  -- the exporters that were opened, of which there are none if no endpoint is given. If no endpoint is given,
  -- Init fails only for an instrument that cannot be made.
  pub init_lem :
      let (otel, made) = init sdk env version in
      ((p : Provider)
        → made ≡ gives p
        → (otel.global ≡ some (p.tracer_provider, p.meter_provider))
          × (p.tracer_provider.resource ≡ p.meter_provider.resource)
          × AreRegistered sdk p.metrics
          × (shutdown p ≡ otel.opened))
      × (env.endpoint ≡ []
          → (otel.opened ≡ [])
            × ((e : Bytes) → made ≡ fails e → (why : Bytes) × (register_metrics sdk ≡ fails why)))
  unfolding init
  init_lem = (
    λ p h. elim (Reply-cases (providers sdk env.endpoint (resource_of sdk env version)).1) [
      | inr (e, failed) ↦ absurd (let h' = rw (init, failed) at h in cc)
      | inl (both, made) ↦ elim (Reply-cases (register_metrics sdk)) [
        | inr (e, failed) ↦ absurd (let h' = rw (init, made, failed) at h in cc)
        | inl (m, registered) ↦
            let v = providers-AreOpen sdk env.endpoint (resource_of sdk env version) m both made in
            let opened = (providers sdk env.endpoint (resource_of sdk env version)).0 in
            rw (init, made)
              (subst
                (λ (q : Provider).
                  (some both ≡ some (q.tracer_provider, q.meter_provider))
                  × (q.tracer_provider.resource ≡ q.meter_provider.resource)
                  × AreRegistered sdk q.metrics
                  × (shutdown q ≡ opened))
                (gives-injective _ _ (rw (init, made, registered) at h))
                (
                  refl,
                  v.traces ∙ sym v.measures,
                  register_metrics_lem sdk m registered,
                  sym v.shut,
                ))
      ]
    ],
    λ none_given.
        let none_there =
          providers-none sdk env.endpoint (resource_of sdk env version) (ap is_empty none_given) in
        let made = ap (λ (q : List ℕ × Reply (Exporting × Exporting)). q.1) none_there in
        (
          rw (init, made) (ap (λ (q : List ℕ × Reply (Exporting × Exporting)). q.0) none_there),
          λ e h. elim (Reply-cases (register_metrics sdk)) [
            | inr (why, failed) ↦ (why, failed)
            | inl (m, registered) ↦ absurd (let h' = rw (init, made, registered) at h in cc)
          ],
        ),
  )

-- ===== src/Telemetry/Tests.antt =====
-- Examples of the set-up of telemetry.
use cternal.Prelude.{◌≡◌, refl, some, none, [], ◌∷◌, Bytes, codes}
use cternal.Runtime.{gives, fails}
use cternal.Telemetry.{
  Provider, Sdk, Environment, register_metrics, resource_of, providers, init, shutdown,
}
use cternal.Telemetry.Exporters.{AreRegistered, init_lem}

abbrev pub sdk : Sdk
sdk = record {
  new_resource = λ name version. gives 1;
  default_resource = 0;
  trace_exporter = λ endpoint. gives 2;
  metric_exporter = λ endpoint. gives 3;
  instrument = λ kind name. gives 4;
}

abbrev pub given : Environment
given = record { endpoint = codes "collector:4317"; service_name = [] }

init_lem_example :
    let (otel, made) = init sdk given (codes "1") in
    ((p : Provider)
      → made ≡ gives p
      → (otel.global ≡ some (p.tracer_provider, p.meter_provider))
        × (p.tracer_provider.resource ≡ p.meter_provider.resource)
        × AreRegistered sdk p.metrics
        × (shutdown p ≡ otel.opened))
    × (given.endpoint ≡ []
        → (otel.opened ≡ [])
          × ((e : Bytes) → made ≡ fails e → (why : Bytes) × (register_metrics sdk ≡ fails why)))
init_lem_example = init_lem sdk given (codes "1")

-- With no exporter for metrics, the exporter of traces is left open, and no provider is set or given.
left_open :
    init (record sdk { metric_exporter = λ endpoint. fails (codes "no") }) given (codes "1")
    ≡ (record { opened = 2 ∷ []; global = none }, fails (codes "metric exporter: no"))
unfolding init providers resource_of register_metrics
left_open = refl

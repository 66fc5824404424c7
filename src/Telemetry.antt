-- ===== src/Telemetry.antt =====
-- internal/telemetry/otel.go: Init, registerMetrics and Shutdown. The SDK of OpenTelemetry is a parameter;
-- its resources, exporters and instruments are numbers.
pub mod Exporters
pub mod Tests
use cternal.Prelude.{
  ℕ, Option, none, some, List, [], ◌∷◌, ◌++◌, Bytes, codes, is_empty, if◌then◌else◌,
}
use cternal.Runtime.{Reply, gives, fails}

pub data Kind : Type 0 where
  up_down_counter : Kind
  histogram : Kind
  counter : Kind

pub record Metrics : Type 0 where
  pub active_sessions : ℕ
  pub session_duration : ℕ
  pub ws_messages : ℕ
  pub api_latency : ℕ
  pub webhook_errors : ℕ

-- A provider of tracers or of meters: its resource, and where it exports to, if anywhere.
pub record Exporting : Type 0 where
  pub resource : ℕ
  pub exporter : Option ℕ

pub record Provider : Type 0 where
  pub tracer_provider : Exporting
  pub meter_provider : Exporting
  pub metrics : Metrics

-- The SDK, and the instruments that a meter makes by their names.
pub record Sdk : Type 0 where
  pub new_resource : Bytes → Bytes → Reply ℕ
  pub default_resource : ℕ
  pub trace_exporter : Bytes → Reply ℕ
  pub metric_exporter : Bytes → Reply ℕ
  pub instrument : Kind → Bytes → Reply ℕ

-- The two variables of the environment.
pub record Environment : Type 0 where
  pub endpoint : Bytes
  pub service_name : Bytes

-- What Init leaves in the process: the exporters that it has opened, and the providers that are set for
-- all, the tracers' and the meters'.
pub record Otel : Type 0 where
  pub opened : List ℕ
  pub global : Option (Exporting × Exporting)

infixr 20 ◌>>=◌
abbrev ◌>>=◌ {ℓ} : {A B : Type ℓ} → Reply A → (A → Reply B) → Reply B
gives a >>= f = f a
fails e >>= f = fails e

abbrev with_prefix {ℓ} : {A : Type ℓ} → Bytes → Reply A → Reply A
with_prefix why (gives a) = gives a
with_prefix why (fails e) = fails (why ++ e)

module _ (sdk : Sdk) where
  unfoldable pub register_metrics : Reply Metrics
  register_metrics = do
    active_sessions ← sdk.instrument up_down_counter (codes "cternal.sessions.active")
    session_duration ← sdk.instrument histogram (codes "cternal.sessions.duration_seconds")
    ws_messages ← sdk.instrument counter (codes "cternal.ws.messages_total")
    api_latency ← sdk.instrument histogram (codes "cternal.api.latency_seconds")
    webhook_errors ← sdk.instrument counter (codes "cternal.webhook.errors_total")
    gives (record {
      active_sessions = active_sessions;
      session_duration = session_duration;
      ws_messages = ws_messages;
      api_latency = api_latency;
      webhook_errors = webhook_errors;
    })

  unfoldable pub resource_of : Environment → Bytes → ℕ
  resource_of env version =
      let name = if is_empty env.service_name then codes "cternal" else env.service_name in
      elim (sdk.new_resource name version) [ fails e ↦ sdk.default_resource | gives res ↦ res ]

  -- The exporters that are opened, and the providers; with no endpoint they export nothing.
  unfoldable pub providers : Bytes → ℕ → List ℕ × Reply (Exporting × Exporting)
  providers endpoint res =
      if is_empty endpoint
      then (
        [],
        gives (
          record { resource = res; exporter = none },
          record { resource = res; exporter = none },
        ),
      )
      else elim (sdk.trace_exporter endpoint) [
        | fails e ↦ ([], fails (codes "trace exporter: " ++ e))
        | gives t ↦ elim (sdk.metric_exporter endpoint) [
          | fails e ↦ (t ∷ [], fails (codes "metric exporter: " ++ e))
          | gives m ↦ (
            t ∷ m ∷ [],
            gives (
              record { resource = res; exporter = some t },
              record { resource = res; exporter = some m },
            ),
          )
        ]
      ]

  unfoldable pub init : Environment → Bytes → Otel × Reply Provider
  unfolding register_metrics resource_of providers
  init env version =
      let (opened, made) = providers env.endpoint (resource_of env version) in
      elim made [
        | fails e ↦ (record { opened = opened; global = none }, fails e)
        | gives both ↦
            let (tp, mp) = both in
            (
              record { opened = opened; global = some both },
              elim register_metrics [
                | fails e ↦ fails (codes "metrics: " ++ e)
                | gives metrics ↦
                    gives (record { tracer_provider = tp; meter_provider = mp; metrics = metrics })
              ],
            )
      ]

abbrev exporters : Exporting → List ℕ
exporters p = elim p.exporter [ none ↦ [] | some e ↦ e ∷ [] ]

-- Shutdown, with the exporters that it shuts down; the provider of meters is shut down whether or not the
-- other one's shutdown fails.
unfoldable pub shutdown : Provider → List ℕ
shutdown p = exporters p.tracer_provider ++ exporters p.meter_provider

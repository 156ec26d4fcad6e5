-- ===== src/Telemetry.antt =====
-- pkg/telemetry/telemetry.go: the exporters that a service starts with, and their end. What
-- OpenTelemetry answers is an argument.
use feeds.Prelude.{
  ◌≡◌, refl, String, Option, none, some, List, [], ◌∷◌, Error, wrapped, Result, ok, err, ◌>>=◌,
  arith,
}
use feeds.Auth.{Env}
use feeds.Config.{get_env}

-- The answers of `resource.New` and of the two exporters' constructors.
pub record Exporters : Type 0 where
  pub resource : Option Error
  pub traces : Option Error
  pub metrics : Option Error

abbrev failing : String → Option Error → Result (Unit {0})
failing prefix none = ok tt
failing prefix (some e) = err (wrapped prefix e)

-- `Init`: the endpoint that both exporters send to.
unfoldable pub init : Env → Exporters → Result String
unfolding get_env
init env x = do
  let endpoint = get_env env "OTEL_EXPORTER_OTLP_ENDPOINT" "otel-collector:4317"
  _ ← failing "resource: " x.resource
  _ ← failing "trace exporter: " x.traces
  _ ← failing "metric exporter: " x.metrics
  ok endpoint

-- What is shut down.
pub data Provider : Type 0 where
  tracer : Provider
  meter : Provider

-- The function that `Init` answers: which providers it shuts down, and its error. An error of the first
-- one ends it.
unfoldable pub shutdown : Option Error → Option Error → List Provider × Option Error
shutdown (some e) metrics = (tracer ∷ [], some e)
shutdown none metrics = (tracer ∷ meter ∷ [], metrics)

-- A service has its telemetry exactly if the resource and both exporters were made.
init-ok :
    (env : Env) (x : Exporters) (endpoint : String)
    → init env x ≡ ok endpoint
    → (x.resource ≡ none) × (x.traces ≡ none) × (x.metrics ≡ none)
unfolding init
init-ok env x endpoint h = (ground (arith, h), ground (arith, h), ground (arith, h))

-- The meter's last metrics are flushed exactly if the tracer was shut down without an error.
shutdown-meter :
    (traces metrics : Option Error)
    → (shutdown traces metrics).0 ≡ tracer ∷ meter ∷ []
    → traces ≡ none
unfolding shutdown
shutdown-meter none metrics h = refl
shutdown-meter (some e) metrics h = cc h

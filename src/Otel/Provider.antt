-- ===== src/Otel/Provider.antt =====
-- otel/trace/provider.go, otel/metric/provider.go and otel/trace/span_context.go.
-- What the OpenTelemetry SDK makes is a parameter, `Sdk`: `R` is the type of resources, `E` that of
-- exporters. The globals of go.opentelemetry.io/otel are a state that the methods pass on.
pub mod Laws
mod Tests
use gopack.Prelude.{ℕ, String, List, [], ◌∷◌, Option, none, some, Error}

-- What a constructor of the SDK returns.
pub data Made (A : Type 0) : Type 0 where
  made : A → Made A
  failed : Error → Made A

-- `resource.New` for the name of a service, and the constructors of the two exporters for an endpoint
pub record Sdk (R E : Type 0) : Type 0 where
  pub new_resource : String → Made R
  pub trace_exporter : String → Made E
  pub metric_exporter : String → Made E

-- sdktrace.TracerProvider: its resource and the exporter of its batch span processor. It samples
-- every span.
pub record TracerProvider (R E : Type 0) : Type 0 where
  pub resource : R
  pub exporter : E

-- metric.MeterProvider: its resource, and the exporter and the interval of its reader. A nil exporter
-- is none.
pub record MeterProvider (R E : Type 0) : Type 0 where
  pub resource : R
  pub exporter : Option E
  pub interval : ℕ

pub data Propagator : Type 0 where
  trace_context baggage : Propagator

pub record Globals (R E : Type 0) : Type 0 where
  pub tracer : Option (TracerProvider R E)
  pub meter : Option (MeterProvider R E)
  pub propagators : List Propagator

-- A call of a method of a provider that may be nil.
pub data Shutdown : Type 0 where
  shut : Option Error → Shutdown
  nil_pointer : Shutdown

-- `trace.Provider`
pub record TraceProvider (R E : Type 0) : Type 0 where
  pub service_name : String
  pub exporter_endpoint : String
  pub tracer_provider : Option (TracerProvider R E)

-- `metric.Provider`
pub record MetricProvider (R E : Type 0) : Type 0 where
  pub service_name : String
  pub exporter_endpoint : String
  pub export_frequency : ℕ
  pub metric_provider : Option (MeterProvider R E)

-- the exporter that `otlpmetricgrpc.New` returns, whose error is not looked at
unfoldable pub exporter_of : {E : Type 0} → Made E → Option E
exporter_of (made e) = some e
exporter_of (failed err) = none

module _ {R E : Type 0} where
  unfoldable pub new_trace_provider : String → String → TraceProvider R E
  new_trace_provider exporter_end_point service_name = record {
    service_name = service_name;
    exporter_endpoint = exporter_end_point;
    tracer_provider = none;
  }

  pub new_metric_provider : String → String → ℕ → MetricProvider R E
  new_metric_provider exporter_end_point service_name export_frequency = record {
    service_name = service_name;
    exporter_endpoint = exporter_end_point;
    export_frequency = export_frequency;
    metric_provider = none;
  }

  module _ (sdk : Sdk R E) where
    -- `(*trace.Provider).Start`
    unfoldable pub start_trace :
        TraceProvider R E → Globals R E → TraceProvider R E × Globals R E × Option Error
    start_trace p g = elim (sdk.new_resource p.service_name) [
      | failed err ↦ (p, g, some err)
      | made res ↦ elim (sdk.trace_exporter p.exporter_endpoint) [
        | failed err ↦ (p, g, some err)
        | made trace_exporter ↦
            let tracer_provider : TracerProvider R E = record {
              resource = res;
              exporter = trace_exporter;
            } in
            (
              record p { tracer_provider = some tracer_provider },
              record g {
                tracer = some tracer_provider;
                propagators = trace_context ∷ baggage ∷ [];
              },
              none,
            )
      ]
    ]

    -- `(*metric.Provider).Start`
    unfoldable pub start_metric :
        MetricProvider R E → Globals R E → MetricProvider R E × Globals R E × Option Error
    unfolding exporter_of
    start_metric p g = elim (sdk.new_resource p.service_name) [
      | failed err ↦ (p, g, some err)
      | made res ↦
          let metric_provider : MeterProvider R E = record {
            resource = res;
            exporter = exporter_of (sdk.metric_exporter p.exporter_endpoint);
            interval = p.export_frequency;
          } in
          (
            record p { metric_provider = some metric_provider },
            record g { meter = some metric_provider },
            none,
          )
    ]

  -- `(*trace.Provider).Stop`; `shutdown` is the method of the SDK's provider
  pub stop_trace : (TracerProvider R E → Option Error) → TraceProvider R E → Shutdown
  stop_trace shutdown p = elim p.tracer_provider [
    | none ↦ nil_pointer
    | some tracer_provider ↦ shut (shutdown tracer_provider)
  ]

  -- `(*metric.Provider).Stop`
  pub stop_metric : (MeterProvider R E → Option Error) → MetricProvider R E → Shutdown
  stop_metric shutdown p = elim p.metric_provider [
    | none ↦ nil_pointer
    | some metric_provider ↦ shut (shutdown metric_provider)
  ]

  -- `SpanContext`; `start` is `Start` of the tracer that a provider gives for a name
  pub span_context :
      {C S : Type 0}
      → (Option (TracerProvider R E) → String → C → String → C × S)
      → Globals R E
      → C
      → String
      → C × S
  span_context start g ctx method_name = start g.tracer "" ctx method_name

-- ===== src/Otel/Provider/Laws.antt =====
-- How the providers start, and what a stop shuts down (otel/trace/provider.go and
-- otel/metric/provider.go).
use gopack.Prelude.{
  String, ◌≡◌, ◌≢◌, ◌⊎◌, inl, inr, refl, [], ◌∷◌, Option, none, some, Error, arith,
}
use gopack.Otel.Provider.{
  Made, made, failed, Sdk, trace_context, baggage, Globals, TraceProvider, MetricProvider,
  start_trace, start_metric, exporter_of,
}

Made-cases : {A : Type 0} (m : Made A) → ((a : A) × (m ≡ made a)) ⊎ ((e : Error) × (m ≡ failed e))
Made-cases (made a) = inl (a, refl)
Made-cases (failed e) = inr (e, refl)

module _ {R E : Type 0} (sdk : Sdk R E) where
  -- What a start of tracing ends in: the two parts of the provider are there, and it is in use and
  -- shut down by a stop, or there is an error and nothing is changed.
  abbrev pub TraceStarts :
      TraceProvider R E → Globals R E → TraceProvider R E × Globals R E × Option Error → Type 0
  TraceStarts p g (q, h, e) =
      ((res : R) × (exporter : E) × (e ≡ none)
        × (sdk.new_resource p.service_name ≡ made res)
        × (sdk.trace_exporter p.exporter_endpoint ≡ made exporter)
        × (q.tracer_provider ≡ some (record { resource = res; exporter = exporter }))
        × (h.tracer ≡ q.tracer_provider)
        × (h.propagators ≡ trace_context ∷ baggage ∷ [])
        × (h.meter ≡ g.meter))
      ⊎ ((e ≢ none) × (q ≡ p) × (h ≡ g))

  -- The trace provider starts without an error only when its resource and its exporter can be made,
  -- and then the provider of both is the global one, with the propagators of the W3C; with an
  -- error it leaves itself and the globals as they were.
  pub start_trace-TraceStarts :
      (p : TraceProvider R E) (g : Globals R E) → TraceStarts p g (start_trace sdk p g)
  unfolding start_trace
  start_trace-TraceStarts p g = elim (Made-cases (sdk.new_resource p.service_name)) [
    | inr (err, no_resource) ↦ rw (no_resource, start_trace) (inr ((λ h. ground arith), refl, refl))
    | inl (res, resource) ↦ elim (Made-cases (sdk.trace_exporter p.exporter_endpoint)) [
      | inr (err, no_exporter) ↦
          rw (resource, start_trace, no_exporter) (inr ((λ h. ground arith), refl, refl))
      | inl (exporter, made_exporter) ↦
          rw (resource, start_trace, made_exporter)
            (inl (res, exporter, refl, refl, refl, refl, refl, refl, refl))
    ]
  ]

  -- What a start of metrics ends in: the provider is in use, with whatever exporter there is, or
  -- there is the error of the resource and nothing is changed.
  abbrev pub MetricStarts :
      MetricProvider R E → Globals R E → MetricProvider R E × Globals R E × Option Error → Type 0
  MetricStarts p g (q, h, e) =
      ((res : R) × (e ≡ none)
        × (sdk.new_resource p.service_name ≡ made res)
        × (q.metric_provider
            ≡ some (record {
              resource = res;
              exporter = exporter_of (sdk.metric_exporter p.exporter_endpoint);
              interval = p.export_frequency;
            }))
        × (h.meter ≡ q.metric_provider)
        × (h.propagators ≡ g.propagators)
        × (h.tracer ≡ g.tracer))
      ⊎ ((err : Error) × (e ≡ some err)
          × (sdk.new_resource p.service_name ≡ failed err)
          × (q ≡ p)
          × (h ≡ g))

  -- The metric provider starts without an error exactly when its resource can be made, and is the
  -- global one then, with its exporter or without any; else it returns the error of the resource and
  -- leaves itself and the globals as they were. Another SDK, whose exporter fails or does not, gives the same error.
  pub start_metric-MetricStarts :
      (p : MetricProvider R E) (g : Globals R E) (other : String → Made E)
      → MetricStarts p g (start_metric sdk p g)
        × ((start_metric (record sdk { metric_exporter = other }) p g).2 ≡ (start_metric sdk p g).2)
  unfolding start_metric
  start_metric-MetricStarts p g other = elim (Made-cases (sdk.new_resource p.service_name)) [
    | inr (err, no_resource) ↦
        rw (no_resource, start_metric) (inr (err, refl, refl, refl, refl), refl)
    | inl (res, resource) ↦
        rw (resource, start_metric) (inl (res, refl, refl, refl, refl, refl, refl), refl)
  ]

-- ===== src/Otel/Provider/Tests.antt =====
-- Providers over an SDK that fails for an empty text.
use gopack.Prelude.{◌≡◌, refl, String, [], none, some, Error, message}
use gopack.Otel.Provider.{
  Made, made, failed, Sdk, Globals, TraceProvider, MetricProvider, shut, nil_pointer,
  new_trace_provider, start_trace, start_metric, exporter_of, stop_trace,
}
use gopack.Otel.Provider.Laws.{
  TraceStarts, start_trace-TraceStarts, start_metric-MetricStarts, MetricStarts,
}

abbrev unreachable : Error
unreachable = message "no endpoint"

abbrev make : String → Made String
make String.[] = failed unreachable
make text = made text

abbrev sdk : Sdk String String
sdk = record { new_resource = make; trace_exporter = make; metric_exporter = make }

abbrev unset : Globals String String
unset = record { tracer = none; meter = none; propagators = [] }

abbrev traces : TraceProvider String String
unfolding new_trace_provider
traces = new_trace_provider "localhost:4317" "accounts"

abbrev metrics : MetricProvider String String
metrics = record {
  service_name = "accounts";
  exporter_endpoint = "";
  export_frequency = 30;
  metric_provider = none;
}

unstarted : stop_trace (λ p. none) traces ≡ nil_pointer
unfolding stop_trace traces
unstarted = refl

stopped :
    stop_trace (λ p. some unreachable) (start_trace sdk traces unset).0 ≡ shut (some unreachable)
unfolding start_trace stop_trace traces
stopped = refl

start_trace-TraceStarts_example : TraceStarts sdk traces unset (start_trace sdk traces unset)
start_trace-TraceStarts_example = start_trace-TraceStarts sdk traces unset

mute :
    (start_metric sdk metrics unset).1.meter
    ≡ some (record { resource = "accounts"; exporter = none; interval = 30 })
unfolding start_metric exporter_of
mute = refl

start_metric-MetricStarts_example :
    MetricStarts sdk metrics unset (start_metric sdk metrics unset)
    × ((start_metric (record sdk { metric_exporter = made }) metrics unset).2
        ≡ (start_metric sdk metrics unset).2)
start_metric-MetricStarts_example = start_metric-MetricStarts sdk metrics unset made

-- ===== src/Grpc/ServerBuilder.antt =====
-- grpc/server_builder.go and grpc/config.go: building a server.
-- `H` is the type of a service, `K` that of a shutdown hook. A server option is the call that makes
-- it, and an interceptor the function of this package that returns it; `given` stands for the
-- caller's own. The lock is held from the start of `Build` to its end, so `Build` is one step.
mod Options
pub mod Laws
mod Tests
pub use Options.*
use Prim.Native.String
use gopack.Prelude.{
  ℕ, ◌*◌, Bool, true, false, ◌&&◌, String, List, [], ◌∷◌, ◌++◌, map, Option, none, some, Error,
  message, if◌then◌else◌, ℤ, pos,
}
use text.Mathlib.Text.{◌==◌}
use gopack.Std.Strconv.{int_text}
use gopack.Grpc.Server.{Provider, GrpcServer, Registration, service, reflection, health}

abbrev pub err_missing_trace_url : Error
err_missing_trace_url = message "trace URL is not defined"

abbrev pub err_missing_service_name : Error
err_missing_service_name = message "service name is not defined"

abbrev pub err_msg_cannot_use_same_builder : Error
err_msg_cannot_use_same_builder = message "cannot use the same builder to build more than once"

pub record ServerBuilder (H K : Type 0) : Type 0 where
  pub options : List ServerOption
  pub services : List H
  pub enable_reflection : Bool
  pub enable_health_check : Bool
  pub metrics_enabled : Bool
  pub tracing_enabled : Bool
  pub service_name : String
  pub grpc_port : ℤ
  pub grpc_host : String
  pub trace_url : String
  pub shutdown_hook : Option K
  pub is_built : Bool

-- `Config`
pub record Config : Type 0 where
  pub service_name : String
  pub grpc_host : String
  pub grpc_port : ℤ
  pub trace_enabled : Bool
  pub trace_url : String
  pub enable_reflection : Bool
  pub metrics_enabled : Bool
  pub metrics_port : ℤ

-- What `Build` returns: the server, with the options that its gRPC server was made with, or an
-- error.
pub data Build (H K : Type 0) : Type 0 where
  server : List ServerOption → GrpcServer H K → Build H K
  refused : Error → Build H K

abbrev pub register_if : {H : Type 0} → Bool → Registration H → List (Registration H)
register_if true r = r ∷ []
register_if false r = []

module _ {H K : Type 0} where
  pub new_server_builder : ServerBuilder H K
  new_server_builder = record {
    options = [];
    services = [];
    enable_reflection = false;
    enable_health_check = false;
    metrics_enabled = false;
    tracing_enabled = false;
    service_name = "";
    grpc_port = default_grpc_port;
    grpc_host = "";
    trace_url = "";
    shutdown_hook = none;
    is_built = false;
  }

  pub with_shutdown_hook : K → ServerBuilder H K → ServerBuilder H K
  with_shutdown_hook fn sb = record sb { shutdown_hook = some fn }

  pub with_port : ℤ → ServerBuilder H K → ServerBuilder H K
  with_port port sb = record sb { grpc_port = port }

  pub with_host : String → ServerBuilder H K → ServerBuilder H K
  with_host host sb = record sb { grpc_host = host }

  pub with_metrics_enabled : Bool → ServerBuilder H K → ServerBuilder H K
  with_metrics_enabled enabled sb = record sb { metrics_enabled = enabled }

  pub with_tracing_enabled : Bool → ServerBuilder H K → ServerBuilder H K
  with_tracing_enabled enabled sb = record sb { tracing_enabled = enabled }

  pub with_trace_url : String → ServerBuilder H K → ServerBuilder H K
  with_trace_url trace_url sb = record sb { trace_url = trace_url }

  pub with_option : ServerOption → ServerBuilder H K → ServerBuilder H K
  with_option o sb = record sb { options = sb.options ++ o ∷ [] }

  pub with_service : H → ServerBuilder H K → ServerBuilder H K
  with_service s sb = record sb { services = sb.services ++ s ∷ [] }

  pub with_service_name : String → ServerBuilder H K → ServerBuilder H K
  with_service_name service_name sb = record sb { service_name = service_name }

  pub with_reflection : Bool → ServerBuilder H K → ServerBuilder H K
  with_reflection enabled sb = record sb { enable_reflection = enabled }

  pub with_health_check : Bool → ServerBuilder H K → ServerBuilder H K
  with_health_check enabled sb = record sb { enable_health_check = enabled }

  pub with_keep_alive : ServerParameters → ServerBuilder H K → ServerBuilder H K
  unfolding with_option
  with_keep_alive params sb = with_option (keepalive_params params) sb

  pub with_default_keep_alive : ServerBuilder H K → ServerBuilder H K
  unfolding with_keep_alive
  with_default_keep_alive sb =
      with_keep_alive
        (record {
          max_idle = 0;
          max_age = max_connection_age;
          max_age_grace = max_connection_age_grace;
          time = keep_alive_time;
          timeout = 0;
        })
        sb

  pub with_stream_interceptors : List Interceptor → ServerBuilder H K → ServerBuilder H K
  unfolding with_option
  with_stream_interceptors is sb = with_option (chain_stream is) sb

  pub with_unary_interceptors : List Interceptor → ServerBuilder H K → ServerBuilder H K
  unfolding with_option
  with_unary_interceptors is sb = with_option (chain_unary is) sb

  pub with_tls_cert : ℕ → ServerBuilder H K → ServerBuilder H K
  unfolding with_option
  with_tls_cert cert sb = with_option (creds cert) sb

  pub with_default_unary_interceptors : ServerBuilder H K → ServerBuilder H K
  unfolding with_unary_interceptors
  with_default_unary_interceptors sb =
      with_unary_interceptors (request_id ∷ tracing ∷ metrics ∷ recovery ∷ []) sb

  pub with_default_stream_interceptors : ServerBuilder H K → ServerBuilder H K
  unfolding with_stream_interceptors
  with_default_stream_interceptors sb =
      with_stream_interceptors (request_id ∷ tracing ∷ metrics ∷ recovery ∷ []) sb

  -- `NewServerBuilderFromConfig`
  unfoldable pub new_server_builder_from_config : Config → ServerBuilder H K
  unfolding new_server_builder with_reflection with_default_unary_interceptors
      with_default_stream_interceptors with_tracing_enabled with_trace_url with_service_name
      with_port with_host
  new_server_builder_from_config cfg = with_host cfg.grpc_host (
      with_port cfg.grpc_port (
        with_service_name cfg.service_name (
          with_trace_url cfg.trace_url (
            with_tracing_enabled cfg.trace_enabled (
              with_default_stream_interceptors (
                with_default_unary_interceptors
                  (with_reflection cfg.enable_reflection new_server_builder)))))))

  -- what `Build` registers, in order
  pub registrations : ServerBuilder H K → List (Registration H)
  registrations sb =
      (map service sb.services ++ register_if sb.enable_reflection reflection)
      ++ register_if sb.enable_health_check health

  pub address : ServerBuilder H K → String
  address sb = String.◌++◌ sb.grpc_host (String.◌++◌ ":" (int_text sb.grpc_port))

  -- the server before the step that registers tracing
  pub untraced : ServerBuilder H K → GrpcServer H K
  unfolding address registrations
  untraced sb = record {
    addr = address sb;
    registered = registrations sb;
    listening = false;
    trace_provider = none;
    metric_provider = none;
    shutdown_hook = sb.shutdown_hook;
  }

  traced : ServerBuilder H K → GrpcServer H K
  unfolding untraced
  traced sb =
      if sb.tracing_enabled
      then record (untraced sb) {
        trace_provider =
            some (record { exporter_endpoint = sb.trace_url; service_name = sb.service_name });
      }
      else untraced sb

  -- `Build`
  pub build : ServerBuilder H K → ServerBuilder H K × Build H K
  unfolding traced
  build sb =
      if sb.is_built
      then (sb, refused err_msg_cannot_use_same_builder)
      else if sb.tracing_enabled && sb.trace_url == ""
      then (sb, refused err_missing_trace_url)
      else if sb.tracing_enabled && sb.service_name == ""
      then (sb, refused err_missing_service_name)
      else (record sb { is_built = true }, server sb.options (traced sb))

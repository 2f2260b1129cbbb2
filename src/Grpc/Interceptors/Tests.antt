-- ===== src/Grpc/Interceptors/Tests.antt =====
-- Calls through interceptors that do what their documentation says.
use gopack.Prelude.{
  ◌≢◌, [], ◌∷◌, arith, ℕ, ◌≡◌, refl, String, Option, none, some, Error, message, false, pos,
}
use gopack.Samples.{Held, holding, background, transmit}
use gopack.Requestid.{Metadata, x_request_id_metadata_key, from_context}
use gopack.Grpc.RequestIdInterceptors.{id_of_metadata, header}
use gopack.Grpc.ServerBuilder.{Config, new_server_builder_from_config}
use gopack.Grpc.Interceptors.{
  Outcome, returned, panicked, Handler, Package, Middlewares, custom_func, served,
}
use text.Mathlib.TextEquality.{eq_iff}
use gopack.Grpc.Client.{with_default_unary_interceptors, new_client_builder}
use gopack.Grpc.Interceptors.EndToEnd.{ClientMiddlewares, Comes, invoked, serving, invoked-serving}
use gopack.Grpc.Interceptors.Laws.{served-new_server_builder_from_config}

abbrev Calls : Type 0
Calls = Handler Held String String

abbrev caught : (String → Error) → Outcome String → Outcome String
caught f (returned a e) = returned a e
caught f (panicked p) = returned none (some (f p))

abbrev recovering : (String → Error) → Calls → Calls
recovering f h ctx req = caught f (h ctx req)

abbrev passing : Calls → Calls
passing h ctx req = h ctx req

recovering-returned :
    (f : String → Error) (o : Outcome String) (a : Option String) (e : Option Error)
    → o ≡ returned a e
    → caught f o ≡ returned a e
recovering-returned f o a e is = rw is refl

recovering-panicked :
    (f : String → Error) (o : Outcome String) (p : String)
    → o ≡ panicked p
    → caught f o ≡ returned none (some (f p))
recovering-panicked f o p is = rw is refl

abbrev in_package : {I : Type 0} → I → Package I Unit Unit Unit
in_package i = record {
  unary_server = i;
  stream_server = tt;
  unary_client = tt;
  stream_client = tt;
}

abbrev documented : Middlewares holding String String Unit Unit
documented = record {
  grpc_recovery = in_package recovering;
  grpc_prometheus = in_package passing;
  otelgrpc = in_package (λ opts. passing);
  no_options = tt;
  trace_context = λ c. c;
  recovery-returned = λ f h ctx req a e is. recovering-returned f (h ctx req) a e is;
  recovery-panicked = λ f h ctx req p is. recovering-panicked f (h ctx req) p is;
  metrics-same = λ h ctx req. refl;
  tracing-same = λ h ctx req. refl;
  trace_context-value = λ c. refl;
}

abbrev failing : Calls
failing ctx req = panicked req

abbrev status : ℕ → String → Error
status code text = message text

abbrev config : Config
config = record {
  service_name = "accounts";
  grpc_host = "";
  grpc_port = pos 50051;
  trace_enabled = false;
  trace_url = "";
  enable_reflection = false;
  metrics_enabled = false;
  metrics_port = pos 0;
}

no_panic : custom_func status "index" ≡ message "panic triggered: index"
unfolding custom_func
no_panic = refl

served-new_server_builder_from_config_example :
    (seen : Held) × (from_context holding seen ≡ "id")
    × (served holding String String Unit Unit documented status
          (λ n. passing)
          "id"
          (new_server_builder_from_config {H = Unit} {K = Unit} config).options
          failing
          background
          "index"
        ≡ returned none (some (message "panic triggered: index")))
unfolding id_of_metadata custom_func
served-new_server_builder_from_config_example =
    served-new_server_builder_from_config holding String String Unit Unit documented status
      (λ n. passing) "id" Unit Unit config failing background "index"

abbrev client : ClientMiddlewares holding String String Unit Unit
client = record {
  grpc_prometheus = record {
    unary_server = tt;
    stream_server = tt;
    unary_client = passing;
    stream_client = tt;
  };
  otelgrpc = record {
    unary_server = tt;
    stream_server = tt;
    unary_client = λ opts. passing;
    stream_client = tt;
  };
  no_options = tt;
  inject = λ c. c;
  metrics-same = λ h ctx req. refl;
  tracing-same = λ h ctx req. refl;
  inject-header = λ ctx md e. (md, e, refl);
}

abbrev sent : Metadata
sent = (x_request_id_metadata_key, "abc" ∷ []) ∷ []

abbrev caller : Held
caller = record background { held_outgoing = some sent }

abc_not_empty : ◌≢◌ {A = String} "abc" ""
abc_not_empty = ground (arith, eq_iff "abc" "")

-- a transport that gives every error the text of its status
abbrev brought : Outcome String → Outcome String
brought (returned a (some e)) = returned none (some (message "status"))
brought (returned none none) = returned none (some (message "no reply"))
brought o = o

abbrev Came : Outcome String → Outcome String → Type 0
Came =
    Comes holding String String Unit Unit client (λ n. passing) "c" documented status (λ n. passing)
      "s" transmit (λ c md e. (md, e, refl)) brought (λ e. message "status") (λ a. refl)
      (λ a e. refl)

invoked-serving_example :
    (seen : Held) × (from_context holding seen ≡ "abc")
    × Came (failing seen "index") (
        invoked holding String String Unit Unit client
          (λ n. passing)
          "c"
          (with_default_unary_interceptors new_client_builder).options
          (λ c r. brought (
            serving holding String String Unit Unit client
              (λ n. passing)
              "c"
              documented
              status
              (λ n. passing)
              "s"
              transmit
              (λ c md e. (md, e, refl))
              brought
              (λ e. message "status")
              (λ a. refl)
              (λ a e. refl)
              config
              failing
              (transmit c)
              r))
          caller
          "index")
unfolding header
invoked-serving_example =
    invoked-serving holding String String Unit Unit client (λ n. passing) "c" documented status
      (λ n. passing) "s" transmit (λ c md e. (md, e, refl)) brought (λ e. message "status")
      (λ a. refl) (λ a e. refl) config "abc" failing caller "index" ([], refl, abc_not_empty)

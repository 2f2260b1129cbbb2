-- ===== src/Grpc/Client.antt =====
-- grpc/client.go: the builder of client connections.
-- `grpc.NewClient` is a parameter, `new_client`: for an address and options the connection, of the
-- type `Conn`, or an error; `wrap` is `Wrap` of github.com/pkg/errors. Options, interceptors,
-- credentials and TLS configurations that the caller makes are numbers.
pub mod Laws
mod Tests
use gopack.Prelude.{
  ℕ, Bool, true, false, String, List, [], ◌∷◌, ◌++◌, map, Option, none, some, Error, message,
  wrapped, if◌then◌else◌,
}
use text.Mathlib.Text.{◌==◌}
use Prim.Native.String

pub data ClientInterceptor : Type 0 where
  request_id metric tracing : ClientInterceptor
  given : ℕ → ClientInterceptor

-- `keepalive.ClientParameters`, in seconds
pub record ClientParameters : Type 0 where
  pub time : ℕ
  pub timeout : ℕ
  pub permit_without_stream : Bool

pub data DialOption : Type 0 where
  given_option : ℕ → DialOption
  insecure block : DialOption
  keepalive_params : ClientParameters → DialOption
  chain_unary chain_stream : List ClientInterceptor → DialOption
  transport_credentials : Option ℕ → DialOption

pub record ClientBuilder : Type 0 where
  pub options : List DialOption
  pub credentials : Option ℕ

-- A connection, or an error.
pub data Dialled (Conn : Type 0) : Type 0 where
  connected : Conn → Dialled Conn
  refused : Error → Dialled Conn

unfoldable pub new_client_builder : ClientBuilder
new_client_builder = record { options = []; credentials = none }

-- `b.options = append(b.options, o)`
pub with_dial_option : DialOption → ClientBuilder → ClientBuilder
with_dial_option o b = record b { options = b.options ++ o ∷ [] }

pub with_options : List ℕ → ClientBuilder → ClientBuilder
with_options opts b = record b { options = b.options ++ map given_option opts }

pub with_insecure : ClientBuilder → ClientBuilder
unfolding with_dial_option
with_insecure b = with_dial_option insecure b

pub with_block : ClientBuilder → ClientBuilder
unfolding with_dial_option
with_block b = with_dial_option block b

pub with_keep_alive_params : ClientParameters → ClientBuilder → ClientBuilder
unfolding with_dial_option
with_keep_alive_params params b = with_dial_option (keepalive_params params) b

pub with_unary_interceptors : List ClientInterceptor → ClientBuilder → ClientBuilder
unfolding with_dial_option
with_unary_interceptors is b = with_dial_option (chain_unary is) b

pub with_stream_interceptors : List ClientInterceptor → ClientBuilder → ClientBuilder
unfolding with_dial_option
with_stream_interceptors is b = with_dial_option (chain_stream is) b

pub with_client_tls : ℕ → ClientBuilder → ClientBuilder
with_client_tls config b = record b { credentials = some config }

unfoldable pub with_default_unary_interceptors : ClientBuilder → ClientBuilder
unfolding with_unary_interceptors
with_default_unary_interceptors b = with_unary_interceptors (request_id ∷ metric ∷ tracing ∷ []) b

pub with_default_stream_interceptors : ClientBuilder → ClientBuilder
unfolding with_stream_interceptors
with_default_stream_interceptors b = with_stream_interceptors (request_id ∷ metric ∷ tracing ∷ []) b

abbrev pub missing_address : Error
missing_address = message "target connection parameter missing. address = "

module _ {Conn : Type 0} (new_client : String → List DialOption → Dialled Conn) where
  abbrev labelled : String → Dialled Conn → Dialled Conn
  labelled label (connected cc) = connected cc
  labelled label (refused err) = refused (wrapped label err)

  -- `ClientConn`
  unfoldable pub client_conn : String → ClientBuilder → Dialled Conn
  client_conn addr b =
      if addr == ""
      then refused missing_address
      else labelled "unable to connect to client" (new_client addr b.options)

  -- `TLSClientConn`, which adds to the options of the builder
  pub tls_client_conn : String → ClientBuilder → ClientBuilder × Dialled Conn
  unfolding with_dial_option
  tls_client_conn addr b =
      let c = with_dial_option (transport_credentials b.credentials) b in
      if addr == ""
      then (c, refused missing_address)
      else (c, labelled "failed to get tls conn" (new_client addr c.options))

  -- `DefaultClientConn`
  pub default_client_conn : (Error → String → Error) → String → Dialled Conn
  unfolding client_conn with_keep_alive_params with_insecure with_default_stream_interceptors
      with_default_unary_interceptors new_client_builder
  default_client_conn wrap addr =
      let b =
        with_keep_alive_params (record { time = 1200; timeout = 0; permit_without_stream = true })
          (with_insecure (
            with_default_stream_interceptors
              (with_default_unary_interceptors new_client_builder))) in
      elim (client_conn addr b) [
        | connected cc ↦ connected cc
        | refused err ↦ refused (wrap err "failed to create grpc service client")
      ]

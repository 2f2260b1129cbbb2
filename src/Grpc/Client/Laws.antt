-- ===== src/Grpc/Client/Laws.antt =====
-- What a client dials with (grpc/client.go).
use gopack.Prelude.{◌≡◌, ◌≢◌, true, String, List, [], ◌∷◌, ◌++◌, append_assoc, Error, arith}
use text.Mathlib.TextEquality.{eq_iff}
use gopack.Grpc.Client.{
  ClientBuilder, DialOption, Dialled, connected, client_conn, tls_client_conn, default_client_conn,
  request_id, metric, tracing, insecure, keepalive_params, chain_unary, chain_stream,
  transport_credentials, with_dial_option,
}

module _ {Conn : Type 0} (new_client : String → List DialOption → Dialled Conn) where
  -- The default connection to an address that is not empty is dialled without TLS, with a chain of
  -- the request id, metric and tracing interceptors of each kind, and a keep-alive of 20 minutes.
  pub default_client_conn_lem :
      (wrap : Error → String → Error) (addr : String) (cc : Conn)
      → addr ≢ ""
      → new_client addr (
          chain_unary (request_id ∷ metric ∷ tracing ∷ [])
          ∷ chain_stream (request_id ∷ metric ∷ tracing ∷ [])
          ∷ insecure
          ∷ keepalive_params (record { time = 1200; timeout = 0; permit_without_stream = true })
          ∷ [])
        ≡ connected cc
      → default_client_conn new_client wrap addr ≡ connected cc
  unfolding default_client_conn client_conn
  default_client_conn_lem wrap addr cc full dials = ground (arith, eq_iff addr "")

  -- Each call of `TLSClientConn` adds the credentials to the builder's options once more, also when
  -- it fails, so that a second call dials with them twice.
  pub tls_client_conn_twice :
      (one two : String) (b : ClientBuilder)
      → let c = (tls_client_conn new_client one b).0 in
        (tls_client_conn new_client two c).0.options
        ≡ b.options
          ++ transport_credentials b.credentials ∷ transport_credentials b.credentials ∷ []
  unfolding tls_client_conn with_dial_option
  tls_client_conn_twice one two b = ground (
    arith,
    append_assoc b.options (transport_credentials b.credentials ∷ [])
        (transport_credentials b.credentials ∷ []),
  )

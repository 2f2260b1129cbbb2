-- ===== src/Grpc/Client/Tests.antt =====
-- Connections of a builder.
use gopack.Prelude.{ℕ, ◌≡◌, refl, String, List}
use gopack.Grpc.Client.{
  DialOption, Dialled, connected, refused, client_conn, new_client_builder, missing_address,
}

abbrev new_client : String → List DialOption → Dialled ℕ
new_client addr options = connected 1

no_address : client_conn new_client "" new_client_builder ≡ refused missing_address
unfolding client_conn
no_address = refl

some_address : client_conn new_client "localhost:50051" new_client_builder ≡ connected 1
unfolding client_conn
some_address = refl

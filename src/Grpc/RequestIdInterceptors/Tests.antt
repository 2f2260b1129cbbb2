-- ===== src/Grpc/RequestIdInterceptors/Tests.antt =====
-- Calls through the interceptors, and the laws at concrete calls.
use gopack.Prelude.{ℕ, ◌≡◌, refl, ◌≢◌, String, [], ◌∷◌, some, arith}
use text.Mathlib.TextEquality.{eq_iff}
use gopack.Samples.{Held, holding, background, transmit}
use gopack.Requestid.{Metadata, x_request_id_metadata_key, from_context}
use gopack.Grpc.RequestIdInterceptors.{
  header, unary_server, ServerStream, client_context, unary_client,
}
use gopack.Grpc.RequestIdInterceptors.Transport.{made_id_lost}

abc_not_empty : ◌≢◌ {A = String} "abc" ""
abc_not_empty = ground (arith, eq_iff "abc" "")

-- a handler that returns the context that it sees
abbrev echo : Held → ℕ → Held
echo c n = c

abbrev sent : Metadata
sent = ("user", "u" ∷ []) ∷ (x_request_id_metadata_key, "abc" ∷ []) ∷ []

abbrev caller : Held
caller = record background { held_outgoing = some sent }

abbrev callee : Held
callee = record background { held_incoming = some sent }

sees_sent : from_context holding (unary_server holding "new" echo callee 1) ≡ "abc"
unfolding unary_server header from_context
sees_sent = refl

abbrev stream : ServerStream holding ℕ
stream = record { stream = 5; ctx = callee }

abbrev echo_stream : ℕ → ServerStream holding ℕ → ServerStream holding ℕ
echo_stream n ss = ss

made_id_lost_example :
    (seen : Held) × (unary_client holding "c"
        (λ c r. unary_server holding "s" echo (transmit c) r)
        background
        1
      ≡ seen)
    × (from_context holding seen ≡ "s")
    × (from_context holding (client_context holding "c" background) ≡ "c")
made_id_lost_example =
    made_id_lost holding transmit (λ c md e. (md, e, refl)) "c" "s" echo background 1 tt

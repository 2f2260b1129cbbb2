-- ===== src/Grpc/RateLimiter.antt =====
-- grpc/ratelimiter.go: the four interceptors that reject requests.
-- A limiter keeps a state `S`, and so does what stands behind an interceptor, `H`: a handler, an
-- invoker or a streamer. The limiter of golang.org/x/time/rate is a parameter. `C` is the type of
-- contexts, `Q` that of what else a call gets, and `A` that of answers.
pub mod Laws
mod Tests
use gopack.Prelude.{
  ℕ, Bool, true, false, String, List, [], ◌∷◌, ◌++◌, Option, none, some, Error, message, is_some,
  if◌then◌else◌,
}
use Prim.Native.String

-- `Limiter`: `check` is true for a request that is to be rejected.
pub record Limiter (S C : Type 0) : Type 0 where
  pub check : C → S → S × Bool

-- `RateLimiter` and its `Check`; `wait` is `(*rate.Limiter).Wait`
pub rate_limiter : {S C : Type 0} → (C → S → S × Option Error) → Limiter S C
rate_limiter wait = record { check = λ ctx s. let (t, err) = wait ctx s in (t, is_some err) }

-- The answer, or the status ResourceExhausted with its text.
pub data Answer (A : Type 0) : Type 0 where
  answer : A → Answer A
  resource_exhausted : String → Answer A

abbrev pub rejected : {A : Type 0} → String → Answer A
rejected method = resource_exhausted (String.◌++◌ method " have been rejected by rate limiting.")

module _ {S C : Type 0} (limiter : Limiter S C) {H Q A : Type 0} (next : C → Q → H → H × A) where
  -- `NewRateLimitUnaryServerInterceptor`
  unfoldable pub unary_server : String → C → Q → S → H → S × H × Answer A
  unary_server full_method ctx req s h =
      let (t, limited) = limiter.check ctx s in
      let (i, a) = next ctx req h in
      if limited then (t, h, rejected full_method) else (t, i, answer a)

  -- `NewRateLimitStreamServerInterceptor`; `stream_context` is `stream.Context()`
  pub stream_server : String → C → Q → S → H → S × H × Answer A
  stream_server full_method stream_context srv s h =
      let (t, limited) = limiter.check stream_context s in
      let (i, a) = next stream_context srv h in
      if limited then (t, h, rejected full_method) else (t, i, answer a)

  -- `NewRateLimitUnaryClientInterceptor`
  pub unary_client : String → C → Q → S → H → S × H × Answer A
  unary_client method ctx req s h =
      let (t, limited) = limiter.check ctx s in
      let (i, a) = next ctx req h in if limited then (t, h, rejected method) else (t, i, answer a)

  -- `NewRateLimitStreamClientInterceptor`
  pub stream_client : String → C → Q → S → H → S × H × Answer A
  stream_client method ctx desc s h =
      let (t, limited) = limiter.check ctx s in
      let (i, a) = next ctx desc h in if limited then (t, h, rejected method) else (t, i, answer a)

-- ===== src/Grpc/RateLimiter/Laws.antt =====
-- What a rate limit lets through (grpc/ratelimiter.go).
use gopack.Prelude.{
  suc, ◌≡◌, refl, ap, String, List, [], ◌∷◌, length, Bool-cases, inl, inr, if◌then◌else◌,
}
use gopack.Grpc.RateLimiter.{Limiter, Answer, answer, resource_exhausted, unary_server}

module _ {S C : Type 0} (limiter : Limiter S C) {H Q A : Type 0} (next : C → Q → H → H × A)
    (method : String) where
  -- the requests through the interceptor, one after the other
  unfoldable pub serve_all : List (C × Q) → S → H → H × List (Answer A)
  unfolding unary_server
  serve_all [] s h = (h, [])
  serve_all ((ctx, q) ∷ qs) s h =
      let (t, i, a) = unary_server limiter next method ctx q s h in
      let (j, as') = serve_all qs t i in (j, a ∷ as')

  -- the requests that the limiter does not reject, in order
  unfoldable pub admitted : List (C × Q) → S → List (C × Q)
  admitted [] s = []
  admitted ((ctx, q) ∷ qs) s =
      let rest = admitted qs (limiter.check ctx s).0 in
      if (limiter.check ctx s).1 then rest else (ctx, q) ∷ rest

  -- what the handler alone does with requests
  unfoldable pub handle_all : List (C × Q) → H → H × List A
  handle_all [] h = (h, [])
  handle_all ((ctx, q) ∷ qs) h =
      let (i, a) = next ctx q h in let (j, as') = handle_all qs i in (j, a ∷ as')

  -- the answers that come from the handler
  unfoldable pub answers : List (Answer A) → List A
  answers [] = []
  answers (answer a ∷ as') = a ∷ answers as'
  answers (resource_exhausted t ∷ as') = answers as'

  -- Behind the unary server interceptor the handler sees the requests that the limiter admits and no
  -- others, in their order: its state and its answers are those that it has alone. Every request is
  -- answered.
  pub serve_all-admitted :
      (qs : List (C × Q)) (s : S) (h : H)
      → ((serve_all qs s h).0 ≡ (handle_all (admitted qs s) h).0)
        × (answers (serve_all qs s h).1 ≡ (handle_all (admitted qs s) h).1)
        × (length (serve_all qs s h).1 ≡ length qs)
  unfolding serve_all admitted handle_all answers unary_server
  serve_all-admitted [] s h = (refl, refl, refl)
  serve_all-admitted ((ctx, q) ∷ qs) s h = elim (Bool-cases (limiter.check ctx s).1) [
    | inl limited ↦
        let (st, ans, n) = serve_all-admitted qs (limiter.check ctx s).0 h in
        rw limited (st, ans, ap suc n)
    | inr free ↦
        let (st, ans, n) = serve_all-admitted qs (limiter.check ctx s).0 (next ctx q h).0 in
        rw free (st, ap (λ l. (next ctx q h).1 ∷ l) ans, ap suc n)
  ]

-- ===== src/Grpc/RateLimiter/Tests.antt =====
-- A limiter that admits two requests.
use gopack.Prelude.{
  ℕ, zero, suc, ◌+◌, ◌≡◌, refl, List, [], ◌∷◌, Option, none, some, Error, message, length,
}
use gopack.Grpc.RateLimiter.{Limiter, rate_limiter, unary_server, answer, rejected}
use gopack.Grpc.RateLimiter.Laws.{serve_all, admitted, handle_all, answers, serve_all-admitted}

-- the tokens that are left
abbrev wait : ℕ → ℕ → ℕ × Option Error
wait ctx zero = (0, some (message "would exceed context deadline"))
wait ctx (suc n) = (n, none)

abbrev limiter : Limiter ℕ ℕ
unfolding rate_limiter
limiter = rate_limiter wait

-- a handler that counts and echoes
abbrev next : ℕ → ℕ → ℕ → ℕ × ℕ
next ctx q h = (h + 1, q)

abbrev requests : List (ℕ × ℕ)
requests = (0, 7) ∷ (0, 8) ∷ (0, 9) ∷ []

serve_all-admitted_example :
    ((serve_all limiter next "/a" requests 2 0).0
      ≡ (handle_all limiter next "/a" (admitted limiter next "/a" requests 2) 0).0)
    × (answers limiter next "/a" (serve_all limiter next "/a" requests 2 0).1
        ≡ (handle_all limiter next "/a" (admitted limiter next "/a" requests 2) 0).1)
    × (length (serve_all limiter next "/a" requests 2 0).1 ≡ 3)
serve_all-admitted_example = serve_all-admitted limiter next "/a" requests 2 0

third_is_rejected :
    (serve_all limiter next "/a" requests 2 0).1 ≡ answer 7 ∷ answer 8 ∷ rejected "/a" ∷ []
unfolding serve_all unary_server limiter
third_is_rejected = refl

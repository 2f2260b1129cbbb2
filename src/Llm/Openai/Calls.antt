-- ===== src/Llm/Openai/Calls.antt =====
-- llm/openai/openai.go: the queries of an api that NewAPI has made, with the client, the settings and
-- the rate limit that it holds.
-- `complete client timeout` is `CreateChatCompletion` of a client under `context.WithTimeout`, and
-- `Limits` is `WaitN` of golang.org/x/time, with what its documentation says of the burst.
pub mod Laws
mod Tests
use gopack.Prelude.{
  ℕ, ◌-◌, ◌%◌, ◌^◌, ◌<◌, ◌≢◌, String, List, Option, none, some, Error, ℤ, pos, negsuc,
}
use gopack.Llm.Openai.Tokens.{Outcome, Names, Tokenizer}
use gopack.Llm.Openai.{
  Request, VisionRequest, ResponseType, Response, ChatCompletionRequest, Reply, Backoff, Remote,
  query, vision_query,
}
use gopack.Llm.Openai.Api.{Config, ClientConfig, RateLimiter, Api}

-- the request as it is sent, with the settings of the api
pub record Sent (F : Type 0) : Type 0 where
  pub model : String
  pub temperature : F
  pub presence_penalty : F
  pub frequency_penalty : F
  pub call : ChatCompletionRequest

pub record Limits : Type 0 where
  pub wait_n : RateLimiter → ℕ → Option Error
  pub wait_n-burst : (r : RateLimiter) (n : ℕ) → r.burst < n → wait_n r n ≢ none

-- `uint64(n)`
pub to_uint64 : ℤ → ℕ
to_uint64 (pos n) = n % 2 ^ 64
to_uint64 (negsuc n) = 2 ^ 64 - 1 - n % 2 ^ 64

module _ {F H : Type 0} (names : Names) (tokenizer : Tokenizer) (backoff : Backoff)
    (complete : ClientConfig H → ℤ → Sent F → ℕ → Reply) (limits : Limits) where
  -- the attempts of an api through its client
  abbrev pub attempts : Api F H → ClientConfig H → Remote
  attempts x client req = complete client x.config.timeout (record {
    model = x.config.model;
    temperature = x.temperature;
    presence_penalty = x.presence;
    frequency_penalty = x.frequency;
    call = req;
  })

  -- `(api).Query`; none is the panic of a client that is nil
  pub api_query : Api F H → List Request → ResponseType → Option (Outcome (List Response))
  unfolding to_uint64
  api_query x requests kind = elim x.remote [
    | none ↦ none
    | some client ↦ some (
        query names tokenizer backoff (attempts x client) (limits.wait_n x.rate_limit)
          x.config.model (to_uint64 x.config.max_retries) requests kind)
  ]

  -- `(api).VisionQuery`
  pub api_vision_query :
      {I : Type 0}
      → (I → Outcome String)
      → Api F H
      → List (VisionRequest I)
      → Option (Outcome (List Response))
  unfolding to_uint64
  api_vision_query encode x requests = elim x.remote [
    | none ↦ none
    | some client ↦ some (
        vision_query names tokenizer backoff (attempts x client) (limits.wait_n x.rate_limit)
          x.config.model (to_uint64 x.config.max_retries) encode requests)
  ]

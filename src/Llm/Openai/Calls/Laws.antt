-- ===== src/Llm/Openai/Calls/Laws.antt =====
-- What the queries of an api that NewAPI has made send, and what they return (llm/openai/openai.go).
use gopack.Prelude.{
  ℕ, ◌+◌, ◌≤◌, ◌<◌, ◌≡◌, refl, ap, ◌∙◌, String, List, [], none, some, Error, Option-cases, inl, inr,
  ℤ, pos, negsuc, arith, leb, Bool-cases, ◌^◌,
}
use gopack.Llm.Openai.Tokens.{done, failed, Names, Tokenizer, ChatCompletionMessage, tokens_count}
use gopack.Llm.Openai.{Request, ResponseType, Response, Reply, Backoff, Remote, to_messages, query}
use gopack.Llm.Openai.Laws.{IsAnswered, query_request, query-IsAnswered, query_refused}
use gopack.Llm.Openai.Api.{
  Config, ClientConfig, RateLimiter, ApiOption, client_config, new_api, new_api-client, last_client,
  last_temperature, last_frequency, last_presence,
}
use gopack.Llm.Openai.Calls.{Sent, Limits, to_uint64, api_query}

to_uint64-lt : (n : ℤ) → to_uint64 n < 2 ^ 64
unfolding to_uint64
to_uint64-lt (pos n) = omega arith
to_uint64-lt (negsuc n) = omega arith

-- the limit of every api: 16666 tokens in a second, and a million at once
abbrev pub made_limit : RateLimiter
made_limit = record { limit = 16666; burst = 1000000 }

within_burst : (limits : Limits) (n : ℕ) → limits.wait_n made_limit n ≡ none → n ≤ 1000000
within_burst limits n granted = elim (Bool-cases (leb n 1000000)) [
  | inl small ↦ ground arith
  | inr large ↦ absurd (limits.wait_n-burst made_limit n (ground arith) granted)
]

module _ {F H : Type 0} (names : Names) (tokenizer : Tokenizer) (backoff : Backoff)
    (complete : ClientConfig H → ℤ → Sent F → ℕ → Reply) (limits : Limits) (z : F) (h : H)
    (default_config : String → ClientConfig H) (config : Config) (opts : List (ApiOption F H)) where
  -- The attempts of the api that NewAPI makes: through a client for the token of the configuration
  -- and the last HTTP client of the options, under its timeout, with its model and the last of each
  -- setting in the options, or the default of each.
  abbrev pub made_attempts : Remote
  made_attempts req =
      complete (client_config z h default_config config (last_client opts h)) config.timeout
        (record {
          model = config.model;
          temperature = last_temperature opts z;
          presence_penalty = last_presence opts z;
          frequency_penalty = last_frequency opts z;
          call = req;
        })

  pub api_query-new_api :
      (rs : List Request) (kind : ResponseType)
      → api_query names tokenizer backoff complete limits
          (new_api z h default_config config opts)
          rs
          kind
        ≡ some (
            query names tokenizer backoff made_attempts
              (limits.wait_n made_limit)
              config.model
              (to_uint64 config.max_retries)
              rs
              kind)
  unfolding api_query
  api_query-new_api rs kind = rw (new_api-client z h default_config config opts) refl

  -- A query of an api that `NewAPI` made, with whatever options, that succeeds has sent the messages
  -- of the requests, in their order, and their estimate and 100 tokens more were at most a million.
  -- An answer came at some attempt, made as all are with the model and the timeout of the
  -- configuration and the last value that the options give for each setting. At most
  -- `uint64(MaxRetries)` attempts failed before it, a number below 2 ^ 64, none of them as
  -- unauthorized, and the responses are its choices, at least one, each with the usage of the
  -- whole answer.
  pub api_query-IsAnswered :
      (rs : List Request) (kind : ResponseType) (out : List Response)
      → api_query names tokenizer backoff complete limits
          (new_api z h default_config config opts)
          rs
          kind
        ≡ some (done out)
      → let retries = to_uint64 config.max_retries in
        let wait_n = limits.wait_n made_limit in
        (retries < 2 ^ 64)
        × ((msgs : List ChatCompletionMessage) × (tokens : ℕ) × (to_messages names rs []
              ≡ done msgs)
            × (tokens_count names tokenizer config.model msgs ≡ done tokens)
            × (tokens + 100 ≤ 1000000)
            × IsAnswered names tokenizer backoff made_attempts wait_n config.model retries
                (query_request names tokenizer backoff made_attempts wait_n config.model retries
                  msgs kind)
                out)
  api_query-IsAnswered rs kind out answered =
      let wait_n = limits.wait_n made_limit in
      let retries = to_uint64 config.max_retries in
      let same = api_query-new_api rs kind in
      let ok : query names tokenizer backoff made_attempts wait_n config.model retries rs kind
          ≡ done out =
        ground arith in
      let (msgs, tokens, made, counted, granted, how) =
        query-IsAnswered names tokenizer backoff made_attempts wait_n config.model retries rs kind
          out ok in
      (
        to_uint64-lt config.max_retries,
        (msgs, tokens, made, counted, within_burst limits (tokens + 100) granted, how),
      )

  -- An api that `NewAPI` made, with whatever options, refuses with an error each query whose
  -- estimate is above 999900 tokens.
  pub api_query-over_burst :
      (rs : List Request) (kind : ResponseType) (msgs : List ChatCompletionMessage) (tokens : ℕ)
      → to_messages names rs [] ≡ done msgs
      → tokens_count names tokenizer config.model msgs ≡ done tokens
      → 999900 < tokens
      → (e : Error) × (api_query names tokenizer backoff complete limits
            (new_api z h default_config config opts)
            rs
            kind
          ≡ some (failed e))
  api_query-over_burst rs kind msgs tokens made counted large =
      let wait_n = limits.wait_n made_limit in
      elim (Option-cases (wait_n (tokens + 100))) [
        | inl granted ↦ absurd (limits.wait_n-burst made_limit (tokens + 100) (omega arith) granted)
        | inr (e, refused) ↦ (
          e,
          api_query-new_api rs kind
              ∙ ap some (
                  query_refused names tokenizer backoff made_attempts wait_n config.model
                    (to_uint64 config.max_retries) rs kind msgs tokens e made counted refused),
        )
      ]

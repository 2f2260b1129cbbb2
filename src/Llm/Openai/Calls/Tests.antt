-- ===== src/Llm/Openai/Calls/Tests.antt =====
-- Queries of an api that NewAPI has made, and the laws at a concrete configuration.
use gopack.Prelude.{
  ℕ, zero, suc, ◌+◌, ◌^◌, ◌≤◌, ◌<◌, ◌≡◌, ◌≢◌, refl, String, List, [], ◌∷◌, Option, none, some,
  Error, message, arith, pos, negsuc, ℤ, ltb, if◌then◌else◌,
}
use gopack.Llm.Openai.Tokens.{
  done, failed, Tokenizer, ChatCompletionMessage, tokens_per, tokens_count, count, count_messages,
}
use gopack.Llm.Openai.{
  Reply, response, api_error, to_messages, text_response_type, query, operation, retried, limited,
  responses,
}
use gopack.Llm.Openai.Laws.{IsAnswered, query_request}
use gopack.Llm.Openai.Api.{
  Config, ClientConfig, RateLimiter, ApiOption, with_temperature, with_http_client, new_api,
}
use gopack.Llm.Openai.Calls.{Sent, Limits, to_uint64, api_query}
use gopack.Llm.Openai.Calls.Laws.{
  made_limit, made_attempts, api_query-new_api, api_query-IsAnswered, api_query-over_burst,
}
use gopack.Llm.Openai.Samples.{names, tokenizer, eager, answer, asked, msgs, heard}

abbrev config : Config
config = record {
  token = "sk";
  model = "gpt-4";
  timeout = pos 30;
  max_retries = pos 2;
  organization = "";
}

-- no retry is left out: `uint64(-1)`
uint64_of_minus_one : to_uint64 (negsuc 0) ≡ 18446744073709551615
unfolding to_uint64
uint64_of_minus_one = refl

abbrev default_config : String → ClientConfig ℕ
default_config token = record { auth_token = token; http_client = 0; org_id = "" }

-- the client's second answer is a completion
abbrev complete : ClientConfig ℕ → ℤ → Sent ℕ → ℕ → Reply
complete client timeout sent zero = api_error 429 (message "busy")
complete client timeout sent (suc n) = response answer

abbrev wait_n : RateLimiter → ℕ → Option Error
wait_n r n = if ltb r.burst n then some (message "exceeds limiter's burst") else none

wait_n-burst : (r : RateLimiter) (n : ℕ) → r.burst < n → wait_n r n ≢ none
wait_n-burst r n h = λ e. absurd (ground arith)

abbrev limits : Limits
limits = record { wait_n = wait_n; wait_n-burst = wait_n-burst }

abbrev opts : List (ApiOption ℕ ℕ)
opts = with_temperature 7 ∷ with_http_client 4 ∷ with_temperature 8 ∷ []

api_query-IsAnswered_example :
    (to_uint64 (pos 2) < 2 ^ 64)
    × ((ms : List ChatCompletionMessage) × (tokens : ℕ) × (to_messages names asked [] ≡ done ms)
        × (tokens_count names tokenizer "gpt-4" ms ≡ done tokens)
        × (tokens + 100 ≤ 1000000)
        × IsAnswered names tokenizer eager
            (made_attempts names tokenizer eager complete limits 0 0 default_config config opts)
            (wait_n made_limit)
            "gpt-4"
            (to_uint64 (pos 2))
            (query_request names tokenizer eager
              (made_attempts names tokenizer eager complete limits 0 0 default_config config opts)
              (wait_n made_limit)
              "gpt-4"
              (to_uint64 (pos 2))
              ms
              text_response_type)
            (heard "yes" ∷ heard "no" ∷ []))
unfolding to_uint64 query to_messages limited tokens_count count count_messages tokens_per retried
    operation responses
api_query-IsAnswered_example =
    api_query-IsAnswered names tokenizer eager complete limits 0 0 default_config config opts asked
      text_response_type (heard "yes" ∷ heard "no" ∷ [])
      (api_query-new_api names tokenizer eager complete limits 0 0 default_config config opts asked
        text_response_type)

-- a tokenizer for which every text is long
abbrev wordy : Tokenizer
wordy = record { encoding_for_model = λ m. done (λ s. 500000) }

api_query-over_burst_example :
    (e : Error) × (api_query names wordy eager complete limits
        (new_api 0 0 default_config config opts)
        asked
        text_response_type
      ≡ some (failed e))
unfolding to_messages tokens_count count count_messages tokens_per
api_query-over_burst_example =
    api_query-over_burst names wordy eager complete limits 0 0 default_config config opts asked
      text_response_type msgs _ refl refl (omega arith)

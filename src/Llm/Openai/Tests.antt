-- ===== src/Llm/Openai/Tests.antt =====
-- A query that is answered at the third attempt, and the laws at concrete requests.
use gopack.Prelude.{ℕ, ◌+◌, ◌≡◌, refl, String, List, [], ◌∷◌, none, some}
use gopack.Llm.Openai.Tokens.{
  Outcome, done, ChatCompletionMessage, tokens_per, tokens_count, count, count_messages,
}
use gopack.Llm.Openai.{
  VisionRequest, user_message, vision_query, transform_image_requests, operation, retried, limited,
  responses,
}
use gopack.Llm.Openai.Laws.{IsAnswered, bare, vision_request, vision_query-IsAnswered}
use gopack.Llm.Openai.Samples.{names, tokenizer, eager, remote, grants, heard}

abbrev seen : List (VisionRequest ℕ)
seen =
    record { kind = user_message; content = "what is it?"; image = none }
    ∷ record { kind = user_message; content = ""; image = some 3 }
    ∷ []

abbrev encode : ℕ → Outcome String
encode n = done "data:image/jpeg;base64,"

vision_query-IsAnswered_example :
    (ms : List ChatCompletionMessage) × (tokens : ℕ) × (transform_image_requests names encode seen
      ≡ done ms)
    × (tokens_count names tokenizer "gpt-4"
          (bare names tokenizer eager remote grants "gpt-4" 2 ∷ [])
        ≡ done tokens)
    × (grants (tokens + 400) ≡ none)
    × IsAnswered names tokenizer eager remote grants "gpt-4" 2
        (vision_request names tokenizer eager remote grants "gpt-4" 2 ms tokens)
        (heard "yes" ∷ heard "no" ∷ [])
unfolding vision_query transform_image_requests limited tokens_count count count_messages tokens_per
    retried operation responses
vision_query-IsAnswered_example =
    vision_query-IsAnswered names tokenizer eager remote grants "gpt-4" 2 encode seen
      (heard "yes" ∷ heard "no" ∷ []) refl

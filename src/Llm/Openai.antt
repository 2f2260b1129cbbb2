-- ===== src/Llm/Openai.antt =====
-- llm/openai/: messages, token counts and queries.
-- The client of sashabaranov/go-openai, tiktoken and the backoff are parameters: `Remote` answers
-- each attempt, `Tokenizer` gives the number of tokens of a text, `Backoff` has what the
-- documentation says of `Retry`. The constants of the client are the fields of `Names`.
pub mod Tokens
pub mod Api
pub mod Laws
pub mod Calls
mod Samples
mod Tests
use gopack.Prelude.{
  ℕ, zero, suc, ◌+◌, ◌-◌, ◌≤◌, ◌<◌, ◌≡◌, ◌⊎◌, Bool, true, false, String, List, [], ◌∷◌, ◌++◌, map,
  Option, none, some, Error, message, wrapped, ℤ, pos, negsuc, leb, eqb, if◌then◌else◌,
}
use gopack.Llm.Openai.Tokens.{
  Outcome, done, failed, Names, Tokenizer, Part, text_part, image_url_part, ChatCompletionMessage,
  tokens_count,
}

-- `RequestType`: the constants, or another number
pub data RequestType : Type 0 where
  user_message system_message assistant_message : RequestType
  other_type : ℤ → RequestType

pub data ResponseType : Type 0 where
  json_response_type text_response_type : ResponseType
  other_response : ℤ → ResponseType

pub record Request : Type 0 where
  pub kind : RequestType
  pub content : String

-- `I` is the type of images, and a nil image is none.
pub record VisionRequest (I : Type 0) : Type 0 where
  pub kind : RequestType
  pub content : String
  pub image : Option I

pub record Response : Type 0 where
  pub content : String
  pub prompt_tokens : ℤ
  pub completion_tokens : ℤ
  pub total_tokens : ℤ

-- The parts of `openai.ChatCompletionResponse` that are read.
pub record ChatCompletion : Type 0 where
  pub choices : List String
  pub prompt_tokens : ℤ
  pub completion_tokens : ℤ
  pub total_tokens : ℤ

-- The parts of `openai.ChatCompletionRequest` that depend on the call.
pub record ChatCompletionRequest : Type 0 where
  pub messages : List ChatCompletionMessage
  pub json : Option Bool
  pub max_tokens : Option ℤ
  pub seed : Option ℕ

-- What an attempt gives: a response, an APIError by its status, or another error.
pub data Reply : Type 0 where
  response : ChatCompletion → Reply
  api_error : ℕ → Error → Reply
  other_error : Error → Reply

-- What `operation` returns: nil, a PermanentError, or an error.
pub data Attempt : Type 0 where
  succeeded : Attempt
  permanent : Error → Attempt
  transient : Error → Attempt

-- Attempt `n` is the last: the ones before failed with errors that may be tried again, and its own
-- result is that of `Retry`.
abbrev pub IsTransient : Attempt → Type 0
IsTransient (transient e) = Unit
IsTransient _ = ⊥

abbrev pub attempt_error : Attempt → Option Error
attempt_error succeeded = none
attempt_error (permanent e) = some e
attempt_error (transient e) = some e

-- github.com/cenkalti/backoff: `retry max attempts` is the number of the last attempt.
pub record Backoff : Type 0 where
  pub last : ℕ → (ℕ → Attempt) → ℕ
  pub last_bound : (max : ℕ) (op : ℕ → Attempt) → last max op ≤ max
  pub last_before : (max : ℕ) (op : ℕ → Attempt) (i : ℕ) → i < last max op → IsTransient (op i)

abbrev pub Remote : Type 0
Remote = ChatCompletionRequest → ℕ → Reply

-- `toChatCompletionMessage`
pub to_chat_completion_message : Names → Request → Outcome ChatCompletionMessage
to_chat_completion_message names q = elim q.kind [
  | system_message ↦
      done (record { role = names.role_system; name = ""; content = q.content; parts = [] })
  | assistant_message ↦
      done (record { role = names.role_assistant; name = ""; content = q.content; parts = [] })
  | user_message ↦
      done (record { role = names.role_user; name = ""; content = q.content; parts = [] })
  | other_type n ↦ failed (message "unknown type: openai.RequestType")
]

-- the loop at the head of `Query`
pub to_messages :
    Names → List Request → List ChatCompletionMessage → Outcome (List ChatCompletionMessage)
unfolding to_chat_completion_message
to_messages names [] msgs = done msgs
to_messages names (r ∷ rs) msgs = elim (to_chat_completion_message names r) [
  | failed e ↦ failed e
  | done m ↦ to_messages names rs (msgs ++ m ∷ [])
]

-- the loop of `transformImageRequests`; `encode` is `toString` with `jpeg.Encode`
pub image_parts :
    {I : Type 0} → (I → Outcome String) → List (VisionRequest I) → List Part → Outcome (List Part)
image_parts encode [] parts = done parts
image_parts encode (r ∷ rs) parts = elim r.image [
  | none ↦ image_parts encode rs (parts ++ text_part r.content ∷ [])
  | some i ↦ elim (encode i) [
    | failed e ↦ failed (wrapped "image failed to convert: " e)
    | done url ↦ image_parts encode rs (parts ++ image_url_part url ∷ [])
  ]
]

pub transform_image_requests :
    {I : Type 0}
    → Names
    → (I → Outcome String)
    → List (VisionRequest I)
    → Outcome (List ChatCompletionMessage)
unfolding image_parts
transform_image_requests names encode rs = elim (image_parts encode rs []) [
  | failed e ↦ failed e
  | done parts ↦
      done (record { role = names.role_user; name = ""; content = ""; parts = parts } ∷ [])
]

-- the `operation` of `Query` and of `VisionQuery`
pub operation : Reply → Attempt
operation (response r) = succeeded
operation (api_error status e) = if eqb status 401 then permanent e else transient e
operation (other_error e) = transient e

abbrev pub to_response : ChatCompletion → String → Response
to_response resp content = record {
  content = content;
  prompt_tokens = resp.prompt_tokens;
  completion_tokens = resp.completion_tokens;
  total_tokens = resp.total_tokens;
}

-- what stands behind `backoff.Retry`
pub responses : Reply → Outcome (List Response)
responses (api_error status e) = failed e
responses (other_error e) = failed e
responses (response r) = elim r.choices [
  | [] ↦ failed (message "malformed llm response from openai")
  | c ∷ cs ↦ done (map (to_response r) (c ∷ cs))
]

abbrev pub response_format : ResponseType → Option Bool
response_format json_response_type = some true
response_format text_response_type = some false
response_format (other_response n) = none

-- `4096 - tokens`
abbrev pub tokens_left : ℕ → ℤ
tokens_left n = if leb n 4096 then pos (4096 - n) else negsuc (n - 4097)

module _ (names : Names) (tokenizer : Tokenizer) (backoff : Backoff) (remote : Remote)
    (wait_n : ℕ → Option Error) (model : String) (max_retries : ℕ) where
  -- the call of `backoff.Retry`, and what stands behind it
  pub retried : ChatCompletionRequest → Outcome (List Response)
  unfolding operation responses
  retried req = responses (remote req (backoff.last max_retries (λ i. operation (remote req i))))

  -- the wait for the rate limit, and the retried call
  pub limited : ℕ → ChatCompletionRequest → Outcome (List Response)
  unfolding retried
  limited tokens req = elim (wait_n tokens) [ some e ↦ failed e | none ↦ retried req ]

  -- `Query`
  pub query : List Request → ResponseType → Outcome (List Response)
  unfolding to_messages limited
  query requests response_type = elim (to_messages names requests []) [
    | failed e ↦ failed e
    | done msgs ↦ elim (tokens_count names tokenizer model msgs) [
      | failed e ↦ failed e
      | done tokens ↦ limited (tokens + 100) (record {
        messages = msgs;
        json = response_format response_type;
        max_tokens = none;
        seed = none;
      })
    ]
  ]

  -- `VisionQuery`
  pub vision_query :
      {I : Type 0} → (I → Outcome String) → List (VisionRequest I) → Outcome (List Response)
  unfolding transform_image_requests limited
  vision_query encode requests = elim (transform_image_requests names encode requests) [
    | failed e ↦ failed e
    | done msgs ↦ elim (tokens_count names tokenizer model msgs) [
      | failed e ↦ failed e
      | done tokens ↦ limited (tokens + 400) (record {
        messages = msgs;
        json = none;
        max_tokens = some (tokens_left (tokens + 400));
        seed = some 8006;
      })
    ]
  ]

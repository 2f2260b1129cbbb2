-- ===== src/Llm/Openai/Laws.antt =====
-- What a query returns, and what its tokens are estimated at (llm/openai/).
use gopack.Prelude.{
  ℕ, zero, suc, ◌+◌, ◌≤◌, ◌<◌, ◌≡◌, ◌≢◌, inl, inr, refl, sym, ◌∙◌, String, List, [], ◌∷◌, map,
  Option, none, some, Error, arith, Option-cases,
}
use gopack.Llm.Openai.Tokens.Laws.{Outcome-cases, tokens_count-parts}
use gopack.Llm.Openai.Tokens.{
  Outcome, done, failed, Names, Tokenizer, ChatCompletionMessage, tokens_count,
}
use gopack.Llm.Openai.{
  VisionRequest, Request, ResponseType, Response, ChatCompletion, ChatCompletionRequest, Reply,
  response, api_error, other_error, Attempt, IsTransient, Backoff, Remote, to_messages, image_parts,
  transform_image_requests, operation, to_response, responses, response_format, tokens_left,
  retried, limited, query, vision_query,
}

abbrev pub AllBelow : (ℕ → Type 0) → ℕ → Type 0
AllBelow P zero = Unit
AllBelow P (suc n) = AllBelow P n × P n

AllBelow-of : (P : ℕ → Type 0) (n : ℕ) → ((i : ℕ) → i < n → P i) → AllBelow P n
AllBelow-of P zero h = tt
AllBelow-of P (suc n) h = (AllBelow-of P n (λ i l. h i (omega arith)), h n (omega arith))

-- A failure that is tried again: any but an APIError of status 401.
abbrev pub IsRetried : Reply → Type 0
IsRetried (response r) = ⊥
IsRetried (api_error status e) = status ≢ 401
IsRetried (other_error e) = Unit

IsRetried-of : (r : Reply) → IsTransient (operation r) → IsRetried r
unfolding operation
IsRetried-of (response r) h = h
IsRetried-of (api_error status e) h = λ is. ground arith
IsRetried-of (other_error e) h = tt

responses-done :
    (reply : Reply) (out : List Response)
    → responses reply ≡ done out
    → (r : ChatCompletion) × (reply ≡ response r)
      × (out ≡ map (to_response r) r.choices)
      × (out ≢ [])
unfolding responses
responses-done (api_error status e) out h = absurd (ground arith)
responses-done (other_error e) out h = absurd (ground arith)
responses-done (response r) out h = (r, refl, ground arith, ground arith)

module _ (names : Names) (tokenizer : Tokenizer) (backoff : Backoff) (remote : Remote)
    (wait_n : ℕ → Option Error) (model : String) (max_retries : ℕ) where
  -- How a query that succeeds went: attempt `k` is the last, at most `max_retries` came before it
  -- and none of them was refused as unauthorized, and the responses are the choices of its answer, at
  -- least one, each with the usage of the whole.
  abbrev pub IsAnswered : ChatCompletionRequest → List Response → Type 0
  IsAnswered req out =
      (k : ℕ) × (r : ChatCompletion) × (k ≤ max_retries)
      × AllBelow (λ i. IsRetried (remote req i)) k
      × (remote req k ≡ response r)
      × (out ≡ map (to_response r) r.choices)
      × (out ≢ [])

  retried-IsAnswered :
      (req : ChatCompletionRequest) (out : List Response)
      → retried names tokenizer backoff remote wait_n model max_retries req ≡ done out
      → IsAnswered req out
  unfolding retried
  retried-IsAnswered req out h =
      let op : ℕ → Attempt = λ i. operation (remote req i) in
      let k = backoff.last max_retries op in
      let (r, is, choices, some_out) = responses-done (remote req k) out h in
      (
        k,
        r,
        backoff.last_bound max_retries op,
        AllBelow-of (λ i. IsRetried (remote req i)) k
            (λ i l. IsRetried-of (remote req i) (backoff.last_before max_retries op i l)),
        is,
        choices,
        some_out,
      )

  limited-IsAnswered :
      (tokens : ℕ) (req : ChatCompletionRequest) (out : List Response)
      → limited names tokenizer backoff remote wait_n model max_retries tokens req ≡ done out
      → (wait_n tokens ≡ none) × IsAnswered req out
  unfolding limited
  limited-IsAnswered tokens req out h = elim (Option-cases (wait_n tokens)) [
    | inr (e, refused) ↦ absurd (ground arith)
    | inl granted ↦ (granted, retried-IsAnswered req out (ground arith))
  ]

  abbrev pub query_request : List ChatCompletionMessage → ResponseType → ChatCompletionRequest
  query_request msgs kind = record {
    messages = msgs;
    json = response_format kind;
    max_tokens = none;
    seed = none;
  }

  -- A query that succeeds has sent the messages of the requests, in their order, once the rate limit
  -- had granted their estimate and 100 tokens more. An answer came at some attempt, at most
  -- `max_retries` attempts failed before it, none of them as unauthorized, and the responses are its
  -- choices, at least one, each with the usage of the whole answer.
  pub query-IsAnswered :
      (rs : List Request) (kind : ResponseType) (out : List Response)
      → query names tokenizer backoff remote wait_n model max_retries rs kind ≡ done out
      → (msgs : List ChatCompletionMessage) × (tokens : ℕ) × (to_messages names rs [] ≡ done msgs)
        × (tokens_count names tokenizer model msgs ≡ done tokens)
        × (wait_n (tokens + 100) ≡ none)
        × IsAnswered (query_request msgs kind) out
  unfolding query
  query-IsAnswered rs kind out h = elim (Outcome-cases (to_messages names rs [])) [
    | inl (e, bad) ↦ absurd (ground arith)
    | inr (msgs, made) ↦ elim (Outcome-cases (tokens_count names tokenizer model msgs)) [
      | inl (e, bad) ↦ absurd (ground arith)
      | inr (tokens, counted) ↦
          let (granted, answered) =
            limited-IsAnswered (tokens + 100) (query_request msgs kind) out (ground arith) in
          (msgs, tokens, made, counted, granted, answered)
    ]
  ]

  -- A query that the rate limit does not grant returns its error.
  pub query_refused :
      (rs : List Request) (kind : ResponseType) (msgs : List ChatCompletionMessage) (tokens : ℕ)
      (e : Error)
      → to_messages names rs [] ≡ done msgs
      → tokens_count names tokenizer model msgs ≡ done tokens
      → wait_n (tokens + 100) ≡ some e
      → query names tokenizer backoff remote wait_n model max_retries rs kind ≡ failed e
  unfolding query limited
  query_refused rs kind msgs tokens e made counted refused = ground arith

  -- the message without its parts
  abbrev pub bare : ChatCompletionMessage
  bare = record { role = names.role_user; name = ""; content = ""; parts = [] }

  abbrev pub vision_request : List ChatCompletionMessage → ℕ → ChatCompletionRequest
  vision_request msgs tokens = record {
    messages = msgs;
    json = none;
    max_tokens = some (tokens_left (tokens + 400));
    seed = some 8006;
  }

  transform_tokens :
      {I : Type 0} (encode : I → Outcome String) (rs : List (VisionRequest I))
      (msgs : List ChatCompletionMessage)
      → transform_image_requests names encode rs ≡ done msgs
      → tokens_count names tokenizer model msgs ≡ tokens_count names tokenizer model (bare ∷ [])
  unfolding transform_image_requests
  transform_tokens encode rs msgs h = elim (Outcome-cases (image_parts encode rs [])) [
    | inl (e, bad) ↦ absurd (ground arith)
    | inr (parts, made) ↦
        let is : msgs ≡ record bare { parts = parts } ∷ [] = ground arith in
        rw is (
          tokens_count-parts names tokenizer model (record bare { parts = parts }) bare refl refl
            refl)
  ]

  -- A vision query that succeeds is estimated as an empty message of the user, whatever its requests
  -- and however many they are, and may answer in the tokens that this estimate and 400 more leave of
  -- 4096. It is answered as any query is.
  pub vision_query-IsAnswered :
      {I : Type 0} (encode : I → Outcome String) (rs : List (VisionRequest I)) (out : List Response)
      → vision_query names tokenizer backoff remote wait_n model max_retries encode rs ≡ done out
      → (msgs : List ChatCompletionMessage) × (tokens : ℕ) × (transform_image_requests names encode
            rs
          ≡ done msgs)
        × (tokens_count names tokenizer model (bare ∷ []) ≡ done tokens)
        × (wait_n (tokens + 400) ≡ none)
        × IsAnswered (vision_request msgs tokens) out
  unfolding vision_query
  vision_query-IsAnswered encode rs out h =
      elim (Outcome-cases (transform_image_requests names encode rs)) [
        | inl (e, bad) ↦ absurd (ground arith)
        | inr (msgs, made) ↦ elim (Outcome-cases (tokens_count names tokenizer model msgs)) [
          | inl (e, bad) ↦ absurd (ground arith)
          | inr (tokens, counted) ↦
              let (granted, answered) =
                limited-IsAnswered (tokens + 400) (vision_request msgs tokens) out (ground arith) in
              (
                msgs,
                tokens,
                made,
                sym (transform_tokens encode rs msgs made) ∙ counted,
                granted,
                answered,
              )
        ]
      ]

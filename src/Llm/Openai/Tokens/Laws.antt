-- ===== src/Llm/Openai/Tokens/Laws.antt =====
-- What `tokensCount` depends on (llm/openai/util.go).
use gopack.Prelude.{
  ℕ, suc, ◌+◌, ◌≤◌, ◌≡◌, ◌⊎◌, inl, inr, refl, sym, ◌∙◌, String, List, [], ◌∷◌, ◌++◌, none, some,
  Error, message, wrapped, arith, Option-cases, Bool-cases, if◌then◌else◌,
}
use gopack.Llm.Openai.Tokens.{
  Outcome, done, failed, Names, Tokenizer, PerName, one_more, ChatCompletionMessage, tokens_per,
  count_message, count_messages, count, tokens_count,
}
use gopack.Llm.Openai.Tokens.Counting.{
  count_messages-append, count_messages-shift, tokens_per-pos, tokens_per_of_gpt3_5,
  tokens_per_of_gpt4,
}

pub Outcome-cases :
    {A : Type 0} (o : Outcome A) → ((e : Error) × (o ≡ failed e)) ⊎ ((a : A) × (o ≡ done a))
Outcome-cases (failed e) = inl (e, refl)
Outcome-cases (done a) = inr (a, refl)

module _ (names : Names) where
  module _ (tokenizer : Tokenizer) where
    count_unencoded :
        (fuel : ℕ) (model : String) (ms : List ChatCompletionMessage) (e : Error)
        → tokenizer.encoding_for_model model ≡ failed e
        → count names tokenizer (suc fuel) model ms ≡ failed (wrapped "encoding for model: " e)
    unfolding count
    count_unencoded fuel model ms e h = ground arith

    count_listed :
        (fuel : ℕ) (model : String) (ms : List ChatCompletionMessage) (encode : String → ℕ)
        (per : ℕ × PerName)
        → tokenizer.encoding_for_model model ≡ done encode
        → tokens_per names model ≡ some per
        → count names tokenizer (suc fuel) model ms
          ≡ done (count_messages names encode per 0 ms + 3)
    unfolding count
    count_listed fuel model ms encode per h k = ground arith

    -- How a model is counted: it fails for all messages, or it has an encoding and costs.
    abbrev pub Counts : (List ChatCompletionMessage → Outcome ℕ) → Type 0
    Counts f =
        ((e : Error) × ((ms : List ChatCompletionMessage) → f ms ≡ failed e))
        ⊎ ((encode : String → ℕ) × (per : ℕ × PerName) × (1 ≤ per.0)
            × ((ms : List ChatCompletionMessage)
                → f ms ≡ done (count_messages names encode per 0 ms + 3)))

    Counts-listed :
        (fuel : ℕ) (model : String) (per : ℕ × PerName)
        → tokens_per names model ≡ some per
        → Counts (count names tokenizer (suc fuel) model)
    Counts-listed fuel model per h = elim (Outcome-cases (tokenizer.encoding_for_model model)) [
      | inl (e, bad) ↦
          inl (wrapped "encoding for model: " e, λ ms. count_unencoded fuel model ms e bad)
      | inr (encode, good) ↦ inr (
        encode,
        per,
        tokens_per-pos names model per h,
        λ ms. count_listed fuel model ms encode per good h,
      )
    ]

    -- a model that the switch does not name, but an alias of one that it names, or of none
    count_unlisted :
        (fuel : ℕ) (model : String) (ms : List ChatCompletionMessage) (encode : String → ℕ)
        → tokenizer.encoding_for_model model ≡ done encode
        → tokens_per names model ≡ none
        → count names tokenizer (suc fuel) model ms ≡ (
            if names.contains_gpt3_5_turbo model
            then count names tokenizer fuel names.gpt3_5_turbo_0613 ms
            else if names.contains_gpt4 model
            then count names tokenizer fuel names.gpt4_0613 ms
            else failed (message "num_tokens_from_messages() is not implemented"))
    unfolding count
    count_unlisted fuel model ms encode h k = ground arith

    -- `f` is counted as `g` is
    Counts-same :
        (f g : List ChatCompletionMessage → Outcome ℕ)
        → ((ms : List ChatCompletionMessage) → f ms ≡ g ms)
        → Counts g
        → Counts f
    Counts-same f g same (inl (e, h)) = inl (e, λ ms. same ms ∙ h ms)
    Counts-same f g same (inr (encode, per, p, h)) = inr (encode, per, p, λ ms. same ms ∙ h ms)

    Counts-unlisted :
        (fuel : ℕ) (model : String) (encode : String → ℕ)
        → tokenizer.encoding_for_model model ≡ done encode
        → tokens_per names model ≡ none
        → Counts (count names tokenizer (suc (suc fuel)) model)
    Counts-unlisted fuel model encode good unnamed =
        elim (Bool-cases (names.contains_gpt3_5_turbo model)) [
          | inl like ↦
              Counts-same _ (count names tokenizer (suc fuel) names.gpt3_5_turbo_0613)
                (λ ms. count_unlisted (suc fuel) model ms encode good unnamed ∙ rw like refl)
                (Counts-listed fuel names.gpt3_5_turbo_0613 (3, one_more)
                  (tokens_per_of_gpt3_5 names))
          | inr unlike ↦ elim (Bool-cases (names.contains_gpt4 model)) [
            | inl like ↦
                Counts-same _ (count names tokenizer (suc fuel) names.gpt4_0613)
                  (λ ms.
                    count_unlisted (suc fuel) model ms encode good unnamed ∙ rw (unlike, like) refl)
                  (Counts-listed fuel names.gpt4_0613 (3, one_more) (tokens_per_of_gpt4 names))
            | inr unlike4 ↦ inl (
              message "num_tokens_from_messages() is not implemented",
              λ ms.
                  count_unlisted (suc fuel) model ms encode good unnamed
                  ∙ rw (unlike, unlike4) refl,
            )
          ]
        ]

    count-Counts :
        (fuel : ℕ) (model : String) → Counts (count names tokenizer (suc (suc fuel)) model)
    count-Counts fuel model = elim (Outcome-cases (tokenizer.encoding_for_model model)) [
      | inl (e, bad) ↦
          inl (wrapped "encoding for model: " e, λ ms. count_unencoded (suc fuel) model ms e bad)
      | inr (encode, good) ↦ elim (Option-cases (tokens_per names model)) [
        | inl unnamed ↦ Counts-unlisted fuel model encode good unnamed
        | inr (per, named) ↦ Counts-listed (suc fuel) model per named
      ]
    ]

    count-listed_fuel :
        (fuel : ℕ) (model : String) (per : ℕ × PerName) (ms : List ChatCompletionMessage)
        → tokens_per names model ≡ some per
        → count names tokenizer (suc fuel) model ms ≡ count names tokenizer 1 model ms
    count-listed_fuel fuel model per ms h =
        elim (Outcome-cases (tokenizer.encoding_for_model model)) [
          | inl (e, bad) ↦
              count_unencoded fuel model ms e bad ∙ sym (count_unencoded 0 model ms e bad)
          | inr (encode, good) ↦
              count_listed fuel model ms encode per good h
              ∙ sym (count_listed 0 model ms encode per good h)
        ]

    -- More fuel than 2 changes no estimate: the call that `tokensCount` makes of itself is for a
    -- model that the switch names, and makes no other.
    pub count-fuel :
        (fuel : ℕ) (model : String) (ms : List ChatCompletionMessage)
        → count names tokenizer (suc (suc fuel)) model ms ≡ tokens_count names tokenizer model ms
    unfolding tokens_count
    count-fuel fuel model ms = elim (Outcome-cases (tokenizer.encoding_for_model model)) [
      | inl (e, bad) ↦
          count_unencoded (suc fuel) model ms e bad ∙ sym (count_unencoded 1 model ms e bad)
      | inr (encode, good) ↦ elim (Option-cases (tokens_per names model)) [
        | inr (per, named) ↦
            count-listed_fuel (suc fuel) model per ms named
            ∙ sym (count-listed_fuel 1 model per ms named)
        | inl unnamed ↦
            count_unlisted (suc fuel) model ms encode good unnamed
            ∙ rw
                (
                  count-listed_fuel fuel names.gpt3_5_turbo_0613 (3, one_more) ms
                      (tokens_per_of_gpt3_5 names),
                  count-listed_fuel fuel names.gpt4_0613 (3, one_more) ms
                      (tokens_per_of_gpt4 names),
                )
                (sym (count_unlisted 1 model ms encode good unnamed))
      ]
    ]

    -- The estimate of two lists of messages in one is that of the two, less the 3 tokens that each
    -- reply is primed with: for any model, whether the switch names it or it is counted as another.
    pub tokens_count-append :
        (model : String) (ms ls : List ChatCompletionMessage) (a b : ℕ)
        → tokens_count names tokenizer model ms ≡ done a
        → tokens_count names tokenizer model ls ≡ done b
        → (c : ℕ) × (tokens_count names tokenizer model (ms ++ ls) ≡ done c) × (c + 3 ≡ a + b)
    unfolding tokens_count
    tokens_count-append model ms ls a b h k = go (count-Counts 0 model)
      where
        go :
            Counts (count names tokenizer 2 model)
            → (c : ℕ) × (count names tokenizer 2 model (ms ++ ls) ≡ done c) × (c + 3 ≡ a + b)
        go (inl (e, bad)) = absurd (ground (arith, bad ms))
        go (inr (encode, per, p, good)) = (
          count_messages names encode per 0 (ms ++ ls) + 3,
          good (ms ++ ls),
          ground (
            arith,
            good ms,
            good ls,
            count_messages-append names encode per 0 ms ls,
            count_messages-shift names encode per (count_messages names encode per 0 ms) 0 ls p,
          ),
        )

    -- The estimate of a message is that of its role, name and content: its parts do not count.
    pub tokens_count-parts :
        (model : String) (m l : ChatCompletionMessage)
        → m.role ≡ l.role
        → m.name ≡ l.name
        → m.content ≡ l.content
        → tokens_count names tokenizer model (m ∷ []) ≡ tokens_count names tokenizer model (l ∷ [])
    unfolding tokens_count count_messages count_message
    tokens_count-parts model m l r n c = go (count-Counts 0 model)
      where
        go :
            Counts (count names tokenizer 2 model)
            → count names tokenizer 2 model (m ∷ []) ≡ count names tokenizer 2 model (l ∷ [])
        go (inl (e, bad)) = bad (m ∷ []) ∙ sym (bad (l ∷ []))
        go (inr (encode, per, p, good)) = good (m ∷ []) ∙ rw (r, n, c) (sym (good (l ∷ [])))

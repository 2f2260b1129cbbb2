-- ===== src/Llm/Openai/Tokens/Counting.antt =====
-- The loop of `tokensCount` (llm/openai/util.go).
use gopack.Prelude.{ℕ, ◌+◌, ◌≤◌, ◌≡◌, refl, ap, ◌∙◌, String, List, [], ◌∷◌, ◌++◌, some, arith}
use text.Mathlib.TextEquality.{eq_iff}
use gopack.Llm.Openai.Tokens.{
  Names, PerName, one_more, one_less, ChatCompletionMessage, tokens_per, count_message,
  count_messages,
}

module _ (names : Names) where
  pub tokens_per_of_gpt3_5 : tokens_per names names.gpt3_5_turbo_0613 ≡ some (3, one_more)
  unfolding tokens_per
  tokens_per_of_gpt3_5 = ground (arith, eq_iff names.gpt3_5_turbo_0613 names.gpt3_5_turbo_0613)

  pub tokens_per_of_gpt4 : tokens_per names names.gpt4_0613 ≡ some (3, one_more)
  unfolding tokens_per
  tokens_per_of_gpt4 = ground (arith, eq_iff names.gpt4_0613 names.gpt4_0613)

  pub tokens_per-pos :
      (model : String) (per : ℕ × PerName) → tokens_per names model ≡ some per → 1 ≤ per.0
  unfolding tokens_per
  tokens_per-pos model per h = ground arith

  pub count_message-shift :
      (encode : String → ℕ) (per : ℕ × PerName) (k n : ℕ) (m : ChatCompletionMessage)
      → 1 ≤ per.0
      → count_message names encode per (k + n) m ≡ k + count_message names encode per n m
  unfolding count_message
  count_message-shift encode (p, one_more) k n m h = ground arith
  count_message-shift encode (p, one_less) k n m h = ground arith

  pub count_messages-shift :
      (encode : String → ℕ) (per : ℕ × PerName) (k n : ℕ) (ms : List ChatCompletionMessage)
      → 1 ≤ per.0
      → count_messages names encode per (k + n) ms ≡ k + count_messages names encode per n ms
  unfolding count_messages
  count_messages-shift encode per k n [] h = refl
  count_messages-shift encode per k n (m ∷ ms) h =
      ap (λ c. count_messages names encode per c ms) (count_message-shift encode per k n m h)
      ∙ count_messages-shift encode per k (count_message names encode per n m) ms h

  pub count_messages-append :
      (encode : String → ℕ) (per : ℕ × PerName) (n : ℕ) (ms ls : List ChatCompletionMessage)
      → count_messages names encode per n (ms ++ ls)
        ≡ count_messages names encode per (count_messages names encode per n ms) ls
  unfolding count_messages
  count_messages-append encode per n [] ls = refl
  count_messages-append encode per n (m ∷ ms) ls =
      count_messages-append encode per (count_message names encode per n m) ms ls

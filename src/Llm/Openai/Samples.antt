-- ===== src/Llm/Openai/Samples.antt =====
-- Concrete values for what the queries of llm/openai/ take as parameters; the tests use them.
use gopack.Prelude.{
  ℕ, zero, suc, ◌+◌, ◌≤◌, ◌<◌, ◌≡◌, refl, true, false, String, List, [], ◌∷◌, Option, none, Error,
  message, arith, pos, eqb, Bool-cases, inl, inr,
}
use gopack.Llm.Openai.Tokens.{done, Names, Tokenizer, ChatCompletionMessage}
use gopack.Llm.Openai.{
  Request, user_message, system_message, Response, ChatCompletion, response, api_error, Attempt,
  succeeded, permanent, transient, IsTransient, Backoff, Remote,
}

abbrev pub names : Names
names = record {
  role_user = "user";
  role_system = "system";
  role_assistant = "assistant";
  gpt3_5_turbo_0613 = "gpt-3.5-turbo-0613";
  gpt3_5_turbo_16k_0613 = "gpt-3.5-turbo-16k-0613";
  gpt4_0314 = "gpt-4-0314";
  gpt4_32k_0314 = "gpt-4-32k-0314";
  gpt4_0613 = "gpt-4-0613";
  gpt4_32k_0613 = "gpt-4-32k-0613";
  gpt3_5_turbo_0301 = "gpt-3.5-turbo-0301";
  gpt4_vision_preview = "gpt-4-vision-preview";
  gpt4_turbo = "gpt-4-turbo";
  contains_gpt3_5_turbo = λ s. false;
  contains_gpt4 = λ s. true;
}

-- every text has two tokens
abbrev pub tokenizer : Tokenizer
tokenizer = record { encoding_for_model = λ m. done (λ s. 2) }

-- the first attempt, from `i` on, that succeeded or must not be made again, at most `n` further
abbrev pub first_end : (ℕ → Attempt) → ℕ → ℕ → ℕ
first_end op i zero = i
first_end op i (suc n) = elim (op i) [ transient e ↦ first_end op (suc i) n | _ ↦ i ]

pub first_end_bound : (op : ℕ → Attempt) (i n : ℕ) → first_end op i n ≤ i + n
first_end_bound op i zero = omega arith
first_end_bound op i (suc n) = ground (arith, first_end_bound op (suc i) n)

pub first_end_before :
    (op : ℕ → Attempt) (i n j : ℕ) → i ≤ j → j < first_end op i n → IsTransient (op j)
first_end_before op i zero j l h = absurd (omega arith)
first_end_before op i (suc n) j l h = go (first_end_before op (suc i) n j) (op i) refl
  where
    at : (a : Attempt) → op i ≡ a → IsTransient a → j ≡ i → IsTransient (op j)
    at a e t s = rw (s, e) t

    go :
        (suc i ≤ j → j < first_end op (suc i) n → IsTransient (op j))
        → (a : Attempt) → op i ≡ a
        → IsTransient (op j)
    go later succeeded e = absurd (ground arith)
    go later (permanent d) e = absurd (ground arith)
    go later (transient d) e = elim (Bool-cases (eqb j i)) [
      | inl same ↦ at (transient d) e tt (ground arith)
      | inr other ↦ later (ground arith) (ground arith)
    ]

abbrev pub eager : Backoff
eager = record {
  last = λ max op. first_end op 0 max;
  last_bound = λ max op. omega (arith, first_end_bound op 0 max);
  last_before = λ max op i l. first_end_before op 0 max i (omega arith) l;
}

abbrev pub answer : ChatCompletion
answer = record {
  choices = "yes" ∷ "no" ∷ [];
  prompt_tokens = pos 9;
  completion_tokens = pos 2;
  total_tokens = pos 11;
}

-- busy at first
abbrev pub remote : Remote
remote req zero = api_error 429 (message "busy")
remote req (suc zero) = api_error 500 (message "down")
remote req (suc (suc n)) = response answer

abbrev pub grants : ℕ → Option Error
grants n = none

abbrev pub asked : List Request
asked =
    record { kind = system_message; content = "be brief" }
    ∷ record { kind = user_message; content = "well?" }
    ∷ []

abbrev pub msgs : List ChatCompletionMessage
msgs =
    record { role = "system"; name = ""; content = "be brief"; parts = [] }
    ∷ record { role = "user"; name = ""; content = "well?"; parts = [] }
    ∷ []

abbrev pub heard : String → Response
heard s = record {
  content = s;
  prompt_tokens = pos 9;
  completion_tokens = pos 2;
  total_tokens = pos 11;
}

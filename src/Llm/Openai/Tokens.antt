-- ===== src/Llm/Openai/Tokens.antt =====
-- `tokensCount` of llm/openai/util.go: how many tokens a list of messages is estimated at.
pub mod Counting
pub mod Laws
use gopack.Prelude.{
  ℕ, zero, suc, ◌+◌, ◌-◌, ◌≤◌, ◌≡◌, refl, sym, ap, ◌∙◌, Bool, true, false, not, ◌||◌, String, List,
  [], ◌∷◌, ◌++◌, Option, none, some, Error, message, wrapped, arith, if◌then◌else◌,
}
use text.Mathlib.Text.{◌==◌}
use text.Mathlib.TextEquality.{eq_iff}
use Prim.Native.String

pub data Outcome (A : Type 0) : Type 0 where
  done : A → Outcome A
  failed : Error → Outcome A

-- The constants of the client, and `strings.Contains` with two of them.
pub record Names : Type 0 where
  pub role_user : String
  pub role_system : String
  pub role_assistant : String
  pub gpt3_5_turbo_0613 : String
  pub gpt3_5_turbo_16k_0613 : String
  pub gpt4_0314 : String
  pub gpt4_32k_0314 : String
  pub gpt4_0613 : String
  pub gpt4_32k_0613 : String
  pub gpt3_5_turbo_0301 : String
  pub gpt4_vision_preview : String
  pub gpt4_turbo : String
  pub contains_gpt3_5_turbo : String → Bool
  pub contains_gpt4 : String → Bool

-- tiktoken: for a model the number of tokens of each text, or an error
pub record Tokenizer : Type 0 where
  pub encoding_for_model : String → Outcome (String → ℕ)

pub data Part : Type 0 where
  text_part image_url_part : String → Part

pub record ChatCompletionMessage : Type 0 where
  pub role : String
  pub name : String
  pub content : String
  pub parts : List Part

-- `tokensPerName`
pub data PerName : Type 0 where
  one_more one_less : PerName

-- A count is at least `tokensPerMessage` when one is taken off it, so nothing is cut off.
abbrev pub add_name : PerName → ℕ → ℕ
add_name one_more n = n + 1
add_name one_less n = n - 1

module _ (names : Names) where
  abbrev is_0613 : String → Bool
  is_0613 model =
      model == names.gpt3_5_turbo_0613
      || model == names.gpt3_5_turbo_16k_0613
      || model == names.gpt4_0314
      || model == names.gpt4_32k_0314
      || model == names.gpt4_0613
      || model == names.gpt4_32k_0613

  -- `tokensPerMessage` and `tokensPerName` of the models that the switch names
  unfoldable pub tokens_per : String → Option (ℕ × PerName)
  tokens_per model =
      if is_0613 model
      then some (3, one_more)
      else if model == names.gpt3_5_turbo_0301
      then some (4, one_less)
      else if model == names.gpt4_vision_preview
      then some (1500, one_less)
      else if model == names.gpt4_turbo
      then some (1000, one_less)
      else none

  -- the body of the loop, added to the count so far
  unfoldable pub count_message : (String → ℕ) → ℕ × PerName → ℕ → ChatCompletionMessage → ℕ
  count_message encode (per_message, per_name) n m =
      let counted = n + per_message + encode m.content + encode m.role + encode m.name in
      if not (m.name == "") then add_name per_name counted else counted

  unfoldable pub count_messages : (String → ℕ) → ℕ × PerName → ℕ → List ChatCompletionMessage → ℕ
  unfolding count_message
  count_messages encode per n [] = n
  count_messages encode per n (m ∷ ms) = count_messages encode per (count_message encode per n m) ms

  module _ (tokenizer : Tokenizer) where
    -- `tokensCount`, on fuel for the calls that it makes of itself: of those there is at most one
    unfoldable pub count : ℕ → String → List ChatCompletionMessage → Outcome ℕ
    unfolding tokens_per count_messages
    count zero model ms = failed (message "out of fuel")
    count (suc fuel) model ms =
        let as_3_5 = count fuel names.gpt3_5_turbo_0613 ms in
        let as_4 = count fuel names.gpt4_0613 ms in
        elim (tokenizer.encoding_for_model model) [
          | failed e ↦ failed (wrapped "encoding for model: " e)
          | done encode ↦ elim (tokens_per model) [
            | some per ↦ done (count_messages encode per 0 ms + 3)
            | none ↦
                if names.contains_gpt3_5_turbo model
                then as_3_5
                else if names.contains_gpt4 model
                then as_4
                else failed (message "num_tokens_from_messages() is not implemented")
          ]
        ]

    unfoldable pub tokens_count : String → List ChatCompletionMessage → Outcome ℕ
    unfolding count
    tokens_count model ms = count 2 model ms

-- ===== src/Llm/Openai/Api.antt =====
-- llm/openai/openai.go (NewAPI), llm/openai/config.go and llm/openai/option.go.
-- `F` is float32, by its zero, and `H` the type of pointers to HTTP clients, with the default one. A
-- client of sashabaranov/go-openai is known by the configuration that it was made with.
use gopack.Prelude.{
  ℕ, ◌/◌, ◌≡◌, refl, ap, not, String, List, [], ◌∷◌, Option, none, some, ℤ, if◌then◌else◌,
}
use text.Mathlib.Text.{◌==◌}

-- `Config`
pub record Config : Type 0 where
  pub token : String
  pub model : String
  pub timeout : ℤ
  pub max_retries : ℤ
  pub organization : String

-- the parts of openai.ClientConfig that are set
pub record ClientConfig (H : Type 0) : Type 0 where
  pub auth_token : String
  pub http_client : H
  pub org_id : String

-- `rate.NewLimiter`, by its tokens in a second and its burst
pub record RateLimiter : Type 0 where
  pub limit : ℕ
  pub burst : ℕ

-- `tpm`
abbrev pub tokens_per_minute : ℕ
tokens_per_minute = 1000000

-- `api`; `remote` is none before the client is made
pub record Api (F H : Type 0) : Type 0 where
  pub config : Config
  pub remote : Option (ClientConfig H)
  pub temperature : F
  pub frequency : F
  pub presence : F
  pub rate_limit : RateLimiter
  pub http_client : H

-- `Option`
pub data ApiOption (F H : Type 0) : Type 0 where
  with_temperature with_frequency with_presence : F → ApiOption F H
  with_http_client : H → ApiOption F H

module _ {F H : Type 0} where
  -- `Apply`
  pub apply : ApiOption F H → Api F H → Api F H
  apply (with_temperature temperature) c = record c { temperature = temperature }
  apply (with_frequency frequency) c = record c { frequency = frequency }
  apply (with_presence presence) c = record c { presence = presence }
  apply (with_http_client http_client) c = record c { http_client = http_client }

  pub apply_all : List (ApiOption F H) → Api F H → Api F H
  unfolding apply
  apply_all [] c = c
  apply_all (opt ∷ opts) c = apply_all opts (apply opt c)

  module _ (zero_float : F) (default_client : H) (default_config : String → ClientConfig H) where
    -- the api before the options
    pub unset_api : Config → Api F H
    unset_api config = record {
      config = config;
      remote = none;
      temperature = zero_float;
      frequency = zero_float;
      presence = zero_float;
      rate_limit = record { limit = tokens_per_minute / 60; burst = tokens_per_minute };
      http_client = default_client;
    }

    -- the configuration of the client
    pub client_config : Config → H → ClientConfig H
    client_config config http_client =
        let cfg = record (default_config config.token) { http_client = http_client } in
        if not (config.organization == "") then record cfg { org_id = config.organization } else cfg

    -- `NewAPI`
    pub new_api : Config → List (ApiOption F H) → Api F H
    unfolding apply_all unset_api client_config
    new_api config opts =
        let c = apply_all opts (unset_api config) in
        record c { remote = some (client_config config c.http_client) }

-- the last value that the options give for a setting, or the one that is there
abbrev pub last_temperature : {F H : Type 0} → List (ApiOption F H) → F → F
last_temperature [] f = f
last_temperature (with_temperature g ∷ opts) f = last_temperature opts g
last_temperature (_ ∷ opts) f = last_temperature opts f

abbrev pub last_frequency : {F H : Type 0} → List (ApiOption F H) → F → F
last_frequency [] f = f
last_frequency (with_frequency g ∷ opts) f = last_frequency opts g
last_frequency (_ ∷ opts) f = last_frequency opts f

abbrev pub last_presence : {F H : Type 0} → List (ApiOption F H) → F → F
last_presence [] f = f
last_presence (with_presence g ∷ opts) f = last_presence opts g
last_presence (_ ∷ opts) f = last_presence opts f

abbrev pub last_client : {F H : Type 0} → List (ApiOption F H) → H → H
last_client [] h = h
last_client (with_http_client g ∷ opts) h = last_client opts g
last_client (_ ∷ opts) h = last_client opts h

module _ {F H : Type 0} where
  -- an api with the settings that the options give
  abbrev pub with_settings : List (ApiOption F H) → Api F H → Api F H
  with_settings opts c = record c {
    temperature = last_temperature opts c.temperature;
    frequency = last_frequency opts c.frequency;
    presence = last_presence opts c.presence;
    http_client = last_client opts c.http_client;
  }

  apply_all-with_settings :
      (opts : List (ApiOption F H)) (c : Api F H) → apply_all opts c ≡ with_settings opts c
  unfolding apply_all apply
  apply_all-with_settings [] c = refl
  apply_all-with_settings (with_temperature t ∷ opts) c =
      apply_all-with_settings opts (record c { temperature = t })
  apply_all-with_settings (with_frequency f ∷ opts) c =
      apply_all-with_settings opts (record c { frequency = f })
  apply_all-with_settings (with_presence p ∷ opts) c =
      apply_all-with_settings opts (record c { presence = p })
  apply_all-with_settings (with_http_client h ∷ opts) c =
      apply_all-with_settings opts (record c { http_client = h })

  -- Whatever the options, the limit of an api is 16666 tokens in a second and a million at once, each
  -- setting is the one that the last option for it gives, or the default one, and its client is
  -- the one for the token and that HTTP client.
  pub new_api-client :
      (z : F) (h : H) (default_config : String → ClientConfig H) (config : Config)
      (opts : List (ApiOption F H))
      → new_api z h default_config config opts ≡ record {
        config = config;
        remote = some (client_config z h default_config config (last_client opts h));
        temperature = last_temperature opts z;
        frequency = last_frequency opts z;
        presence = last_presence opts z;
        rate_limit = record { limit = 16666; burst = 1000000 };
        http_client = last_client opts h;
      }
  unfolding new_api unset_api
  new_api-client z h default_config config opts =
      ap {A = Api F H}
        (λ c. record c { remote = some (client_config z h default_config config c.http_client) })
        (apply_all-with_settings opts (unset_api z h default_config config))

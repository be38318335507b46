-- ===== src/Analyzer/Providers.antt =====
-- services/ai-analyzer/cmd/main.go, which language model a request is answered by, and the constructors in
-- services/ai-analyzer/internal/llm: openai.go, claude.go and gemini.go. The texts that the code names are
-- constructors, all others have a number.
use quantime.Prelude.{ℕ, Option, none}

pub data ProviderName : Type 0 where
  no_provider openai claude gemini ollama local : ProviderName
  other_provider : ℕ → ProviderName

pub data Model : Type 0 where
  no_model gpt_4o_mini claude_3_5_sonnet gemini_3_5_flash llama3 llama_3_2_3b : Model
  other_model : ℕ → Model

pub data BaseUrl : Type 0 where
  no_url openai_url anthropic_url docker_host_url local_llm_url : BaseUrl
  gemini_url : Model → BaseUrl
  other_url : ℕ → BaseUrl

pub data Protocol : Type 0 where
  openai_protocol claude_protocol gemini_protocol : Protocol

-- The structs of the three providers; `none` is the empty key.
pub record Client : Type 0 where
  pub protocol : Protocol
  pub api_key : Option ℕ
  pub model : Model
  pub base_url : BaseUrl

abbrev pub or_model : Model → Model → Model
or_model no_model default = default
or_model gpt_4o_mini default = gpt_4o_mini
or_model claude_3_5_sonnet default = claude_3_5_sonnet
or_model gemini_3_5_flash default = gemini_3_5_flash
or_model llama3 default = llama3
or_model llama_3_2_3b default = llama_3_2_3b
or_model (other_model n) default = other_model n

abbrev pub or_url : BaseUrl → BaseUrl → BaseUrl
or_url no_url default = default
or_url openai_url default = openai_url
or_url anthropic_url default = anthropic_url
or_url docker_host_url default = docker_host_url
or_url local_llm_url default = local_llm_url
or_url (gemini_url m) default = gemini_url m
or_url (other_url n) default = other_url n

abbrev pub new_openai_provider : Option ℕ → Model → BaseUrl → Client
new_openai_provider key model base_url = record {
  protocol = openai_protocol;
  api_key = key;
  model = or_model model gpt_4o_mini;
  base_url = or_url base_url openai_url;
}

abbrev pub new_claude_provider : Option ℕ → Model → Client
new_claude_provider key model = record {
  protocol = claude_protocol;
  api_key = key;
  model = or_model model claude_3_5_sonnet;
  base_url = anthropic_url;
}

abbrev pub new_gemini_provider : Option ℕ → Model → Client
new_gemini_provider key model = record {
  protocol = gemini_protocol;
  api_key = key;
  model = or_model model gemini_3_5_flash;
  base_url = gemini_url (or_model model gemini_3_5_flash);
}

pub record Environment : Type 0 where
  pub ai_provider : ProviderName
  pub ai_model : Model
  pub openai_api_key : Option ℕ
  pub openai_base_url : BaseUrl
  pub anthropic_api_key : Option ℕ
  pub gemini_api_key : Option ℕ
  pub ollama_base_url : BaseUrl
  pub local_llm_base_url : BaseUrl

abbrev pub local_provider : Environment → Client
local_provider env =
    new_openai_provider none (or_model env.ai_model llama_3_2_3b)
      (or_url env.local_llm_base_url local_llm_url)

abbrev pub start_provider : Environment → ProviderName → Client
start_provider env openai = new_openai_provider env.openai_api_key env.ai_model env.openai_base_url
start_provider env claude = new_claude_provider env.anthropic_api_key env.ai_model
start_provider env gemini = new_gemini_provider env.gemini_api_key env.ai_model
start_provider env ollama =
    new_openai_provider none (or_model env.ai_model llama3)
      (or_url env.ollama_base_url docker_host_url)
start_provider env local = local_provider env
start_provider env no_provider = local_provider env
start_provider env (other_provider n) = local_provider env

-- The overrides of a request.
pub record Override : Type 0 where
  pub provider : ProviderName
  pub model : Model
  pub api_key : Option ℕ

abbrev pub no_override : Override
no_override = record { provider = no_provider; model = no_model; api_key = none }

-- The switch of `analyzeHandler`, and of `analyzeLeaderboardHandler` again.
abbrev pub override_as : Override → Client → ProviderName → Client
override_as o default openai = new_openai_provider o.api_key o.model no_url
override_as o default claude = new_claude_provider o.api_key o.model
override_as o default gemini = new_gemini_provider o.api_key o.model
override_as o default ollama = new_openai_provider none (or_model o.model llama3) docker_host_url
override_as o default local = new_openai_provider none (or_model o.model llama_3_2_3b) local_llm_url
override_as o default no_provider = default
override_as o default (other_provider n) = default

unfoldable pub override_provider : Override → Client → Client
override_provider o default = override_as o default o.provider

-- The switch of `reportHandler` has no case for ollama.
abbrev pub override_report_as : Override → Client → ProviderName → Client
override_report_as o default openai = new_openai_provider o.api_key o.model no_url
override_report_as o default claude = new_claude_provider o.api_key o.model
override_report_as o default gemini = new_gemini_provider o.api_key o.model
override_report_as o default local =
    new_openai_provider none (or_model o.model llama_3_2_3b) local_llm_url
override_report_as o default ollama = default
override_report_as o default no_provider = default
override_report_as o default (other_provider n) = default

unfoldable pub override_report_provider : Override → Client → Client
override_report_provider o default = override_report_as o default o.provider

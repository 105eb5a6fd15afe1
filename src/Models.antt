-- ===== src/Models.antt =====
-- pkg/zbplan/model.go: the chat model of a run, from the environment. The environment, `strings.ToLower`
-- and the clients of the providers are parameters.
pub mod Chosen
use zbplan.Prelude.{
  ℕ, zero, suc, Bool, true, false, Option, none, some, [], ◌++◌, Bytes, codes, beq, if◌then◌else◌,
  Result, ok, err, ℤ, pos, negsuc,
}

pub record ClaudeConfig : Type 0 where
  pub api_key : Bytes
  pub model : Bytes
  pub base_url : Bytes
  pub max_tokens : ℤ
  pub disable_thinking : Bool

pub record OpenaiConfig : Type 0 where
  pub api_key : Bytes
  pub model : Bytes
  pub base_url : Bytes

-- `claude.Config`; an absent address is the provider's.
pub record ClaudeClient : Type 0 where
  pub api_key : Bytes
  pub model : Bytes
  pub max_tokens : ℤ
  pub adaptive_thinking : Bool
  pub base_url : Option Bytes

-- `openai.ChatModelConfig`
pub record OpenaiClient : Type 0 where
  pub api_key : Bytes
  pub model : Bytes
  pub base_url : Bytes
  pub user : Bytes

-- `if field == "" { field = default }`
abbrev pub or_default : Bytes → Bytes → Bytes
or_default default value = if beq value [] then default else value

abbrev pub tokens_or : ℕ → ℤ → ℤ
tokens_or default (pos zero) = pos default
tokens_or default (pos (suc n)) = pos (suc n)
tokens_or default (negsuc n) = negsuc n

unfoldable pub claude_client : ClaudeConfig → ClaudeClient
claude_client cfg = record {
  api_key = cfg.api_key;
  model = or_default (codes "claude-sonnet-5-5") cfg.model;
  max_tokens = tokens_or 16000 cfg.max_tokens;
  adaptive_thinking = if cfg.disable_thinking then false else true;
  base_url = if beq cfg.base_url [] then none else some cfg.base_url;
}

unfoldable pub openai_client : OpenaiConfig → OpenaiClient
openai_client cfg = record {
  api_key = cfg.api_key;
  model = or_default (codes "gpt-5.6-terra") cfg.model;
  base_url = or_default (codes "https://api.openai.com/v1") cfg.base_url;
  user = codes "zbplan";
}

pub record ModelEnv (M : Type 0) : Type 0 where
  pub getenv : Bytes → Bytes
  pub to_lower : Bytes → Bytes
  -- `%q`
  pub quote : Bytes → Bytes
  pub new_claude : ClaudeClient → Result Bytes M
  pub new_openai : OpenaiClient → Result Bytes M

module _ {M : Type 0} (env : ModelEnv M) where
  -- `NewClaudeModel`
  unfoldable pub new_claude_model : ClaudeConfig → Result Bytes M
  new_claude_model cfg = env.new_claude (claude_client cfg)

  -- `NewOpenAIModel`
  unfoldable pub new_openai_model : OpenaiConfig → Result Bytes M
  new_openai_model cfg = env.new_openai (openai_client cfg)

  unfoldable pub new_claude_model_from_env : Result Bytes M
  new_claude_model_from_env =
      let api_key = env.getenv (codes "ZBPLAN_ANTHROPIC_API_KEY") in
      if beq api_key []
      then err (codes "ZBPLAN_ANTHROPIC_API_KEY is not set")
      else new_claude_model (record {
        api_key = api_key;
        model = env.getenv (codes "ZBPLAN_ANTHROPIC_MODEL");
        base_url = env.getenv (codes "ZBPLAN_ANTHROPIC_BASE_URL");
        max_tokens = pos 0;
        disable_thinking = false;
      })

  unfoldable pub new_openai_model_from_env : Result Bytes M
  new_openai_model_from_env =
      let api_key = env.getenv (codes "ZBPLAN_OPENAI_API_KEY") in
      if beq api_key []
      then err (codes "ZBPLAN_OPENAI_API_KEY is not set")
      else new_openai_model (record {
        api_key = api_key;
        model = env.getenv (codes "ZBPLAN_OPENAI_MODEL");
        base_url = env.getenv (codes "ZBPLAN_OPENAI_BASE_URL");
      })

  unfoldable pub new_model_from_env : Result Bytes M
  new_model_from_env =
      let model_type = env.to_lower (env.getenv (codes "ZBPLAN_MODEL")) in
      if beq model_type []
      then new_claude_model_from_env
      else if beq model_type (codes "claude")
      then new_claude_model_from_env
      else if beq model_type (codes "openai")
      then new_openai_model_from_env
      else err (
          codes "invalid ZBPLAN_MODEL "
          ++ (env.quote model_type ++ codes " (expected: claude|openai)"))

-- ===== src/Models/Chosen.antt =====
-- Which provider the environment chooses.
use zbplan.Models.{
  ClaudeClient, OpenaiClient, ModelEnv, or_default, claude_client, openai_client, new_claude_model,
  new_openai_model, new_claude_model_from_env, new_openai_model_from_env, new_model_from_env,
}
use zbplan.Prelude.{
  [], ◌++◌, Bytes, codes, beq, beq_iff, Bool-cases, ◌≡◌, ◌≢◌, refl, ◌⊎◌, inl, inr, Result, err, pos,
}

module _ {M : Type 0} (env : ModelEnv M) where
  abbrev pub chosen_type : Bytes
  chosen_type = env.to_lower (env.getenv (codes "ZBPLAN_MODEL"))

  -- A request for a Claude model: its key is set, and its model is named.
  pub record IsClaude (client : ClaudeClient) : Type 0 where
    pub chosen : (chosen_type ≡ []) ⊎ (chosen_type ≡ codes "claude")
    pub key : client.api_key ≡ env.getenv (codes "ZBPLAN_ANTHROPIC_API_KEY")
    pub key_set : client.api_key ≢ []
    pub named : client.model ≢ []
    pub tokens : client.max_tokens ≡ pos 16000

  pub record IsOpenai (client : OpenaiClient) : Type 0 where
    pub chosen : chosen_type ≡ codes "openai"
    pub key : client.api_key ≡ env.getenv (codes "ZBPLAN_OPENAI_API_KEY")
    pub key_set : client.api_key ≢ []
    pub named : client.model ≢ []
    pub address : client.base_url ≢ []

  -- The result comes from one request to one provider, or is an error of the configuration.
  pub data Choice (r : Result Bytes M) : Type 0 where
    asks_claude : (client : ClaudeClient) → IsClaude client → r ≡ env.new_claude client → Choice r
    asks_openai : (client : OpenaiClient) → IsOpenai client → r ≡ env.new_openai client → Choice r
    key_missing :
        (name : Bytes)
        → (name ≡ codes "ZBPLAN_ANTHROPIC_API_KEY") ⊎ (name ≡ codes "ZBPLAN_OPENAI_API_KEY")
        → env.getenv name ≡ []
        → r ≡ err (name ++ codes " is not set")
        → Choice r
    unknown :
        chosen_type ≢ []
        → chosen_type ≢ codes "claude"
        → chosen_type ≢ codes "openai"
        → r
          ≡ err (
              codes "invalid ZBPLAN_MODEL "
              ++ (env.quote chosen_type ++ codes " (expected: claude|openai)"))
        → Choice r

  or_default-set : (default value : Bytes) → default ≢ [] → or_default default value ≢ []
  or_default-set default value h = elim (Bool-cases (beq value [])) [
    | inl blank ↦ rw blank h
    | inr given ↦ rw given (λ e. cc ((beq_iff value []).1 e, given))
  ]

  claude-Choice :
      (chosen_type ≡ []) ⊎ (chosen_type ≡ codes "claude") → Choice (new_claude_model_from_env env)
  unfolding new_claude_model_from_env new_claude_model claude_client
  claude-Choice h = elim (Bool-cases (beq (env.getenv (codes "ZBPLAN_ANTHROPIC_API_KEY")) [])) [
    | inl blank ↦
        rw (blank, new_claude_model_from_env)
          (key_missing (codes "ZBPLAN_ANTHROPIC_API_KEY") (inl refl)
            ((beq_iff (env.getenv (codes "ZBPLAN_ANTHROPIC_API_KEY")) []).0 blank) refl)
    | inr given ↦
        rw (given, new_claude_model_from_env)
          (asks_claude _
            (record {
              chosen = h;
              key = refl;
              key_set =
                  λ e. cc ((beq_iff (env.getenv (codes "ZBPLAN_ANTHROPIC_API_KEY")) []).1 e, given);
              named =
                  or_default-set (codes "claude-sonnet-5-5")
                    (env.getenv (codes "ZBPLAN_ANTHROPIC_MODEL")) (λ e. cc);
              tokens = refl;
            })
            refl)
  ]

  openai-Choice : chosen_type ≡ codes "openai" → Choice (new_openai_model_from_env env)
  unfolding new_openai_model_from_env new_openai_model openai_client
  openai-Choice h = elim (Bool-cases (beq (env.getenv (codes "ZBPLAN_OPENAI_API_KEY")) [])) [
    | inl blank ↦
        rw (blank, new_openai_model_from_env)
          (key_missing (codes "ZBPLAN_OPENAI_API_KEY") (inr refl)
            ((beq_iff (env.getenv (codes "ZBPLAN_OPENAI_API_KEY")) []).0 blank) refl)
    | inr given ↦
        rw (given, new_openai_model_from_env)
          (asks_openai _
            (record {
              chosen = h;
              key = refl;
              key_set =
                  λ e. cc ((beq_iff (env.getenv (codes "ZBPLAN_OPENAI_API_KEY")) []).1 e, given);
              named =
                  or_default-set (codes "gpt-5.6-terra") (env.getenv (codes "ZBPLAN_OPENAI_MODEL"))
                    (λ e. cc);
              address =
                  or_default-set (codes "https://api.openai.com/v1")
                    (env.getenv (codes "ZBPLAN_OPENAI_BASE_URL")) (λ e. cc);
            })
            refl)
  ]

  -- The environment's model is asked of one provider with its own key, which is set, and a model that is
  -- named; or the result says that the key is not set, or that the provider is not known.
  pub new_model_from_env-Choice : Choice (new_model_from_env env)
  unfolding new_model_from_env
  new_model_from_env-Choice = elim (Bool-cases (beq chosen_type [])) [
    | inl blank ↦
        rw (blank, new_model_from_env) (claude-Choice (inl ((beq_iff chosen_type []).0 blank)))
    | inr given ↦ elim (Bool-cases (beq chosen_type (codes "claude"))) [
      | inl claude ↦
          rw (given, claude, new_model_from_env)
            (claude-Choice (inr ((beq_iff chosen_type (codes "claude")).0 claude)))
      | inr other ↦ elim (Bool-cases (beq chosen_type (codes "openai"))) [
        | inl openai ↦
            rw (given, other, openai, new_model_from_env)
              (openai-Choice ((beq_iff chosen_type (codes "openai")).0 openai))
        | inr neither ↦
            rw (given, other, neither, new_model_from_env)
              (unknown (λ e. cc ((beq_iff chosen_type []).1 e, given))
                (λ e. cc ((beq_iff chosen_type (codes "claude")).1 e, other))
                (λ e. cc ((beq_iff chosen_type (codes "openai")).1 e, neither)) refl)
      ]
    ]
  ]

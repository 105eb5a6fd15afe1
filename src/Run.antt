-- ===== src/Run.antt =====
-- pkg/zbplan/zbplan.go: `Run`, the loop that asks the agent for a Dockerfile and builds it. What runs
-- outside (BuildKit, the agent with its tools, the output) is an environment over states of its own.
-- Logging and the deadline of the context are not modelled.
pub mod Attempts
pub mod Counted
pub mod Bounded
use zbplan.Prelude.{
  ℕ, zero, suc, ◌+◌, ◌*◌, Bool, true, false, not, ◌&&◌, ◌||◌, Option, none, some, List, [], ◌∷◌,
  ◌++◌, Bytes, codes, beq, ◌==◌, if◌then◌else◌, Result, ok, err, ℤ, pos, negsuc,
}
use zbplan.Extract.{extract_dockerfile}
use zbplan.LogBuffer.{new_log_buffer, write, to_string}
use zbplan.LogBuffer.Refine.{write_all}
use zbplan.Preview.{build_retry_prompt, em_dash}
use zbplan.Registry.{
  RegistryOps, AllowlistError, normalize_allowed_registries, searchable_registries,
}
use zbplan.Store.{ToolOutputStore, catalog}
use zbplan.Strings.{contains_text}
use zbplan.Strings.Join.{join_with}

-- The fields of `Config` that `Run` decides by. `model` and `oci_output` say whether these are set.
pub record Config : Type 0 where
  pub model : Bool
  pub context_dir : Bytes
  pub allowed_registries : List Bytes
  pub user_dockerfile : Bytes
  pub oci_output : Bool
  pub system_prompt : Bytes
  pub max_build_attempts : ℤ
  pub max_agent_steps : ℤ
  pub run_timeout : ℤ
  pub build_timeout : ℤ

-- `Result`
pub record Planned : Type 0 where
  pub dockerfile : Bytes
  pub attempts : ℕ
  pub from_user : Bool

pub data RunError : Type 0 where
  model_required context_dir_required : RunError
  invalid_allowed_registries : AllowlistError → RunError
  create_builder_client create_agent generate_dockerfile : Bytes → RunError
  write_oci_output close_oci_output : Bytes → RunError
  failed_to_build : ℕ → Bytes → RunError

-- How a build ends: it succeeds, it fails with a log and an error, or `errOCIOutput` is met.
pub data Build : Type 0 where
  built : Build
  failed : Bytes → Bytes → Build
  oci_failure : Bytes → Build

-- `if field <= 0 { field = default }`
unfoldable pub default_to : ℕ → ℤ → ℕ
default_to default (pos zero) = default
default_to default (pos (suc n)) = suc n
default_to default (negsuc n) = default

pub record Limits : Type 0 where
  pub build_attempts : ℕ
  pub agent_steps : ℕ
  pub run_nanoseconds : ℕ
  pub build_nanoseconds : ℕ

abbrev minute : ℕ
minute = 60 * 1_000_000_000

unfoldable pub limits_of : Config → Limits
limits_of cfg = record {
  build_attempts = default_to 3 cfg.max_build_attempts;
  agent_steps = default_to 16 cfg.max_agent_steps;
  run_nanoseconds = default_to (15 * minute) cfg.run_timeout;
  build_nanoseconds = default_to (10 * minute) cfg.build_timeout;
}

pub record Env : Type 1 where
  pub World : Type 0
  -- The store that the tools of the run share.
  pub store : World → ToolOutputStore
  pub new_builder_client : List Bytes → Limits → World → World × Result Bytes (Unit {0})
  pub close_builder_client : World → World
  -- `bld.Build`, or `bld.BuildOCI` to the temporary file: what it logs, and its error
  pub solve : Bytes → Bool → World → World × List Bytes × Option Bytes
  -- The temporary file of `runBuildOnce`, and the copy of it to the output: their errors.
  pub create_temp : World → World × Option Bytes
  pub remove_temp : World → World
  pub open_temp : World → World × Option Bytes
  pub copy_to_output : World → World × Option Bytes
  pub new_agent : List Bytes → Limits → World → World × Result Bytes (Unit {0})
  -- `reactAgent.Generate`, for the system prompt and the prompt: the text of its message
  pub generate : Bytes → Bytes → World → World × Result Bytes Bytes
  -- `cfg.OCIOutput.Close`: its error
  pub close_oci : World → World × Option Bytes
  pub registry_ops : RegistryOps
  pub trim_space : Bytes → Bytes
  pub default_system_prompt : Bytes

pub efficiency_hint_prompt : Bytes
efficiency_hint_prompt =
    codes
      "You used too many tool calls in the previous attempt. This time make at most 5 tool calls total: start with tree (depth=3) or glob ('**/pyproject.toml' etc.) for a quick overview, then output ONLY the raw Dockerfile "
    ++ (em_dash ++ codes " no explanations, no code fences.")

unfoldable pub with_tool_catalog : Bytes → ToolOutputStore → Bytes
with_tool_catalog prompt s =
    let lines = catalog s (4 * 1024) in
    if beq lines []
    then prompt
    else prompt ++ (codes "\n\nPrior tool outputs remain available by reference:\n" ++ lines)

pub first_prompt : Bytes
first_prompt = codes "Generate the Dockerfile for the codebase in the current directory."

pub system_prompt_of : Bytes → Config → List Bytes → Bytes
system_prompt_of default cfg registries =
    if not (beq cfg.system_prompt [])
    then cfg.system_prompt
    else default
      ++ (codes "\n\nAllowed image registries for this run: "
          ++ (join_with (codes ", ") registries
              ++ (codes "." ++ (elim (searchable_registries registries) [
                | [] ↦
                    codes
                      " Image search (list_images) is unavailable for these registries; use list_tags with known image names."
                | _ ∷ _ ↦ []
              ]))))

abbrev pub max_build_log_bytes : ℕ
max_build_log_bytes = 131_072

module _ (env : Env) where
  open env use {World}

  -- `BuilderClient.RunBuild`: the log, and the error.
  unfoldable pub run_build : Bytes → Bool → World → World × Bytes × Option Bytes
  run_build dockerfile to_oci w =
      let (w₁, writes, error) = env.solve dockerfile to_oci w in
      let log = write_all (new_log_buffer max_build_log_bytes) writes in
      elim error [
        | none ↦ (w₁, [], none)
        | some e ↦ (
          w₁,
          to_string (write log (codes "\nbuild error: " ++ (e ++ codes "\n"))).0,
          some (codes "build failed: " ++ e),
        )
      ]

  -- What a build of the Dockerfile means to `Run`.
  unfoldable pub plain_build : Bytes → World → World × Build
  plain_build dockerfile w =
      let (w₁, logs, error) = run_build dockerfile false w in
      (w₁, elim error [ none ↦ built | some e ↦ failed logs e ])

  -- The artifact is built, and copied from the temporary file to the output.
  unfoldable pub oci_build : Bytes → World → World × Build
  oci_build dockerfile w =
      let (w₁, logs, error) = run_build dockerfile true w in
      elim error [
        | some e ↦ (w₁, failed logs e)
        | none ↦
            let (w₂, unopened) = env.open_temp w₁ in
            elim unopened [
              | some e ↦
                  (w₂, oci_failure (codes "OCI output failure: open temporary artifact: " ++ e))
              | none ↦
                  let (w₃, uncopied) = env.copy_to_output w₂ in
                  (
                    w₃,
                    elim uncopied [
                      | some e ↦ oci_failure (codes "OCI output failure: copy artifact: " ++ e)
                      | none ↦ built
                    ],
                  )
            ]
      ]

  -- `runBuildOnce`; the temporary file is removed on every path once it is there.
  unfoldable pub run_build_once : Bool → Bytes → World → World × Build
  run_build_once to_oci dockerfile w =
      if not to_oci
      then plain_build dockerfile w
      else (let (w₁, uncreated) = env.create_temp w in
          elim uncreated [
            | some e ↦
                (w₁, oci_failure (codes "OCI output failure: create temporary artifact: " ++ e))
            | none ↦ let (w₂, result) = oci_build dockerfile w₁ in (env.remove_temp w₂, result)
          ])

  -- The outcome of `Run` or of a part of it, in the state that it leaves.
  abbrev pub Outcome : Type 0
  Outcome = World × Result RunError Planned

  -- How a round of the loop ends: the run returns, or goes on with a prompt and a last Dockerfile.
  pub data Round : Type 0 where
    stop : World → Result RunError Planned → Round
    again : Bytes → Bytes → World → Round

  -- The part of a round behind the agent's reply.
  unfoldable pub try_reply : (to_oci : Bool) (attempt : ℕ) → Bytes → World → Round
  try_reply to_oci attempt content w =
      let dockerfile = extract_dockerfile env.trim_space content in
      let (w₁, result) = run_build_once to_oci dockerfile w in
      elim result [
        | built ↦
            stop w₁ (ok (record { dockerfile = dockerfile; attempts = attempt; from_user = false }))
        | oci_failure e ↦ stop w₁ (err (write_oci_output e))
        | failed logs e ↦
            again (with_tool_catalog (build_retry_prompt dockerfile logs) (env.store w₁)) dockerfile
              w₁
      ]

  -- The body of the loop.
  unfoldable pub attempt_round :
      (to_oci : Bool) (system : Bytes) (attempt : ℕ) (prompt last : Bytes) → World → Round
  attempt_round to_oci system attempt prompt last w =
      let (w₁, reply) = env.generate system prompt w in
      elim reply [
        | err e ↦
            if contains_text e (codes "exceeds max steps")
            then again (with_tool_catalog efficiency_hint_prompt (env.store w₁)) last w₁
            else stop w₁ (err (generate_dockerfile e))
        | ok content ↦ try_reply to_oci attempt content w₁
      ]

  -- The loop over the attempts, with `remaining` of the `total` rounds left.
  unfoldable pub attempt_loop :
      (to_oci : Bool) (total : ℕ) (system : Bytes) (remaining attempt : ℕ) (prompt last : Bytes)
      → World
      → Outcome
  attempt_loop to_oci total system zero attempt prompt last w =
      (w, err (failed_to_build total last))
  attempt_loop to_oci total system (suc remaining) attempt prompt last w =
      elim (attempt_round to_oci system attempt prompt last w) [
        | stop w₁ result ↦ (w₁, result)
        | again prompt' last' w₁ ↦
            attempt_loop to_oci total system remaining (attempt + 1) prompt' last' w₁
      ]

  -- The tools are made, then the agent, and the loop begins at attempt 1.
  unfoldable pub run_agent : Bool → Limits → Bytes → List Bytes → Bytes → World → Outcome
  run_agent to_oci limits system registries prompt w =
      let (w₁, created) = env.new_agent registries limits w in
      elim created [
        | err e ↦ (w₁, err (create_agent e))
        | ok _ ↦
            attempt_loop to_oci limits.build_attempts system limits.build_attempts 1 prompt [] w₁
      ]

  -- The user's Dockerfile is tried first.
  unfoldable pub run_user : Config → Limits → Bytes → List Bytes → World → Outcome
  run_user cfg limits system registries w =
      if beq cfg.user_dockerfile []
      then run_agent cfg.oci_output limits system registries first_prompt w
      else (let (w₁, result) = run_build_once cfg.oci_output cfg.user_dockerfile w in
          elim result [
            | built ↦ (
              w₁,
              ok (record { dockerfile = cfg.user_dockerfile; attempts = 0; from_user = true }),
            )
            | oci_failure e ↦ (w₁, err (write_oci_output e))
            | failed logs e ↦
                run_agent cfg.oci_output limits system registries
                  (build_retry_prompt cfg.user_dockerfile logs) w₁
          ])

  -- Between the dial and the deferred close of the builder's connection.
  unfoldable pub run_connected : Config → Limits → List Bytes → World → Outcome
  run_connected cfg limits registries w =
      let system = system_prompt_of env.default_system_prompt cfg registries in
      let (w₁, dialed) = env.new_builder_client registries limits w in
      elim dialed [
        | err e ↦ (w₁, err (create_builder_client e))
        | ok _ ↦
            let (w₂, result) = run_user cfg limits system registries w₁ in
            (env.close_builder_client w₂, result)
      ]

  unfoldable pub run_checked : Config → World → Outcome
  run_checked cfg w =
      if not cfg.model
      then (w, err model_required)
      else if beq cfg.context_dir []
      then (w, err context_dir_required)
      else elim (normalize_allowed_registries env.registry_ops cfg.allowed_registries) [
        | err e ↦ (w, err (invalid_allowed_registries e))
        | ok registries ↦ run_connected cfg (limits_of cfg) registries w
      ]

  -- The deferred close of the output: its error counts where there is no other.
  pub close_output : Outcome → Outcome
  close_output (w, result) =
      let (w₁, closed) = env.close_oci w in
      (
        w₁,
        elim result [
          | err e ↦ err e
          | ok planned ↦ elim closed [ none ↦ ok planned | some e ↦ err (close_oci_output e) ]
        ],
      )

  unfoldable pub run : Config → World → Outcome
  run cfg w = if cfg.oci_output then close_output (run_checked cfg w) else run_checked cfg w

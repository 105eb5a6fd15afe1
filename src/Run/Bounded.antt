-- ===== src/Run/Bounded.antt =====
-- How often a run asks the agent, and what it releases.
use zbplan.Extract.{extract_dockerfile}
use zbplan.Prelude.{
  ℕ, zero, suc, ◌+◌, ◌≤◌, ◌≡◌, refl, ap, ◌∙◌, Bool, true, false, List, [], Bytes, codes, beq, arith,
  if◌then◌else◌, Result, ok, err, Bool-cases, inl, inr,
}
use zbplan.Registry.{AllowlistError, normalize_allowed_registries}
use zbplan.Run.{
  Config, Limits, Planned, RunError, Build, built, failed, oci_failure, limits_of, Env, run_build,
  plain_build, oci_build, run_build_once, Round, stop, again, try_reply, attempt_round,
  attempt_loop, run_agent, run_user, run_connected, run_checked, close_output, run,
}
use zbplan.Strings.{contains_text}
use zbplan.Run.Counted.{
  Tally, IsTally, IsWithin, nothing, IsWithin-trans, at_most, run_build_once-IsWithin,
}

module _ (env : Env) (tally : env.World → Tally) where
  module _ (laws : IsTally env tally) where
    -- The state behind a round.
    abbrev state_of : Round env → env.World
    state_of (stop w r) = w
    state_of (again p l w) = w

    try_reply-IsWithin :
        (to_oci : Bool) (attempt : ℕ) (content : Bytes) (w : env.World)
        → IsWithin env tally 0 w (state_of (try_reply env to_oci attempt content w))
    unfolding try_reply
    try_reply-IsWithin to_oci attempt content w = go (run_build_once env to_oci dockerfile w).1 refl
      where
        dockerfile : Bytes
        dockerfile = extract_dockerfile env.trim_space content

        once : IsWithin env tally 0 w (run_build_once env to_oci dockerfile w).0
        once = run_build_once-IsWithin env tally laws to_oci dockerfile w

        go :
            (b : Build)
            → (run_build_once env to_oci dockerfile w).1 ≡ b
            → IsWithin env tally 0 w (state_of (try_reply env to_oci attempt content w))
        go built e = rw (e, try_reply) once
        go (failed l x) e = rw (e, try_reply) once
        go (oci_failure x) e = rw (e, try_reply) once

    attempt_round-IsWithin :
        (to_oci : Bool) (system : Bytes) (attempt : ℕ) (prompt last : Bytes) (w : env.World)
        → IsWithin env tally 1 w (state_of (attempt_round env to_oci system attempt prompt last w))
    unfolding attempt_round
    attempt_round-IsWithin to_oci system attempt prompt last w =
        go (env.generate system prompt w).1 refl
      where
        w₁ : env.World
        w₁ = (env.generate system prompt w).0

        one : IsWithin env tally 1 w w₁
        one =
            let k = laws.asks system prompt w in
            record {
              asked = let a = ap (λ t. t.asked) k in omega (arith, a);
              temps = ap (λ t. t.temps) k;
              connections = ap (λ t. t.connections) k;
              closes = ap (λ t. t.closes) k;
            }

        go :
            (r : Result Bytes Bytes)
            → (env.generate system prompt w).1 ≡ r
            → IsWithin env tally 1 w
                (state_of (attempt_round env to_oci system attempt prompt last w))
        go (err x) e = elim (Bool-cases (contains_text x (codes "exceeds max steps"))) [
          | inl steps ↦ rw (e, steps, attempt_round) one
          | inr other ↦ rw (e, other, attempt_round) one
        ]
        go (ok content) e =
            rw (e, attempt_round)
              (at_most env tally (1 + 0) 1 w _ (omega arith) (
                IsWithin-trans env tally 1 0 w w₁ _ one
                  (try_reply-IsWithin to_oci attempt content w₁)))

    attempt_loop-IsWithin :
        (to_oci : Bool) (total : ℕ) (system : Bytes) (remaining attempt : ℕ) (prompt last : Bytes)
        (w : env.World)
        → IsWithin env tally remaining w
            (attempt_loop env to_oci total system remaining attempt prompt last w).0
    unfolding attempt_loop
    attempt_loop-IsWithin to_oci total system zero attempt prompt last w =
        nothing env tally w w refl
    attempt_loop-IsWithin to_oci total system (suc remaining) attempt prompt last w =
        go (attempt_loop-IsWithin to_oci total system remaining (attempt + 1))
          (attempt_round env to_oci system attempt prompt last w) refl
          (attempt_round-IsWithin to_oci system attempt prompt last w)
      where
        go :
            ((p l : Bytes) (v : env.World)
              → IsWithin env tally remaining v
                  (attempt_loop env to_oci total system remaining (attempt + 1) p l v).0)
            → (r : Round env) → attempt_round env to_oci system attempt prompt last w ≡ r
            → IsWithin env tally 1 w
                (state_of (attempt_round env to_oci system attempt prompt last w))
            → IsWithin env tally
                (suc remaining)
                w
                (attempt_loop env to_oci total system (suc remaining) attempt prompt last w).0
        go ih (stop v r) e one =
            rw (e, attempt_loop)
              (at_most env tally 1 (suc remaining) w v (omega arith) (rw e at one))
        go ih (again p l v) e one =
            rw (e, attempt_loop)
              (at_most env tally (1 + remaining) (suc remaining) w _ (omega arith)
                (IsWithin-trans env tally 1 remaining w v _ (rw e at one) (ih p l v)))

    run_agent-IsWithin :
        (to_oci : Bool) (limits : Limits) (system : Bytes) (rs : List Bytes) (prompt : Bytes)
        (w : env.World)
        → IsWithin env tally limits.build_attempts w
            (run_agent env to_oci limits system rs prompt w).0
    unfolding run_agent
    run_agent-IsWithin to_oci limits system rs prompt w = go (env.new_agent rs limits w).1 refl
      where
        w₁ : env.World
        w₁ = (env.new_agent rs limits w).0

        made : IsWithin env tally 0 w w₁
        made = nothing env tally w w₁ (laws.makes_agent rs limits w)

        go :
            (r : Result Bytes (Unit {0}))
            → (env.new_agent rs limits w).1 ≡ r
            → IsWithin env tally limits.build_attempts w
                (run_agent env to_oci limits system rs prompt w).0
        go (err x) e =
            rw (e, run_agent) (at_most env tally 0 limits.build_attempts w w₁ (omega arith) made)
        go (ok u) e =
            rw (e, run_agent)
              (at_most env tally (0 + limits.build_attempts) limits.build_attempts w _ (omega arith)
                (IsWithin-trans env tally 0 limits.build_attempts w w₁ _ made (
                  attempt_loop-IsWithin to_oci limits.build_attempts system limits.build_attempts 1
                    prompt [] w₁)))

    run_user-IsWithin :
        (cfg : Config) (limits : Limits) (system : Bytes) (rs : List Bytes) (w : env.World)
        → IsWithin env tally limits.build_attempts w (run_user env cfg limits system rs w).0
    unfolding run_user
    run_user-IsWithin cfg limits system rs w = elim (Bool-cases (beq cfg.user_dockerfile [])) [
      | inl unset ↦ rw (unset, run_user) (run_agent-IsWithin cfg.oci_output limits system rs _ w)
      | inr given ↦ go given (run_build_once env cfg.oci_output cfg.user_dockerfile w).1 refl
    ]
      where
        w₁ : env.World
        w₁ = (run_build_once env cfg.oci_output cfg.user_dockerfile w).0

        tried : IsWithin env tally 0 w w₁
        tried = run_build_once-IsWithin env tally laws cfg.oci_output cfg.user_dockerfile w

        go :
            beq cfg.user_dockerfile [] ≡ false
            → (b : Build) → (run_build_once env cfg.oci_output cfg.user_dockerfile w).1 ≡ b
            → IsWithin env tally limits.build_attempts w (run_user env cfg limits system rs w).0
        go given built e =
            rw (given, e, run_user)
              (at_most env tally 0 limits.build_attempts w w₁ (omega arith) tried)
        go given (oci_failure x) e =
            rw (given, e, run_user)
              (at_most env tally 0 limits.build_attempts w w₁ (omega arith) tried)
        go given (failed l x) e =
            rw (given, e, run_user)
              (at_most env tally (0 + limits.build_attempts) limits.build_attempts w _ (omega arith)
                (IsWithin-trans env tally 0 limits.build_attempts w w₁ _ tried
                  (run_agent-IsWithin cfg.oci_output limits system rs _ w₁)))

    run_connected-IsWithin :
        (cfg : Config) (limits : Limits) (rs : List Bytes) (w : env.World)
        → IsWithin env tally limits.build_attempts w (run_connected env cfg limits rs w).0
    unfolding run_connected
    run_connected-IsWithin cfg limits rs w = go (env.new_builder_client rs limits w).1 refl
      where
        w₁ : env.World
        w₁ = (env.new_builder_client rs limits w).0

        go :
            (r : Result Bytes (Unit {0}))
            → (env.new_builder_client rs limits w).1 ≡ r
            → IsWithin env tally limits.build_attempts w (run_connected env cfg limits rs w).0
        go (err x) e =
            rw (e, run_connected)
              (at_most env tally 0 limits.build_attempts w w₁ (omega arith)
                (nothing env tally w w₁ (laws.unconnected rs limits w x e)))
        go (ok u) e =
            let dialed = laws.connects rs limits w e in
            let system = zbplan.Run.system_prompt_of env.default_system_prompt cfg rs in
            let used = run_user-IsWithin cfg limits system rs w₁ in
            let hung = laws.disconnects (run_user env cfg limits system rs w₁).0 in
            rw (e, run_connected)
              (record {
                asked =
                    let a = ap (λ t. t.asked) hung in
                    let c = ap (λ t. t.asked) dialed in omega (arith, a, used.asked, c);
                temps = ap (λ t. t.temps) hung ∙ used.temps ∙ ap (λ t. t.temps) dialed;
                connections =
                    let a = ap (λ t. t.connections) hung in
                    let c = ap (λ t. t.connections) dialed in omega (arith, a, used.connections, c);
                closes = ap (λ t. t.closes) hung ∙ used.closes ∙ ap (λ t. t.closes) dialed;
              })

    run_checked-IsWithin :
        (cfg : Config) (w : env.World)
        → IsWithin env tally (limits_of cfg).build_attempts w (run_checked env cfg w).0
    unfolding run_checked limits_of
    run_checked-IsWithin cfg w = elim (Bool-cases (cfg.model)) [
      | inr no_model ↦ rw (no_model, run_checked) (still cfg w)
      | inl model ↦ elim (Bool-cases (beq cfg.context_dir [])) [
        | inl no_dir ↦ rw (model, no_dir, run_checked) (still cfg w)
        | inr dir ↦
            go model dir (normalize_allowed_registries env.registry_ops cfg.allowed_registries) refl
      ]
    ]
      where
        still :
            (cfg : Config) (w : env.World) → IsWithin env tally (limits_of cfg).build_attempts w w
        still cfg w =
            at_most env tally 0 (limits_of cfg).build_attempts w w (omega arith)
              (nothing env tally w w refl)

        go :
            cfg.model ≡ true
            → beq cfg.context_dir [] ≡ false
            → (r : Result AllowlistError (List Bytes))
            → normalize_allowed_registries env.registry_ops cfg.allowed_registries ≡ r
            → IsWithin env tally (limits_of cfg).build_attempts w (run_checked env cfg w).0
        go model dir (err x) e = rw (model, dir, e, run_checked) (still cfg w)
        go model dir (ok rs) e =
            rw (model, dir, e, run_checked) (run_connected-IsWithin cfg (limits_of cfg) rs w)

    -- Where the calls outside are counted: a run asks the agent at most as often as attempts are configured,
    -- it leaves no temporary file and no connection behind, and it closes the output exactly once where
    -- there is one.
    pub run-bound :
        (cfg : Config) (w : env.World)
        → let t = tally w in
          let t' = tally (run env cfg w).0 in
          (t'.asked ≤ t.asked + (limits_of cfg).build_attempts)
          × (t'.temps ≡ t.temps)
          × (t'.connections ≡ t.connections)
          × (t'.closes ≡ t.closes + (if cfg.oci_output then 1 else 0))
    unfolding run close_output run_checked limits_of
    run-bound cfg w =
        let within = run_checked-IsWithin cfg w in
        elim (Bool-cases (cfg.oci_output)) [
          | inr no_output ↦
              rw (no_output, run)
                (
                  within.asked,
                  within.temps,
                  within.connections,
                  (let c = within.closes in omega (arith, c)),
                )
          | inl output ↦
              let closed = laws.closes_output (run_checked env cfg w).0 in
              rw (output, run)
                (
                  (let a = ap (λ t. t.asked) closed in omega (arith, a, within.asked)),
                  ap (λ t. t.temps) closed ∙ within.temps,
                  ap (λ t. t.connections) closed ∙ within.connections,
                  (let c = ap (λ t. t.closes) closed in omega (arith, c, within.closes)),
                )
        ]

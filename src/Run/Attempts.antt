-- ===== src/Run/Attempts.antt =====
-- What a successful run returns.
use zbplan.Prelude.{
  ℕ, zero, suc, ◌+◌, ◌≤◌, ◌<◌, ◌≡◌, ◌⊎◌, ◌≢◌, refl, sym, ap, ◌∙◌, Bool, true, false, List, [],
  Bytes, codes, beq, beq_iff, arith, if◌then◌else◌, Result, ok, err, Bool-cases, inl, inr,
  Option-cases,
}
use mathlib.Core.Path.{subst}
use zbplan.Extract.{extract_dockerfile}
use zbplan.Strings.{contains_text}
use zbplan.Registry.{AllowlistError, normalize_allowed_registries}
use zbplan.Run.{
  Config, Planned, RunError, Build, built, failed, oci_failure, limits_of, Env, run_build_once,
  Round, stop, again, try_reply, attempt_round, attempt_loop, run_agent, run_user, run_connected,
  run_checked, close_output, run,
}

module _ (env : Env) (to_oci : Bool) where
  -- The Dockerfile was built: in some state its build succeeded.
  abbrev pub WasBuilt : Bytes → Type 0
  WasBuilt dockerfile = (w : env.World) × ((run_build_once env to_oci dockerfile w).1 ≡ built)

  -- What the loop returns where it begins at `attempt` with `remaining` rounds left.
  record IsAttempt (attempt remaining : ℕ) (planned : Planned) : Type 0 where
    from_agent : planned.from_user ≡ false
    first : attempt ≤ planned.attempts
    last : planned.attempts < attempt + remaining
    was_built : WasBuilt planned.dockerfile

  try_reply-IsAttempt :
      (attempt remaining : ℕ) (content : Bytes) (w w' : env.World) (planned : Planned)
      → try_reply env to_oci attempt content w ≡ stop w' (ok planned)
      → IsAttempt attempt (suc remaining) planned
  unfolding try_reply
  try_reply-IsAttempt attempt remaining content w w' planned h =
      let dockerfile = extract_dockerfile env.trim_space content in
      go (run_build_once env to_oci dockerfile w).1 refl
    where
      go :
          (b : Build)
          → (run_build_once env to_oci (extract_dockerfile env.trim_space content) w).1 ≡ b
          → IsAttempt attempt (suc remaining) planned
      go built e =
          let same : record {
            dockerfile = extract_dockerfile env.trim_space content;
            attempts = attempt;
            from_user = false;
          }
              ≡ planned =
            cc (rw (e, try_reply) at h) in
          subst (IsAttempt attempt (suc remaining)) same (record {
            from_agent = refl;
            first = omega arith;
            last = omega arith;
            was_built = (w, e);
          })
      go (oci_failure w) e = absurd (cc (rw (e, try_reply) at h))
      go (failed l w) e = absurd (cc (rw (e, try_reply) at h))

  attempt_round-IsAttempt :
      (system : Bytes) (attempt remaining : ℕ) (prompt last : Bytes) (w w' : env.World)
      (planned : Planned)
      → attempt_round env to_oci system attempt prompt last w ≡ stop w' (ok planned)
      → IsAttempt attempt (suc remaining) planned
  unfolding attempt_round
  attempt_round-IsAttempt system attempt remaining prompt last w w' planned h =
      go (env.generate system prompt w).1 refl
    where
      go :
          (reply : Result Bytes Bytes)
          → (env.generate system prompt w).1 ≡ reply
          → IsAttempt attempt (suc remaining) planned
      go (ok content) e =
          try_reply-IsAttempt attempt remaining content (env.generate system prompt w).0 w' planned
            (rw (e, attempt_round) at h)
      go (err x) e = elim (Bool-cases (contains_text x (codes "exceeds max steps"))) [
        | inl long ↦ absurd (cc (rw (e, long, attempt_round) at h))
        | inr other ↦ absurd (cc (rw (e, other, attempt_round) at h))
      ]

  later :
      (attempt remaining : ℕ) (planned : Planned)
      → IsAttempt (attempt + 1) remaining planned
      → IsAttempt attempt (suc remaining) planned
  later attempt remaining planned i = record {
    from_agent = i.from_agent;
    first = omega (arith, i.first);
    last = omega (arith, i.last);
    was_built = i.was_built;
  }

  attempt_loop-IsAttempt :
      (total : ℕ) (system : Bytes) (remaining attempt : ℕ) (prompt last : Bytes) (w : env.World)
      (planned : Planned)
      → (attempt_loop env to_oci total system remaining attempt prompt last w).1 ≡ ok planned
      → IsAttempt attempt remaining planned
  unfolding attempt_loop
  attempt_loop-IsAttempt total system zero attempt prompt last w planned h = absurd (cc)
  attempt_loop-IsAttempt total system (suc remaining) attempt prompt last w planned h =
      go (attempt_loop-IsAttempt total system remaining (attempt + 1))
        (attempt_round env to_oci system attempt prompt last w) refl
    where
      go :
          ((prompt' last' : Bytes) (w' : env.World) (p : Planned)
            → (attempt_loop env to_oci total system remaining (attempt + 1) prompt' last' w').1
              ≡ ok p
            → IsAttempt (attempt + 1) remaining p)
          → (r : Round env) → attempt_round env to_oci system attempt prompt last w ≡ r
          → IsAttempt attempt (suc remaining) planned
      go ih (stop w' result) e =
          attempt_round-IsAttempt system attempt remaining prompt last w w' planned
            (e ∙ ap (stop w') (rw (e, attempt_loop) at h))
      go ih (again prompt' last' w') e =
          later attempt remaining planned (ih prompt' last' w' planned (rw (e, attempt_loop) at h))

module _ (env : Env) (cfg : Config) where
  -- A plan that a run may return.
  pub record IsPlan (planned : Planned) : Type 0 where
    pub was_built : WasBuilt env cfg.oci_output planned.dockerfile
    pub origin :
        ((planned.from_user ≡ true)
          × (planned.attempts ≡ 0)
          × (planned.dockerfile ≡ cfg.user_dockerfile))
        ⊎ ((planned.from_user ≡ false)
            × (1 ≤ planned.attempts)
            × (planned.attempts ≤ (limits_of cfg).build_attempts))

  run_agent-IsPlan :
      (system : Bytes) (registries : List Bytes) (prompt : Bytes) (w : env.World)
      (planned : Planned)
      → (run_agent env cfg.oci_output (limits_of cfg) system registries prompt w).1 ≡ ok planned
      → IsPlan planned
  unfolding run_agent
  run_agent-IsPlan system registries prompt w planned h =
      go (env.new_agent registries (limits_of cfg) w).1 refl
    where
      go :
          (created : Result Bytes (Unit {0}))
          → (env.new_agent registries (limits_of cfg) w).1 ≡ created
          → IsPlan planned
      go (err x) e = absurd (cc (rw (e, run_agent) at h))
      go (ok _) e =
          let i =
            attempt_loop-IsAttempt env cfg.oci_output (limits_of cfg).build_attempts system
              (limits_of cfg).build_attempts 1 prompt []
              (env.new_agent registries (limits_of cfg) w).0 planned (rw (e, run_agent) at h) in
          record {
            was_built = i.was_built;
            origin = inr (i.from_agent, i.first, omega (arith, i.last));
          }

  run_user-IsPlan :
      (system : Bytes) (registries : List Bytes) (w : env.World) (planned : Planned)
      → (run_user env cfg (limits_of cfg) system registries w).1 ≡ ok planned
      → IsPlan planned
  unfolding run_user
  run_user-IsPlan system registries w planned h = elim (Bool-cases (beq cfg.user_dockerfile [])) [
    | inl unset ↦ run_agent-IsPlan system registries _ w planned (rw (unset, run_user) at h)
    | inr set ↦ go set (run_build_once env cfg.oci_output cfg.user_dockerfile w).1 refl
  ]
    where
      go :
          beq cfg.user_dockerfile [] ≡ false
          → (b : Build) → (run_build_once env cfg.oci_output cfg.user_dockerfile w).1 ≡ b
          → IsPlan planned
      go set built e =
          let same : record { dockerfile = cfg.user_dockerfile; attempts = 0; from_user = true }
              ≡ planned =
            cc (rw (set, e, run_user) at h) in
          subst IsPlan same (record { was_built = (w, e); origin = inl (refl, refl, refl) })
      go set (oci_failure x) e = absurd (cc (rw (set, e, run_user) at h))
      go set (failed l x) e =
          run_agent-IsPlan system registries _ _ planned (rw (set, e, run_user) at h)

  run_connected-IsPlan :
      (registries : List Bytes) (w : env.World) (planned : Planned)
      → (run_connected env cfg (limits_of cfg) registries w).1 ≡ ok planned
      → IsPlan planned
  unfolding run_connected
  run_connected-IsPlan registries w planned h =
      go (env.new_builder_client registries (limits_of cfg) w).1 refl
    where
      go :
          (dialed : Result Bytes (Unit {0}))
          → (env.new_builder_client registries (limits_of cfg) w).1 ≡ dialed
          → IsPlan planned
      go (err x) e = absurd (cc (rw (e, run_connected) at h))
      go (ok _) e = run_user-IsPlan _ registries _ planned (rw (e, run_connected) at h)

  run_checked-IsPlan :
      (w : env.World) (planned : Planned)
      → (run_checked env cfg w).1 ≡ ok planned
      → (cfg.model ≡ true) × (cfg.context_dir ≢ []) × IsPlan planned
  unfolding run_checked
  run_checked-IsPlan w planned h = elim (Bool-cases cfg.model) [
    | inr unset ↦ absurd (cc (rw (unset, run_checked) at h))
    | inl set ↦ elim (Bool-cases (beq cfg.context_dir [])) [
      | inl unset ↦ absurd (cc (rw (set, unset, run_checked) at h))
      | inr given ↦ (
        set,
        λ e. cc (given, (beq_iff cfg.context_dir []).1 e),
        go set given (normalize_allowed_registries env.registry_ops cfg.allowed_registries) refl,
      )
    ]
  ]
    where
      go :
          cfg.model ≡ true
          → beq cfg.context_dir [] ≡ false
          → (r : Result AllowlistError (List Bytes))
          → normalize_allowed_registries env.registry_ops cfg.allowed_registries ≡ r
          → IsPlan planned
      go set given (err x) e = absurd (cc (rw (set, given, e, run_checked) at h))
      go set given (ok registries) e =
          run_connected-IsPlan registries w planned (rw (set, given, e, run_checked) at h)

  close_output-ok :
      (o : env.World × Result RunError Planned) (planned : Planned)
      → (close_output env o).1 ≡ ok planned
      → o.1 ≡ ok planned
  unfolding close_output
  close_output-ok (w, ok p) planned h = elim (Option-cases (env.close_oci w).1) [
    | inl closed ↦ rw closed at h
    | inr (x, e) ↦ absurd (cc (rw e at h))
  ]
  close_output-ok (w, err x) planned h = absurd (cc)

  -- A plan that a run returns was built: the build of its Dockerfile succeeded in some state. It is
  -- the user's Dockerfile, with no attempt counted, or comes from the agent after at least one attempt
  -- and at most as many as are configured. A model and a context directory were given.
  pub run-IsPlan :
      (w : env.World) (planned : Planned)
      → (run env cfg w).1 ≡ ok planned
      → (cfg.model ≡ true) × (cfg.context_dir ≢ []) × IsPlan planned
  unfolding run
  run-IsPlan w planned h =
      let outcome = λ (b : Bool).
        (if b then close_output env (run_checked env cfg w) else run_checked env cfg w).1 in
      elim (Bool-cases cfg.oci_output) [
        | inl out ↦
            run_checked-IsPlan w planned
              (close_output-ok (run_checked env cfg w) planned (sym (ap outcome out) ∙ h))
        | inr none_given ↦ run_checked-IsPlan w planned (sym (ap outcome none_given) ∙ h)
      ]

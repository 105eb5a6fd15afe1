-- ===== src/Solve/Released.antt =====
-- What a build asks of BuildKit, and that it leaves nothing behind.
use zbplan.Policy.{DockerfileError, validate_dockerfile, Rule, source_policy}
use zbplan.Prelude.{
  ℕ, zero, suc, Bool, true, false, Option, none, some, List, [], ◌∷◌, ◌++◌, Bytes, codes, beq,
  if◌then◌else◌, Bool-cases, ◌≡◌, ◌≢◌, refl, sym, ap, ◌∙◌, ◌⊎◌, inl, inr, Result, ok, err, arith,
}
use zbplan.Registry.{AllowlistError}
use zbplan.Solve.{
  BuildImageOptions, PreparedBuild, SolveOpt, Outside, World, first_of, fails, close_once,
  close_times, with_attr, frontend_attrs, bundled_dockerfile_frontend, solve_opt, run_solve,
  solve_in_temp, remove_temp, solve_prepared, solve, build_oci,
}

module _ (out : Outside) where
  -- From one state to another the output was not closed, or was closed for the first time.
  abbrev Closing : World → World → Type 0
  Closing w w' =
      ((w'.once ≡ w.once) × (w'.closes ≡ w.closes))
      ⊎ ((w.once ≡ false) × ((w'.once ≡ true) × (w'.closes ≡ suc w.closes)))

  both_closings : (u v w : World) → Closing u v → Closing v w → Closing u w
  both_closings u v w (inl (a, b)) (inl (c, d)) = inl (c ∙ a, d ∙ b)
  both_closings u v w (inl (a, b)) (inr (c, (d, e))) = inr (sym a ∙ c, (d, e ∙ ap suc b))
  both_closings u v w (inr (a, (b, c))) (inl (d, e)) = inr (a, (d ∙ b, e ∙ c))
  both_closings u v w (inr (a, (b, c))) (inr (d, e)) = absurd (cc (b, d))

  -- Nothing but the output changed.
  record IsCloseStep (w w' : World) : Type 0 where
    temps : w'.temps ≡ w.temps
    solves : w'.solves ≡ w.solves
    closing : Closing w w'

  no_step : (w : World) → IsCloseStep w w
  no_step w = record { temps = refl; solves = refl; closing = inl (refl, refl) }

  both_steps : (u v w : World) → IsCloseStep u v → IsCloseStep v w → IsCloseStep u w
  both_steps u v w p q = record {
    temps = q.temps ∙ p.temps;
    solves = q.solves ∙ p.solves;
    closing = both_closings u v w p.closing q.closing;
  }

  close_once-IsCloseStep : (w : World) → IsCloseStep w (close_once out w).1
  unfolding close_once
  close_once-IsCloseStep w = elim (Bool-cases (w.once)) [
    | inl done ↦ rw done (record { temps = refl; solves = refl; closing = inl (refl, refl) })
    | inr open' ↦
        rw open' (record { temps = refl; solves = refl; closing = inr (refl, (refl, refl)) })
  ]

  close_times-IsCloseStep : (n : ℕ) (w : World) → IsCloseStep w (close_times out n w)
  unfolding close_times
  close_times-IsCloseStep zero w = no_step w
  close_times-IsCloseStep (suc n) w =
      both_steps w _ _ (close_once-IsCloseStep w) (close_times-IsCloseStep n (close_once out w).1)

  -- The request that a build may make: the Dockerfile is valid and was prepared, and what BuildKit is
  -- asked for is the prepared Dockerfile, under the policy of the allowlist, with the bundled frontend.
  pub record IsRequest (options : BuildImageOptions) (oci : Bool) (opt : SolveOpt) : Type 0 where
    pub valid : validate_dockerfile out.parse options.dockerfile ≡ ok tt
    pub policy : List Rule
    pub restricted : source_policy out.registry_ops options.allowed_registries ≡ ok policy
    pub prepared : PreparedBuild
    pub prepares : out.prepare options.dockerfile options.variables ≡ ok prepared
    pub policed : opt.source_policy ≡ policy
    pub dockerfile : opt.dockerfile ≡ prepared.dockerfile
    pub frontend : opt.frontend ≡ codes "dockerfile.v0"
    pub pinned : opt.frontend_attrs (codes "cmdline") ≡ some bundled_dockerfile_frontend
    pub others :
        (key : Bytes)
        → beq key (codes "cmdline") ≡ false
        → opt.frontend_attrs key ≡ frontend_attrs prepared.prepared key
    pub context : opt.context ≡ options.context
    pub exclude : opt.exclude ≡ options.exclude_context_path
    pub output : opt.oci ≡ oci

  -- A build fails without a request, or makes one; it fails if BuildKit does.
  pub data Requests (options : BuildImageOptions) (oci : Bool) (e : Option Bytes)
      (before after : List SolveOpt) : Type 0 where
    none_made : e ≢ none → after ≡ before → Requests options oci e before after
    one_made :
        (opt : SolveOpt)
        → IsRequest options oci opt
        → after ≡ before ++ opt ∷ []
        → (e ≡ none → (out.buildkit opt).0 ≡ none)
        → Requests options oci e before after

  -- What holds behind `solve`.
  record IsSolved (options : BuildImageOptions) (oci : Bool) (w : World) (r : Option Bytes × World)
      : Type 0 where
    temps : r.1.temps ≡ w.temps
    requests : Requests options oci r.0 w.solves r.1.solves
    closing : Closing w r.1

  refused :
      (options : BuildImageOptions) (oci : Bool) (w : World) (e : Bytes)
      → IsSolved options oci w (some e, w)
  refused options oci w e = record {
    temps = refl;
    requests = none_made (λ h. cc) refl;
    closing = inl (refl, refl);
  }

  no_error :
      (display_first : Bool) (text : Bytes) (d e : Option Bytes)
      → fails text (if display_first then first_of d e else first_of e d) ≡ none
      → e ≡ none
  no_error true text none none h = refl
  no_error true text none (some x) h = absurd (cc)
  no_error true text (some y) e h = absurd (cc)
  no_error false text d none h = refl
  no_error false text d (some x) h = absurd (cc)

  run_solve-IsSolved :
      (options : BuildImageOptions) (oci : Bool) (opt : SolveOpt) (w : World)
      → IsRequest options oci opt
      → IsSolved options oci w (run_solve out opt w)
  unfolding run_solve
  run_solve-IsSolved options oci opt w request = go opt.oci
    where
      asked : World
      asked = record w { solves = w.solves ++ opt ∷ [] }

      closed : IsCloseStep asked (close_times out (out.buildkit opt).1 asked)
      closed = close_times-IsCloseStep (out.buildkit opt).1 asked

      error : Option Bytes
      error = fails (codes "build failed") (
          if out.display_first
          then first_of out.display (out.buildkit opt).0
          else first_of (out.buildkit opt).0 out.display)

      go :
          (b : Bool)
          → IsSolved options oci w
              (error, if b then close_times out (out.buildkit opt).1 asked else asked)
      go true = record {
        temps = closed.temps;
        requests =
            one_made opt request closed.solves
              (no_error out.display_first (codes "build failed") out.display (out.buildkit opt).0);
        closing = closed.closing;
      }
      go false = record {
        temps = refl;
        requests =
            one_made opt request refl
              (no_error out.display_first (codes "build failed") out.display (out.buildkit opt).0);
        closing = inl (refl, refl);
      }

  solve_opt-IsRequest :
      (options : BuildImageOptions) (oci : Bool) (policy : List Rule) (p : PreparedBuild)
      → validate_dockerfile out.parse options.dockerfile ≡ ok tt
      → source_policy out.registry_ops options.allowed_registries ≡ ok policy
      → out.prepare options.dockerfile options.variables ≡ ok p
      → IsRequest options oci (solve_opt out options p policy oci)
  unfolding solve_opt with_attr beq
  solve_opt-IsRequest options oci policy p valid restricted prepares = record {
    valid = valid;
    policy = policy;
    restricted = restricted;
    prepared = p;
    prepares = prepares;
    policed = refl;
    dockerfile = refl;
    frontend = refl;
    pinned = refl;
    others = λ key other. rw other refl;
    context = refl;
    exclude = refl;
    output = refl;
  }

  -- The steps that may fail before the request.
  solve_in_temp-IsSolved :
      (options : BuildImageOptions) (p : PreparedBuild) (policy : List Rule) (oci : Bool)
      (w : World)
      → IsRequest options oci (solve_opt out options p policy oci)
      → IsSolved options oci w (solve_in_temp out options p policy oci w)
  unfolding solve_in_temp
  solve_in_temp-IsSolved options p policy oci w request =
      go (fails (codes "create context filesystem") (out.new_context_fs options.context))
        (fails (codes "write dockerfile") (out.write_dockerfile p.dockerfile))
        (fails (codes "create dockerfile filesystem") out.new_dockerfile_fs)
    where
      asked : Option Bytes × World
      asked = run_solve out (solve_opt out options p policy oci) w

      go :
          (a b c : Option Bytes)
          → IsSolved options oci w (elim a [
            | some e ↦ (some e, w)
            | none ↦ elim b [
              | some e ↦ (some e, w)
              | none ↦ elim c [ some e ↦ (some e, w) | none ↦ asked ]
            ]
          ])
      go (some e) b c = refused options oci w e
      go none (some e) c = refused options oci w e
      go none none (some e) = refused options oci w e
      go none none none =
          run_solve-IsSolved options oci (solve_opt out options p policy oci) w request

  solve_prepared-IsSolved :
      (options : BuildImageOptions) (p : PreparedBuild) (policy : List Rule) (oci : Bool)
      (w : World)
      → IsRequest options oci (solve_opt out options p policy oci)
      → IsSolved options oci w (solve_prepared out options p policy oci w)
  unfolding solve_prepared remove_temp
  solve_prepared-IsSolved options p policy oci w request =
      go out.context_error (fails (codes "create temp dir") out.mkdir_temp)
    where
      made : Option Bytes × World
      made = solve_in_temp out options p policy oci (record w { temps = suc w.temps })

      solved : IsSolved options oci (record w { temps = suc w.temps }) made
      solved =
          solve_in_temp-IsSolved options p policy oci (record w { temps = suc w.temps }) request

      go :
          (a b : Option Bytes)
          → IsSolved options oci w (elim a [
            | some e ↦ (some e, w)
            | none ↦ elim b [ some e ↦ (some e, w) | none ↦ remove_temp out made ]
          ])
      go (some e) b = refused options oci w e
      go none (some e) = refused options oci w e
      go none none = record {
        temps = omega (arith, solved.temps);
        requests = solved.requests;
        closing = solved.closing;
      }

  solve-IsSolved :
      (options : BuildImageOptions) (oci : Bool) (w : World)
      → IsSolved options oci w (solve out options oci w)
  unfolding solve
  solve-IsSolved options oci w =
      go (validate_dockerfile out.parse options.dockerfile)
        (source_policy out.registry_ops options.allowed_registries)
        (out.prepare options.dockerfile options.variables) refl refl refl
    where
      go :
          (v : Result DockerfileError (Unit {0})) (s : Result AllowlistError (List Rule))
          (p : Result Bytes PreparedBuild)
          → validate_dockerfile out.parse options.dockerfile ≡ v
          → source_policy out.registry_ops options.allowed_registries ≡ s
          → out.prepare options.dockerfile options.variables ≡ p
          → IsSolved options oci w (solve out options oci w)
      go (err e) s p a b c = rw (a, solve) (refused options oci w _)
      go (ok u) (err e) p a b c = rw (a, b, solve) (refused options oci w _)
      go (ok u) (ok policy) (err e) a b c = rw (a, b, c, solve) (refused options oci w _)
      go (ok u) (ok policy) (ok p) a b c =
          rw (a, b, c, solve)
            (solve_prepared-IsSolved options p policy oci w
              (solve_opt-IsRequest options oci policy p a b c))

  close_once-closed : (w : World) → (close_once out w).1.once ≡ true
  unfolding close_once
  close_once-closed w = elim (Bool-cases (w.once)) [
    | inl done ↦ rw done refl
    | inr open' ↦ rw open' refl
  ]

  closed_once :
      (u v : World) → u.once ≡ false → v.once ≡ true → Closing u v → v.closes ≡ suc u.closes
  closed_once u v a b (inl (e, k)) = absurd (cc (a, b, e))
  closed_once u v a b (inr (e, (f, k))) = k

  -- A build to an output leaves no temporary directory behind and closes the output exactly once, however
  -- it ends. It makes at most one request: for a valid Dockerfile as it was prepared, with the policy that
  -- follows from its allowlist, the frontend `dockerfile.v0` and the bundled frontend as its `cmdline`, and
  -- otherwise the attributes and the context of the build. It succeeds only if it made one and BuildKit succeeded.
  pub build_oci-releases :
      (options : BuildImageOptions) (w : World)
      → let r = build_oci out options true w in
        (r.1.temps ≡ w.temps)
        × (r.1.closes ≡ suc w.closes)
        × Requests options true r.0 w.solves r.1.solves
  unfolding build_oci
  build_oci-releases options w =
      let start : World = record w { once = false; close_error = none } in
      let s = solve-IsSolved options true start in
      let end = (solve out options true start).1 in
      let c = close_once-IsCloseStep end in
      (
        c.temps ∙ s.temps,
        closed_once start (close_once out end).1 refl (close_once-closed end)
            (both_closings start end (close_once out end).1 s.closing c.closing),
        mathlib.Core.Path.subst (Requests options true (solve out options true start).0 w.solves)
            (sym c.solves) s.requests,
      )

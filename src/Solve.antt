-- ===== src/Solve.antt =====
-- pkg/builder/builder.go: a build, from its options to the request to BuildKit, with the temporary
-- directory and the output that it closes. BuildKit, the display of its progress, the file system and
-- `buildenv.Prepare` are parameters; logging is not modelled.
pub mod Released
use zbplan.BuildEnv.Frontend.{Prepared, frontend_attrs}
use zbplan.Context.{Exclude}
use zbplan.Policy.{Nodes, DockerfileError, validate_dockerfile, Rule, source_policy}
use zbplan.Prelude.{
  ℕ, zero, suc, ◌-◌, Bool, true, false, Option, none, some, List, [], ◌∷◌, ◌++◌, Bytes, codes, beq,
  if◌then◌else◌, Result, ok, err,
}
use zbplan.Registry.{RegistryOps, AllowlistError}

-- `bundledDockerfileFrontend`
abbrev pub bundled_dockerfile_frontend : Bytes
bundled_dockerfile_frontend = codes "dockerfile.v0"

-- `ExcludeContextPath` is absent where nothing is excluded.
pub record BuildImageOptions : Type 0 where
  pub dockerfile : Bytes
  pub context : Bytes
  pub allowed_registries : List Bytes
  pub exclude_context_path : Option Exclude
  pub variables : List (Bytes × Bytes)

-- `buildenv.Prepared`, with its Dockerfile.
pub record PreparedBuild : Type 0 where
  pub dockerfile : Bytes
  pub prepared : Prepared

-- `client.SolveOpt`, less its session: the context with what it leaves out, the Dockerfile of the other mount, the frontend
-- with its attributes, the policy, and whether there is an exporter to the output.
pub record SolveOpt : Type 0 where
  pub context : Bytes
  pub exclude : Option Exclude
  pub dockerfile : Bytes
  pub frontend : Bytes
  pub frontend_attrs : Bytes → Option Bytes
  pub source_policy : List Rule
  pub oci : Bool

-- What runs outside; an absent error is success.
pub record Outside : Type 0 where
  pub parse : Bytes → Result Bytes Nodes
  pub registry_ops : RegistryOps
  pub dockerfile_error : DockerfileError → Bytes
  pub allowlist_error : AllowlistError → Bytes
  pub prepare : Bytes → List (Bytes × Bytes) → Result Bytes PreparedBuild
  pub context_error : Option Bytes
  pub mkdir_temp : Option Bytes
  pub new_context_fs : Bytes → Option Bytes
  pub write_dockerfile : Bytes → Option Bytes
  pub new_dockerfile_fs : Option Bytes
  -- BuildKit's error, and how often it closes the output
  pub buildkit : SolveOpt → Option Bytes × ℕ
  pub display : Option Bytes
  -- whether the display's error comes first
  pub display_first : Bool
  -- the error of closing the output itself
  pub close_output : Option Bytes

-- The directories that are there, the requests to BuildKit, and `closeOnce`: whether it was closed, its
-- error, and how often the output itself was.
pub record World : Type 0 where
  pub temps : ℕ
  pub solves : List SolveOpt
  pub once : Bool
  pub close_error : Option Bytes
  pub closes : ℕ

-- `frontendAttrs[key] = value`
unfoldable pub with_attr : Bytes → Bytes → (Bytes → Option Bytes) → Bytes → Option Bytes
with_attr key value attrs k = if beq k key then some value else attrs k

abbrev pub first_of : Option Bytes → Option Bytes → Option Bytes
first_of (some e) other = some e
first_of none other = other

-- `if err != nil { return fmt.Errorf("text: %w", err) }`
abbrev pub fails : Bytes → Option Bytes → Option Bytes
fails text none = none
fails text (some e) = some (text ++ (codes ": " ++ e))

module _ (out : Outside) where
  -- `closeOnce.Close`
  unfoldable pub close_once : World → Option Bytes × World
  close_once w = if w.once then (w.close_error, w) else (
    out.close_output,
    record w { once = true; close_error = out.close_output; closes = suc w.closes },
  )

  -- What BuildKit closes.
  unfoldable pub close_times : ℕ → World → World
  close_times zero w = w
  close_times (suc n) w = close_times n (close_once w).1

  unfoldable pub solve_opt : BuildImageOptions → PreparedBuild → List Rule → (oci : Bool) → SolveOpt
  solve_opt options p policy oci = record {
    context = options.context;
    exclude = options.exclude_context_path;
    dockerfile = p.dockerfile;
    frontend = codes "dockerfile.v0";
    frontend_attrs =
        with_attr (codes "cmdline") bundled_dockerfile_frontend (frontend_attrs p.prepared);
    source_policy = policy;
    oci = oci;
  }

  -- The two goroutines: the request, and the display that drains its channel.
  unfoldable pub run_solve : SolveOpt → World → Option Bytes × World
  run_solve opt w =
      let (e, closes) = out.buildkit opt in
      let asked = record w { solves = w.solves ++ opt ∷ [] } in
      (
        fails (codes "build failed")
            (if out.display_first then first_of out.display e else first_of e out.display),
        if opt.oci then close_times closes asked else asked,
      )

  -- What is done with the temporary directory; it is removed behind it.
  unfoldable pub solve_in_temp :
      BuildImageOptions → PreparedBuild → List Rule → (oci : Bool) → World → Option Bytes × World
  solve_in_temp options p policy oci w =
      let asked = run_solve (solve_opt options p policy oci) w in
      elim (fails (codes "create context filesystem") (out.new_context_fs options.context)) [
        | some e ↦ (some e, w)
        | none ↦ elim (fails (codes "write dockerfile") (out.write_dockerfile p.dockerfile)) [
          | some e ↦ (some e, w)
          | none ↦ elim (fails (codes "create dockerfile filesystem") out.new_dockerfile_fs) [
            | some e ↦ (some e, w)
            | none ↦ asked
          ]
        ]
      ]

  -- `defer os.RemoveAll(tempDir)`
  unfoldable pub remove_temp : Option Bytes × World → Option Bytes × World
  remove_temp (e, w) = (e, record w { temps = w.temps - 1 })

  unfoldable pub solve_prepared :
      BuildImageOptions → PreparedBuild → List Rule → (oci : Bool) → World → Option Bytes × World
  solve_prepared options p policy oci w =
      let made =
        remove_temp (solve_in_temp options p policy oci (record w { temps = suc w.temps })) in
      elim (out.context_error) [
        | some e ↦ (some e, w)
        | none ↦ elim (fails (codes "create temp dir") out.mkdir_temp) [
          | some e ↦ (some e, w)
          | none ↦ made
        ]
      ]

  unfoldable pub solve : BuildImageOptions → (oci : Bool) → World → Option Bytes × World
  solve options oci w = elim (validate_dockerfile out.parse options.dockerfile) [
    | err e ↦ (some (codes "validate dockerfile: " ++ out.dockerfile_error e), w)
    | ok _ ↦ elim (source_policy out.registry_ops options.allowed_registries) [
      | err e ↦ (some (codes "build source policy: " ++ out.allowlist_error e), w)
      | ok policy ↦ elim (out.prepare options.dockerfile options.variables) [
        | err e ↦ (some (codes "prepare build environment: " ++ e), w)
        | ok p ↦ solve_prepared options p policy oci w
      ]
    ]
  ]

  -- `Build`
  unfoldable pub build : BuildImageOptions → World → Option Bytes × World
  build options w = solve options false w

  -- `BuildOCI`; the writer is wrapped anew, and closed at the end. There may be no writer.
  unfoldable pub build_oci : BuildImageOptions → (has_writer : Bool) → World → Option Bytes × World
  build_oci options false w = (some (codes "nil output writer"), w)
  build_oci options true w =
      let (e, w') = solve options true (record w { once = false; close_error = none }) in
      (e, (close_once w').1)

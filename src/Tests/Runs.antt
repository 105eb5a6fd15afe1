-- ===== src/Tests/Runs.antt =====
-- pkg/zbplan/zbplan.go: a run in an environment where the first build fails, and the second one does not.
use zbplan.Prelude.{
  ℕ, zero, suc, true, false, [], ◌∷◌, none, some, codes, ◌≡◌, refl, ◌≢◌, ok, pos, beq, ◌+◌, ◌-◌,
  ◌≤◌, if◌then◌else◌,
}
use zbplan.Run.{
  Config, Planned, Env, run, run_checked, run_connected, run_user, run_agent, attempt_loop,
  attempt_round, try_reply, plain_build, limits_of, default_to, run_build_once, run_build,
}
use zbplan.Registry.{normalize_allowed_registries}
use zbplan.Extract.{extract_dockerfile}
use zbplan.Run.Attempts.{IsPlan, run-IsPlan}
use zbplan.Run.Bounded.{run-bound}
use zbplan.Run.Counted.{Tally, IsTally}
use zbplan.Store.{new_tool_output_store}

-- The state counts the builds.
abbrev second_time : Env
second_time = record {
  World = ℕ;
  store = λ w. new_tool_output_store 100;
  new_builder_client = λ registries limits w. (w, ok tt);
  close_builder_client = λ w. w;
  solve = λ dockerfile to_oci w.
      (suc w, codes "step\n" ∷ [], elim w [ zero ↦ some (codes "exit code 1") | suc _ ↦ none ]);
  create_temp = λ w. (w, none);
  remove_temp = λ w. w;
  open_temp = λ w. (w, none);
  copy_to_output = λ w. (w, none);
  new_agent = λ registries limits w. (w, ok tt);
  generate = λ system prompt w. (w, ok (codes "FROM scratch"));
  close_oci = λ w. (w, none);
  registry_ops = record { to_lower = λ s. s; trim_space = λ s. s; registry_name = λ s. some s };
  trim_space = λ s. s;
  default_system_prompt = codes "Write a Dockerfile.";
}

abbrev two_attempts : Config
two_attempts = record {
  model = true;
  context_dir = codes "/project";
  allowed_registries = [];
  user_dockerfile = [];
  oci_output = false;
  system_prompt = [];
  max_build_attempts = pos 2;
  max_agent_steps = pos 0;
  run_timeout = pos 0;
  build_timeout = pos 0;
}

abbrev plan : Planned
plan = record {
  dockerfile = extract_dockerfile (λ s. s) (codes "FROM scratch");
  attempts = 2;
  from_user = false;
}

run-second_time : (run second_time two_attempts 0).1 ≡ ok plan
unfolding run run_checked run_connected run_user run_agent attempt_loop attempt_round try_reply
    plain_build limits_of default_to run_build_once run_build normalize_allowed_registries beq
run-second_time = refl

run-IsPlan_example :
    (two_attempts.model ≡ true)
    × (two_attempts.context_dir ≢ [])
    × IsPlan second_time two_attempts plan
run-IsPlan_example = run-IsPlan second_time two_attempts 0 plan run-second_time

-- The state is what is counted; each build fails.
abbrev counting : Env
counting = record {
  World = Tally;
  store = λ w. new_tool_output_store 100;
  new_builder_client = λ registries limits w. (record w { connections = suc w.connections }, ok tt);
  close_builder_client = λ w. record w { connections = w.connections - 1 };
  solve = λ dockerfile to_oci w. (w, [], some (codes "exit code 1"));
  create_temp = λ w. (record w { temps = suc w.temps }, none);
  remove_temp = λ w. record w { temps = w.temps - 1 };
  open_temp = λ w. (w, none);
  copy_to_output = λ w. (w, none);
  new_agent = λ registries limits w. (w, ok tt);
  generate = λ system prompt w. (record w { asked = suc w.asked }, ok (codes "FROM scratch"));
  close_oci = λ w. (record w { closes = suc w.closes }, none);
  registry_ops = record { to_lower = λ s. s; trim_space = λ s. s; registry_name = λ s. some s };
  trim_space = λ s. s;
  default_system_prompt = codes "Write a Dockerfile.";
}

counting-IsTally : IsTally counting (λ w. w)
counting-IsTally = record {
  connects = λ rs l w h. refl;
  unconnected = λ rs l w e h. absurd (cc);
  disconnects = λ w. refl;
  solves = λ d b w. refl;
  creates = λ w h. refl;
  uncreated = λ w e h. absurd (cc);
  removes = λ w. refl;
  opens = λ w. refl;
  copies = λ w. refl;
  makes_agent = λ rs l w. refl;
  asks = λ s p w. refl;
  closes_output = λ w. refl;
}

abbrev to_output : Config
to_output = record two_attempts { oci_output = true }

abbrev unused : Tally
unused = record { asked = 0; temps = 0; connections = 0; closes = 0 }

run-bound_example :
    ((run counting to_output unused).0.asked ≤ 0 + (limits_of to_output).build_attempts)
    × ((run counting to_output unused).0.temps ≡ 0)
    × ((run counting to_output unused).0.connections ≡ 0)
    × ((run counting to_output unused).0.closes ≡ 0 + (if to_output.oci_output then 1 else 0))
run-bound_example = run-bound counting (λ w. w) counting-IsTally to_output unused

-- ===== src/Run/Counted.antt =====
-- The calls of a run that are counted, and what one build counts for.
use zbplan.Prelude.{
  ℕ, suc, ◌+◌, ◌-◌, ◌≤◌, ◌≡◌, refl, ap, ◌∙◌, Bool, true, false, Option, none, some, List, Bytes,
  arith, ok, err,
}
use zbplan.Run.{Limits, Env, run_build, plain_build, oci_build, run_build_once}

-- What is counted: the questions to the agent, the temporary files and the connections that are there, and
-- how often the output was closed.
pub record Tally : Type 0 where
  pub asked : ℕ
  pub temps : ℕ
  pub connections : ℕ
  pub closes : ℕ

module _ (env : Env) (tally : env.World → Tally) where
  -- What each call outside counts for.
  pub record IsTally : Type 0 where
    pub connects :
        (rs : List Bytes) (l : Limits) (w : env.World)
        → ((env.new_builder_client rs l w).1 ≡ ok tt)
        → tally (env.new_builder_client rs l w).0
          ≡ record (tally w) { connections = suc (tally w).connections }
    pub unconnected :
        (rs : List Bytes) (l : Limits) (w : env.World) (e : Bytes)
        → ((env.new_builder_client rs l w).1 ≡ err e)
        → tally (env.new_builder_client rs l w).0 ≡ tally w
    pub disconnects :
        (w : env.World)
        → tally (env.close_builder_client w)
          ≡ record (tally w) { connections = (tally w).connections - 1 }
    pub solves : (d : Bytes) (b : Bool) (w : env.World) → tally (env.solve d b w).0 ≡ tally w
    pub creates :
        (w : env.World)
        → (env.create_temp w).1 ≡ none
        → tally (env.create_temp w).0 ≡ record (tally w) { temps = suc (tally w).temps }
    pub uncreated :
        (w : env.World) (e : Bytes)
        → (env.create_temp w).1 ≡ some e
        → tally (env.create_temp w).0 ≡ tally w
    pub removes :
        (w : env.World)
        → tally (env.remove_temp w) ≡ record (tally w) { temps = (tally w).temps - 1 }
    pub opens : (w : env.World) → tally (env.open_temp w).0 ≡ tally w
    pub copies : (w : env.World) → tally (env.copy_to_output w).0 ≡ tally w
    pub makes_agent :
        (rs : List Bytes) (l : Limits) (w : env.World) → tally (env.new_agent rs l w).0 ≡ tally w
    pub asks :
        (s p : Bytes) (w : env.World)
        → tally (env.generate s p w).0 ≡ record (tally w) { asked = suc (tally w).asked }
    pub closes_output :
        (w : env.World)
        → tally (env.close_oci w).0 ≡ record (tally w) { closes = suc (tally w).closes }

  -- From one state to another at most `n` questions were asked, and nothing is left.
  pub record IsWithin (n : ℕ) (u v : env.World) : Type 0 where
    pub asked : (tally v).asked ≤ (tally u).asked + n
    pub temps : (tally v).temps ≡ (tally u).temps
    pub connections : (tally v).connections ≡ (tally u).connections
    pub closes : (tally v).closes ≡ (tally u).closes

  pub nothing : (u v : env.World) → tally v ≡ tally u → IsWithin 0 u v
  nothing u v e = record {
    asked = let k = ap (λ t. t.asked) e in omega (arith, k);
    temps = ap (λ t. t.temps) e;
    connections = ap (λ t. t.connections) e;
    closes = ap (λ t. t.closes) e;
  }

  pub IsWithin-trans :
      (m n : ℕ) (u v w : env.World) → IsWithin m u v → IsWithin n v w → IsWithin (m + n) u w
  IsWithin-trans m n u v w a b = record {
    asked = omega (arith, a.asked, b.asked);
    temps = b.temps ∙ a.temps;
    connections = b.connections ∙ a.connections;
    closes = b.closes ∙ a.closes;
  }

  pub at_most : (m n : ℕ) (u v : env.World) → m ≤ n → IsWithin m u v → IsWithin n u v
  at_most m n u v le a = record {
    asked = omega (arith, a.asked, le);
    temps = a.temps;
    connections = a.connections;
    closes = a.closes;
  }

  module _ (laws : IsTally) where
    run_build-tally :
        (d : Bytes) (b : Bool) (w : env.World) → tally (run_build env d b w).0 ≡ tally w
    unfolding run_build
    run_build-tally d b w = go (env.solve d b w).2 refl
      where
        go : (m : Option Bytes) → (env.solve d b w).2 ≡ m → tally (run_build env d b w).0 ≡ tally w
        go none e = rw (e, run_build) (laws.solves d b w)
        go (some x) e = rw (e, run_build) (laws.solves d b w)

    oci_build-tally : (d : Bytes) (w : env.World) → tally (oci_build env d w).0 ≡ tally w
    unfolding oci_build
    oci_build-tally d w =
        go (run_build env d true w).2 refl (env.open_temp (run_build env d true w).0).1 refl
      where
        go :
            (m : Option Bytes)
            → (run_build env d true w).2 ≡ m
            → (n : Option Bytes) → (env.open_temp (run_build env d true w).0).1 ≡ n
            → tally (oci_build env d w).0 ≡ tally w
        go (some x) e n k = rw (e, oci_build) (run_build-tally d true w)
        go none e (some x) k = rw (e, k, oci_build) (laws.opens _ ∙ run_build-tally d true w)
        go none e none k =
            rw (e, k, oci_build) (laws.copies _ ∙ laws.opens _ ∙ run_build-tally d true w)

    pub run_build_once-IsWithin :
        (to_oci : Bool) (d : Bytes) (w : env.World) → IsWithin 0 w (run_build_once env to_oci d w).0
    unfolding run_build_once plain_build
    run_build_once-IsWithin false d w = nothing w _ (run_build-tally d false w)
    run_build_once-IsWithin true d w = go (env.create_temp w).1 refl
      where
        go :
            (m : Option Bytes)
            → (env.create_temp w).1 ≡ m
            → IsWithin 0 w (run_build_once env true d w).0
        go (some x) e = rw (e, run_build_once) (nothing w _ (laws.uncreated w x e))
        go none e =
            let made = laws.creates w e in
            let built = oci_build-tally d (env.create_temp w).0 in
            let removed = laws.removes (oci_build env d (env.create_temp w).0).0 in
            rw (e, run_build_once)
              (record {
                asked =
                    let a = ap (λ t. t.asked) (removed) in
                    let b = ap (λ t. t.asked) built in
                    let c = ap (λ t. t.asked) made in omega (arith, a, b, c);
                temps =
                    let a = ap (λ t. t.temps) (removed) in
                    let b = ap (λ t. t.temps) built in
                    let c = ap (λ t. t.temps) made in omega (arith, a, b, c);
                connections =
                    ap (λ t. t.connections) removed
                    ∙ ap (λ t. t.connections) built
                    ∙ ap (λ t. t.connections) made;
                closes =
                    ap (λ t. t.closes) removed ∙ ap (λ t. t.closes) built ∙ ap (λ t. t.closes) made;
              })

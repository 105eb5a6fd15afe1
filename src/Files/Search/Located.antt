-- ===== src/Files/Search/Located.antt =====
-- What the tool `glob` answers as a whole: its arguments are checked, and its text is that of a walk.
use zbplan.Files.{Fs, secure_tool_path}
use zbplan.Files.Directory.{limit_or, out_of_bounds}
use zbplan.Files.Search.{both_bases, max_glob_results}
use zbplan.Files.Search.Answered.{in_bounds}
use zbplan.Files.Search.Find.{
  GlobState, GlobQuery, GlobArgs, glob_walk_root, glob_walk, glob_text, glob_result, glob_tool,
}
use zbplan.Files.Search.Found.{IsEnded, glob_walk-IsEnded}
use zbplan.Files.Walk.{Node, Answer, go_on, skip_dir, skip_all, fail}
use zbplan.Prelude.{
  ◌≤◌, Bool, false, [], Bytes, codes, beq, length, ltb, ◌≡◌, refl, if◌then◌else◌, Bool-cases, inl,
  inr, Result, ok, err, pos_part, arith,
}

glob_result-ok :
    (s : GlobState) (a : Answer) (text : Bytes) → glob_result (s, a) ≡ ok text → text ≡ glob_text s
unfolding glob_result
glob_result-ok s go_on text h = cc
glob_result-ok s skip_dir text h = cc
glob_result-ok s skip_all text h = cc
glob_result-ok s (fail e) text h = absurd (cc)

module _ (unmarshal : Bytes → Result Bytes GlobArgs) (fs : Fs)
    (match_part : Bytes → Bytes → Result Bytes Bool) (tree : Bytes → Node)
    (base_dir args_json : Bytes) where
  -- The answer is the text of a walk with the arguments' pattern, from a root below the base directory.
  pub record IsGlobAnswer (text : Bytes) : Type 0 where
    pub args : GlobArgs
    pub bounded : pos_part (limit_or 100 args.limit) ≤ max_glob_results
    pub short : length args.pattern ≤ 512
    pub place : Bytes × Bytes
    pub secured : secure_tool_path fs base_dir args.pattern ≡ ok place
    pub query : GlobQuery
    pub pattern : query.pattern ≡ args.pattern
    pub bases : both_bases fs base_dir ≡ ok (query.abs_base, query.real_base)
    pub limit : query.limit ≡ pos_part (limit_or 100 args.limit)
    pub ended :
        IsEnded fs match_part query
          (tree (glob_walk_root query.abs_base query.pattern))
          (glob_walk fs match_part query (tree (glob_walk_root query.abs_base query.pattern))).0
    pub shown :
        text
        ≡ glob_text
            (glob_walk fs match_part query (tree (glob_walk_root query.abs_base query.pattern))).0

  json : Bytes
  json = if beq args_json [] then codes "{}" else args_json

  -- The checks of the arguments are passed.
  record IsPassed (args : GlobArgs) : Type 0 where
    decoded : unmarshal json ≡ ok args
    given : beq args.pattern [] ≡ false
    short : ltb 512 (length args.pattern) ≡ false
    within : out_of_bounds max_glob_results (limit_or 100 args.limit) ≡ false

  -- Where the tool `glob` answers, its arguments were within their bounds, the pattern does not leave the
  -- base directory, and the answer is the text of a walk whose lines show entries of the
  -- tree, a directory with a slash behind it, at visible paths that lead below the base directory and
  -- match the pattern, at most as many as the limit, which is at most 200.
  pub glob_tool-IsGlobAnswer :
      (text : Bytes)
      → glob_tool unmarshal fs match_part tree base_dir args_json ≡ ok text
      → IsGlobAnswer text
  unfolding glob_tool json
  glob_tool-IsGlobAnswer text h = with_args (unmarshal json) refl
    where
      with_bases :
          (args : GlobArgs) (place : Bytes × Bytes)
          → IsPassed args
          → secure_tool_path fs base_dir args.pattern ≡ ok place
          → (m : Result Bytes (Bytes × Bytes)) → both_bases fs base_dir ≡ m
          → IsGlobAnswer text
      with_bases args place p s (err x) k =
          absurd (cc (rw (p.decoded, p.given, p.short, p.within, s, k, glob_tool) at h))
      with_bases args place p s (ok bases) k =
          let query : GlobQuery = record {
            abs_base = bases.0;
            real_base = bases.1;
            pattern = args.pattern;
            limit = pos_part (limit_or 100 args.limit);
          } in
          let (positive, bounded) = in_bounds max_glob_results (limit_or 100 args.limit) p.within in
          let r = glob_walk fs match_part query (tree (glob_walk_root bases.0 args.pattern)) in
          let short = p.short in
          record {
            args = args;
            bounded = bounded;
            short = ground arith;
            place = place;
            secured = s;
            query = query;
            pattern = refl;
            bases = k;
            limit = refl;
            ended =
                glob_walk-IsEnded fs match_part query (tree (glob_walk_root bases.0 args.pattern))
                  positive;
            shown =
                glob_result-ok r.0 r.1 text
                  (rw (p.decoded, p.given, p.short, p.within, s, k, glob_tool) at h);
          }

      with_place :
          (args : GlobArgs)
          → IsPassed args
          → (m : Result Bytes (Bytes × Bytes)) → secure_tool_path fs base_dir args.pattern ≡ m
          → IsGlobAnswer text
      with_place args p (err x) s =
          absurd (cc (rw (p.decoded, p.given, p.short, p.within, s, glob_tool) at h))
      with_place args p (ok place) s = with_bases args place p s (both_bases fs base_dir) refl

      with_args : (m : Result Bytes GlobArgs) → unmarshal json ≡ m → IsGlobAnswer text
      with_args (err x) e = absurd (cc (rw (e, glob_tool) at h))
      with_args (ok a) e = elim (Bool-cases (beq a.pattern [])) [
        | inl blank ↦ absurd (cc (rw (e, blank, glob_tool) at h))
        | inr given ↦ elim (Bool-cases (ltb 512 (length a.pattern))) [
          | inl long ↦ absurd (cc (rw (e, given, long, glob_tool) at h))
          | inr short ↦ elim (Bool-cases (out_of_bounds max_glob_results (limit_or 100 a.limit))) [
            | inl out ↦ absurd (cc (rw (e, given, short, out, glob_tool) at h))
            | inr within ↦
                with_place a (record { decoded = e; given = given; short = short; within = within })
                  (secure_tool_path fs base_dir a.pattern) refl
          ]
        ]
      ]

-- ===== src/Files/Search/Answered.antt =====
-- What the tool `grep` answers as a whole: its arguments are checked, and its text is that of a search.
use zbplan.Files.{Fs}
use zbplan.Files.Directory.{limit_or, out_of_bounds}
use zbplan.Files.Search.{both_bases}
use zbplan.Files.Search.Lines.{
  GrepState, GrepQuery, GrepArgs, Scan, max_grep_results, grep_walk, grep_text, grep_result,
  grep_args, grep_tool,
}
use zbplan.Files.Search.Shown.{IsSearched, grep_walk-IsSearched}
use zbplan.Files.Walk.{Node, Answer, go_on, skip_dir, skip_all, fail}
use zbplan.Prelude.{
  ℕ, ◌≤◌, ◌<◌, Bool, false, Option, [], Bytes, codes, beq, length, ltb, ◌≡◌, refl, if◌then◌else◌,
  Bool-cases, inl, inr, Result, ok, err, ℤ, pos, negsuc, pos_part, arith,
}

pub in_bounds :
    (most : ℕ) (l : ℤ) → out_of_bounds most l ≡ false → (0 < pos_part l) × (pos_part l ≤ most)
unfolding out_of_bounds
in_bounds most (pos n) h = (ground arith, ground arith)
in_bounds most (negsuc n) h = absurd (cc)

module _ (unmarshal : Bytes → Result Bytes GrepArgs) (args_json : Bytes) where
  -- The arguments that the tool goes on with.
  pub record IsChecked (args : GrepArgs) : Type 0 where
    pub positive : 0 < pos_part args.limit
    pub bounded : pos_part args.limit ≤ max_grep_results
    pub short : length args.pattern ≤ 512
    pub short_glob : length args.glob ≤ 512

  grep_args-IsChecked : (args : GrepArgs) → grep_args unmarshal args_json ≡ ok args → IsChecked args
  unfolding grep_args
  grep_args-IsChecked args h =
      go (unmarshal (if beq args_json [] then codes "{}" else args_json)) refl
    where
      go :
          (m : Result Bytes GrepArgs)
          → unmarshal (if beq args_json [] then codes "{}" else args_json) ≡ m
          → IsChecked args
      go (err x) e = absurd (cc (rw (e, grep_args) at h))
      go (ok a) e = elim (Bool-cases (beq a.pattern [])) [
        | inl blank ↦ absurd (cc (rw (e, blank, grep_args) at h))
        | inr given ↦ elim (Bool-cases (ltb 512 (length a.pattern))) [
          | inl long ↦ absurd (cc (rw (e, given, long, grep_args) at h))
          | inr short ↦ elim (Bool-cases (out_of_bounds max_grep_results (limit_or 50 a.limit))) [
            | inl out ↦ absurd (cc (rw (e, given, short, out, grep_args) at h))
            | inr within ↦ elim (Bool-cases (ltb 512 (length a.glob))) [
              | inl long ↦ absurd (cc (rw (e, given, short, within, long, grep_args) at h))
              | inr short_glob ↦
                  let z = rw (e, given, short, within, short_glob, grep_args) at h in
                  let same : record a { limit = limit_or 50 a.limit } ≡ args = cc in
                  let (positive, bounded) =
                    in_bounds max_grep_results (limit_or 50 a.limit) within in
                  mathlib.Core.Path.subst IsChecked same (record {
                    positive = positive;
                    bounded = bounded;
                    short = ground arith;
                    short_glob = ground arith;
                  })
            ]
          ]
        ]
      ]

grep_result-ok :
    (s : GrepState) (a : Answer) (text : Bytes) → grep_result (s, a) ≡ ok text → text ≡ grep_text s
unfolding grep_result
grep_result-ok s go_on text h = cc
grep_result-ok s skip_dir text h = cc
grep_result-ok s skip_all text h = cc
grep_result-ok s (fail e) text h = absurd (cc)

module _ (unmarshal : Bytes → Result Bytes GrepArgs) (compile : Bytes → Result Bytes (Bytes → Bool))
    (fs : Fs) (match_part : Bytes → Bytes → Result Bytes Bool) (scan : Bytes → Option Scan)
    (tree : Bytes → Node) (base_dir args_json : Bytes) where
  -- The answer is the text of a search with the arguments' pattern, in the base directory.
  pub record IsGrepAnswer (text : Bytes) : Type 0 where
    pub args : GrepArgs
    pub decoded : grep_args unmarshal args_json ≡ ok args
    pub checked : IsChecked unmarshal args_json args
    pub query : GrepQuery
    pub compiled : compile args.pattern ≡ ok query.is_match
    pub bases : both_bases fs base_dir ≡ ok (query.abs_base, query.real_base)
    pub limit : query.limit ≡ pos_part args.limit
    pub searched :
        IsSearched fs match_part scan query
          (tree query.abs_base)
          (grep_walk fs match_part scan query (tree query.abs_base)).0
    pub shown : text ≡ grep_text (grep_walk fs match_part scan query (tree query.abs_base)).0

  -- Where the tool `grep` answers, its arguments were within their bounds, and the answer is the text of a
  -- search for their pattern in the tree of the base directory. Each of its lines stands, with its number
  -- and a match, in a visible file that the tree holds as a regular one of a bounded size and that leads
  -- below the base directory; there are at most as many lines as the limit, which is at most 100.
  pub grep_tool-IsGrepAnswer :
      (text : Bytes)
      → grep_tool unmarshal compile fs match_part scan tree base_dir args_json ≡ ok text
      → IsGrepAnswer text
  unfolding grep_tool
  grep_tool-IsGrepAnswer text h = with_args (grep_args unmarshal args_json) refl
    where
      with_bases :
          (args : GrepArgs) (is_match : Bytes → Bool)
          → grep_args unmarshal args_json ≡ ok args
          → compile args.pattern ≡ ok is_match
          → (m : Result Bytes (Bytes × Bytes)) → both_bases fs base_dir ≡ m
          → IsGrepAnswer text
      with_bases args is_match e c (err x) k = absurd (cc (rw (e, c, k, grep_tool) at h))
      with_bases args is_match e c (ok bases) k =
          let query : GrepQuery = record {
            abs_base = bases.0;
            real_base = bases.1;
            is_match = is_match;
            glob = args.glob;
            limit = pos_part args.limit;
          } in
          let checked = grep_args-IsChecked unmarshal args_json args e in
          let r = grep_walk fs match_part scan query (tree bases.0) in
          record {
            args = args;
            decoded = e;
            checked = checked;
            query = query;
            compiled = c;
            bases = k;
            limit = refl;
            searched =
                grep_walk-IsSearched fs match_part scan query (tree bases.0) checked.positive;
            shown = grep_result-ok r.0 r.1 text (rw (e, c, k, grep_tool) at h);
          }

      with_match :
          (args : GrepArgs)
          → grep_args unmarshal args_json ≡ ok args
          → (m : Result Bytes (Bytes → Bool)) → compile args.pattern ≡ m
          → IsGrepAnswer text
      with_match args e (err x) c = absurd (cc (rw (e, c, grep_tool) at h))
      with_match args e (ok is_match) c = with_bases args is_match e c (both_bases fs base_dir) refl

      with_args :
          (m : Result Bytes GrepArgs) → grep_args unmarshal args_json ≡ m → IsGrepAnswer text
      with_args (err x) e = absurd (cc (rw (e, grep_tool) at h))
      with_args (ok args) e = with_match args e (compile args.pattern) refl

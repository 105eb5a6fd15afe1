-- ===== src/Files/Search/Found.antt =====
-- What the tool `glob` finds: only visible paths inside the base directory that match, within the bounds.
use zbplan.Files.{Fs, Info, hidden, is_path_in_base}
use zbplan.Files.Confined.{IsBelow, is_path_in_base-IsBelow}
use zbplan.Files.Glob.{match_glob}
use zbplan.Files.Glob.Matched.{Matches}
use zbplan.Files.Glob.Remembered.{match_glob-Matches}
use zbplan.Files.Search.{max_glob_visited, rel_from_base, leave_out, resolved_inside}
use zbplan.Files.Search.Find.{
  GlobState, GlobQuery, glob_walk_root, add_match, glob_entry, glob_visit, glob_walk,
}
use zbplan.Files.Walk.{Node, Answer, go_on, Seen, broken, entry, IsKept, Meets, IsMet, walk-IsKept}
use zbplan.Paths.{slash, base}
use zbplan.Prelude.{
  suc, ◌<◌, ◌≤◌, Bool, true, false, Option, none, some, List, [], ◌∷◌, ◌++◌, Bytes, codes, length,
  ltb, leb, ◌≡◌, refl, sym, ap, ◌∙◌, if◌then◌else◌, Bool-cases, inl, inr, Result, ok, err, All,
  All-snoc, length-append, arith,
}
use zbplan.Strings.Split.{split}

module _ (fs : Fs) (real_base : Bytes) where
  pub resolved_inside-IsBelow :
      (abs_path real : Bytes)
      → resolved_inside fs real_base abs_path ≡ some real
      → (fs.eval_symlinks abs_path ≡ ok real) × IsBelow real_base real
  unfolding resolved_inside
  resolved_inside-IsBelow abs_path real h = look (fs.eval_symlinks abs_path) refl
    where
      look :
          (m : Result Bytes Bytes)
          → fs.eval_symlinks abs_path ≡ m
          → (fs.eval_symlinks abs_path ≡ ok real) × IsBelow real_base real
      look (err x) e = absurd (cc (rw (e, resolved_inside) at h))
      look (ok r) e = elim (Bool-cases (is_path_in_base real_base r)) [
        | inl inside ↦
            let same : r ≡ real = let z = rw (e, inside, resolved_inside) at h in cc in
            (
              e ∙ ap ok same,
              is_path_in_base-IsBelow real_base real
                  (ap (is_path_in_base real_base) (sym same) ∙ inside),
            )
        | inr outside ↦ absurd (cc (rw (e, outside, resolved_inside) at h))
      ]

-- A line of the result: an entry that the walked tree holds, at a path that is not hidden, whose place behind the links is below the base
-- directory and that matches; a directory has a slash at its end.
pub record IsFound (fs : Fs) (match_part : Bytes → Bytes → Result Bytes Bool) (q : GlobQuery)
    (tree : Node) (line : Bytes) : Type 0 where
  pub abs_path : Bytes
  pub name : Bytes
  pub info : Info
  pub met :
      Meets abs_path name info
        (base (glob_walk_root q.abs_base q.pattern))
        (glob_walk_root q.abs_base q.pattern)
        tree
  pub shown : line ≡ (
      if info.is_dir
      then rel_from_base q.abs_base abs_path ++ codes "/"
      else rel_from_base q.abs_base abs_path)
  pub visible : hidden fs q.abs_base (rel_from_base q.abs_base abs_path) ≡ false
  pub real : Bytes
  pub leads_to : fs.eval_symlinks abs_path ≡ ok real
  pub below : IsBelow q.real_base real
  pub matches :
      Matches match_part (split slash q.pattern) (split slash (rel_from_base q.abs_base abs_path))

module _ (fs : Fs) (match_part : Bytes → Bytes → Result Bytes Bool) (q : GlobQuery)
    (tree : Node) where
  -- Where the walk goes on, and where it ends.
  record IsGoing (s : GlobState) : Type 0 where
    each : All (IsFound fs match_part q tree) s.results
    few : length s.results < q.limit
    visits : s.visited ≤ max_glob_visited

  pub record IsEnded (s : GlobState) : Type 0 where
    pub each : All (IsFound fs match_part q tree) s.results
    pub few : length s.results ≤ q.limit
    pub visits : s.visited ≤ suc max_glob_visited

  abbrev Met : Bytes → Bytes → Info → Type 0
  Met p n i =
      Meets p n i (base (glob_walk_root q.abs_base q.pattern)) (glob_walk_root q.abs_base q.pattern)
        tree

  abbrev Kept : GlobState × Answer → Type 0
  Kept r = IsKept IsGoing IsEnded r

  ended : (s : GlobState) → IsGoing s → IsEnded s
  ended s g = record { each = g.each; few = omega arith; visits = omega arith }

  same : (s : GlobState) (a : Answer) → IsGoing s → Kept (s, a)
  same s a g = record { now = ended s g; goes = λ h. g }

  add_match-Kept :
      (path : Bytes) (info : Info) (s : GlobState)
      → IsFound fs match_part q tree (if info.is_dir then path ++ codes "/" else path)
      → IsGoing s
      → Kept (add_match q path info s)
  unfolding add_match
  add_match-Kept path info s f g = elim (Bool-cases (leb q.limit (length longer))) [
    | inl full ↦ rw full (record {
      now = record {
        each = more;
        few = omega (arith, size, g.few);
        visits = omega (arith, g.visits);
      };
      goes = λ h. absurd (cc);
    })
    | inr room ↦
        rw room (same _ go_on (record { each = more; few = ground arith; visits = g.visits }))
  ]
    where
      line : Bytes
      line = if info.is_dir then path ++ codes "/" else path

      longer : List Bytes
      longer = s.results ++ line ∷ []

      size : length longer ≡ suc (length s.results)
      size = omega (arith, length-append s.results (line ∷ []))

      more : All (IsFound fs match_part q tree) longer
      more = All-snoc (IsFound fs match_part q tree) s.results line g.each f

  glob_entry-Kept :
      (abs_path name : Bytes) (info : Info) (s : GlobState)
      → Met abs_path name info
      → IsGoing s
      → Kept (glob_entry fs match_part q abs_path info s)
  unfolding glob_entry
  glob_entry-Kept abs_path name info s met g = elim (Bool-cases (hidden fs q.abs_base path)) [
    | inl gone ↦ rw gone (same s (leave_out info) g)
    | inr visible ↦ follow visible (resolved_inside fs q.real_base abs_path) refl
  ]
    where
      path : Bytes
      path = rel_from_base q.abs_base abs_path

      compare :
          (real : Bytes)
          → hidden fs q.abs_base path ≡ false
          → resolved_inside fs q.real_base abs_path ≡ some real
          → (m : Result Bytes Bool) → match_glob match_part q.pattern path ≡ m
          → Kept (glob_entry fs match_part q abs_path info s)
      compare real visible there (err e) k = rw (visible, there, k) (same s _ g)
      compare real visible there (ok false) k = rw (visible, there, k) (same s _ g)
      compare real visible there (ok true) k =
          let (leads_to, below) = resolved_inside-IsBelow fs q.real_base abs_path real there in
          rw (visible, there, k)
            (add_match-Kept path info s
              (record {
                abs_path = abs_path;
                name = name;
                info = info;
                met = met;
                shown = refl;
                visible = visible;
                real = real;
                leads_to = leads_to;
                below = below;
                matches = match_glob-Matches match_part q.pattern path k;
              })
              g)

      follow :
          hidden fs q.abs_base path ≡ false
          → (m : Option Bytes) → resolved_inside fs q.real_base abs_path ≡ m
          → Kept (glob_entry fs match_part q abs_path info s)
      follow visible none k = rw (visible, k) (same s (leave_out info) g)
      follow visible (some real) k =
          compare real visible k (match_glob match_part q.pattern path) refl

  glob_visit-Kept :
      (abs_path : Bytes) (e : Seen) (s : GlobState)
      → IsMet Met abs_path e
      → IsGoing s
      → Kept (glob_visit fs match_part q abs_path e s)
  unfolding glob_visit
  glob_visit-Kept abs_path broken s met g = same s go_on g
  glob_visit-Kept abs_path (entry name info) s met g =
      elim (Bool-cases (ltb max_glob_visited (suc s.visited))) [
        | inl many ↦ rw many (record {
          now = record {
            each = g.each;
            few = omega (arith, g.few);
            visits = omega (arith, g.visits);
          };
          goes = λ h. absurd (cc);
        })
        | inr few ↦ rw few (
            glob_entry-Kept abs_path name info _ met
              (record { each = g.each; few = g.few; visits = ground arith }))
      ]

  -- Each line that `glob` finds shows an entry that the tree holds, at a path that is not hidden, that leads
  -- to a place below the base directory and that matches the pattern; there are no more of them than the
  -- limit, where that is not zero, and the walk looks at no more than one entry past its bound.
  pub glob_walk-IsEnded : 0 < q.limit → IsEnded (glob_walk fs match_part q tree).0
  unfolding glob_walk
  glob_walk-IsEnded positive =
      let root = glob_walk_root q.abs_base q.pattern in
      (walk-IsKept (glob_visit fs match_part q) IsGoing IsEnded ended (base root) root tree
        glob_visit-Kept _ (record { each = tt; few = positive; visits = omega arith })).now

-- ===== src/Files/Search/Shown.antt =====
-- What the tool `grep` shows: only lines of visible regular files inside the base directory that match,
-- within the bounds.
use zbplan.Files.{Fs, Info, hidden}
use zbplan.Files.Search.{max_glob_visited, rel_from_base, leave_out, resolved_inside}
use zbplan.Files.Search.Found.{resolved_inside-IsBelow}
use zbplan.Files.Search.Lines.{
  GrepState, GrepQuery, Scan, max_grep_files, max_grep_bytes, grep_line, scan_lines, grep_scan,
  is_spent, is_too_large, glob_takes, grep_file, grep_entry, grep_visit, grep_walk,
}
use zbplan.Files.Walk.{Node, Answer, go_on, Seen, broken, entry, IsKept, Meets, IsMet, walk-IsKept}
use zbplan.Paths.{base}
use zbplan.Prelude.{
  suc, ◌+◌, ◌<◌, ◌≤◌, Bool, true, false, not, ◌||◌, Option, none, some, List, [], ◌∷◌, ◌++◌, Bytes,
  length, ltb, leb, ◌≡◌, refl, Bool-cases, inl, inr, Result, ok, err, All, arith,
}
use zbplan.Files.Search.Hits.{IsHit, IsScanned, scan_lines-IsScanned}

module _ (fs : Fs) (match_part : Bytes → Bytes → Result Bytes Bool) (scan : Bytes → Option Scan)
    (q : GrepQuery) (tree : Node) where
  -- Where the walk goes on, and where it ends.
  record IsGoing (s : GrepState) : Type 0 where
    each : All (IsHit fs scan q tree) s.results
    few : length s.results < q.limit
    files : s.files_scanned ≤ max_grep_files
    bytes : s.bytes_scanned ≤ max_grep_bytes
    visits : s.visited ≤ max_glob_visited

  pub record IsSearched (s : GrepState) : Type 0 where
    pub each : All (IsHit fs scan q tree) s.results
    pub few : length s.results ≤ q.limit
    pub files : s.files_scanned ≤ max_grep_files
    pub bytes : s.bytes_scanned ≤ max_grep_bytes
    pub visits : s.visited ≤ suc max_glob_visited

  abbrev Kept : GrepState × Answer → Type 0
  Kept r = IsKept IsGoing IsSearched r

  ended : (s : GrepState) → IsGoing s → IsSearched s
  ended s g = record {
    each = g.each;
    few = omega (arith, g.few);
    files = g.files;
    bytes = g.bytes;
    visits = omega (arith, g.visits);
  }

  same : (s : GrepState) (a : Answer) → IsGoing s → Kept (s, a)
  same s a g = record { now = ended s g; goes = λ h. g }

  -- The state that only says more of the walk.
  truncated : (s : GrepState) → IsGoing s → IsGoing (record s { truncated = true })
  truncated s g = record {
    each = g.each;
    few = g.few;
    files = g.files;
    bytes = g.bytes;
    visits = g.visits;
  }

  -- A file that may be searched.
  record IsOpen (abs_path : Bytes) (info : Info) (s : GrepState) : Type 0 where
    name : Bytes
    met : Meets abs_path name info (base q.abs_base) q.abs_base tree
    regular : (info.is_dir ≡ false) × (info.is_regular ≡ true)
    visible : hidden fs q.abs_base (rel_from_base q.abs_base abs_path) ≡ false
    files : s.files_scanned < max_grep_files

  grep_scan-Kept :
      (abs_path real : Bytes) (info : Info) (file : Scan) (s : GrepState)
      → IsOpen abs_path info s
      → is_too_large info s ≡ false
      → resolved_inside fs q.real_base abs_path ≡ some real
      → scan real ≡ some file
      → IsGoing s
      → Kept (grep_scan q (rel_from_base q.abs_base abs_path) info file s)
  unfolding grep_scan is_too_large
  grep_scan-Kept abs_path real info file s o fits there opened g =
      elim (Bool-cases (leb q.limit (length found.0))) [
        | inl full ↦ rw full (record { now = at_end; goes = λ h. absurd (cc) })
        | inr room ↦ rw room (record {
          now = at_end;
          goes = λ h. record {
            each = scanned.each;
            few = ground arith;
            files = omega (arith, o.files);
            bytes = ground arith;
            visits = g.visits;
          };
        })
      ]
    where
      found : List Bytes × Bool
      found = scan_lines q (rel_from_base q.abs_base abs_path) 0 file.lines s.results

      path : Bytes
      path = rel_from_base q.abs_base abs_path

      hit :
          (above : List Bytes) (line : Bytes) (rest : List Bytes)
          → file.lines ≡ above ++ line ∷ rest
          → q.is_match line ≡ true
          → IsHit fs scan q tree (grep_line path (suc (length above)) line)
      hit above line rest e found =
          let (leads_to, below) = resolved_inside-IsBelow fs q.real_base abs_path real there in
          record {
            abs_path = abs_path;
            name = o.name;
            info = info;
            met = o.met;
            regular = o.regular;
            visible = o.visible;
            fits = ground arith;
            real = real;
            leads_to = leads_to;
            below = below;
            file = file;
            opened = opened;
            above = above;
            line = line;
            rest = rest;
            lines = e;
            found = found;
            text = (unfold grep_line in refl);
          }

      scanned : IsScanned q path file.lines (IsHit fs scan q tree) hit found
      scanned =
          scan_lines-IsScanned q path file.lines (IsHit fs scan q tree) hit [] file.lines s.results
            refl g.each g.few

      at_end : IsSearched (record {
        results = found.0;
        files_scanned = suc s.files_scanned;
        bytes_scanned = s.bytes_scanned + info.size;
        truncated = s.truncated || (found.1 || file.failed);
        visited = s.visited;
      })
      at_end = record {
        each = scanned.each;
        few = scanned.few;
        files = omega (arith, o.files);
        bytes = ground arith;
        visits = omega (arith, g.visits);
      }

  grep_file-Kept :
      (abs_path : Bytes) (info : Info) (s : GrepState)
      → IsOpen abs_path info s
      → IsGoing s
      → Kept (grep_file fs match_part scan q abs_path info s)
  unfolding grep_file
  grep_file-Kept abs_path info s o g = elim (Bool-cases (is_too_large info s)) [
    | inl large ↦ rw large (same _ go_on (truncated s g))
    | inr fits ↦ follow fits (resolved_inside fs q.real_base abs_path) refl
  ]
    where
      look :
          (real : Bytes)
          → is_too_large info s ≡ false
          → resolved_inside fs q.real_base abs_path ≡ some real
          → (m : Option Scan) → scan real ≡ m
          → Kept (grep_file fs match_part scan q abs_path info s)
      look real fits there none e = rw (fits, there, e) (same s go_on g)
      look real fits there (some file) e =
          rw (fits, there, e) (grep_scan-Kept abs_path real info file s o fits there e g)

      follow :
          is_too_large info s ≡ false
          → (m : Option Bytes) → resolved_inside fs q.real_base abs_path ≡ m
          → Kept (grep_file fs match_part scan q abs_path info s)
      follow fits none e = rw (fits, e) (same s go_on g)
      follow fits (some real) e = look real fits e (scan real) refl

  grep_entry-Kept :
      (abs_path name : Bytes) (info : Info) (s : GrepState)
      → Meets abs_path name info (base q.abs_base) q.abs_base tree
      → IsGoing s
      → Kept (grep_entry fs match_part scan q abs_path name info s)
  unfolding grep_entry is_spent
  grep_entry-Kept abs_path name info s met g = elim (Bool-cases (hidden fs q.abs_base path)) [
    | inl gone ↦ rw gone (same s (leave_out info) g)
    | inr visible ↦ elim (Bool-cases (info.is_dir || not info.is_regular)) [
      | inl other ↦ rw (visible, other) (same s go_on g)
      | inr regular ↦ elim (Bool-cases (is_spent q s)) [
        | inl spent ↦
            rw (visible, regular, spent)
              (record { now = ended _ (truncated s g); goes = λ h. absurd (cc) })
        | inr left ↦ filtered visible regular left (glob_takes fs match_part scan q name path) refl
      ]
    ]
  ]
    where
      path : Bytes
      path = rel_from_base q.abs_base abs_path

      filtered :
          hidden fs q.abs_base path ≡ false
          → (info.is_dir || not info.is_regular) ≡ false
          → is_spent q s ≡ false
          → (m : Result Bytes Bool) → glob_takes fs match_part scan q name path ≡ m
          → Kept (grep_entry fs match_part scan q abs_path name info s)
      filtered visible regular left (err e) k = rw (visible, regular, left, k) (same s _ g)
      filtered visible regular left (ok false) k = rw (visible, regular, left, k) (same s go_on g)
      filtered visible regular left (ok true) k =
          rw (visible, regular, left, k)
            (grep_file-Kept abs_path info s
              (record {
                name = name;
                met = met;
                regular = (ground arith, ground arith);
                visible = visible;
                files = ground arith;
              })
              g)

  grep_visit-Kept :
      (abs_path : Bytes) (e : Seen) (s : GrepState)
      → IsMet (λ p n i. Meets p n i (base q.abs_base) q.abs_base tree) abs_path e
      → IsGoing s
      → Kept (grep_visit fs match_part scan q abs_path e s)
  unfolding grep_visit
  grep_visit-Kept abs_path broken s met g = same s go_on g
  grep_visit-Kept abs_path (entry name info) s met g =
      elim (Bool-cases (ltb max_glob_visited (suc s.visited))) [
        | inl many ↦ rw many (record {
          now = record {
            each = g.each;
            few = omega (arith, g.few);
            files = g.files;
            bytes = g.bytes;
            visits = omega (arith, g.visits);
          };
          goes = λ h. absurd (cc);
        })
        | inr few ↦ rw few (
            grep_entry-Kept abs_path name info _ met (record {
              each = g.each;
              few = g.few;
              files = g.files;
              bytes = g.bytes;
              visits = ground arith;
            }))
      ]

  -- Each line that `grep` shows stands, with its number, in a regular file that the walk of the tree meets,
  -- that is not hidden, that leads below the base directory and that is not too large, and it has a match;
  -- the matches, the files, their bytes and the visited entries stay within their bounds, where the limit
  -- is not zero.
  pub grep_walk-IsSearched : 0 < q.limit → IsSearched (grep_walk fs match_part scan q tree).0
  unfolding grep_walk
  grep_walk-IsSearched positive =
      (walk-IsKept (grep_visit fs match_part scan q) IsGoing IsSearched ended (base q.abs_base)
        q.abs_base tree grep_visit-Kept _
        (record {
          each = tt;
          few = positive;
          files = omega arith;
          bytes = omega arith;
          visits = omega arith;
        })).now

-- ===== src/Files/Search/Outline/Drawn.antt =====
-- What the tool `tree` draws: only visible entries, above the depth that is asked for.
use zbplan.Files.{Fs, Info, hidden}
use zbplan.Files.Search.{rel_from_base, leave_out}
use zbplan.Files.Search.Outline.{
  TreeState, TreeQuery, indent, max_entries, count_slashes, rel_from_root, tree_line, tree_entry,
  tree_visit, tree_walk,
}
use zbplan.Files.Walk.{
  Node, Answer, go_on, skip_all, Seen, broken, entry, IsKept, Meets, IsMet, walk-IsKept,
}
use zbplan.Paths.{base}
use zbplan.Prelude.{
  ℕ, zero, suc, ap, ◌++◌, if◌then◌else◌, ◌<◌, ◌≤◌, false, [], ◌∷◌, Bytes, codes, beq, length, leb,
  ◌≡◌, refl, Bool-cases, inl, inr, All, All-snoc, length-append, arith,
}

-- Two spaces for each level.
abbrev pub spaces : ℕ → Bytes
spaces zero = []
spaces (suc n) = b' ' ∷ b' ' ∷ spaces n

indent-spaces : (n : ℕ) → indent n ≡ spaces n
unfolding indent
indent-spaces zero = refl
indent-spaces (suc n) = ap (λ s. b' ' ∷ b' ' ∷ s) (indent-spaces n)

tree_line-spaces :
    (n : ℕ) (name : Bytes) (info : Info)
    → tree_line n name info ≡ spaces n ++ (if info.is_dir then name ++ b'/' ∷ [] else name)
unfolding tree_line
tree_line-spaces n name info =
    ap (λ s. s ++ (if info.is_dir then name ++ b'/' ∷ [] else name)) (indent-spaces n)

-- A line of the outline: an entry that the tree holds, whose path is not hidden and lies above the depth,
-- with its own name and its indent.
pub record IsDrawn (fs : Fs) (q : TreeQuery) (tree : Node) (line : Bytes) : Type 0 where
  pub abs_path : Bytes
  pub name : Bytes
  pub info : Info
  pub met : Meets abs_path name info (base q.root_abs) q.root_abs tree
  pub visible : hidden fs q.abs_base (rel_from_base q.abs_base abs_path) ≡ false
  pub shallow : count_slashes (rel_from_root q.root_abs abs_path) < q.depth
  pub text : line ≡ (
      spaces (count_slashes (rel_from_root q.root_abs abs_path))
      ++ (if info.is_dir then name ++ b'/' ∷ [] else name))

module _ (fs : Fs) (q : TreeQuery) (tree : Node) where
  pub record IsOutline (s : TreeState) : Type 0 where
    pub each : All (IsDrawn fs q tree) s.lines
    pub few : length s.lines ≤ max_entries

  abbrev Kept : TreeState × Answer → Type 0
  Kept r = IsKept IsOutline IsOutline r

  same : (s : TreeState) (a : Answer) → IsOutline s → Kept (s, a)
  same s a g = record { now = g; goes = λ h. g }

  tree_entry-Kept :
      (abs_path name : Bytes) (info : Info) (s : TreeState)
      → Meets abs_path name info (base q.root_abs) q.root_abs tree
      → hidden fs q.abs_base (rel_from_base q.abs_base abs_path) ≡ false
      → IsOutline s
      → Kept (tree_entry fs q abs_path name info s)
  unfolding tree_entry
  tree_entry-Kept abs_path name info s met visible g = elim (Bool-cases (beq path (codes "."))) [
    | inl root ↦ rw root (same s go_on g)
    | inr inner ↦ elim (Bool-cases (leb q.depth (count_slashes path))) [
      | inl deep ↦ rw (inner, deep) (same s (leave_out info) g)
      | inr shallow ↦ elim (Bool-cases (leb max_entries (length s.lines))) [
        | inl full ↦
            rw (inner, shallow, full) (same _ skip_all (record { each = g.each; few = g.few }))
        | inr room ↦
            rw (inner, shallow, room)
              (same _ go_on (record {
                each = All-snoc (IsDrawn fs q tree) s.lines line g.each (record {
                  abs_path = abs_path;
                  name = name;
                  info = info;
                  met = met;
                  visible = visible;
                  shallow = ground arith;
                  text = tree_line-spaces (count_slashes path) name info;
                });
                few = ground (arith, length-append s.lines (line ∷ []));
              }))
      ]
    ]
  ]
    where
      path : Bytes
      path = rel_from_root q.root_abs abs_path

      line : Bytes
      line = tree_line (count_slashes path) name info

  tree_visit-Kept :
      (abs_path : Bytes) (e : Seen) (s : TreeState)
      → IsMet (λ p n i. Meets p n i (base q.root_abs) q.root_abs tree) abs_path e
      → IsOutline s
      → Kept (tree_visit fs q abs_path e s)
  unfolding tree_visit
  tree_visit-Kept abs_path broken s met g = same s go_on g
  tree_visit-Kept abs_path (entry name info) s met g =
      elim (Bool-cases (hidden fs q.abs_base (rel_from_base q.abs_base abs_path))) [
        | inl gone ↦ rw gone (same s (leave_out info) g)
        | inr visible ↦ rw visible (tree_entry-Kept abs_path name info s met visible g)
      ]

  -- Each line of the outline shows the own name of an entry that the tree holds at a path above the depth
  -- that was asked for, indented by where it lies, with a slash behind a directory; that path, as it is
  -- written from the base directory and before links are followed, is not hidden. There are at most 500
  -- lines.
  pub tree_walk-IsOutline : IsOutline (tree_walk fs q tree).0
  unfolding tree_walk
  tree_walk-IsOutline =
      (walk-IsKept (tree_visit fs q) IsOutline IsOutline (λ s g. g) (base q.root_abs) q.root_abs
        tree tree_visit-Kept _ (record { each = tt; few = omega arith })).now

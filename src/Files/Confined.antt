-- ===== src/Files/Confined.antt =====
-- What the file tools open lies in the base directory, and is not hidden.
use zbplan.Files.{
  Info, open_path, rel_text, same_kind, drop_common, starts_up, rel_parts, rel, is_inside,
  is_path_in_base, Fs, base_directory, secure_existing_tool_path, hidden, resolved_rel,
  unavailable_resolved, unavailable_existing_tool_path,
}
use zbplan.Paths.{slash, up, is_abs, clean_parts}
use zbplan.Prelude.{
  Bool, true, false, Option, none, some, List, [], ◌∷◌, ◌++◌, map, Bytes, codes, beq, beq_iff, ◌≡◌,
  refl, sym, ap, ◌∙◌, ◌⊎◌, inl, inr, arith, if◌then◌else◌, Bool-cases, Result, ok, err,
}
use mathlib.Core.Path.{subst}
use zbplan.Strings.{has_prefix}
use zbplan.Strings.Split.{split, join}

-- The parts of a cleaned path.
abbrev pub parts_of : Bytes → List Bytes
parts_of path = clean_parts (is_abs path) (split slash path)

-- The path is the base directory or lies below it.
pub record IsBelow (base target : Bytes) : Type 0 where
  pub kind : is_abs target ≡ is_abs base
  pub rest : List Bytes
  pub below : parts_of target ≡ parts_of base ++ rest

drop_common-append : (bs ts r : List Bytes) → drop_common bs ts ≡ ([], r) → ts ≡ bs ++ r
unfolding drop_common
drop_common-append [] ts r h = ap (λ x. x.1) h
drop_common-append (b ∷ bs) [] r h = absurd (cc)
drop_common-append (b ∷ bs) (t ∷ ts) r h = elim (Bool-cases (beq b t)) [
  | inl same ↦
      let ih = drop_common-append bs ts r (rw (same, drop_common) at h) in
      ap (λ c. c ∷ ts) (sym ((beq_iff b t).0 same)) ∙ ap (◌∷◌ b) ih
  | inr other ↦ absurd (cc (rw (other, drop_common) at h))
]

-- The text of a path that begins by going up is not inside.
is_inside-up :
    (parts : List Bytes)
    → is_inside (if beq (join slash (up ∷ parts)) [] then codes "." else join slash (up ∷ parts))
      ≡ false
unfolding is_inside join is_abs has_prefix beq
is_inside-up [] = refl
is_inside-up (part ∷ parts) = ground arith

is_in : Option Bytes → Bool
is_in none = false
is_in (some path) = is_inside path

rel_text-below : (bs ts : List Bytes) → is_in (rel_text (bs, ts)) ≡ true → bs ≡ []
unfolding rel_text rel_parts is_in starts_up
rel_text-below [] ts h = refl
rel_text-below (b ∷ bs) ts h = elim (Bool-cases (beq b up)) [
  | inl going_up ↦ absurd (cc (rw (going_up, rel_text) at h))
  | inr plain ↦ let e = is_inside-up (map (λ b. up) bs ++ ts) in absurd (cc (rw plain at h, e))
]

pub is_path_in_base-IsBelow :
    (base target : Bytes) → is_path_in_base base target ≡ true → IsBelow base target
unfolding is_path_in_base rel is_in
is_path_in_base-IsBelow base target h = elim (Bool-cases (same_kind base target)) [
  | inl kind ↦
      let m = drop_common (parts_of base) (parts_of target) in
      let inside : is_in (rel_text (m.0, m.1)) ≡ true = rw (kind, is_path_in_base) at h in
      let e : drop_common (parts_of base) (parts_of target) ≡ ([], m.1) =
        ap (λ b. (b, m.1)) (rel_text-below m.0 m.1 inside) in
      record {
        kind = unfold same_kind in ground arith;
        rest = m.1;
        below = drop_common-append (parts_of base) (parts_of target) m.1 e;
      }
  | inr mixed ↦ absurd (cc (rw (mixed, is_path_in_base) at h))
]

module _ (fs : Fs) where
  -- The resolved base directory of the tools.
  pub record IsBase (base_dir real_base : Bytes) : Type 0 where
    pub abs_base : Bytes
    pub absolute : fs.abs base_dir ≡ ok abs_base
    pub resolved : fs.eval_symlinks abs_base ≡ ok real_base

  -- A path that a tool may open: it is below the base behind its links, and neither what was asked for
  -- nor where it leads is hidden.
  pub record IsOpen (base_dir rel_path real : Bytes) : Type 0 where
    pub real_base : Bytes
    pub base : IsBase base_dir real_base
    pub below : IsBelow real_base real
    pub asked_visible : hidden fs base_dir rel_path ≡ false
    pub way : Bytes
    pub way_to : rel real_base real ≡ some way
    pub way_visible : hidden fs base_dir way ≡ false

  resolved_rel-IsBelow :
      (real_base real way : Bytes)
      → resolved_rel fs real_base real ≡ ok way
      → IsBelow real_base real × (rel real_base real ≡ some way)
  unfolding resolved_rel
  resolved_rel-IsBelow real_base real way h =
      go (rel real_base real) refl (Bool-cases (is_path_in_base real_base real))
    where
      go :
          (m : Option Bytes)
          → rel real_base real ≡ m
          → (is_path_in_base real_base real ≡ true) ⊎ (is_path_in_base real_base real ≡ false)
          → IsBelow real_base real × (rel real_base real ≡ some way)
      go none e b = absurd (cc (rw (e, resolved_rel) at h))
      go (some p) e (inl b) = (
        is_path_in_base-IsBelow real_base real b,
        e ∙ (let k = rw (e, b, resolved_rel) at h in cc),
      )
      go (some p) e (inr b) = absurd (cc (rw (e, b, resolved_rel) at h))

  visible_way :
      (base_dir rel_path real real_base way : Bytes)
      → IsBase base_dir real_base
      → hidden fs base_dir rel_path ≡ false
      → resolved_rel fs real_base real ≡ ok way
      → hidden fs base_dir way ≡ false
      → IsOpen base_dir rel_path real
  visible_way base_dir rel_path real real_base way base asked h shown =
      let (below, way_to) = resolved_rel-IsBelow real_base real way h in
      record {
        real_base = real_base;
        base = base;
        below = below;
        asked_visible = asked;
        way = way;
        way_to = way_to;
        way_visible = shown;
      }

  unavailable_resolved-IsOpen :
      (base_dir rel_path real : Bytes)
      → hidden fs base_dir rel_path ≡ false
      → unavailable_resolved fs base_dir real ≡ ok false
      → IsOpen base_dir rel_path real
  unfolding unavailable_resolved base_directory
  unavailable_resolved-IsOpen base_dir rel_path real asked h = find_abs (fs.abs base_dir) refl
    where
      find_way :
          (abs_base real_base : Bytes)
          → fs.abs base_dir ≡ ok abs_base
          → fs.eval_symlinks abs_base ≡ ok real_base
          → (m : Result Bytes Bytes) → resolved_rel fs real_base real ≡ m
          → IsOpen base_dir rel_path real
      find_way abs_base real_base e e' (err x) k =
          absurd (cc (rw (e, e', k, unavailable_resolved) at h))
      find_way abs_base real_base e e' (ok way) k =
          visible_way base_dir rel_path real real_base way
            (record { abs_base = abs_base; absolute = e; resolved = e' }) asked k
            (let z = rw (e, e', k, unavailable_resolved) at h in cc)

      find_real :
          (abs_base : Bytes)
          → fs.abs base_dir ≡ ok abs_base
          → (m : Result Bytes Bytes) → fs.eval_symlinks abs_base ≡ m
          → IsOpen base_dir rel_path real
      find_real abs_base e (err x) e' = absurd (cc (rw (e, e', unavailable_resolved) at h))
      find_real abs_base e (ok real_base) e' =
          find_way abs_base real_base e e' (resolved_rel fs real_base real) refl

      find_abs : (m : Result Bytes Bytes) → fs.abs base_dir ≡ m → IsOpen base_dir rel_path real
      find_abs (err x) e = absurd (cc (rw (e, unavailable_resolved) at h))
      find_abs (ok abs_base) e = find_real abs_base e (fs.eval_symlinks abs_base) refl

  -- A path that the visibility check finds available is below the base directory behind its links, and
  -- neither the path that was asked for nor the place where it leads is hidden.
  pub unavailable_existing_tool_path-IsOpen :
      (base_dir rel_path real : Bytes)
      → unavailable_existing_tool_path fs base_dir rel_path real ≡ ok false
      → IsOpen base_dir rel_path real
  unfolding unavailable_existing_tool_path
  unavailable_existing_tool_path-IsOpen base_dir rel_path real h =
      elim (Bool-cases (hidden fs base_dir rel_path)) [
        | inl gone ↦ absurd (cc (rw (gone, unavailable_existing_tool_path) at h))
        | inr shown ↦
            unavailable_resolved-IsOpen base_dir rel_path real shown
              (rw (shown, unavailable_existing_tool_path) at h)
      ]

  -- Where the tools `read` and `list` open a path, it is below the base directory behind its links, and
  -- neither the path that was asked for nor the place where it leads is hidden.
  pub open_path-IsOpen :
      (base_dir path rel_path real : Bytes) (info : Info)
      → open_path fs base_dir path ≡ ok (rel_path, real, info)
      → IsOpen base_dir rel_path real
  unfolding open_path
  open_path-IsOpen base_dir path rel_path real info h =
      find (secure_existing_tool_path fs base_dir path) refl
    where
      available :
          (found : Bytes × Bytes) (there : Info)
          → secure_existing_tool_path fs base_dir path ≡ ok found
          → fs.stat found.1 ≡ ok there
          → (m : Result Bytes Bool) → unavailable_existing_tool_path fs base_dir found.0 found.1 ≡ m
          → IsOpen base_dir rel_path real
      available found there e e' (err x) k = absurd (cc (rw (e, e', k, open_path) at h))
      available found there e e' (ok true) k = absurd (cc (rw (e, e', k, open_path) at h))
      available found there e e' (ok false) k =
          let same : (found.0 ≡ rel_path) × (found.1 ≡ real) =
            let z = rw (e, e', k, open_path) at h in (cc, cc) in
          subst (λ p. IsOpen base_dir p real) same.0
            (subst (λ r. IsOpen base_dir found.0 r) same.1
              (unavailable_existing_tool_path-IsOpen base_dir found.0 found.1 k))

      look :
          (found : Bytes × Bytes)
          → secure_existing_tool_path fs base_dir path ≡ ok found
          → (m : Result Bytes Info) → fs.stat found.1 ≡ m
          → IsOpen base_dir rel_path real
      look found e (err x) e' = absurd (cc (rw (e, e', open_path) at h))
      look found e (ok there) e' =
          available found there e e' (unavailable_existing_tool_path fs base_dir found.0 found.1)
            refl

      find :
          (m : Result Bytes (Bytes × Bytes))
          → secure_existing_tool_path fs base_dir path ≡ m
          → IsOpen base_dir rel_path real
      find (err x) e = absurd (cc (rw (e, open_path) at h))
      find (ok found) e = look found e (fs.stat found.1) refl

-- ===== src/Files/Directory/Visible.antt =====
-- What `list` shows: the visible entries.
use mathlib.Core.Path.{ap₂, subst}
use zbplan.Files.{Fs, DirEntry, hidden, join_path}
use zbplan.Files.Directory.Sorted.{IsNotBehind, name_before-IsNotBehind, name_before-IsLess}
use zbplan.Strings.Join.{join_with}
use mathlib.Core.List.{Permᴰ}
use zbplan.Files.Directory.{
  name_before, max_directory_scan, shown_name, list_loop, list_text, list_directory,
}
use zbplan.Prelude.{
  ℕ, suc, ◌+◌, ◌≤◌, ◌≡◌, refl, sym, ap, ◌∙◌, Bool, true, false, ◌||◌, List, [], ◌∷◌, ◌++◌,
  append-nil, append_assoc, Bytes, take, length, ltb, leb, if◌then◌else◌, ok, arith, Bool-cases,
  inl, inr, length-append, Option, some, Result, err, ◌⊎◌, ◌<◌, ◌↔◌, codes, decimal, Option-cases,
  IsOrdered, IsSliceSort, IsOrdered-imp, take_of_length-le, take-length-append,
}

-- The entries that are not hidden.
abbrev pub visible : (Bytes → Bool) → Bytes → List DirEntry → List Bytes
visible is_hidden rel_path [] = []
visible is_hidden rel_path (e ∷ es) =
    if is_hidden (join_path rel_path e.name)
    then visible is_hidden rel_path es
    else (if e.is_dir then e.name ++ codes "/" else e.name) ∷ visible is_hidden rel_path es

-- Where the last name fits, the rest is cut off.
full_list :
    (limit : ℕ) (names : List Bytes) (name : Bytes) (rest : List Bytes)
    → suc (length names) ≤ limit
    → leb limit (length (names ++ name ∷ [])) ≡ true
    → ◌≡◌ {A = List Bytes × Bool}
        (names ++ name ∷ [], true)
        (take limit (names ++ name ∷ rest), leb limit (length (names ++ name ∷ rest)))
full_list limit names name rest room full =
    let l : length (names ++ name ∷ []) ≡ suc (length names) =
      simp (length-append names (name ∷ [])) (omega arith) in
    let m : limit ≡ length (names ++ name ∷ []) = ground (arith, l) in
    let t : take (length (names ++ name ∷ [])) ((names ++ name ∷ []) ++ rest) ≡ names ++ name ∷ [] =
      take-length-append (names ++ name ∷ []) rest in
    let b : leb limit (length ((names ++ name ∷ []) ++ rest)) ≡ true =
      rw (length-append (names ++ name ∷ []) rest) (ground (arith, l)) in
    ap₂ (λ (xs : List Bytes) (c : Bool). (xs, c))
      (sym t ∙ ap (λ n. take n ((names ++ name ∷ []) ++ rest)) (sym m)) (sym b)
    ∙ ap (λ xs. (take limit xs, leb limit (length xs))) (append_assoc names (name ∷ []) rest)

-- A loop ends with an error of the context in one of its rounds, or with a value.
abbrev Ends : (ℕ → Option Bytes) → Result Bytes (List Bytes × Bool) → List Bytes × Bool → Type 0
Ends context r v = ((n : ℕ) × (e : Bytes) × (context n ≡ some e) × (r ≡ err e)) ⊎ (r ≡ ok v)

-- The first names, and whether the limit was met.
abbrev cut_list : ℕ → List Bytes → List Bytes × Bool
cut_list limit xs = (take limit xs, leb limit (length xs))

list_loop-take :
    (context : ℕ → Option Bytes) (is_hidden : Bytes → Bool) (rel_path : Bytes) (limit round : ℕ)
    (es : List DirEntry) (names : List Bytes)
    → suc (length names) ≤ limit
    → Ends context
        (list_loop context is_hidden rel_path limit round es names)
        (cut_list limit (names ++ visible is_hidden rel_path es))
unfolding list_loop shown_name
list_loop-take context is_hidden rel_path limit round [] names room =
    let e : leb limit (length names) ≡ false = ground arith in
    inr (rw (append-nil names, e, take_of_length-le limit names (omega arith)) refl)
list_loop-take context is_hidden rel_path limit round (e ∷ es) names room =
    elim (Option-cases (context round)) [
      | inr (x, cancelled) ↦ inl (round, x, cancelled, rw (cancelled, list_loop) refl)
      | inl goes ↦ elim (Bool-cases (is_hidden (join_path rel_path e.name))) [
        | inl gone ↦
            let step : loop ≡ list_loop context is_hidden rel_path limit (suc round) es names =
              rw (goes, gone, list_loop) refl in
            rw gone (
              subst (λ r. Ends context r (cut_list limit (names ++ visible is_hidden rel_path es)))
                (sym step)
                (list_loop-take context is_hidden rel_path limit (suc round) es names room))
        | inr shown ↦ elim (Bool-cases (leb limit (length (names ++ shown_name e ∷ [])))) [
          | inl full ↦
              let step : loop ≡ ok (names ++ shown_name e ∷ [], true) =
                rw (goes, shown, full, list_loop) refl in
              inr (
                step
                ∙ rw shown (
                    ap ok (
                      full_list limit names (shown_name e) (visible is_hidden rel_path es) room
                        full)))
          | inr more ↦
              let step : loop
                  ≡ list_loop context is_hidden rel_path limit (suc round) es
                      (names ++ shown_name e ∷ []) =
                rw (goes, shown, more, list_loop) refl in
              rw shown (
                subst (λ xs. Ends context loop (cut_list limit xs))
                  (append_assoc names (shown_name e ∷ []) (visible is_hidden rel_path es))
                  (subst
                    (λ r. Ends context r (
                      cut_list limit
                        ((names ++ shown_name e ∷ []) ++ visible is_hidden rel_path es)))
                    (sym step)
                    (list_loop-take context is_hidden rel_path limit (suc round) es
                      (names ++ shown_name e ∷ []) (ground arith))))
        ]
      ]
    ]
  where
    loop : Result Bytes (List Bytes × Bool)
    loop = list_loop context is_hidden rel_path limit round (e ∷ es) names

-- The text for the names that are shown, which says whether it is cut.
abbrev pub listing_text : List Bytes → Bool → Bytes
listing_text [] false = codes "empty directory"
listing_text [] true =
    codes "no visible entries [list truncated after scanning "
    ++ (decimal 10_000 ++ codes " entries]")
listing_text (name ∷ names) false = join_with (codes "\n") (name ∷ names)
listing_text (name ∷ names) true =
    join_with (codes "\n") (name ∷ names)
    ++ (codes "\n[list truncated after " ++ (decimal (length (name ∷ names)) ++ codes " entries]"))

-- A listing: of the first 10,000 entries that were read, sorted by name, the visible ones, up to the limit.
-- It says that it is cut where there were more entries, or as many names as the limit.
pub record IsListing (is_hidden : Bytes → Bool) (rel_path : Bytes) (limit : ℕ)
    (entries : List DirEntry) (text : Bytes) : Type 0 where
  pub sorted : List DirEntry
  pub same : Permᴰ (take 10_000 entries) sorted
  pub ordered : IsOrdered (λ e f. IsNotBehind e.name f.name) sorted
  pub cut : Bool
  pub is_cut :
      (cut ≡ true)
      ↔ ((10_000 < length entries) ⊎ (limit ≤ length (visible is_hidden rel_path sorted)))
  pub shown : text ≡ listing_text (take limit (visible is_hidden rel_path sorted)) cut

list_text-listing_text :
    (names : List Bytes) (cut : Bool) → list_text names cut ≡ listing_text names cut
unfolding list_text
list_text-listing_text [] true = refl
list_text-listing_text [] false = refl
list_text-listing_text (name ∷ names) true = refl
list_text-listing_text (name ∷ names) false = append-nil (join_with (codes "\n") (name ∷ names))

is_cut_iff : (m n limit k : ℕ) → ((ltb m n || leb limit k) ≡ true) ↔ ((m < n) ⊎ (limit ≤ k))
is_cut_iff m n limit k = (
  λ h. elim (Bool-cases (ltb m n)) [ inl many ↦ inl (ground arith) | inr few ↦ inr (ground arith) ],
  λ h. elim (Bool-cases (ltb m n)) [
    | inl many ↦ rw many refl
    | inr few ↦ elim h [ inl a ↦ absurd (ground arith) | inr b ↦ rw few (ground arith) ]
  ],
)

-- A directory that was read is listed, for a positive limit and a sort that sorts by any order, or the
-- error of the context in some round is returned. The listing shows the visible ones of the first 10,000
-- entries in the order of their names, a directory with a slash behind its name, no more than the limit,
-- and it says that it is cut where there were more entries or as many visible ones as the limit.
pub list_directory_ok :
    (slice : (DirEntry → DirEntry → Bool) → List DirEntry → List DirEntry)
    (context : ℕ → Option Bytes) (fs : Fs) (base_dir rel_path abs_path : Bytes) (limit : ℕ)
    (entries : List DirEntry)
    → IsSliceSort slice
    → 1 ≤ limit
    → fs.read_dir abs_path (max_directory_scan + 1) ≡ ok entries
    → ((n : ℕ) × (e : Bytes) × (context n ≡ some e)
        × (list_directory slice context fs base_dir rel_path abs_path limit ≡ err e))
      ⊎ ((text : Bytes) × (list_directory slice context fs base_dir rel_path abs_path limit
            ≡ ok text)
          × IsListing (hidden fs base_dir) rel_path limit entries text)
unfolding list_directory
list_directory_ok slice context fs base_dir rel_path abs_path limit entries law positive e =
    elim (list_loop-take context (hidden fs base_dir) rel_path limit 0 sorted [] positive) [
      | inl (n, x, cancelled, l) ↦ inl (n, x, cancelled, rw (e, l, list_directory) refl)
      | inr l ↦ inr (
        list_text (take limit shown) cut,
        rw (e, l, list_directory) refl,
        record {
          sorted = sorted;
          same = law.same name_before (take max_directory_scan entries);
          ordered =
              IsOrdered-imp _ _ name_before-IsNotBehind sorted
                (law.ordered name_before name_before-IsLess (take max_directory_scan entries));
          cut = cut;
          is_cut = is_cut_iff max_directory_scan (length entries) limit (length shown);
          shown = list_text-listing_text (take limit shown) cut;
        },
      )
    ]
  where
    sorted : List DirEntry
    sorted = slice name_before (take max_directory_scan entries)

    shown : List Bytes
    shown = visible (hidden fs base_dir) rel_path sorted

    cut : Bool
    cut = ltb max_directory_scan (length entries) || leb limit (length shown)

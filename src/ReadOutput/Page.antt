-- ===== src/ReadOutput/Page.antt =====
-- Pages make progress, are within the limit, split no rune, and together give the whole output.
use zbplan.Prelude.{
  ℕ, zero, suc, ◌+◌, ◌-◌, ◌≤◌, ◌<◌, min, ◌≡◌, refl, ap, sym, ◌∙◌, ◌⊎◌, inl, inr, Bool, true, false,
  not, ◌&&◌, [], ◌∷◌, ◌++◌, arith, Bytes, length, take, drop, length-drop, drop-drop,
  drop_of_length-le, leb, take-append-drop, ltb, ◌==◌, if◌then◌else◌, Bool-cases,
}
use zbplan.Cut.{forward_to_rune}
use zbplan.Cut.Laws.{forward_to_rune-IsNextBoundary, rune_start_at_end}
use zbplan.ReadOutput.{back_to_rune_from, page_end, page_bytes}
use zbplan.Utf8.{rune_start_at, rune_size, rune_size_bounds}

-- The loop ends between `start` and where it began, and at a rune boundary unless it met `start`.
record Ends (v : Bytes) (start n e : ℕ) : Type 0 where
  low : start ≤ e
  high : e ≤ n
  where_it_stops : (e ≡ start) ⊎ (rune_start_at v e ≡ true)

abbrev goes_on : Bytes → ℕ → ℕ → Bool
goes_on v start n = ltb start (suc n) && (ltb (suc n) (length v) && not (rune_start_at v (suc n)))

stop_cases :
    (v : Bytes) (start n : ℕ)
    → start ≤ suc n
    → suc n ≤ length v
    → goes_on v start n ≡ false
    → (suc n ≡ start) ⊎ (rune_start_at v (suc n) ≡ true)
stop_cases v start n low fits off = ground (arith, rune_start_at_end v)

back_to_rune_from-Ends :
    (v : Bytes) (start n : ℕ)
    → start ≤ n
    → n ≤ length v
    → Ends v start n (back_to_rune_from v start n)
unfolding back_to_rune_from
back_to_rune_from-Ends v start zero low fits = record {
  low = low;
  high = omega arith;
  where_it_stops = inl (omega arith);
}
back_to_rune_from-Ends v start (suc n) low fits = elim (Bool-cases (goes_on v start n)) [
  | inl on ↦
      let ih = back_to_rune_from-Ends v start n (ground arith) (omega arith) in
      rw on
        (record { low = ih.low; high = omega (arith, ih.high); where_it_stops = ih.where_it_stops })
  | inr off ↦
      rw off (record {
        low = low;
        high = omega arith;
        where_it_stops = stop_cases v start n low fits off;
      })
]

-- A page from `s`, inside the text.
pub record IsPage (v : Bytes) (s limit e : ℕ) : Type 0 where
  pub progress : s < e
  pub inside : e ≤ length v
  pub size : (e ≤ s + limit) ⊎ (e ≡ s + rune_size (drop s v))
  pub boundary : (rune_start_at v e ≡ true) ⊎ (e ≡ s + rune_size (drop s v))

rune_size-drop :
    (v : Bytes) (s : ℕ)
    → s < length v
    → (1 ≤ rune_size (drop s v)) × (s + rune_size (drop s v) ≤ length v)
rune_size-drop v s h = go (drop s v) (length-drop s v)
  where
    go :
        (rest : Bytes)
        → length rest ≡ length v - s
        → (1 ≤ rune_size rest) × (s + rune_size rest ≤ length v)
    go [] e = absurd (omega arith)
    go (c ∷ rest) e = omega (arith, rune_size_bounds c rest)

page_end-IsPage :
    (v : Bytes) (s limit : ℕ) → s < length v → 1 ≤ limit → IsPage v s limit (page_end v s limit)
unfolding page_end
page_end-IsPage v s limit h positive =
    let end = back_to_rune_from v s (min (s + limit) (length v)) in
    let ends =
      back_to_rune_from-Ends v s (min (s + limit) (length v)) (omega arith) (omega arith) in
    let rune = rune_size-drop v s h in
    elim (Bool-cases (end == s)) [
      | inl none_fits ↦ rw none_fits (record {
        progress = omega arith;
        inside = omega arith;
        size = inr refl;
        boundary = inr refl;
      })
      | inr some_fit ↦ rw some_fit (record {
        progress = ground (arith, ends.low);
        inside = omega (arith, ends.high);
        size = inl (omega (arith, ends.high));
        boundary = elim (ends.where_it_stops) [
          | inl met ↦ absurd (ground arith)
          | inr start ↦ inl start
        ];
      })
    ]

-- Each rune is followed by a rune, as in every text that is valid UTF-8.
pub record IsWellFormed (v : Bytes) : Type 0 where
  pub first : rune_start_at v 0 ≡ true
  pub next :
      (i : ℕ)
      → i < length v
      → rune_start_at v i ≡ true
      → rune_start_at v (i + rune_size (drop i v)) ≡ true

-- What a reader collects who asks for the page at `offset`, and again at the end of each page, until
-- the end of the output is passed.
pub read_pages : ℕ → Bytes → ℕ → ℕ → Bytes
read_pages zero v limit offset = []
read_pages (suc fuel) v limit offset =
    let start = forward_to_rune v offset in
    let end = page_end v start limit in
    let rest = read_pages fuel v limit end in
    if leb (length v) offset then [] else page_bytes v start end ++ rest

forward_to_rune_at_start : (v : Bytes) (n : ℕ) → rune_start_at v n ≡ true → forward_to_rune v n ≡ n
forward_to_rune_at_start v n h =
    let next = forward_to_rune-IsNextBoundary v n in
    omega (arith, next.above, next.least n (omega arith) h)

-- The pages from an offset at a rune boundary, read one after another by the loop that a reader of the
-- output runs, give the rest of the output: for a well-formed text, a positive limit, and enough fuel.
pub read_pages-drop :
    (fuel : ℕ) (v : Bytes) (limit offset : ℕ)
    → IsWellFormed v
    → 1 ≤ limit
    → rune_start_at v offset ≡ true
    → length v < fuel + offset
    → read_pages fuel v limit offset ≡ drop offset v
unfolding read_pages page_bytes
read_pages-drop zero v limit offset w positive start enough =
    sym (drop_of_length-le offset v (omega arith))
read_pages-drop (suc fuel) v limit offset w positive start enough =
    elim (Bool-cases (leb (length v) offset)) [
      | inl past ↦ rw past (sym (drop_of_length-le offset v (ground arith)))
      | inr inside ↦
          let e = page_end v offset limit in
          let p = page_end-IsPage v offset limit (ground arith) positive in
          let start' : rune_start_at v e ≡ true = elim (p.boundary) [
            | inl b ↦ b
            | inr whole ↦ rw whole (w.next offset (ground arith) start)
          ] in
          let ih = read_pages-drop fuel v limit e w positive start' (omega (arith, p.progress)) in
          let e' : offset + (e - offset) ≡ e = omega (arith, p.progress) in
          let rest : drop (e - offset) (drop offset v) ≡ drop e v =
            drop-drop (e - offset) offset v ∙ ap (λ k. drop k v) e' in
          rw (inside, forward_to_rune_at_start v offset start, ih)
            (ap (λ l. take (e - offset) (drop offset v) ++ l) (sym rest)
              ∙ take-append-drop (e - offset) (drop offset v))
    ]

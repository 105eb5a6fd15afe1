-- ===== src/Files/Read/Bounded.antt =====
-- A page of a file is bounded, in lines and in bytes.
use zbplan.Cut.Laws.{safe_text_prefix-eq-bounded_prefix, length-bounded_prefix}
use mathlib.Core.Path.{subst}
use zbplan.Files.Read.{
  Window, Page, Cursor, ellipsis, max_read_bytes, enter_line, split_part, split_line, read_loop,
}
use zbplan.Prelude.{
  ℕ, suc, ◌+◌, ◌-◌, ◌≤◌, ◌≡◌, refl, ap, ◌∙◌, true, false, Option, none, some, List, [], ◌∷◌, ◌++◌,
  Bytes, beq, length, ltb, leb, Result, ok, err, arith, Bool-cases, inl, inr, length-append,
}

-- The bytes of the lines, with a newline for each.
abbrev pub bytes_of : List Bytes → ℕ
bytes_of [] = 0
bytes_of (line ∷ lines) = suc (length line) + bytes_of lines

bytes_of-snoc :
    (lines : List Bytes) (line : Bytes)
    → bytes_of (lines ++ line ∷ []) ≡ bytes_of lines + suc (length line)
bytes_of-snoc [] line = omega arith
bytes_of-snoc (l ∷ lines) line = omega (arith, bytes_of-snoc lines line)

pub record IsBounded (limit : ℕ) (page : Page) : Type 0 where
  pub line_bound : length page.lines ≤ limit
  pub byte_bound : bytes_of page.lines ≤ max_read_bytes

nonempty : (s : Bytes) → beq s [] ≡ false → 1 ≤ length s
unfolding beq
nonempty [] h = absurd (cc)
nonempty (c ∷ s) h = omega arith

split_line-IsBounded :
    (limit : ℕ) (lines : List Bytes) (content_bytes : ℕ) (c : Cursor)
    → suc (length lines) ≤ limit
    → bytes_of lines ≡ content_bytes
    → content_bytes ≤ max_read_bytes
    → IsBounded limit (split_line lines content_bytes c)
unfolding split_line
split_line-IsBounded limit lines n c room e fits = elim (Bool-cases (beq (split_part n c) [])) [
  | inl nothing ↦ rw nothing (record { line_bound = omega arith; byte_bound = omega arith })
  | inr something ↦
      let part = split_part n c in
      let short : length part ≤ max_read_bytes - n - length c.prefix - length ellipsis - 1 =
        unfold split_part in
        simp
          (safe_text_prefix-eq-bounded_prefix c.text
            (max_read_bytes - n - length c.prefix - length ellipsis - 1))
          (length-bounded_prefix c.text
            (max_read_bytes - n - length c.prefix - length ellipsis - 1)) in
      let l : length (c.prefix ++ (part ++ ellipsis)) ≡ length c.prefix + (length part + 3) =
        length-append c.prefix (part ++ ellipsis)
        ∙ ap (λ k. length c.prefix + k) (length-append part ellipsis) in
      let positive : 1 ≤ length part = nonempty part something in
      rw something (record {
        line_bound = rw (length-append lines ((c.prefix ++ (part ++ ellipsis)) ∷ [])) (omega arith);
        byte_bound =
            rw (bytes_of-snoc lines (c.prefix ++ (part ++ ellipsis)))
              (omega (arith, l, short, positive));
      })
]

-- The page that is returned, where its bounds are known of an equal one.
IsBounded-ok :
    (limit : ℕ) (page page' : Page)
    → ◌≡◌ {A = Result Bytes Page} (ok page') (ok page)
    → IsBounded limit page'
    → IsBounded limit page
IsBounded-ok limit page page' h b = let e : page' ≡ page = cc in subst (IsBounded limit) e b

-- The page that the loop gives has at most as many lines as are asked for, and at most 64 KiB.
pub read_loop-IsBounded :
    (w : Window) (scan_error : Option Bytes) (number : ℕ) (texts lines : List Bytes) (n : ℕ)
    (page : Page)
    → length lines ≤ w.limit
    → bytes_of lines ≡ n
    → n ≤ max_read_bytes
    → read_loop w scan_error number texts lines n ≡ ok page
    → IsBounded w.limit page
unfolding read_loop
read_loop-IsBounded w (some e) number [] lines n page room same fits h = absurd (cc)
read_loop-IsBounded w none number [] lines n page room same fits h =
    IsBounded-ok w.limit page _ h (record { line_bound = room; byte_bound = omega arith })
read_loop-IsBounded w scan_error number (text ∷ texts) lines n page room same fits h =
    elim (Bool-cases (leb (number + 1) w.offset)) [
      | inl before ↦
          read_loop-IsBounded w scan_error (number + 1) texts lines n page room same fits
            (rw (before, read_loop) at h)
      | inr from_here ↦ elim (Bool-cases (leb w.limit (length lines))) [
        | inl full ↦
            IsBounded-ok w.limit page
              (record { lines = lines; has_more = true; split_column = none })
              (rw (from_here, full, read_loop) at h)
              (record { line_bound = room; byte_bound = omega arith })
        | inr more ↦ go (enter_line w (number + 1) text) refl from_here more (λ c small k.
            read_loop-IsBounded w scan_error (number + 1) texts (lines ++ (c.prefix ++ c.text) ∷ [])
              (n + (length (c.prefix ++ c.text) + 1)) page
              (rw (length-append lines ((c.prefix ++ c.text) ∷ [])) (ground arith))
              (rw (bytes_of-snoc lines (c.prefix ++ c.text)) (omega arith)) small k)
      ]
    ]
  where
    go :
        (m : Result Bytes Cursor)
        → enter_line w (number + 1) text ≡ m
        → leb (number + 1) w.offset ≡ false
        → leb w.limit (length lines) ≡ false
        → ((c : Cursor)
            → n + (length (c.prefix ++ c.text) + 1) ≤ max_read_bytes
            → read_loop w scan_error
                (number + 1)
                texts
                (lines ++ (c.prefix ++ c.text) ∷ [])
                (n + (length (c.prefix ++ c.text) + 1))
              ≡ ok page
            → IsBounded w.limit page)
        → IsBounded w.limit page
    go (err x) e from_here more later = absurd (cc (rw (from_here, more, e, read_loop) at h))
    go (ok c) e from_here more later =
        elim (Bool-cases (ltb max_read_bytes (n + length (c.prefix ++ c.text) + 1))) [
          | inl long ↦
              IsBounded-ok w.limit page (split_line lines n c)
                (rw (from_here, more, e, long, read_loop) at h)
                (split_line-IsBounded w.limit lines n c (ground arith) same fits)
          | inr short ↦ later c (ground arith) (rw (from_here, more, e, short, read_loop) at h)
        ]

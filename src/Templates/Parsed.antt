-- ===== src/Templates/Parsed.antt =====
-- What a template's header is, and what its body is.
use zbplan.Templates.{SpaceOps, Header, header_loop, parse_dockerfile_template}
use zbplan.Prelude.{
  ℕ, suc, true, false, List, [], ◌∷◌, ◌++◌, append_assoc, Bytes, codes, beq, beq_iff, drop,
  drop-length-append, length, length-append, ◌≡◌, refl, sym, ap, ◌∙◌, Bool-cases, inl, inr, ◌⊎◌,
  arith, All, All-snoc,
}
use mathlib.Core.Path.{subst}
use zbplan.Strings.{has_prefix}
use zbplan.Strings.Split.{split, join}

module _ (ops : SpaceOps) where
  -- A blank line or a comment.
  pub IsHeaderLine : Bytes → Type 0
  IsHeaderLine line =
      (ops.trim_space line ≡ []) ⊎ (has_prefix (ops.trim_space line) (codes "#") ≡ true)

  -- Nothing, or a line that is neither blank nor a comment and what is below it.
  pub data IsBody : List Bytes → Type 0 where
    empty : IsBody []
    begins :
        {line : Bytes} {lines : List Bytes}
        → beq (ops.trim_space line) [] ≡ false
        → has_prefix (ops.trim_space line) (codes "#") ≡ false
        → IsBody (line ∷ lines)

  -- The lines are a header, and a body where the content starts.
  pub record IsParted (lines : List Bytes) (start : ℕ) : Type 0 where
    pub header : List Bytes
    pub body : List Bytes
    pub parts : lines ≡ header ++ body
    pub starts : start ≡ length header
    pub comments : All IsHeaderLine header
    pub below : IsBody body

  header_loop-IsParted :
      (above lines : List Bytes) (h : Header)
      → All IsHeaderLine above
      → h.content_start ≡ length above
      → IsParted (above ++ lines) (header_loop ops (length above) lines h).content_start
  unfolding header_loop IsHeaderLine
  header_loop-IsParted above [] h c e = record {
    header = above;
    body = [];
    parts = refl;
    starts = e;
    comments = c;
    below = empty;
  }
  header_loop-IsParted above (line ∷ lines) h c e =
      let one_more : suc (length above) ≡ length (above ++ line ∷ []) =
        omega (arith, length-append above (line ∷ [])) in
      let next : (h' : Header)
          → IsHeaderLine line
          → h'.content_start ≡ suc (length above)
          → IsParted (above ++ line ∷ lines)
              (header_loop ops (suc (length above)) lines h').content_start =
        λ h' l e'.
          subst (λ n. IsParted (above ++ line ∷ lines) (header_loop ops n lines h').content_start)
            (sym one_more)
            (subst
              (λ ls.
                IsParted ls (header_loop ops (length (above ++ line ∷ [])) lines h').content_start)
              (append_assoc above (line ∷ []) lines)
              (header_loop-IsParted (above ++ line ∷ []) lines h'
                (All-snoc IsHeaderLine above line c l) (e' ∙ one_more))) in
      elim (Bool-cases (beq (ops.trim_space line) [])) [
        | inl blank ↦ rw blank (next _ (inl ((beq_iff (ops.trim_space line) []).0 blank)) refl)
        | inr text ↦ elim (Bool-cases (has_prefix (ops.trim_space line) (codes "#"))) [
          | inl comment ↦ rw (text, comment) (next _ (inr comment) refl)
          | inr other ↦
              rw (text, other)
                (record {
                  header = above;
                  body = line ∷ lines;
                  parts = refl;
                  starts = refl;
                  comments = c;
                  below = begins text other;
                })
        ]
      ]

  body-drop :
      (lines : List Bytes) (start : ℕ) (p : IsParted lines start) → drop start lines ≡ p.body
  body-drop lines start p =
      ap (λ n. drop n lines) p.starts
      ∙ ap (drop (length p.header)) p.parts
      ∙ drop-length-append p.header p.body

  -- The text of a template is the lines from the first that is neither blank nor a comment, without the
  -- space around them; each line above it is blank or a comment.
  pub parse_dockerfile_template-IsParted :
      (name raw : Bytes)
      → (start : ℕ) × (p : IsParted (split b'\n' raw) start) × ((parse_dockerfile_template ops name
            raw).content
          ≡ ops.trim_space (join b'\n' p.body))
  unfolding parse_dockerfile_template
  parse_dockerfile_template-IsParted name raw =
      let p = header_loop-IsParted [] (split b'\n' raw) _ tt refl in
      (_, p, ap (λ ls. ops.trim_space (join b'\n' ls)) (body-drop (split b'\n' raw) _ p))

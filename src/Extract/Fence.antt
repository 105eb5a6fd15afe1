-- ===== src/Extract/Fence.antt =====
-- What is taken out of a reply.
use zbplan.Prelude.{
  ℕ, zero, suc, Bool, true, false, ◌&&◌, ◌||◌, Option, none, some, List, [], ◌∷◌, ◌++◌,
  append_assoc, Bytes, codes, drop, arith, ◌≡◌, refl, sym, ap, ◌∙◌, ◌==◌, if◌then◌else◌, Bool-cases,
  inl, inr,
}
use zbplan.Strings.{has_prefix, cut_prefix}
use zbplan.Extract.{
  fence, until_fence, fenced_body, find_fence, drop_word, drop_letter, extract_dockerfile,
  is_instruction, any_keyword_at, keyword_at, starts_word, is_word_byte,
}

-- The text has no backquote.
unfoldable pub no_fence : Bytes → Bool
no_fence [] = true
no_fence (c ∷ s) = zbplan.Prelude.not (c == b'`') && no_fence s

until_fence-append :
    (body rest : Bytes) → no_fence body ≡ true → until_fence (body ++ (fence ++ rest)) ≡ some body
unfolding until_fence no_fence has_prefix
until_fence-append [] rest h = refl
until_fence-append (c ∷ body) rest h =
    let ih = until_fence-append body rest (ground arith) in
    let other : (c == b'`') ≡ false = ground arith in rw (other, ih) refl

find_fence-append :
    (before body rest : Bytes)
    → no_fence before ≡ true
    → no_fence body ≡ true
    → find_fence (before ++ (fence ++ (codes "dockerfile\n" ++ (body ++ (fence ++ rest)))))
      ≡ some body
unfolding find_fence no_fence has_prefix
find_fence-append [] body rest h k =
    let e = until_fence-append body rest k in
    unfold fenced_body drop_word drop_letter cut_prefix in rw e refl
find_fence-append (c ∷ before) body rest h k =
    let ih = find_fence-append before body rest (ground arith) k in
    let other : (c == b'`') ≡ false = ground arith in rw (other, ih) refl

-- Of a reply with text around a fenced Dockerfile the fenced text is taken, trimmed, whatever follows
-- it: where neither it nor what stands before it has a backquote.
pub extract_dockerfile_fenced :
    (trim_space : Bytes → Bytes) (before body rest : Bytes)
    → no_fence before ≡ true
    → no_fence body ≡ true
    → extract_dockerfile trim_space
        (before ++ (codes "```dockerfile\n" ++ (body ++ (codes "```" ++ rest))))
      ≡ trim_space body
unfolding extract_dockerfile
extract_dockerfile_fenced trim_space before body rest h k =
    rw (find_fence-append before body rest h k, extract_dockerfile) refl

-- A comment line whose text is set off by a space, as in a syntax directive, does not count as the
-- start of a Dockerfile.
pub is_instruction_comment : (s : Bytes) → is_instruction (codes "# " ++ s) ≡ false
unfolding is_instruction any_keyword_at keyword_at drop_word drop_letter starts_word is_word_byte
    has_prefix cut_prefix
is_instruction_comment s = refl

-- ===== src/BuildEnv/Quoting.antt =====
-- Which references `rewriteReferences` renames: those outside single quotes, and none inside.
use zbplan.Prelude.{
  ℕ, suc, ◌+◌, ◌≡◌, ◌≢◌, refl, ap, ◌∙◌, Bool, true, false, not, Option, some, [], ◌∷◌, ◌++◌,
  append_assoc, Bytes, drop, length, drop-length-append, arith, ◌==◌, if◌then◌else◌, Bool-cases,
  inl, inr,
}
use zbplan.Strings.{contains_byte}
use zbplan.BuildEnv.Rename.{reference, rewrite_from-drop}
use zbplan.BuildEnv.{
  is_name_byte, all_name_bytes, valid_arg_name, take_name, Rewriter, toggle_single, toggle_double,
  starts_braced, behind_brace, renamed, reference_length, rewrite_from, rewrite_references,
}

-- No name goes on at the start of the text.
abbrev pub EndsName : Bytes → Type 0
EndsName [] = Unit
EndsName (c ∷ s) = is_name_byte c ≡ false

take_name-append :
    (name rest : Bytes)
    → all_name_bytes name ≡ true
    → EndsName rest
    → take_name (name ++ rest) ≡ name
unfolding take_name all_name_bytes
take_name-append [] [] h e = refl
take_name-append [] (c ∷ rest) h e = rw e refl
take_name-append (c ∷ name) rest h e = ground (arith, take_name-append name rest, e)

valid_arg_name-all :
    (name rest : Bytes)
    → valid_arg_name name ≡ true
    → (all_name_bytes name ≡ true) × (starts_braced (name ++ rest) ≡ false)
unfolding valid_arg_name all_name_bytes starts_braced is_name_byte
valid_arg_name-all [] rest h = absurd (cc)
valid_arg_name-all (c ∷ name) rest h = ground arith

module _ (r : Rewriter) (name alias rest : Bytes) (valid : valid_arg_name name ≡ true)
    (e : EndsName rest) where
  behind : Bool → Bytes
  behind braced = (if braced then b'{' ∷ [] else []) ++ (name ++ rest)

  reference_parts :
      (braced : Bool)
      → (starts_braced (behind braced) ≡ braced)
        × (take_name (behind_brace (behind braced)) ≡ name)
        × (drop (reference_length (behind braced)) (behind braced) ≡ rest)
  unfolding reference_length behind
  reference_parts true =
      let (all, _) = valid_arg_name-all name rest valid in
      let t = take_name-append name rest all e in
      let l : 1 + length name ≡ suc (length name) = omega arith in
      (refl, unfold behind_brace in t, rw (t, l) (drop-length-append name rest))
  reference_parts false =
      let (all, plain) = valid_arg_name-all name rest valid in
      let t = take_name-append name rest all e in
      let l : 0 + length name ≡ length name = omega arith in
      (plain, unfold behind_brace in rw plain t, rw (plain, t, l) (drop-length-append name rest))

  rewrite_from_reference :
      (braced double : Bool)
      → r.bindings name ≡ some alias
      → r.escape ≢ b'$'
      → rewrite_from r false double 0 (b'$' ∷ behind braced)
        ≡ renamed braced alias ++ rewrite_from r false double 0 rest
  unfolding rewrite_from toggle_single toggle_double
  rewrite_from_reference braced double bound other =
      let (brace, same, left) = reference_parts braced in
      let e : (b'$' == r.escape) ≡ false = ground arith in
      let go : rewrite_from r false double (reference_length (behind braced)) (behind braced)
          ≡ rewrite_from r false double 0 rest =
        rewrite_from-drop r false double (reference_length (behind braced)) (behind braced)
        ∙ ap (rewrite_from r false double 0) left in
      rw (e, same, bound, brace) (ap (λ t. renamed braced alias ++ t) go)

-- A reference to a bound name, with or without a brace, at the start of the text is renamed to the
-- alias, and what follows it is rewritten on its own: for a valid name that ends where the text goes
-- on, and an escape that is no dollar sign.
pub rewrite_references-reference :
    (braced : Bool) (name alias rest : Bytes) (bindings : Bytes → Option Bytes) (escape : ℕ)
    (raw : Bool)
    → valid_arg_name name ≡ true
    → EndsName rest
    → bindings name ≡ some alias
    → escape ≢ b'$'
    → rewrite_references (reference braced name ++ rest) bindings escape raw
      ≡ renamed braced alias ++ rewrite_references rest bindings escape raw
unfolding rewrite_references behind
rewrite_references-reference braced name alias rest bindings escape raw valid e bound other =
    let r : Rewriter = record { bindings = bindings; escape = escape; raw = raw } in
    ap (λ (l : Bytes). rewrite_from r false false 0 (b'$' ∷ l))
      (append_assoc (if braced then b'{' ∷ [] else []) name rest)
    ∙ rewrite_from_reference r name alias rest valid e braced false bound other

-- Inside single quotes, where the text is not raw, only a single quote changes the state.
toggles_single :
    (r : Rewriter) (c : ℕ)
    → (c == b'\'') ≡ false
    → (toggle_single r c true false ≡ true) × (toggle_double r c true false ≡ false)
unfolding toggle_single toggle_double
toggles_single r c h = ground arith

toggles_quote :
    (r : Rewriter) (single : Bool)
    → r.raw ≡ false
    → (toggle_single r b'\'' single false ≡ not single)
      × (toggle_double r b'\'' (not single) false ≡ false)
unfolding toggle_single toggle_double
toggles_quote r single h = ground arith

module _ (r : Rewriter) (rest : Bytes) where
  rewrite_from_quote :
      (single : Bool) (s : Bytes)
      → r.raw ≡ false
      → r.escape ≢ b'\''
      → rewrite_from r single false 0 (b'\'' ∷ s) ≡ b'\'' ∷ rewrite_from r (not single) false 0 s
  unfolding rewrite_from
  rewrite_from_quote single s cooked other =
      let (t₁, t₂) = toggles_quote r single cooked in
      let e : (b'\'' == r.escape) ≡ false = ground arith in rw (e, t₁, t₂) refl

  rewrite_from_inside :
      (c : ℕ) (s : Bytes)
      → (c == b'\'') ≡ false
      → rewrite_from r true false 0 (c ∷ s) ≡ c ∷ rewrite_from r true false 0 s
  unfolding rewrite_from
  rewrite_from_inside c s h =
      let (t₁, t₂) = toggles_single r c h in
      elim (Bool-cases (c == r.escape)) [
        | inl e ↦ rw e (elim (Bool-cases (c == b'$')) [
          | inl d ↦ rw (d, t₁, t₂) refl
          | inr d ↦ rw (d, t₁, t₂) refl
        ])
        | inr e ↦ rw e (elim (Bool-cases (c == b'$')) [
          | inl d ↦ rw (d, t₁, t₂) refl
          | inr d ↦ rw (d, t₁, t₂) refl
        ])
      ]

  -- Inside single quotes nothing is renamed, up to the closing quote.
  rewrite_from_single :
      (q : Bytes)
      → r.raw ≡ false
      → r.escape ≢ b'\''
      → contains_byte b'\'' q ≡ false
      → rewrite_from r true false 0 (q ++ b'\'' ∷ rest)
        ≡ q ++ b'\'' ∷ rewrite_from r false false 0 rest
  rewrite_from_single [] cooked other h = rewrite_from_quote true rest cooked other
  rewrite_from_single (c ∷ q) cooked other h =
      rewrite_from_inside c (q ++ b'\'' ∷ rest) (unfold contains_byte in ground arith)
      ∙ ap (◌∷◌ c) (rewrite_from_single q cooked other (unfold contains_byte in ground arith))

-- Single-quoted text at the start is kept as it is, references included, and what follows the closing
-- quote is rewritten on its own: where quotes count, and the escape is no single quote.
pub rewrite_references_single_quoted :
    (q rest : Bytes) (bindings : Bytes → Option Bytes) (escape : ℕ)
    → contains_byte b'\'' q ≡ false
    → escape ≢ b'\''
    → rewrite_references (b'\'' ∷ (q ++ b'\'' ∷ rest)) bindings escape false
      ≡ b'\'' ∷ (q ++ b'\'' ∷ rewrite_references rest bindings escape false)
unfolding rewrite_references
rewrite_references_single_quoted q rest bindings escape h other =
    let r : Rewriter = record { bindings = bindings; escape = escape; raw = false } in
    rewrite_from_quote r rest false (q ++ b'\'' ∷ rest) refl other
    ∙ ap (◌∷◌ b'\'') (rewrite_from_single r rest q refl other h)

-- ===== src/BuildEnv/Quotes.antt =====
-- What the loops over Dockerfile text rely on: quotes, escapes, and the bytes of a name.
use zbplan.Prelude.{
  ℕ, ◌≤◌, ◌≡◌, ◌≢◌, ◌⊎◌, refl, Bool, true, false, not, ◌&&◌, [], ◌∷◌, ◌++◌, Bytes, All, ap, ◌==◌,
  if◌then◌else◌, Bool-cases, inl, inr, arith, drop, length, ◌∙◌, ◌+◌, suc,
}
use zbplan.BuildEnv.{
  is_name_byte, take_name, Rewriter, toggle_single, toggle_double, starts_braced, behind_brace,
  is_empty, reference_length, next_quote,
}

-- Where a byte stands.
pub data Quote : Type 0 where
  outside in_single in_double : Quote

-- Behind a byte that is not escaped; in a raw text quotes do not count.
unfoldable pub behind_byte : (raw : Bool) → Quote → ℕ → Quote
behind_byte true q c = q
behind_byte false outside c =
    if c == b'\'' then in_single else if c == b'"' then in_double else outside
behind_byte false in_single c = if c == b'\'' then outside else in_single
behind_byte false in_double c = if c == b'"' then outside else in_double

-- A byte is an escape where another byte follows and it is not in single quotes.
abbrev pub IsEscape : ℕ → Quote → ℕ → Bytes → Type 0
IsEscape escape q c s = (c ≡ escape) × (q ≢ in_single) × (s ≢ [])

abbrev pub single_of : Quote → Bool
single_of outside = false
single_of in_single = true
single_of in_double = false

abbrev pub double_of : Quote → Bool
double_of outside = false
double_of in_single = false
double_of in_double = true

pub in_single_lem : (q : Quote) → (single_of q ≡ true) → q ≡ in_single
in_single_lem outside h = absurd (cc)
in_single_lem in_single h = refl
in_single_lem in_double h = absurd (cc)

pub not_single_lem : (q : Quote) → (single_of q ≡ false) → q ≢ in_single
not_single_lem q h e = absurd (cc (ap single_of e, h))

-- The test for an escape.
pub is_escape_lem :
    (escape : ℕ) (q : Quote) (c : ℕ) (s : Bytes)
    → (c == escape && (not (single_of q) && not (is_empty s))) ≡ false
    → ¬ IsEscape escape q c s
is_escape_lem escape q c [] h (e, out, more) = more refl
is_escape_lem escape outside c (d ∷ s) h (e, out, more) = ground arith
is_escape_lem escape in_double c (d ∷ s) h (e, out, more) = ground arith
is_escape_lem escape in_single c (d ∷ s) h (e, out, more) = out refl

-- The two flags of `rewriteReferences` behind a byte.
pub toggles :
    (r : Rewriter) (q : Quote) (c : ℕ)
    → (toggle_single r c (single_of q) (double_of q) ≡ single_of (behind_byte r.raw q c))
      × (toggle_double r c (toggle_single r c (single_of q) (double_of q)) (double_of q)
          ≡ double_of (behind_byte r.raw q c))
unfolding toggle_single toggle_double behind_byte
toggles r q c = go r.raw q refl
  where
    go :
        (raw : Bool) (q : Quote)
        → r.raw ≡ raw
        → (toggle_single r c (single_of q) (double_of q) ≡ single_of (behind_byte raw q c))
          × (toggle_double r c (toggle_single r c (single_of q) (double_of q)) (double_of q)
              ≡ double_of (behind_byte raw q c))
    go true outside e = ground arith
    go true in_single e = ground arith
    go true in_double e = ground arith
    go false outside e = ground arith
    go false in_single e = ground arith
    go false in_double e = ground arith

-- The variable `quote` of `materializeExpressions`.
abbrev pub quote_of : Quote → ℕ
quote_of outside = 0
quote_of in_single = b'\''
quote_of in_double = b'"'

pub quote_of-single : (q : Quote) → (quote_of q == b'\'') ≡ single_of q
quote_of-single outside = refl
quote_of-single in_single = refl
quote_of-single in_double = refl

pub quote_of-outside : (q : Quote) → q ≡ outside → (quote_of q == 0) ≡ true
quote_of-outside q h = rw h refl

pub quote_of-zero : (q : Quote) → (quote_of q == 0) ≡ true → q ≡ outside
quote_of-zero outside h = refl
quote_of-zero in_single h = absurd (cc)
quote_of-zero in_double h = absurd (cc)

pub next_quote_lem :
    (q : Quote) (c : ℕ) → next_quote (quote_of q) c ≡ quote_of (behind_byte false q c)
unfolding next_quote behind_byte
next_quote_lem outside c = ground arith
next_quote_lem in_single c = ground arith
next_quote_lem in_double c = ground arith

-- A letter, a digit or an underscore.
abbrev pub IsNameByte : ℕ → Type 0
IsNameByte c =
    (c ≡ b'_')
    ⊎ (((b'a' ≤ c) × (c ≤ b'z')) ⊎ (((b'A' ≤ c) × (c ≤ b'Z')) ⊎ ((b'0' ≤ c) × (c ≤ b'9'))))

is_name_byte-IsNameByte : (c : ℕ) → is_name_byte c ≡ true → IsNameByte c
unfolding is_name_byte
is_name_byte-IsNameByte c h = ground arith

not-IsNameByte : (c : ℕ) → is_name_byte c ≡ false → ¬ IsNameByte c
unfolding is_name_byte
not-IsNameByte c h k = ground (arith, k)

-- No name goes on at the start of the text.
abbrev pub EndsName : Bytes → Type 0
EndsName [] = Unit
EndsName (c ∷ s) = ¬ IsNameByte c

take_name-All : (s : Bytes) → All IsNameByte (take_name s)
unfolding take_name
take_name-All [] = tt
take_name-All (c ∷ s) = elim (Bool-cases (is_name_byte c)) [
  | inl name ↦ rw name (is_name_byte-IsNameByte c name, take_name-All s)
  | inr other ↦ rw other tt
]

take_name-append-drop : (s : Bytes) → s ≡ take_name s ++ drop (length (take_name s)) s
unfolding take_name
take_name-append-drop [] = refl
take_name-append-drop (c ∷ s) = elim (Bool-cases (is_name_byte c)) [
  | inl name ↦ rw name (ap (◌∷◌ c) (take_name-append-drop s))
  | inr other ↦ rw other refl
]

drop-EndsName : (s : Bytes) → EndsName (drop (length (take_name s)) s)
unfolding take_name
drop-EndsName [] = tt
drop-EndsName (c ∷ s) = elim (Bool-cases (is_name_byte c)) [
  | inl name ↦ rw name (drop-EndsName s)
  | inr other ↦ rw other (not-IsNameByte c other)
]

abbrev pub opening : Bool → Bytes
opening braced = if braced then b'{' ∷ [] else []

-- A text starts with the rest of a reference, an opening brace where it has one and the longest name.
pub record IsReference (braced : Bool) (name rest s : Bytes) : Type 0 where
  pub text : s ≡ opening braced ++ (name ++ rest)
  pub named : All IsNameByte name
  pub ends : EndsName rest
  pub no_brace : braced ≡ false → (t : Bytes) → s ≢ b'{' ∷ t

-- What the loop takes for a reference is one.
pub taken-IsReference :
    (s : Bytes)
    → IsReference (starts_braced s) (take_name (behind_brace s)) (drop (reference_length s) s) s
unfolding reference_length starts_braced behind_brace take_name
taken-IsReference [] = record {
  text = refl;
  named = take_name-All [];
  ends = tt;
  no_brace = λ h t e. absurd (cc);
}
taken-IsReference (c ∷ s) = elim (Bool-cases (c == b'{')) [
  | inl brace ↦
      let n : 1 + length (take_name s) ≡ suc (length (take_name s)) = omega arith in
      let b : c ≡ b'{' = ground arith in
      rw (brace, n)
        (record {
          text =
              ap (◌∷◌ c) (take_name-append-drop s)
              ∙ ap (λ k. k ∷ (take_name s ++ drop (length (take_name s)) s)) b;
          named = take_name-All s;
          ends = drop-EndsName s;
          no_brace = λ h t e. absurd (cc);
        })
  | inr other ↦
      let n : 0 + length (take_name (c ∷ s)) ≡ length (take_name (c ∷ s)) = omega arith in
      rw (other, n)
        (record {
          text = take_name-append-drop (c ∷ s);
          named = take_name-All (c ∷ s);
          ends = drop-EndsName (c ∷ s);
          no_brace = λ h t e. let same : c ≡ b'{' = cc in ground arith;
        })
]

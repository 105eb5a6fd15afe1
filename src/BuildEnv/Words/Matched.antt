-- ===== src/BuildEnv/Words/Matched.antt =====
-- The match of `materializeExpressions`: which expressions are words at a place, and the longest one.
use zbplan.Prelude.{
  ℕ, ◌≤◌, ◌≡◌, ◌⊎◌, refl, sym, true, ◌&&◌, Option, none, some, List, [], ◌∷◌, ◌++◌, Bytes, Among,
  drop, length, arith, ltb, ◌==◌, if◌then◌else◌, Bool-cases, inl, inr, ap, ◌∙◌, false,
  drop-length-append,
}
use zbplan.Strings.{has_prefix, has_prefix-append, contains_byte}
use mathlib.Core.Path.{subst}
use zbplan.BuildEnv.{Expression, word_starts, word_at, boundary, word_ends, longer, best_match}

pub best_match-Among :
    (exprs : List Expression) (best : Option Expression) (s : Bytes) (m : Expression)
    → best_match exprs best s ≡ some m
    → (Among m exprs × (word_at m s ≡ true)) ⊎ (best ≡ some m)
unfolding best_match
best_match-Among [] best s m h = inr h
best_match-Among (expr ∷ exprs) best s m h =
    elim (Bool-cases (word_at expr s && longer expr best)) [
      | inl taken ↦ elim (best_match-Among exprs (some expr) s m (rw taken at h)) [
        | inl (among, word) ↦ inl (inr among, word)
        | inr e ↦ inl (inl (cc), ground arith)
      ]
      | inr left ↦ elim (best_match-Among exprs best s m (rw left at h)) [
        | inl (among, word) ↦ inl (inr among, word)
        | inr e ↦ inr e
      ]
    ]

-- One round of the loop over the expressions keeps the longer one.
longer_bound :
    (expr : Expression) (best : Option Expression) (s : Bytes) (n : ℕ)
    → ((b : Expression)
        → (if word_at expr s && longer expr best then some expr else best) ≡ some b
        → length b.source ≤ n)
    → (word_at expr s ≡ true → length expr.source ≤ n)
      × ((b : Expression) → best ≡ some b → length b.source ≤ n)
unfolding longer
longer_bound expr none s n h = (λ w. h expr (ground arith), λ b e. absurd (cc))
longer_bound expr (some a) s n h =
    elim (Bool-cases (word_at expr s && ltb (length a.source) (length expr.source))) [
      | inl taken ↦ let le = h expr (rw taken refl) in (λ w. le, λ b e. ground (arith, le))
      | inr left ↦
          let le = h a (rw left refl) in (λ w. ground (arith, le), λ b e. ground (arith, le))
    ]

-- Nothing that matches is longer.
pub best_match-longest :
    (exprs : List Expression) (best : Option Expression) (s : Bytes) (m : Expression)
    → best_match exprs best s ≡ some m
    → ((expr : Expression)
        → Among expr exprs
        → word_at expr s ≡ true
        → length expr.source ≤ length m.source)
      × ((b : Expression) → best ≡ some b → length b.source ≤ length m.source)
unfolding best_match
best_match-longest [] best s m h = (λ expr a w. absurd a, λ b e. ground arith)
best_match-longest (expr ∷ exprs) best s m h =
    let best' = if word_at expr s && longer expr best then some expr else best in
    let (rest, kept) = best_match-longest exprs best' s m h in
    let (here, before) = longer_bound expr best s (length m.source) kept in
    (
      λ e among w. elim among [
        | inl same ↦ subst (λ x. length x.source ≤ length m.source) same (here (rw same w))
        | inr later ↦ rest e later w
      ],
      before,
    )

pub best_match-none :
    (exprs : List Expression) (best : Option Expression) (s : Bytes)
    → best_match exprs best s ≡ none
    → (best ≡ none) × ((e : Expression) → Among e exprs → word_at e s ≡ false)
unfolding best_match longer
best_match-none [] best s h = (h, λ e a. absurd a)
best_match-none (expr ∷ exprs) none s h = elim (Bool-cases (word_at expr s && true)) [
  | inl taken ↦ absurd (cc ((best_match-none exprs (some expr) s (rw taken at h)).0))
  | inr left ↦
      let (_, rest) = best_match-none exprs none s (rw left at h) in
      (
        refl,
        λ e among. elim among [
          | inl same ↦ rw (sym same) (ground arith)
          | inr later ↦ rest e later
        ],
      )
]
best_match-none (expr ∷ exprs) (some b) s h =
    elim (Bool-cases (word_at expr s && longer expr (some b))) [
      | inl taken ↦ absurd (cc ((best_match-none exprs (some expr) s (rw taken at h)).0))
      | inr left ↦ absurd (cc ((best_match-none exprs (some b) s (rw left at h)).0))
    ]

-- A space, a tab, the end of a line, an equals sign, a comma or a square bracket.
abbrev pub IsBoundary : ℕ → Type 0
IsBoundary c = Among c (b' ' ∷ b'\t' ∷ b'\r' ∷ b'\n' ∷ b'=' ∷ b',' ∷ b'[' ∷ b']' ∷ [])

-- A word may start behind a byte, or at the start of the text.
abbrev pub StartsWord : Option ℕ → Type 0
StartsWord none = Unit
StartsWord (some c) = IsBoundary c

-- A word may end before a text.
abbrev pub EndsWord : Bytes → Type 0
EndsWord [] = Unit
EndsWord (c ∷ s) = IsBoundary c

-- An expression is a word at the start of a text, and the rest follows it.
pub record IsWord (expr : Expression) (s rest : Bytes) : Type 0 where
  pub text : s ≡ expr.source ++ rest
  pub ends : EndsWord rest

contains_byte-Among : (c : ℕ) (s : Bytes) → contains_byte c s ≡ true → Among c s
unfolding contains_byte
contains_byte-Among c [] h = absurd (cc)
contains_byte-Among c (x ∷ s) h = elim (Bool-cases (x == c)) [
  | inl same ↦ inl (ground arith)
  | inr other ↦ inr (contains_byte-Among c s (ground arith))
]

not_contains_byte-Among : (c : ℕ) (s : Bytes) → contains_byte c s ≡ false → ¬ Among c s
unfolding contains_byte
not_contains_byte-Among c [] h a = a
not_contains_byte-Among c (x ∷ s) h (inl e) = ground arith
not_contains_byte-Among c (x ∷ s) h (inr a) = not_contains_byte-Among c s (ground arith) a

boundary-IsBoundary : (c : ℕ) → boundary c ≡ true → IsBoundary c
unfolding boundary
boundary-IsBoundary c h = contains_byte-Among c _ h

not_boundary-IsBoundary : (c : ℕ) → boundary c ≡ false → ¬ IsBoundary c
unfolding boundary
not_boundary-IsBoundary c h = not_contains_byte-Among c _ h

pub word_starts-StartsWord : (before : Option ℕ) → word_starts before ≡ true → StartsWord before
unfolding word_starts
word_starts-StartsWord none h = tt
word_starts-StartsWord (some c) h = boundary-IsBoundary c h

pub not_word_starts-StartsWord :
    (before : Option ℕ) → word_starts before ≡ false → ¬ StartsWord before
unfolding word_starts
not_word_starts-StartsWord none h a = absurd (cc)
not_word_starts-StartsWord (some c) h a = not_boundary-IsBoundary c h a

word_ends-EndsWord : (s : Bytes) → word_ends s ≡ true → EndsWord s
unfolding word_ends
word_ends-EndsWord [] h = tt
word_ends-EndsWord (c ∷ s) h = boundary-IsBoundary c h

EndsWord-word_ends : (s : Bytes) → EndsWord s → word_ends s ≡ true
unfolding word_ends
EndsWord-word_ends [] h = refl
EndsWord-word_ends (c ∷ s) h = elim (Bool-cases (boundary c)) [
  | inl here ↦ here
  | inr other ↦ absurd (not_boundary-IsBoundary c other h)
]

has_prefix-eq :
    (s prefix : Bytes) → has_prefix s prefix ≡ true → s ≡ prefix ++ drop (length prefix) s
unfolding has_prefix
has_prefix-eq s [] h = refl
has_prefix-eq [] (c ∷ prefix) h = absurd (cc)
has_prefix-eq (x ∷ s) (c ∷ prefix) h =
    let same : x ≡ c = ground arith in
    ap (◌∷◌ x) (has_prefix-eq s prefix (ground arith))
    ∙ ap (λ k. k ∷ (prefix ++ drop (length prefix) s)) same

pub word_at-IsWord :
    (expr : Expression) (s : Bytes)
    → word_at expr s ≡ true
    → IsWord expr s (drop (length expr.source) s)
unfolding word_at
word_at-IsWord expr s h = record {
  text = has_prefix-eq s expr.source (ground arith);
  ends = word_ends-EndsWord (drop (length expr.source) s) (ground arith);
}

pub IsWord-word_at :
    (expr : Expression) (s rest : Bytes) → IsWord expr s rest → word_at expr s ≡ true
unfolding word_at
IsWord-word_at expr s rest w =
    let p = has_prefix-append expr.source rest in
    let d = drop-length-append expr.source rest in
    let e = EndsWord-word_ends rest w.ends in rw (w.text, p, d, e) refl

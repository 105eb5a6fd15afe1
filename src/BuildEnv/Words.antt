-- ===== src/BuildEnv/Words.antt =====
-- `materializeExpressions` replaces the whole words that are expressions, outside quotes and where they
-- are not escaped, and nothing else.
pub mod Matched
use zbplan.Prelude.{
  ℕ, zero, suc, ◌-◌, ◌≤◌, ◌<◌, ◌≡◌, ◌⊎◌, refl, sym, true, not, ◌&&◌, Option, none, some, List, [],
  ◌∷◌, ◌++◌, Bytes, Among, take, drop, length, arith, ltb, ◌==◌, if◌then◌else◌, Bool-cases,
  Option-cases, inl, inr, ap, ◌∙◌, false, drop-length-append, append_assoc, Bool, ◌≢◌, codes, ◌+◌,
}
use zbplan.Strings.{has_prefix, has_prefix-append, contains_byte}
use mathlib.Core.Path.{subst}
use zbplan.BuildEnv.Words.Matched.{
  IsWord, IsWord-word_at, StartsWord, best_match-Among, best_match-longest, best_match-none,
  not_word_starts-StartsWord, word_at-IsWord, word_starts-StartsWord,
}
use zbplan.BuildEnv.Quotes.{
  Quote, outside, in_single, behind_byte, IsEscape, single_of, not_single_lem, is_escape_lem,
  quote_of, quote_of-single, quote_of-outside, quote_of-zero, next_quote_lem,
}
use zbplan.BuildEnv.{
  Expression, word_starts, word_at, boundary, word_ends, longer, best_match, word_text, next_quote,
  match_at, materialize_from, materialize_expressions, is_empty,
}

-- The byte before what is left, after `skip` bytes.
abbrev pub last_before : ℕ → Option ℕ → Bytes → Option ℕ
last_before zero before s = before
last_before (suc skip) before [] = before
last_before (suc skip) before (c ∷ s) = last_before skip (some c) s

-- A reference to the alias of an expression, in double quotes where it was.
abbrev pub written : Expression → Bytes
written expr =
    if expr.unquoted
    then codes "${" ++ (expr.alias ++ codes "}")
    else codes "\"${" ++ (expr.alias ++ codes "}\"")

-- What a text becomes behind the byte `before`, inside or outside quotes, with the aliases that are used.
-- An escape and the byte behind it are kept. Outside quotes, and behind a boundary, the longest expression
-- that stands before a boundary is replaced; every other byte is kept, where no expression is a word.
pub data Materializes (exprs : List Expression) (escape : ℕ)
    : Quote → Option ℕ → Bytes → Bytes × List Bytes → Type 0 where
  done : (q : Quote) (before : Option ℕ) → Materializes exprs escape q before [] ([], [])
  escaped :
      (q : Quote) (before : Option ℕ) (c d : ℕ) {s t : Bytes} {used : List Bytes}
      → c ≡ escape
      → q ≢ in_single
      → Materializes exprs escape q (some d) s (t, used)
      → Materializes exprs escape q before (c ∷ d ∷ s) (c ∷ d ∷ t, used)
  keep :
      (q : Quote) (before : Option ℕ) (c : ℕ) {s t : Bytes} {used : List Bytes}
      → ¬ IsEscape escape q c s
      → (q ≡ outside
          → StartsWord before
          → (e : Expression) (rest : Bytes) → Among e exprs
          → ¬ IsWord e (c ∷ s) rest)
      → Materializes exprs escape (behind_byte false q c) (some c) s (t, used)
      → Materializes exprs escape q before (c ∷ s) (c ∷ t, used)
  word :
      (before : Option ℕ) (c : ℕ) (expr : Expression) (rest : Bytes) {s t : Bytes}
      {used : List Bytes}
      → ¬ IsEscape escape outside c s
      → StartsWord before
      → Among expr exprs
      → IsWord expr (c ∷ s) rest
      → ((e : Expression) (rest' : Bytes)
          → Among e exprs
          → IsWord e (c ∷ s) rest'
          → length e.source ≤ length expr.source)
      → Materializes exprs escape outside
          (last_before (length expr.source) before (c ∷ s))
          rest
          (t, used)
      → Materializes exprs escape outside before (c ∷ s) (written expr ++ t, expr.alias ∷ used)

word_text-written : (expr : Expression) → word_text expr ≡ written expr
unfolding word_text
word_text-written expr = elim (Bool-cases (expr.unquoted)) [
  | inl plain ↦ rw plain refl
  | inr quoted ↦ rw quoted refl
]

module _ (exprs : List Expression)
    (nonempty : (e : Expression) → Among e exprs → 0 < length e.source) (escape : ℕ) where
  abbrev Makes : Quote → Option ℕ → Bytes → Bytes × List Bytes → Type 0
  Makes q before s p = Materializes exprs escape q before s p

  escape_at :
      (q : Quote) (before : Option ℕ) (c : ℕ) (s : Bytes) (p : Bytes × List Bytes)
      → (c == escape && (not (single_of q) && not (is_empty s))) ≡ true
      → Makes q (last_before 1 (some c) s) (drop 1 s) p
      → Makes q before (c ∷ s) (c ∷ (take 1 s ++ p.0), p.1)
  escape_at q before c [] p h d = absurd (ground arith)
  escape_at q before c (x ∷ s) p h d =
      escaped q before c x (ground arith) (not_single_lem q (ground arith)) d

  unmatched :
      (q : Quote) (before : Option ℕ) (s : Bytes)
      → match_at exprs (quote_of q) before s ≡ none
      → q ≡ outside
      → StartsWord before
      → (e : Expression) (rest : Bytes) → Among e exprs
      → ¬ IsWord e s rest
  unfolding match_at
  unmatched q before s h out starts e rest among w = elim (Bool-cases (word_starts before)) [
    | inr other ↦ not_word_starts-StartsWord before other starts
    | inl here ↦
        let found : best_match exprs none s ≡ none = rw (quote_of-outside q out, here) at h in
        absurd (cc ((best_match-none exprs none s found).1 e among, IsWord-word_at e s rest w))
  ]

  matched :
      (q : Quote) (before : Option ℕ) (c : ℕ) (s : Bytes) (expr : Expression)
      (p : Bytes × List Bytes)
      → ¬ IsEscape escape q c s
      → match_at exprs (quote_of q) before (c ∷ s) ≡ some expr
      → Makes q
          (last_before (length expr.source - 1) (some c) s)
          (drop (length expr.source - 1) s)
          p
      → Makes q before (c ∷ s) (word_text expr ++ p.0, expr.alias ∷ p.1)
  unfolding match_at
  matched q before c s expr p no_escape e d =
      let out : q ≡ outside = quote_of-zero q (ground arith) in
      let starts : word_starts before ≡ true = ground arith in
      let found : best_match exprs none (c ∷ s) ≡ some expr = ground arith in
      elim (best_match-Among exprs none (c ∷ s) expr found) [
        | inr never ↦ absurd (cc)
        | inl (among, w) ↦
            let n : length expr.source ≡ suc (length expr.source - 1) =
              omega (arith, nonempty expr among) in
            let longest = (best_match-longest exprs none (c ∷ s) expr found).0 in
            let d' : Makes outside (last_before (length expr.source) before (c ∷ s))
                (drop (length expr.source) (c ∷ s)) p =
              subst (λ k. Makes outside (last_before k before (c ∷ s)) (drop k (c ∷ s)) p) (sym n)
                (subst
                  (λ k.
                    Makes k (last_before (length expr.source - 1) (some c) s)
                      (drop (length expr.source - 1) s) p)
                  out d) in
            subst (λ l. Makes q before (c ∷ s) (l ++ p.0, expr.alias ∷ p.1))
              (sym (word_text-written expr))
              (subst (λ k. Makes k before (c ∷ s) (written expr ++ p.0, expr.alias ∷ p.1)) (sym out)
                (word before c expr (drop (length expr.source) (c ∷ s))
                  (subst (λ k. ¬ IsEscape escape k c s) out no_escape)
                  (word_starts-StartsWord before starts) among (word_at-IsWord expr (c ∷ s) w)
                  (λ other rest' a w'. longest other a (IsWord-word_at other (c ∷ s) rest' w')) d'))
      ]

  materialize_from-Materializes :
      (q : Quote) (before : Option ℕ) (skip : ℕ) (s : Bytes)
      → Makes q
          (last_before skip before s)
          (drop skip s)
          (materialize_from exprs escape (quote_of q) before skip s)
  unfolding materialize_from
  materialize_from-Materializes q before zero [] = done q before
  materialize_from-Materializes q before (suc skip) [] = done q before
  materialize_from-Materializes q before (suc skip) (c ∷ s) =
      materialize_from-Materializes q (some c) skip s
  materialize_from-Materializes q before zero (c ∷ s) =
      let single = quote_of-single q in
      elim (Bool-cases (c == escape && (not (single_of q) && not (is_empty s)))) [
        | inl bare ↦
            rw (single, bare)
              (escape_at q before c s _ bare (materialize_from-Materializes q (some c) 1 s))
        | inr unescaped ↦
            let no_escape = is_escape_lem escape q c s unescaped in
            elim (Option-cases (match_at exprs (quote_of q) before (c ∷ s))) [
              | inl none_there ↦
                  rw (single, unescaped, none_there, next_quote_lem q c)
                    (keep q before c no_escape (unmatched q before (c ∷ s) none_there)
                      (materialize_from-Materializes (behind_byte false q c) (some c) 0 s))
              | inr (expr, found) ↦
                  rw (single, unescaped, found)
                    (matched q before c s expr _ no_escape found
                      (materialize_from-Materializes q (some c) (length expr.source - 1) s))
            ]
      ]

-- Where no expression is empty: the text that comes out is the source, where outside quotes the longest
-- expression that stands between boundaries or the ends of the text is replaced by `${`, its alias and
-- `}`, in double quotes where the expression is not unquoted, and every other byte is kept: where no
-- expression is such a word, in quotes, and an escape with the byte behind it. The aliases that are
-- reported as used are those of the words that are replaced, in order.
pub materialize_expressions-Materializes :
    (source : Bytes) (exprs : List Expression) (escape : ℕ)
    → ((e : Expression) → Among e exprs → 0 < length e.source)
    → Materializes exprs escape outside none source (materialize_expressions source exprs escape)
unfolding materialize_expressions
materialize_expressions-Materializes source exprs escape nonempty =
    materialize_from-Materializes exprs nonempty escape outside none 0 source

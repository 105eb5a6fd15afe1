-- ===== src/BuildEnv.antt =====
-- pkg/buildenv/buildenv.go: variable references in Dockerfile text. `rewriteReferences` renames them
-- and `materializeExpressions` replaces whole words, without evaluating anything. `Prepare`, which
-- drives both over BuildKit's parse tree, is not modelled.
pub mod Quotes
pub mod Rename
pub mod Quoting
pub mod Words
pub mod Frontend
use zbplan.Prelude.{
  ℕ, zero, suc, ◌+◌, ◌-◌, Bool, true, false, not, ◌&&◌, ◌||◌, Option, none, some, List, [], ◌∷◌,
  ◌++◌, Bytes, codes, take, drop, length, ltb, leb, ◌==◌, if◌then◌else◌,
}
use zbplan.Strings.{has_prefix, contains_byte}

-- The bytes that the loop over `end` takes for a variable's name.
unfoldable pub is_name_byte : ℕ → Bool
is_name_byte c =
    c == b'_'
    || (leb b'a' c && leb c b'z' || (leb b'A' c && leb c b'Z' || leb b'0' c && leb c b'9'))

unfoldable pub all_name_bytes : Bytes → Bool
all_name_bytes [] = true
all_name_bytes (c ∷ s) = is_name_byte c && all_name_bytes s

-- `source[start:end]`
unfoldable pub take_name : Bytes → Bytes
take_name [] = []
take_name (c ∷ s) = let name = take_name s in if is_name_byte c then c ∷ name else []

-- The arguments of `rewriteReferences` that stay the same in its loop.
pub record Rewriter : Type 0 where
  pub bindings : Bytes → Option Bytes
  pub escape : ℕ
  pub raw : Bool

-- `single` after `if ch == '\'' && !double && !raw { single = !single }`
unfoldable pub toggle_single : Rewriter → ℕ → Bool → Bool → Bool
toggle_single r ch single double =
    if ch == b'\'' && (not double && not r.raw) then not single else single

-- `double` after the statement that follows it, where `single` has its new value.
unfoldable pub toggle_double : Rewriter → ℕ → Bool → Bool → Bool
toggle_double r ch single double =
    if ch == b'"' && (not single && not r.raw) then not double else double

unfoldable pub starts_braced : Bytes → Bool
starts_braced [] = false
starts_braced (c ∷ s) = c == b'{'

-- `i+1 == len(source)`, where `s` is `source[i+1:]`
abbrev pub is_empty : Bytes → Bool
is_empty [] = true
is_empty (c ∷ s) = false

-- What stands behind `$` and an opening brace.
unfoldable pub behind_brace : Bytes → Bytes
unfolding starts_braced
behind_brace s = if starts_braced s then drop 1 s else s

-- What is written for a reference whose name is bound to `alias`.
unfoldable pub renamed : Bool → Bytes → Bytes
renamed braced alias = codes "${" ++ (alias ++ (if braced then [] else codes "}"))

-- The bytes behind `$` that a bound reference takes.
unfoldable pub reference_length : Bytes → ℕ
unfolding starts_braced behind_brace
reference_length s = (if starts_braced s then 1 else 0) + length (take_name (behind_brace s))

-- The loop, over what is left of the source. `skip` bytes of it were taken by the round before.
unfoldable pub rewrite_from : Rewriter → Bool → Bool → ℕ → Bytes → Bytes
rewrite_from r single double skip [] = []
rewrite_from r single double (suc skip) (ch ∷ s) = rewrite_from r single double skip s
rewrite_from r single double zero (ch ∷ s) =
    let single' = toggle_single r ch single double in
    let double' = toggle_double r ch single' double in
    let escaped = rewrite_from r single double 1 s in
    let plain = rewrite_from r single' double' 0 s in
    let behind = rewrite_from r single' double' (reference_length s) s in
    if ch == r.escape && (not single && not (is_empty s))
    then ch ∷ (take 1 s ++ escaped)
    else if not (ch == b'$') || single'
    then ch ∷ plain
    else elim (r.bindings (take_name (behind_brace s))) [
      | none ↦ ch ∷ plain
      | some alias ↦ renamed (starts_braced s) alias ++ behind
    ]

unfoldable pub rewrite_references : Bytes → (Bytes → Option Bytes) → ℕ → Bool → Bytes
rewrite_references source bindings escape raw =
    rewrite_from (record { bindings = bindings; escape = escape; raw = raw }) false false 0 source

-- `validArgName`; a byte that is not ASCII is in no valid name.
unfoldable pub valid_arg_name : Bytes → Bool
valid_arg_name [] = false
valid_arg_name (c ∷ s) = is_name_byte c && (not (leb b'0' c && leb c b'9') && all_name_bytes s)

-- The fields of `expression` that the replacement reads.
pub record Expression : Type 0 where
  pub source : Bytes
  pub alias : Bytes
  pub unquoted : Bool

-- `boundary`
pub boundary : ℕ → Bool
boundary ch = contains_byte ch (b' ' ∷ b'\t' ∷ b'\r' ∷ b'\n' ∷ b'=' ∷ b',' ∷ b'[' ∷ b']' ∷ [])

-- `end == len(source) || boundary(source[end])`, at what stands behind `end`
pub word_ends : Bytes → Bool
word_ends [] = true
word_ends (c ∷ s) = boundary c

-- `i == 0 || boundary(source[i-1])`
pub word_starts : Option ℕ → Bool
word_starts none = true
word_starts (some c) = boundary c

-- The expression is a whole word at the start of the text.
pub word_at : Expression → Bytes → Bool
word_at expr s = has_prefix s expr.source && word_ends (drop (length expr.source) s)

-- `match == nil || len(expr.source) > len(match.source)`
pub longer : Expression → Option Expression → Bool
longer expr none = true
longer expr (some best) = ltb (length best.source) (length expr.source)

-- The loop over the expressions.
pub best_match : List Expression → Option Expression → Bytes → Option Expression
best_match [] best s = best
best_match (expr ∷ exprs) best s =
    best_match exprs (if word_at expr s && longer expr best then some expr else best) s

-- What is written for an expression.
pub word_text : Expression → Bytes
word_text expr =
    (if expr.unquoted then [] else codes "\"")
    ++ (codes "${" ++ (expr.alias ++ (codes "}" ++ (if expr.unquoted then [] else codes "\""))))

-- `quote` after the switch on it; 0 stands outside quotes.
pub next_quote : ℕ → ℕ → ℕ
next_quote quote ch =
    if ch == b'\'' || ch == b'"'
    then (if quote == 0 then ch else if quote == ch then 0 else quote)
    else quote

-- The match of a round: only outside quotes, and where a word starts.
pub match_at : List Expression → ℕ → Option ℕ → Bytes → Option Expression
match_at exprs quote before s =
    if quote == 0 && word_starts before then best_match exprs none s else none

-- The loop over what is left of the source, where `before` is the byte before it and `skip` bytes
-- were taken by the round before. It gives what is written, and the aliases that are used.
pub materialize_from : List Expression → ℕ → ℕ → Option ℕ → ℕ → Bytes → Bytes × List Bytes
materialize_from exprs escape quote before skip [] = ([], [])
materialize_from exprs escape quote before (suc skip) (ch ∷ s) =
    materialize_from exprs escape quote (some ch) skip s
materialize_from exprs escape quote before zero (ch ∷ s) =
    let escaped = materialize_from exprs escape quote (some ch) 1 s in
    let plain = materialize_from exprs escape (next_quote quote ch) (some ch) 0 s in
    if ch == escape && (not (quote == b'\'') && not (is_empty s))
    then (ch ∷ (take 1 s ++ escaped.0), escaped.1)
    else elim (match_at exprs quote before (ch ∷ s)) [
      | none ↦ (ch ∷ plain.0, plain.1)
      | some expr ↦
          let behind = materialize_from exprs escape quote (some ch) (length expr.source - 1) s in
          (word_text expr ++ behind.0, expr.alias ∷ behind.1)
    ]

unfoldable pub materialize_expressions : Bytes → List Expression → ℕ → Bytes × List Bytes
materialize_expressions source exprs escape = materialize_from exprs escape 0 none 0 source

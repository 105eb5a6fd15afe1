-- ===== src/BuildEnv/Rename.antt =====
-- `rewriteReferences` renames the references that are bound, where they are neither escaped nor in single
-- quotes, and changes nothing else.
use zbplan.Prelude.{
  ℕ, zero, suc, ◌≡◌, ◌≢◌, ◌⊎◌, refl, sym, ap, ◌∙◌, Bool, true, false, not, ◌&&◌, ◌||◌, Option, none,
  some, [], ◌∷◌, ◌++◌, append_assoc, Bytes, codes, take, drop, arith, ◌==◌, if◌then◌else◌,
  Bool-cases, inl, inr,
}
use mathlib.Core.Path.{subst}
use zbplan.BuildEnv.Quotes.{
  Quote, outside, in_single, in_double, behind_byte, IsEscape, single_of, double_of, toggles,
  IsReference, taken-IsReference, in_single_lem, not_single_lem, is_escape_lem,
}
use zbplan.BuildEnv.{
  take_name, Rewriter, toggle_single, toggle_double, starts_braced, behind_brace, is_empty, renamed,
  reference_length, rewrite_from, rewrite_references,
}

-- `$` and a name, with or without an opening brace before the name.
abbrev pub reference : Bool → Bytes → Bytes
reference braced name = b'$' ∷ ((if braced then b'{' ∷ [] else []) ++ name)

-- What a text becomes behind bytes that leave the loop inside or outside quotes. An escape and the byte
-- behind it are kept. A dollar sign that is not escaped and stands outside single quotes begins a
-- reference with the longest name that follows: where the name is bound it becomes `${` and the alias,
-- closed where there was no brace, and otherwise the dollar sign is kept. Every other byte is kept.
pub data Renames (bindings : Bytes → Option Bytes) (escape : ℕ) (raw : Bool)
    : Quote → Bytes → Bytes → Type 0 where
  done : (q : Quote) → Renames bindings escape raw q [] []
  escaped :
      (q : Quote) (c d : ℕ) {s t : Bytes}
      → c ≡ escape
      → q ≢ in_single
      → Renames bindings escape raw q s t
      → Renames bindings escape raw q (c ∷ d ∷ s) (c ∷ d ∷ t)
  keep :
      (q : Quote) (c : ℕ) {s t : Bytes}
      → ¬ IsEscape escape q c s
      → (c ≢ b'$') ⊎ (q ≡ in_single)
      → Renames bindings escape raw (behind_byte raw q c) s t
      → Renames bindings escape raw q (c ∷ s) (c ∷ t)
  unbound :
      (q : Quote) (c : ℕ) (braced : Bool) (name rest : Bytes) {s t : Bytes}
      → ¬ IsEscape escape q c s
      → c ≡ b'$'
      → q ≢ in_single
      → IsReference braced name rest s
      → bindings name ≡ none
      → Renames bindings escape raw q s t
      → Renames bindings escape raw q (c ∷ s) (c ∷ t)
  rename :
      (q : Quote) (c : ℕ) (braced : Bool) (name rest alias : Bytes) {s t : Bytes}
      → ¬ IsEscape escape q c s
      → c ≡ b'$'
      → q ≢ in_single
      → IsReference braced name rest s
      → bindings name ≡ some alias
      → Renames bindings escape raw q rest t
      → Renames bindings escape raw q
          (c ∷ s)
          (codes "${" ++ (alias ++ ((if braced then [] else codes "}") ++ t)))

pub rewrite_from-drop :
    (r : Rewriter) (single double : Bool) (skip : ℕ) (s : Bytes)
    → rewrite_from r single double skip s ≡ rewrite_from r single double 0 (drop skip s)
unfolding rewrite_from
rewrite_from-drop r single double zero s = refl
rewrite_from-drop r single double (suc skip) [] = refl
rewrite_from-drop r single double (suc skip) (c ∷ s) = rewrite_from-drop r single double skip s

-- A dollar sign leaves the quotes as they are.
behind_dollar : (raw : Bool) (q : Quote) → behind_byte raw q b'$' ≡ q
unfolding behind_byte
behind_dollar true q = refl
behind_dollar false outside = refl
behind_dollar false in_single = refl
behind_dollar false in_double = refl

module _ (r : Rewriter) where
  abbrev Rewrites : Quote → Bytes → Bytes → Type 0
  Rewrites q s t = Renames r.bindings r.escape r.raw q s t

  escape_at :
      (q : Quote) (c : ℕ) (s : Bytes) {t : Bytes}
      → (c == r.escape && (not (single_of q) && not (is_empty s))) ≡ true
      → Rewrites q (drop 1 s) t
      → Rewrites q (c ∷ s) (c ∷ (take 1 s ++ t))
  escape_at q c [] h d = absurd (ground arith)
  escape_at q c (x ∷ s) h d = escaped q c x (ground arith) (not_single_lem q (ground arith)) d

  -- A byte that is no dollar sign, or stands in single quotes behind it.
  kept_plain :
      (q : Quote) (c : ℕ)
      → (not (c == b'$') || single_of (behind_byte r.raw q c)) ≡ true
      → (c ≢ b'$') ⊎ (q ≡ in_single)
  kept_plain q c h = elim (Bool-cases (c == b'$')) [
    | inr other ↦ inl (λ e. ground arith)
    | inl dollar ↦
        let e : c ≡ b'$' = ground arith in
        let same : behind_byte r.raw q c ≡ q = ap (behind_byte r.raw q) e ∙ behind_dollar r.raw q in
        inr (in_single_lem q (ap single_of (sym same) ∙ ground arith))
  ]

  -- The dollar sign of a reference.
  reference_at :
      (q : Quote) (c : ℕ) (s : Bytes) (single double : Bool)
      → ¬ IsEscape r.escape q c s
      → c ≡ b'$'
      → q ≢ in_single
      → ((skip : ℕ) → Rewrites q (drop skip s) (rewrite_from r single double skip s))
      → (m : Option Bytes) → r.bindings (take_name (behind_brace s)) ≡ m
      → Rewrites q (c ∷ s) (elim m [
        | none ↦ c ∷ rewrite_from r single double 0 s
        | some alias ↦
            renamed (starts_braced s) alias ++ rewrite_from r single double (reference_length s) s
      ])
  unfolding renamed
  reference_at q c s single double no_escape dollar out behind none e =
      unbound q c (starts_braced s) (take_name (behind_brace s)) (drop (reference_length s) s)
        no_escape dollar out (taken-IsReference s) e (behind 0)
  reference_at q c s single double no_escape dollar out behind (some alias) e =
      let close : Bytes = if starts_braced s then [] else codes "}" in
      let t = rewrite_from r single double (reference_length s) s in
      subst (λ l. Rewrites q (c ∷ s) l)
        (ap (λ l. codes "${" ++ l) (sym (append_assoc alias close t)))
        (rename q c (starts_braced s) (take_name (behind_brace s)) (drop (reference_length s) s)
          alias no_escape dollar out (taken-IsReference s) e (behind (reference_length s)))

  rewrite_from-Renames :
      (q : Quote) (skip : ℕ) (s : Bytes)
      → Rewrites q (drop skip s) (rewrite_from r (single_of q) (double_of q) skip s)
  unfolding rewrite_from renamed
  rewrite_from-Renames q zero [] = done q
  rewrite_from-Renames q (suc skip) [] = done q
  rewrite_from-Renames q (suc skip) (c ∷ s) = rewrite_from-Renames q skip s
  rewrite_from-Renames q zero (c ∷ s) =
      let q' = behind_byte r.raw q c in
      let single' = toggle_single r c (single_of q) (double_of q) in
      let double' = toggle_double r c single' (double_of q) in
      let (single, double) = toggles r q c in
      let again : (n : ℕ) → Rewrites q' (drop n s) (rewrite_from r single' double' n s) =
        λ n. rw (double, single) (rewrite_from-Renames q' n s) in
      elim (Bool-cases (c == r.escape && (not (single_of q) && not (is_empty s)))) [
        | inl bare ↦ rw bare (escape_at q c s bare (rewrite_from-Renames q 1 s))
        | inr unescaped ↦
            let no_escape = is_escape_lem r.escape q c s unescaped in
            elim (Bool-cases (not (c == b'$') || single')) [
              | inl plain ↦
                  rw (unescaped, plain)
                    (keep q c no_escape (kept_plain q c (rw single at plain)) (again 0))
              | inr dollar ↦
                  let e : c ≡ b'$' = ground arith in
                  let same : q' ≡ q = ap (behind_byte r.raw q) e ∙ behind_dollar r.raw q in
                  let out : single' ≡ false = ground arith in
                  rw (unescaped, dollar)
                    (reference_at q c s single' double' no_escape e
                      (not_single_lem q (ap single_of (sym same) ∙ (sym single ∙ out)))
                      (λ n.
                        subst (λ k. Rewrites k (drop n s) (rewrite_from r single' double' n s)) same
                          (again n))
                      (r.bindings (take_name (behind_brace s))) refl)
            ]
      ]

-- Outside single quotes, a dollar sign that is not escaped begins a reference with the longest name behind
-- it: where the name is bound, the reference becomes one to its alias, with a brace before the alias and,
-- where there was none, one behind it. Every other byte is kept: in single quotes, behind an escape, or of
-- a name that is not bound. In a raw text quotes do not count.
pub rewrite_references-Renames :
    (source : Bytes) (bindings : Bytes → Option Bytes) (escape : ℕ) (raw : Bool)
    → Renames bindings escape raw outside source (rewrite_references source bindings escape raw)
unfolding rewrite_references
rewrite_references-Renames source bindings escape raw =
    rewrite_from-Renames (record { bindings = bindings; escape = escape; raw = raw }) outside 0
      source

-- ===== src/Registry/Normal.antt =====
-- What `NormalizeAllowedRegistries` returns: the configured registries, each once and valid.
use zbplan.Prelude.{
  true, false, ◌||◌, ◌⊎◌, ◌≢◌, ◌↔◌, List, [], ◌∷◌, ◌++◌, ◌≡◌, refl, sym, ap, ◌∙◌, Bytes, arith,
  Bool-cases, inl, inr, beq, beq_comm, beq_iff, All, All-snoc, Among, Among-append_left,
  Among-append_right, Among-append_cases, Result, ok, err,
}
use mathlib.Core.Path.{subst}
use zbplan.Strings.{contains}
use zbplan.Registry.{
  AllowlistError, matches_host, RegistryOps, is_accepted, normalize_loop, reject_empty,
  normalize_allowed_registries,
}

-- No registry comes twice.
abbrev pub Distinct : List Bytes → Type 0
Distinct [] = Unit
Distinct (x ∷ xs) = (contains xs x ≡ false) × Distinct xs

contains-append :
    (xs ys : List Bytes) (r : Bytes) → contains (xs ++ ys) r ≡ (contains xs r || contains ys r)
unfolding contains
contains-append [] ys r = refl
contains-append (x ∷ xs) ys r = ground (arith, contains-append xs ys r)

pub contains-Among : (xs : List Bytes) (r : Bytes) → contains xs r ≡ true → Among r xs
unfolding contains
contains-Among [] r h = absurd (cc)
contains-Among (x ∷ xs) r h = elim (Bool-cases (beq x r)) [
  | inl same ↦ inl ((beq_iff x r).0 same)
  | inr other ↦ inr (contains-Among xs r (rw other at h))
]

Distinct-snoc :
    (xs : List Bytes) (r : Bytes) → Distinct xs → contains xs r ≡ false → Distinct (xs ++ r ∷ [])
unfolding contains
Distinct-snoc [] r d h = (refl, tt)
Distinct-snoc (x ∷ xs) r (fresh, d) h = (
  ground (arith, contains-append xs (r ∷ []) x, beq_comm x r),
  Distinct-snoc xs r d (ground arith),
)

pub Distinct-middle :
    (xs : List Bytes) (r : Bytes) (ys : List Bytes)
    → Distinct (xs ++ r ∷ ys)
    → contains xs r ≡ false
unfolding contains
Distinct-middle [] r ys d = refl
Distinct-middle (x ∷ xs) r ys (fresh, d) =
    ground (arith, contains-append xs (r ∷ ys) x, beq_comm x r, Distinct-middle xs r ys d)

ok-injective :
    {a b : List Bytes} → ◌≡◌ {A = Result AllowlistError (List Bytes)} (ok a) (ok b) → a ≡ b
ok-injective h = cc

module _ (ops : RegistryOps) where
  -- A registry that the loop lets through.
  pub record IsValid (r : Bytes) : Type 0 where
    pub host : matches_host r ≡ true
    pub accepted : is_accepted ops r ≡ true

  pub record IsNormal (rs : List Bytes) : Type 0 where
    pub distinct : Distinct rs
    pub valid : All IsValid rs

  abbrev pub normal : Bytes → Bytes
  normal configured = ops.to_lower (ops.trim_space configured)

  -- The registry is one that is configured and not blank.
  abbrev pub Configured : List Bytes → Bytes → Type 0
  Configured configured r = (x : Bytes) × Among x configured × (normal x ≡ r) × (r ≢ [])

  -- The ways that a round of the loop goes on.
  data Round (x : Bytes) (xs rs out : List Bytes) : Type 0 where
    blank : normal x ≡ [] → normalize_loop ops xs rs ≡ ok out → Round x xs rs out
    known :
        normal x ≢ []
        → contains rs (normal x) ≡ true
        → normalize_loop ops xs rs ≡ ok out
        → Round x xs rs out
    fresh :
        normal x ≢ []
        → IsValid (normal x)
        → contains rs (normal x) ≡ false
        → normalize_loop ops xs (rs ++ normal x ∷ []) ≡ ok out
        → Round x xs rs out

  round :
      (x : Bytes) (xs rs out : List Bytes)
      → normalize_loop ops (x ∷ xs) rs ≡ ok out
      → Round x xs rs out
  unfolding normalize_loop
  round x xs rs out h = elim (Bool-cases (beq (normal x) [])) [
    | inl b ↦ blank ((beq_iff (normal x) []).0 b) (rw b at h)
    | inr nb ↦
        let n : normal x ≢ [] = λ e. cc ((beq_iff (normal x) []).1 e, nb) in
        let host : matches_host (normal x) ≡ true = ground arith in
        let accepted : is_accepted ops (normal x) ≡ true = ground arith in
        elim (Bool-cases (contains rs (normal x))) [
          | inl k ↦ known n k (ground arith)
          | inr f ↦ fresh n (record { host = host; accepted = accepted }) f (ground arith)
        ]
  ]

  later :
      (x : Bytes) (xs rs : List Bytes) (r : Bytes)
      → Among r rs ⊎ Configured xs r
      → Among r rs ⊎ Configured (x ∷ xs) r
  later x xs rs r (inl a) = inl a
  later x xs rs r (inr (y, a, e, n)) = inr (y, inr a, e, n)

  from_empty : (xs : List Bytes) (r : Bytes) → Among r [] ⊎ Configured xs r → Configured xs r
  from_empty xs r (inl a) = absurd a
  from_empty xs r (inr c) = c

  reject_empty-ok : (rs out : List Bytes) → reject_empty ops rs ≡ ok out → (rs ≡ out) × (out ≢ [])
  unfolding reject_empty
  reject_empty-ok [] out h = absurd (cc)
  reject_empty-ok (r ∷ rs) out h = (ok-injective h, λ e. cc (h, e))

  normalized_loop :
      (x : Bytes) (xs out : List Bytes)
      → normalize_allowed_registries ops (x ∷ xs) ≡ ok out
      → (normalize_loop ops (x ∷ xs) [] ≡ ok out) × (out ≢ [])
  unfolding normalize_allowed_registries
  normalized_loop x xs out h = go (normalize_loop ops (x ∷ xs) []) refl
    where
      go :
          (m : Result AllowlistError (List Bytes))
          → normalize_loop ops (x ∷ xs) [] ≡ m
          → (normalize_loop ops (x ∷ xs) [] ≡ ok out) × (out ≢ [])
      go (ok rs) e =
          let (same, nonempty) =
            reject_empty-ok rs out (rw (e, normalize_allowed_registries) at h) in
          (e ∙ ap ok same, nonempty)
      go (err w) e = absurd (cc (rw (e, normalize_allowed_registries) at h))

  normalize_loop_done : (rs out : List Bytes) → normalize_loop ops [] rs ≡ ok out → rs ≡ out
  unfolding normalize_loop
  normalize_loop_done rs out h = ok-injective h

  normalize_loop-IsNormal :
      (xs rs out : List Bytes) → IsNormal rs → normalize_loop ops xs rs ≡ ok out → IsNormal out
  normalize_loop-IsNormal [] rs out n h = subst IsNormal (normalize_loop_done rs out h) n
  normalize_loop-IsNormal (x ∷ xs) rs out n h = elim (round x xs rs out h) [
    | blank _ e ↦ normalize_loop-IsNormal xs rs out n e
    | known _ _ e ↦ normalize_loop-IsNormal xs rs out n e
    | fresh _ v f e ↦
        normalize_loop-IsNormal xs (rs ++ normal x ∷ []) out
          (record {
            distinct = Distinct-snoc rs (normal x) n.distinct f;
            valid = All-snoc IsValid rs (normal x) n.valid v;
          })
          e
  ]

  -- Nothing is lost: what was there stays, and every configured registry is there.
  normalize_loop_complete :
      (xs rs out : List Bytes) (r : Bytes)
      → normalize_loop ops xs rs ≡ ok out
      → Among r rs ⊎ Configured xs r
      → Among r out
  normalize_loop_complete [] rs out r h (inl a) = subst (Among r) (normalize_loop_done rs out h) a
  normalize_loop_complete [] rs out r h (inr (x, a, _, _)) = absurd a
  normalize_loop_complete (x ∷ xs) rs out r h (inl a) = elim (round x xs rs out h) [
    | blank _ e ↦ normalize_loop_complete xs rs out r e (inl a)
    | known _ _ e ↦ normalize_loop_complete xs rs out r e (inl a)
    | fresh _ _ _ e ↦
        normalize_loop_complete xs (rs ++ normal x ∷ []) out r e
          (inl (Among-append_left r rs (normal x ∷ []) a))
  ]
  normalize_loop_complete (x ∷ xs) rs out r h (inr (y, inr a, e', n)) = elim (round x xs rs out h) [
    | blank _ e ↦ normalize_loop_complete xs rs out r e (inr (y, a, e', n))
    | known _ _ e ↦ normalize_loop_complete xs rs out r e (inr (y, a, e', n))
    | fresh _ _ _ e ↦ normalize_loop_complete xs (rs ++ normal x ∷ []) out r e (inr (y, a, e', n))
  ]
  normalize_loop_complete (x ∷ xs) rs out r h (inr (y, inl same, e', n)) =
      let e'' : normal x ≡ r = ap normal same ∙ e' in
      elim (round x xs rs out h) [
        | blank b _ ↦ absurd (n (sym e'' ∙ b))
        | known _ k e ↦
            normalize_loop_complete xs rs out r e
              (inl (subst (λ t. Among t rs) e'' (contains-Among rs (normal x) k)))
        | fresh _ _ _ e ↦
            normalize_loop_complete xs (rs ++ normal x ∷ []) out r e
              (inl (Among-append_right r rs (normal x ∷ []) (inl e'')))
      ]

  -- Nothing is added: what comes out was there, or is configured.
  normalize_loop_sound :
      (xs rs out : List Bytes) (r : Bytes)
      → normalize_loop ops xs rs ≡ ok out
      → Among r out
      → Among r rs ⊎ Configured xs r
  normalize_loop_sound [] rs out r h a =
      inl (subst (Among r) (sym (normalize_loop_done rs out h)) a)
  normalize_loop_sound (x ∷ xs) rs out r h a = elim (round x xs rs out h) [
    | blank _ e ↦ later x xs rs r (normalize_loop_sound xs rs out r e a)
    | known _ _ e ↦ later x xs rs r (normalize_loop_sound xs rs out r e a)
    | fresh n _ _ e ↦ elim (normalize_loop_sound xs (rs ++ normal x ∷ []) out r e a) [
      | inl b ↦ elim (Among-append_cases r rs (normal x ∷ []) b) [
        | inl old ↦ inl old
        | inr (inl new) ↦ inr (x, inl refl, new, λ z. n (new ∙ z))
        | inr (inr none_left) ↦ absurd none_left
      ]
      | inr c ↦ later x xs rs r (inr c)
    ]
  ]

  -- Where some registries are configured and the call succeeds, it returns at least one; each comes
  -- once and passed both checks; and the registries returned are exactly those that are configured,
  -- trimmed and in lower case, without the blank ones.
  pub normalize_allowed_registries-IsNormal :
      (x : Bytes) (xs out : List Bytes)
      → normalize_allowed_registries ops (x ∷ xs) ≡ ok out
      → IsNormal out × (out ≢ []) × ((r : Bytes) → Among r out ↔ Configured (x ∷ xs) r)
  normalize_allowed_registries-IsNormal x xs out h =
      let (e, nonempty) = normalized_loop x xs out h in
      (
        normalize_loop-IsNormal (x ∷ xs) [] out (record { distinct = tt; valid = tt }) e,
        nonempty,
        λ r. (
          λ a. from_empty (x ∷ xs) r (normalize_loop_sound (x ∷ xs) [] out r e a),
          λ c. normalize_loop_complete (x ∷ xs) [] out r e (inr c),
        ),
      )

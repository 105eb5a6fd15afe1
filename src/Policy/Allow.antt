-- ===== src/Policy/Allow.antt =====
-- What a solve may fetch: the local sources, and images of the allowed registries.
use zbplan.Prelude.{
  Bool, true, false, ◌⊎◌, ◌↔◌, Option, none, some, List, [], ◌∷◌, ◌++◌, append_assoc, map, ◌≡◌,
  refl, sym, ap, ◌∙◌, Bytes, codes, arith, beq, beq_iff, if◌then◌else◌, Bool-cases, inl, inr, All,
  All-map, All-append, All-Among, All-imp, Among, Among-append_left, Among-append_right,
  Among-append_cases, Among-map, Among-map_inv, Result, ok, err,
}
use mathlib.Core.Path.{subst}
use zbplan.Strings.{has_prefix, contains_any, contains_byte}
use zbplan.Registry.Host.{all_host_bytes, matches_host-host}
use zbplan.Registry.Normal.{IsValid, normalize_allowed_registries-IsNormal}
use zbplan.Registry.{RegistryOps, AllowlistError, normalize_allowed_registries, default_registries}
use zbplan.Policy.{
  Action, allow, deny, MatchType, wildcard, exact, Rule, build_local_sources, local_rule,
  registry_rule, deny_rule, source_rules, source_policy,
}

-- BuildKit's selectors: `matches match_type identifier source`.
abbrev pub Selector : Type 0
Selector = MatchType → Bytes → Bytes → Bool

-- The characters that a wildcard pattern gives a meaning.
abbrev pub metacharacters : Bytes
metacharacters = codes "*?[\\"

pub record SelectorLaws (matches : Selector) : Type 0 where
  pub exact_law :
      (identifier source : Bytes) → matches exact identifier source ≡ beq identifier source
  pub star : (source : Bytes) → matches wildcard (codes "*") source ≡ true
  pub prefix :
      (p source : Bytes)
      → contains_any p metacharacters ≡ false
      → matches wildcard (p ++ codes "*") source ≡ has_prefix source p

-- BuildKit's evaluation: the last rule that matches decides.
pub verdict : Selector → List Rule → Option Action → Bytes → Option Action
verdict matches [] action source = action
verdict matches (rule ∷ rules) action source =
    verdict matches rules
      (if matches rule.match_type rule.identifier source then some rule.action else action) source

host-plain : (s : Bytes) → all_host_bytes s ≡ true → contains_any s metacharacters ≡ false
unfolding all_host_bytes contains_any contains_byte
host-plain [] h = refl
host-plain (c ∷ s) h = ground (arith, host-plain s)

contains_any-append :
    (s t chars : Bytes)
    → contains_any s chars ≡ false
    → contains_any t chars ≡ false
    → contains_any (s ++ t) chars ≡ false
unfolding contains_any
contains_any-append [] t chars h k = k
contains_any-append (c ∷ s) t chars h k = ground (arith, contains_any-append s t chars)

-- How an image of the registry is identified.
abbrev pub image_prefix : Bytes → Bytes
image_prefix registry = codes "docker-image://" ++ (registry ++ codes "/")

image_prefix-plain :
    (r : Bytes) → all_host_bytes r ≡ true → contains_any (image_prefix r) metacharacters ≡ false
image_prefix-plain r h =
    contains_any-append (codes "docker-image://") (r ++ codes "/") metacharacters
      (unfold contains_any contains_byte in refl)
      (contains_any-append r (codes "/") metacharacters (host-plain r h)
        (unfold contains_any contains_byte in refl))

local_rule-allow : (name : Bytes) → (local_rule name).action ≡ allow
unfolding local_rule
local_rule-allow name = refl

registry_rule-allow : (r : Bytes) → (registry_rule r).action ≡ allow
unfolding registry_rule
registry_rule-allow r = refl

module _ (matches : Selector) where
  matches_rule : Rule → Bytes → Bool
  matches_rule rule source = matches rule.match_type rule.identifier source

  -- Rules that allow, after a denial: one that matches is enough.
  verdict_allow :
      (rules : List Rule) (source : Bytes) (action : Option Action)
      → All (λ rule. rule.action ≡ allow) rules
      → (verdict matches rules action source ≡ some allow) ↔ (
          (action ≡ some allow)
          ⊎ ((rule : Rule) × Among rule rules × (matches_rule rule source ≡ true)))
  unfolding verdict matches_rule
  verdict_allow [] source action h = (λ e. inl e, elim [ inl e ↦ e | inr (rule, a, _) ↦ absurd a ])
  verdict_allow (rule ∷ rules) source action (here, h) =
      let m = matches rule.match_type rule.identifier source in
      let ih = verdict_allow rules source (if m then some rule.action else action) h in
      elim (Bool-cases m) [
        | inl hit ↦ (λ e. inr (rule, inl refl, hit), λ _. ih.1 (inl (rw hit (ap some here))))
        | inr miss ↦
            let same : (if m then some rule.action else action) ≡ action = rw miss refl in
            (
              λ e. elim (ih.0 e) [ inl a ↦ inl (sym same ∙ a) | inr (r, a, k) ↦ inr (r, inr a, k) ],
              elim [
                | inl a ↦ ih.1 (inl (same ∙ a))
                | inr (r, inl i, k) ↦
                    absurd
                      (cc (k, miss, ap (λ (x : Rule). matches x.match_type x.identifier source) i))
                | inr (r, inr a, k) ↦ ih.1 (inr (r, a, k))
              ],
            )
      ]

  module _ (laws : SelectorLaws matches) where
    local_rule-matches :
        (name source : Bytes)
        → matches_rule (local_rule name) source ≡ beq (codes "local://" ++ name) source
    unfolding matches_rule local_rule
    local_rule-matches name source = laws.exact_law (codes "local://" ++ name) source

    registry_rule-matches :
        (r source : Bytes)
        → all_host_bytes r ≡ true
        → matches_rule (registry_rule r) source ≡ has_prefix source (image_prefix r)
    unfolding matches_rule registry_rule
    registry_rule-matches r source h =
        ap (λ i. matches wildcard i source)
          (ap (λ t. codes "docker-image://" ++ t) (sym (append_assoc r (codes "/") (codes "*")))
            ∙ sym (append_assoc (codes "docker-image://") (r ++ codes "/") (codes "*")))
        ∙ laws.prefix (image_prefix r) source (image_prefix-plain r h)

    -- A source that a policy should let through.
    abbrev pub Fetchable : List Bytes → Bytes → Type 0
    Fetchable registries source =
        ((name : Bytes) × Among name build_local_sources × (codes "local://" ++ name ≡ source))
        ⊎ ((r : Bytes) × Among r registries × (has_prefix source (image_prefix r) ≡ true))

    -- The leading rule matches every source.
    denied_first :
        (rules : List Rule) (source : Bytes)
        → verdict matches (deny_rule ∷ rules) none source ≡ verdict matches rules (some deny) source
    unfolding verdict deny_rule
    denied_first rules source =
        ap (λ b. verdict matches rules (if b then some deny else none) source) (laws.star source)

    host_of :
        (registries : List Bytes) (r : Bytes)
        → All (λ r. all_host_bytes r ≡ true) registries
        → Among r registries
        → all_host_bytes r ≡ true
    host_of registries r = All-Among (λ r. all_host_bytes r ≡ true) registries r

    matches_of :
        (a b : Rule) (source : Bytes)
        → a ≡ b
        → matches_rule b source ≡ true
        → matches_rule a source ≡ true
    matches_of a b source e m = ap (λ x. matches_rule x source) e ∙ m

    source_rules-Fetchable :
        (registries : List Bytes) (source : Bytes)
        → All (λ r. all_host_bytes r ≡ true) registries
        → (verdict matches (source_rules registries) none source ≡ some allow)
          ↔ Fetchable registries source
    unfolding source_rules
    source_rules-Fetchable registries source hosts =
        let locals = map local_rule build_local_sources in
        let images = map registry_rule registries in
        let rules = locals ++ images in
        let v = verdict_allow rules source (some deny) (
          All-append (λ rule. rule.action ≡ allow) locals images
            (All-map (λ rule. rule.action ≡ allow) local_rule build_local_sources local_rule-allow)
            (All-map (λ rule. rule.action ≡ allow) registry_rule registries registry_rule-allow)) in
        let e : verdict matches (source_rules registries) none source
            ≡ verdict matches rules (some deny) source =
          denied_first rules source in
        (
          λ h. elim (v.0 (sym e ∙ h)) [
            | inl never ↦ absurd (cc)
            | inr (rule, a, m) ↦
                elim (Among-append_cases rule (map local_rule build_local_sources)
                  (map registry_rule registries) a) [
                    | inl l ↦
                        let (name, b, same) = Among-map_inv local_rule rule build_local_sources l in
                        inl (
                          name,
                          b,
                          (beq_iff _ source).0 (
                              sym (local_rule-matches name source)
                              ∙ matches_of _ rule source same m),
                        )
                    | inr i ↦
                        let (r, b, same) = Among-map_inv registry_rule rule registries i in
                        inr (
                          r,
                          b,
                          sym (registry_rule-matches r source (host_of registries r hosts b))
                              ∙ matches_of _ rule source same m,
                        )
                  ]
          ],
          λ f.
              e
              ∙ v.1 (
                  inr (elim f [
                    | inl (name, b, same) ↦ (
                      local_rule name,
                      Among-append_left (local_rule name) locals images
                          (Among-map local_rule name build_local_sources b),
                      local_rule-matches name source ∙ (beq_iff _ source).1 same,
                    )
                    | inr (r, b, p) ↦ (
                      registry_rule r,
                      Among-append_right (registry_rule r) locals images
                          (Among-map registry_rule r registries b),
                      registry_rule-matches r source (host_of registries r hosts b) ∙ p,
                    )
                  ])),
        )

default_registries-host : All (λ r. all_host_bytes r ≡ true) default_registries
unfolding all_host_bytes
default_registries-host = (refl, (refl, (refl, (refl, tt))))

normalized-host :
    (ops : RegistryOps) (allowed registries : List Bytes)
    → normalize_allowed_registries ops allowed ≡ ok registries
    → All (λ r. all_host_bytes r ≡ true) registries
normalized-host ops [] registries h =
    let e : default_registries ≡ registries = unfold normalize_allowed_registries in cc h in
    subst (All (λ r. all_host_bytes r ≡ true)) e default_registries-host
normalized-host ops (x ∷ xs) registries h =
    All-imp (IsValid ops) (λ r. all_host_bytes r ≡ true) registries
      (λ r v. matches_host-host r v.host)
      (normalize_allowed_registries-IsNormal ops x xs registries h).0.valid

-- Under the policy of a solve BuildKit lets a source through exactly if it is one of the two local
-- sources, or an image of a registry of the normalized allowlist: for selectors that match exactly
-- where they are exact, and by what stands before the star where they are a plain text and a star.
pub source_policy-Fetchable :
    (matches : Selector) (ops : RegistryOps) (allowed : List Bytes) (rules : List Rule)
    → SelectorLaws matches
    → source_policy ops allowed ≡ ok rules
    → (registries : List Bytes) × (normalize_allowed_registries ops allowed ≡ ok registries)
      × ((source : Bytes)
          → (verdict matches rules none source ≡ some allow) ↔ (
              ((name : Bytes) × Among name build_local_sources
                × (codes "local://" ++ name ≡ source))
              ⊎ ((r : Bytes) × Among r registries × (has_prefix source (image_prefix r) ≡ true))))
unfolding source_policy
source_policy-Fetchable matches ops allowed rules laws h =
    go (normalize_allowed_registries ops allowed) refl
  where
    go :
        (m : Result AllowlistError (List Bytes))
        → normalize_allowed_registries ops allowed ≡ m
        → (registries : List Bytes) × (normalize_allowed_registries ops allowed ≡ ok registries)
          × ((source : Bytes)
              → (verdict matches rules none source ≡ some allow) ↔ (
                  ((name : Bytes) × Among name build_local_sources
                    × (codes "local://" ++ name ≡ source))
                  ⊎ ((r : Bytes) × Among r registries
                      × (has_prefix source (image_prefix r) ≡ true))))
    go (err w) e = absurd (cc (rw (e, source_policy) at h))
    go (ok registries) e =
        let same : source_rules registries ≡ rules = cc (rw (e, source_policy) at h) in
        (
          registries,
          e,
          λ source.
              subst
                (λ rs.
                  (verdict matches rs none source ≡ some allow)
                  ↔ Fetchable matches laws registries source)
                same
                (source_rules-Fetchable matches laws registries source
                  (normalized-host ops allowed registries e)),
        )

-- ===== src/Tests/Registries.antt =====
-- pkg/registryutil and pkg/builder/policy.go: an allowlist, and the source policy that it gives.
use zbplan.Prelude.{
  ◌≤◌, List, [], ◌∷◌, ◌++◌, Bytes, codes, length, beq, ◌≡◌, refl, ap, ◌≢◌, ◌⊎◌, ◌↔◌, Among, true,
  none, some, Result, ok,
}
use zbplan.Policy.{
  Nodes, node, nil, cons, end, wildcard, exact, allow, build_local_sources, source_policy,
  source_rules, validate_dockerfile, max_dockerfile_bytes, max_dockerfile_instructions,
}
use zbplan.Policy.Allow.{Selector, SelectorLaws, verdict, image_prefix, source_policy-Fetchable}
use zbplan.Policy.Count.{total_nodes, validate_dockerfile_iff}
use zbplan.Registry.{
  RegistryOps, normalize_loop, reject_empty, is_accepted, matches_host, all_labels, is_label,
  all_label_bytes, ends_alnum, is_port, is_alnum, cut, normalize_allowed_registries,
  default_registries,
}
use zbplan.Registry.Normal.{IsNormal, Configured, normalize_allowed_registries-IsNormal}
use zbplan.Registry.Stable.{normalize_allowed_registries_normal}
use zbplan.Strings.{has_prefix, contains}
use zbplan.Strings.Split.{split, push_front}

abbrev plain_ops : RegistryOps
plain_ops = record { to_lower = λ s. s; trim_space = λ s. s; registry_name = λ s. some s }

-- What stands before the last star.
plain_part : Bytes → Bytes
plain_part [] = []
plain_part (c ∷ []) = []
plain_part (c ∷ d ∷ s) = c ∷ plain_part (d ∷ s)

plain_part-star : (p : Bytes) → plain_part (p ++ codes "*") ≡ p
unfolding plain_part
plain_part-star [] = refl
plain_part-star (c ∷ []) = refl
plain_part-star (c ∷ d ∷ p) = ap (◌∷◌ c) (plain_part-star (d ∷ p))

plain_selector : Selector
plain_selector exact identifier source = beq identifier source
plain_selector wildcard identifier source = has_prefix source (plain_part identifier)

plain_selector-SelectorLaws : SelectorLaws plain_selector
unfolding plain_selector has_prefix plain_part
plain_selector-SelectorLaws = record {
  exact_law = λ identifier source. refl;
  star = λ source. refl;
  prefix = λ p source plain. ap (has_prefix source) (plain_part-star p);
}

abbrev one_registry : List Bytes
one_registry = codes "ghcr.io" ∷ codes "ghcr.io" ∷ []

one_registry_kept : normalize_allowed_registries plain_ops one_registry ≡ ok (codes "ghcr.io" ∷ [])
unfolding normalize_allowed_registries normalize_loop reject_empty is_accepted matches_host
    all_labels is_label all_label_bytes ends_alnum is_port is_alnum cut contains split push_front
    beq
one_registry_kept = refl

normalize_allowed_registries-IsNormal_example :
    IsNormal plain_ops (codes "ghcr.io" ∷ [])
    × (codes "ghcr.io" ∷ [] ≢ [])
    × ((r : Bytes) → Among r (codes "ghcr.io" ∷ []) ↔ Configured plain_ops one_registry r)
normalize_allowed_registries-IsNormal_example =
    normalize_allowed_registries-IsNormal plain_ops (codes "ghcr.io") (codes "ghcr.io" ∷ [])
      (codes "ghcr.io" ∷ []) one_registry_kept

normalize_allowed_registries_normal_example :
    normalize_allowed_registries plain_ops (codes "ghcr.io" ∷ []) ≡ ok (codes "ghcr.io" ∷ [])
normalize_allowed_registries_normal_example =
    normalize_allowed_registries_normal plain_ops
      (record { to_lower = λ s h. refl; trim_space = λ s h. refl }) (codes "ghcr.io" ∷ [])
      normalize_allowed_registries-IsNormal_example.0 (λ e. cc)

source_policy-Fetchable_example :
    (registries : List Bytes) × (normalize_allowed_registries plain_ops [] ≡ ok registries)
    × ((source : Bytes)
        → (verdict plain_selector (source_rules default_registries) none source ≡ some allow) ↔ (
            ((name : Bytes) × Among name build_local_sources × (codes "local://" ++ name ≡ source))
            ⊎ ((r : Bytes) × Among r registries × (has_prefix source (image_prefix r) ≡ true))))
unfolding source_policy normalize_allowed_registries
source_policy-Fetchable_example =
    source_policy-Fetchable plain_selector plain_ops [] (source_rules default_registries)
      plain_selector-SelectorLaws refl

abbrev parse_one : Bytes → Result Bytes Nodes
parse_one text = ok (cons (node nil end) nil)

validate_dockerfile_iff_example : (validate_dockerfile parse_one (codes "FROM scratch") ≡ ok tt) ↔ (
    (length (codes "FROM scratch") ≤ max_dockerfile_bytes)
    × ((xs : Nodes) × (parse_one (codes "FROM scratch") ≡ ok xs)
        × (xs ≢ nil)
        × (total_nodes xs ≤ max_dockerfile_instructions)))
validate_dockerfile_iff_example = validate_dockerfile_iff parse_one (codes "FROM scratch")

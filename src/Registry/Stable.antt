-- ===== src/Registry/Stable.antt =====
-- Normalizing an allowlist that is normal already changes nothing: the run normalizes it once, and the
-- build and the tools again.
use zbplan.Prelude.{
  true, false, ◌≢◌, List, [], ◌∷◌, ◌++◌, append-nil, append_assoc, ◌≡◌, refl, sym, ap, ◌∙◌, Bytes,
  beq, beq_ne, All, ok,
}
use mathlib.Core.Path.{subst}
use zbplan.Registry.Host.{all_host_bytes, matches_host-host, matches_host-nil}
use zbplan.Registry.Normal.{Distinct, Distinct-middle, IsValid, IsNormal, normal}
use zbplan.Registry.{
  matches_host, RegistryOps, normalize_loop, reject_empty, normalize_allowed_registries,
}

-- On text of lower-case letters, digits, dots, dashes and colons the two text functions do nothing.
pub record FixesHosts (ops : RegistryOps) : Type 0 where
  pub to_lower : (s : Bytes) → all_host_bytes s ≡ true → ops.to_lower s ≡ s
  pub trim_space : (s : Bytes) → all_host_bytes s ≡ true → ops.trim_space s ≡ s

module _ (ops : RegistryOps) (fixes : FixesHosts ops) where
  normal-fixed : (r : Bytes) → IsValid ops r → normal ops r ≡ r
  normal-fixed r v =
      let h = matches_host-host r v.host in
      ap ops.to_lower (fixes.trim_space r h) ∙ fixes.to_lower r h

  valid-nonempty : (r : Bytes) → IsValid ops r → beq r [] ≡ false
  valid-nonempty r v = beq_ne r [] (λ e. cc (v.host, ap matches_host e, matches_host-nil))

  normalize_loop-append :
      (xs rs : List Bytes)
      → Distinct (rs ++ xs)
      → All (IsValid ops) xs
      → normalize_loop ops xs rs ≡ ok (rs ++ xs)
  unfolding normalize_loop
  normalize_loop-append [] rs d v = ap ok (sym (append-nil rs))
  normalize_loop-append (x ∷ xs) rs d (v, vs) =
      let e = append_assoc rs (x ∷ []) xs in
      let ih = normalize_loop-append xs (rs ++ x ∷ []) (subst Distinct (sym e) d) vs in
      rw (normal-fixed x v, valid-nonempty x v, v.host, v.accepted, Distinct-middle rs x xs d)
        (ih ∙ ap ok e)

  -- An allowlist that is normal and not empty is returned as it is: given that the text functions
  -- leave lower-case host names alone.
  pub normalize_allowed_registries_normal :
      (rs : List Bytes) → IsNormal ops rs → rs ≢ [] → normalize_allowed_registries ops rs ≡ ok rs
  unfolding normalize_allowed_registries reject_empty
  normalize_allowed_registries_normal [] n h = absurd (h refl)
  normalize_allowed_registries_normal (r ∷ rs) n h =
      rw (normalize_loop-append (r ∷ rs) [] n.distinct n.valid, normalize_allowed_registries) refl

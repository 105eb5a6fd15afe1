-- ===== src/RegistryTools/Allowed.antt =====
-- The tool `list_tags` asks only the registries that the allowlist names.
use zbplan.Finder.{Tag}
use zbplan.Prelude.{
  ◌≤◌, true, false, Option, none, some, List, [], ◌++◌, Bytes, codes, beq, beq_iff, length, ltb,
  if◌then◌else◌, Bool-cases, ◌≡◌, ◌≢◌, refl, ◌⊎◌, inl, inr, Result, ok, err, arith, Among,
}
use zbplan.Registry.{normalize_allowed_registries}
use zbplan.Registry.Normal.{contains-Among}
use zbplan.RegistryTools.{
  max_tags, Named, TagsCall, TagToolOps, is_repository, tags_call, list_tags,
}
use zbplan.Strings.{contains}

module _ (ops : TagToolOps) (allowed : List Bytes) where
  -- A call for an image of a registry of the allowlist, its texts bounded.
  pub record IsAllowed (registry image : Bytes) (call : TagsCall) : Type 0 where
    pub normalized : List Bytes
    pub normal : normalize_allowed_registries ops.registry_ops allowed ≡ ok normalized
    pub asked : call.registry ≡ ops.registry_ops.to_lower (ops.registry_ops.trim_space registry)
    pub listed : Among call.registry normalized
    pub same_image : call.image ≡ image
    pub image_short : length call.image ≤ 255
    pub named : Named
    pub parsed : ops.parse_named (call.registry ++ (codes "/" ++ call.image)) ≡ some named
    pub name_only : named.is_name_only ≡ true
    pub domain : named.domain ≡ call.registry
    pub given : call.query ≢ []
    pub query_short : length call.query ≤ 128
    pub limit : call.limit ≡ max_tags

  repository_named :
      (registry : Bytes) (m : Option Named)
      → is_repository registry m ≡ true
      → (named : Named) × (m ≡ some named) × (named.is_name_only ≡ true) × (named.domain ≡ registry)
  unfolding is_repository
  repository_named registry none h = absurd (cc)
  repository_named registry (some named) h =
      (named, refl, ground arith, (beq_iff named.domain registry).0 (ground arith))

  used_query :
      (query : Bytes)
      → ltb 128 (length query) ≡ false
      → ((if beq query [] then codes "latest" else query) ≢ [])
        × (length (if beq query [] then codes "latest" else query) ≤ 128)
  used_query query h = elim (Bool-cases (beq query [])) [
    | inl blank ↦ rw blank ((λ e. cc), omega arith)
    | inr given ↦ rw given ((λ e. cc ((beq_iff query []).1 e, given)), ground arith)
  ]

  tags_call-cases :
      (registry image query : Bytes)
      → ((call : TagsCall) × IsAllowed registry image call
          × (tags_call ops allowed registry image query ≡ ok call))
        ⊎ ((e : Bytes) × (tags_call ops allowed registry image query ≡ err e))
  unfolding tags_call
  tags_call-cases registry image query =
      go (normalize_allowed_registries ops.registry_ops allowed) refl
    where
      asked : Bytes
      asked = ops.registry_ops.to_lower (ops.registry_ops.trim_space registry)

      go :
          (m : Result zbplan.Registry.AllowlistError (List Bytes))
          → normalize_allowed_registries ops.registry_ops allowed ≡ m
          → ((call : TagsCall) × IsAllowed registry image call
              × (tags_call ops allowed registry image query ≡ ok call))
            ⊎ ((e : Bytes) × (tags_call ops allowed registry image query ≡ err e))
      go (err x) k = inr (ops.error_text x, rw (k, tags_call) refl)
      go (ok normalized) k = elim (Bool-cases (contains normalized asked)) [
        | inr other ↦ inr (
          codes "registry " ++ (ops.quote asked ++ codes " is not allowed"),
          rw (k, other, tags_call) refl,
        )
        | inl listed ↦ elim (Bool-cases (ltb 255 (length image))) [
          | inl long ↦ inr (codes "image is too long", rw (k, listed, long, tags_call) refl)
          | inr short ↦
              elim (Bool-cases
                (is_repository asked (ops.parse_named (asked ++ (codes "/" ++ image))))) [
                  | inr bad ↦ inr (
                    codes "image must be a lowercase repository path",
                    rw (k, listed, short, bad, tags_call) refl,
                  )
                  | inl good ↦ elim (Bool-cases (ltb 128 (length query))) [
                    | inl big ↦ inr (
                      codes "query is too long",
                      rw (k, listed, short, good, big, tags_call) refl,
                    )
                    | inr bounded ↦
                        let (named, parsed, only, domain) = repository_named asked _ good in
                        let (given, fits) = used_query query bounded in
                        inl (
                          record {
                            registry = asked;
                            image = image;
                            query = if beq query [] then codes "latest" else query;
                            limit = max_tags;
                          },
                          record {
                            normalized = normalized;
                            normal = k;
                            asked = refl;
                            listed = contains-Among normalized asked listed;
                            same_image = refl;
                            image_short = ground arith;
                            named = named;
                            parsed = parsed;
                            name_only = only;
                            domain = domain;
                            given = given;
                            query_short = fits;
                            limit = refl;
                          },
                          rw (k, listed, short, good, bounded, tags_call) refl,
                        )
                  ]
                ]
        ]
      ]

  -- `list_tags` either asks the finder once, for an image of a registry that the normalized allowlist
  -- holds, with an image and a query within their bounds, or it fails and the finder is not asked.
  pub list_tags-cases :
      {S : Type 0} (tags : TagsCall → S → Result Bytes (List Tag) × S)
      (registry image query : Bytes) (s : S)
      → ((call : TagsCall) × IsAllowed registry image call
          × (list_tags ops allowed tags registry image query s ≡ tags call s))
        ⊎ ((e : Bytes) × (list_tags ops allowed tags registry image query s ≡ (err e, s)))
  unfolding list_tags
  list_tags-cases tags registry image query s = elim (tags_call-cases registry image query) [
    | inl (call, a, e) ↦ inl (call, a, rw (e, list_tags) refl)
    | inr (x, e) ↦ inr (x, rw (e, list_tags) refl)
  ]

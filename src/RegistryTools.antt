-- ===== src/RegistryTools.antt =====
-- internal/plantools/registryutil.go: the tools `list_images` and `list_tags`. The JSON codecs and the
-- grammar of image references are parameters.
pub mod Allowed
pub mod Searched
use zbplan.Finder.{Image, Tag}
use zbplan.Gather.{IsGathered}
use zbplan.Prelude.{
  ℕ, ◌*◌, ◌≡◌, Bool, true, false, not, ◌||◌, Option, none, some, List, [], ◌∷◌, ◌++◌, map, Bytes,
  codes, beq, length, ltb, if◌then◌else◌, Result, ok, err, ◌>>=◌, ◌>>◌, reject_if, map_err,
}
use zbplan.Registry.{
  RegistryOps, AllowlistError, invalid_registry, empty_allowlist, normalize_allowed_registries,
}
use zbplan.Strings.{contains}

abbrev pub max_per_registry : ℕ
max_per_registry = 3

abbrev pub max_tags : ℕ
max_tags = 5

unfoldable pub check_query : Bytes → Result Bytes (Unit {0})
check_query query = do
  reject_if (beq query []) (codes "query is required")
  reject_if (ltb 128 (length query)) (codes "query is too long")

-- The images of a search that did not fail.
abbrev pub found_by : Result Bytes (List Image) → List Image
found_by (ok found) = found
found_by (err e) = []

-- What the goroutine of a registry finds, once it has looked at its context: nothing, where its search
-- fails.
unfoldable pub search_images :
    (Bytes → Bytes → ℕ → Result Bytes (List Image)) → Bytes → Bytes → List Image
search_images images query registry = found_by (images registry query max_per_registry)

-- A result of `ListImages` for a context that is cancelled or not: its goroutines may come in any order,
-- and the context may be cancelled later.
pub data ListsImages (images : Bytes → Bytes → ℕ → Result Bytes (List Image))
    (registries : List Bytes) (cancelled : Bool) (query : Bytes) (later : Bool)
    (result : Result Bytes (List Image)) : Type 0 where
  refused :
      (e : Bytes)
      → check_query query ≡ err e
      → result ≡ err e
      → ListsImages images registries cancelled query later result
  collects :
      (got : List Image)
      → check_query query ≡ ok tt
      → IsGathered
          (max_per_registry * length registries)
          cancelled
          (map (search_images images query) registries)
          later
          got
      → result ≡ ok got
      → ListsImages images registries cancelled query later result

-- `list_images` is what `ListImages` returned for the query.
unfoldable pub list_images_tool :
    (unmarshal : Bytes → Result Bytes Bytes)
    → (marshal : List Image → Result Bytes Bytes)
    → (list_images : Bytes → Result Bytes (List Image)) → Bytes
    → Result Bytes Bytes
list_images_tool unmarshal marshal list_images args_json = do
  query ← map_err (λ e. codes "unmarshal: " ++ e) (unmarshal args_json)
  check_query query
  found ← map_err (λ e. codes "list images: " ++ e) (list_images query)
  map_err (λ e. codes "marshal result: " ++ e) (marshal found)

-- `reference.ParseNormalizedNamed`, where it reads a name: whether it is only a name, and its domain.
pub record Named : Type 0 where
  pub is_name_only : Bool
  pub domain : Bytes

-- The call of `finder.Tags` that the tool makes.
pub record TagsCall : Type 0 where
  pub registry : Bytes
  pub image : Bytes
  pub query : Bytes
  pub limit : ℕ

pub record TagToolOps : Type 0 where
  pub registry_ops : RegistryOps
  pub parse_named : Bytes → Option Named
  -- `%q`
  pub quote : Bytes → Bytes
  pub error_text : AllowlistError → Bytes

unfoldable pub is_repository : Bytes → Option Named → Bool
is_repository registry none = false
is_repository registry (some named) =
    if named.is_name_only then beq named.domain registry else false

module _ (ops : TagToolOps) (allowed : List Bytes) where
  -- The checks of `ListTags`, and the call behind them.
  unfoldable pub tags_call : Bytes → Bytes → Bytes → Result Bytes TagsCall
  tags_call registry image query =
      let registry' = ops.registry_ops.to_lower (ops.registry_ops.trim_space registry) in
      do
        normalized ← map_err ops.error_text (normalize_allowed_registries ops.registry_ops allowed)
        reject_if (not (contains normalized registry'))
            (codes "registry " ++ (ops.quote registry' ++ codes " is not allowed"))
        reject_if (ltb 255 (length image)) (codes "image is too long")
        reject_if
            (not (is_repository registry' (ops.parse_named (registry' ++ (codes "/" ++ image)))))
            (codes "image must be a lowercase repository path")
        reject_if (ltb 128 (length query)) (codes "query is too long")
        ok (record {
          registry = registry';
          image = image;
          query = if beq query [] then codes "latest" else query;
          limit = max_tags;
        })

  -- `ListTags`; `S` is the state of the finder.
  unfoldable pub list_tags :
      {S : Type 0}
      → (tags : TagsCall → S → Result Bytes (List Tag) × S) → Bytes
      → Bytes
      → Bytes
      → S
      → Result Bytes (List Tag) × S
  list_tags tags registry image query s = elim (tags_call registry image query) [
    | err e ↦ (err e, s)
    | ok call ↦ tags call s
  ]

pub record TagsArgs : Type 0 where
  pub registry : Bytes
  pub image : Bytes
  pub query : Bytes

-- What the tool asks of its arguments.
unfoldable pub tags_args :
    (unmarshal : Bytes → Result Bytes TagsArgs) → Bytes → Result Bytes TagsArgs
tags_args unmarshal args_json = do
  args ← map_err (λ e. codes "unmarshal: " ++ e) (unmarshal args_json)
  reject_if (beq args.registry []) (codes "registry is required")
  reject_if (beq args.image []) (codes "image is required")
  ok args

-- The tags as text.
unfoldable pub tags_text :
    (marshal : List Tag → Result Bytes Bytes) → Result Bytes (List Tag) → Result Bytes Bytes
tags_text marshal found = do
  tags ← map_err (λ e. codes "list tags: " ++ e) found
  map_err (λ e. codes "marshal result: " ++ e) (marshal tags)

-- `NewListTagsTool`: the allowlist that the tool keeps.
unfoldable pub tool_registries : RegistryOps → List Bytes → List Bytes
tool_registries ops allowed = elim (normalize_allowed_registries ops allowed) [
  | ok normalized ↦ normalized
  | err e ↦ allowed
]

unfoldable pub list_tags_tool :
    TagToolOps
    → {S : Type 0} → (unmarshal : Bytes → Result Bytes TagsArgs)
    → (marshal : List Tag → Result Bytes Bytes)
    → (tags : TagsCall → S → Result Bytes (List Tag) × S) → List Bytes
    → Bytes
    → S
    → Result Bytes Bytes × S
list_tags_tool ops unmarshal marshal tags allowed args_json s =
    elim (tags_args unmarshal args_json) [
      | err e ↦ (err e, s)
      | ok args ↦
          let (found, s') =
            list_tags ops (tool_registries ops.registry_ops allowed) tags args.registry args.image
              args.query s in
          (tags_text marshal found, s')
    ]

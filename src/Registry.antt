-- ===== src/Registry.antt =====
-- pkg/registryutil: the registry allowlist (registryutil.go) and image names (tags.go, images.go).
-- Unicode case and space tables, and the registry parser of go-containerregistry, are parameters.
pub mod Host
pub mod Normal
pub mod Stable
use zbplan.Prelude.{
  ℕ, zero, suc, ◌+◌, Bool, true, false, not, ◌&&◌, ◌||◌, Option, none, some, List, [], ◌∷◌, ◌++◌,
  ◌≡◌, Bytes, codes, beq, length, leb, ◌==◌, if◌then◌else◌, Result, ok, err,
}
use zbplan.Strings.{contains, contains_byte}
use zbplan.Strings.Split.{split}

abbrev pub registry_docker_hub : Bytes
registry_docker_hub = codes "docker.io"

abbrev pub registry_ghcr : Bytes
registry_ghcr = codes "ghcr.io"

abbrev pub registry_quay : Bytes
registry_quay = codes "quay.io"

abbrev pub registry_gcr : Bytes
registry_gcr = codes "gcr.io"

-- `[a-z0-9]`
unfoldable pub is_alnum : ℕ → Bool
is_alnum c = leb b'a' c && leb c b'z' || leb b'0' c && leb c b'9'

-- `[a-z0-9-]*`
unfoldable pub all_label_bytes : Bytes → Bool
all_label_bytes [] = true
all_label_bytes (c ∷ s) = (is_alnum c || c == b'-') && all_label_bytes s

unfoldable pub ends_alnum : Bytes → Bool
ends_alnum [] = false
ends_alnum (c ∷ []) = is_alnum c
ends_alnum (c ∷ d ∷ s) = ends_alnum (d ∷ s)

-- `[a-z0-9](?:[a-z0-9-]*[a-z0-9])?`
unfoldable pub is_label : Bytes → Bool
is_label [] = false
is_label (c ∷ s) = is_alnum c && (all_label_bytes s && ends_alnum (c ∷ s))

unfoldable pub all_labels : List Bytes → Bool
all_labels [] = true
all_labels (label ∷ labels) = is_label label && all_labels labels

unfoldable pub all_digits : Bytes → Bool
all_digits [] = true
all_digits (c ∷ s) = leb b'0' c && (leb c b'9' && all_digits s)

-- What stands before the first byte `c`, and what stands behind it.
unfoldable pub cut : ℕ → Bytes → Bytes × Option Bytes
cut c [] = ([], none)
cut c (x ∷ s) = let p = cut c s in if x == c then ([], some s) else (x ∷ p.0, p.1)

-- `(?::[0-9]{1,5})?`
unfoldable pub is_port : Option Bytes → Bool
is_port none = true
is_port (some port) = leb 1 (length port) && (leb (length port) 5 && all_digits port)

-- `registryHostRE`: no label holds a dot or a colon, so the first colon begins the port.
unfoldable pub matches_host : Bytes → Bool
matches_host s = let p = cut b':' s in all_labels (split b'.' p.0) && is_port p.1

-- `strings.ToLower`, `strings.TrimSpace`, and the name of `name.NewRegistry(s, StrictValidation)`.
pub record RegistryOps : Type 0 where
  pub to_lower : Bytes → Bytes
  pub trim_space : Bytes → Bytes
  pub registry_name : Bytes → Option Bytes

pub data AllowlistError : Type 0 where
  invalid_registry : Bytes → AllowlistError
  empty_allowlist : AllowlistError

abbrev pub default_registries : List Bytes
default_registries = registry_docker_hub ∷ registry_ghcr ∷ registry_quay ∷ registry_gcr ∷ []

module _ (ops : RegistryOps) where
  -- `err == nil && (parsed.Name() == registry || registry == RegistryDockerHub)`
  unfoldable pub is_accepted : Bytes → Bool
  is_accepted registry = elim (ops.registry_name registry) [
    | none ↦ false
    | some name ↦ beq name registry || beq registry registry_docker_hub
  ]

  -- The loop of `NormalizeAllowedRegistries`; the keys of `seen` are the elements of `registries`.
  unfoldable pub normalize_loop : List Bytes → List Bytes → Result AllowlistError (List Bytes)
  normalize_loop [] registries = ok registries
  normalize_loop (configured ∷ rest) registries =
      let registry = ops.to_lower (ops.trim_space configured) in
      let skipped = normalize_loop rest registries in
      let added = normalize_loop rest (registries ++ registry ∷ []) in
      if beq registry []
      then skipped
      else if not (matches_host registry)
      then err (invalid_registry registry)
      else if not (is_accepted registry)
      then err (invalid_registry registry)
      else if contains registries registry
      then skipped
      else added

  unfoldable pub reject_empty : List Bytes → Result AllowlistError (List Bytes)
  reject_empty [] = err empty_allowlist
  reject_empty (r ∷ rs) = ok (r ∷ rs)

  unfoldable pub normalize_allowed_registries : List Bytes → Result AllowlistError (List Bytes)
  normalize_allowed_registries [] = ok default_registries
  normalize_allowed_registries (r ∷ rs) = elim (normalize_loop (r ∷ rs) []) [
    | ok registries ↦ reject_empty registries
    | err e ↦ err e
  ]

-- `SearchableRegistries`
unfoldable pub searchable_registries : List Bytes → List Bytes
searchable_registries allowed =
    (if contains allowed registry_docker_hub then registry_docker_hub ∷ [] else [])
    ++ (if contains allowed registry_ghcr then registry_ghcr ∷ [] else [])

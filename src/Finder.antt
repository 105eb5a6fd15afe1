-- ===== src/Finder.antt =====
-- pkg/registryutil/images.go and tags.go: the search for images and tags, and its caches. HTTP, JSON, the
-- registry client, fuzzy ranking, the caches and `sort.Slice` are parameters; deadlines are not modelled.
-- Calls that share one request (`singleflight`) are modelled one after the other.
pub mod Images
pub mod Tags
use zbplan.Prelude.{
  ℕ, Bool, true, false, not, ◌&&◌, Option, none, some, List, [], ◌∷◌, ◌++◌, Bytes, codes, beq,
  if◌then◌else◌, Result, ok, err,
}
use zbplan.Registry.{registry_docker_hub, cut}
use zbplan.Strings.{contains_byte}
use zbplan.Paths.{trim_slashes}

pub record Image : Type 0 where
  pub registry : Bytes
  pub name : Bytes
  pub description : Bytes

-- `created_at` counts from Go's zero time.
pub record Tag : Type 0 where
  pub name : Bytes
  pub created_at : ℕ

-- `registry == ""` stands for Docker Hub.
abbrev pub registry_or_hub : Bytes → Bytes
registry_or_hub registry = if beq registry [] then registry_docker_hub else registry

-- `platform`: the system and the architecture.
unfoldable pub platform : Bytes → Bytes × Bytes
platform p =
    let used = if beq p [] then codes "linux/amd64" else p in
    elim ((cut b'/' used).1) [
      | none ↦ (used, [])
      | some arch ↦ if beq ((cut b'/' used).0) [] then (used, []) else ((cut b'/' used).0, arch)
    ]

-- ===== src/Finder/Tags.antt =====
-- pkg/registryutil/tags.go: the tags of an image, by their creation. The registry client, fuzzy ranking,
-- the caches and `sort.Slice` are parameters.
pub mod Cached
pub mod Keys
pub mod Dated
pub mod Newest
use zbplan.Finder.{Tag, registry_or_hub, platform}
use zbplan.Prelude.{
  ℕ, zero, suc, Bool, true, false, not, ◌&&◌, Option, none, some, List, [], ◌∷◌, ◌++◌, Bytes, codes,
  beq, take, length, ltb, ◌==◌, if◌then◌else◌, Result, ok, err, ◌>>=◌, ◌>>◌, reject_if, map_err, ℤ,
  pos_part, pos, negsuc,
}
use zbplan.Paths.{slash, trim_slashes}
use zbplan.Registry.{registry_docker_hub}
use zbplan.Strings.{contains_byte}

-- An `expirable.LRU`: a value that is found may leave, and so may one that is added.
pub record CacheOps (C V : Type 0) : Type 0 where
  pub get : C → Bytes → Option V × C
  pub add : C → Bytes → V → C

-- A manifest of an index: its platform, where it is told, and its digest.
pub record Manifest : Type 0 where
  pub on : Option (Bytes × Bytes)
  pub digest : Bytes

-- What a reference leads to: the manifests, where it is an index, and the time that the configuration of
-- its image tells.
pub record Descriptor : Type 0 where
  pub is_index : Bool
  pub manifests : Result Bytes (List Manifest)
  pub created : Result Bytes ℕ

-- go-containerregistry; a repository is its name.
pub record Remote : Type 0 where
  pub new_repository : Bytes → Result Bytes Bytes
  pub list : Bytes → Result Bytes (List Bytes)
  pub get : Bytes → Result Bytes Descriptor
  pub tag_ref : Bytes → Bytes → Bytes
  pub digest_ref : Bytes → Bytes → Bytes

-- `strings.Trim(image, "/")`
unfoldable pub trim_leading : Bytes → Bytes
trim_leading [] = []
trim_leading (c ∷ s) = let rest = trim_leading s in if c == slash then rest else c ∷ s

unfoldable pub normalize_image : Bytes → Bytes → Bytes
normalize_image registry name =
    let trimmed = trim_slashes (trim_leading name) in
    if beq registry registry_docker_hub && not (contains_byte slash trimmed)
    then codes "library/" ++ trimmed
    else trimmed

unfoldable pub is_on : Bytes → Bytes → Manifest → Bool
is_on os arch m = elim (m.on) [ none ↦ false | some (o, a) ↦ beq o os && beq a arch ]

-- The loop for the manifest of the platform.
unfoldable pub choose_manifest : Bytes → Bytes → Manifest → List Manifest → Manifest
choose_manifest os arch chosen [] = chosen
choose_manifest os arch chosen (m ∷ ms) =
    let rest = choose_manifest os arch chosen ms in if is_on os arch m then m else rest

module _ (remote : Remote) where
  unfoldable pub created_of_index : Bytes → Bytes → Bytes → Bytes → List Manifest → Result Bytes ℕ
  created_of_index repo tag_name os arch [] =
      err (codes "empty index for " ++ (repo ++ (codes ":" ++ tag_name)))
  created_of_index repo tag_name os arch (m ∷ ms) = do
    child ← remote.get (remote.digest_ref repo (choose_manifest os arch m (m ∷ ms)).digest)
    child.created

  unfoldable pub created_of : Bytes → Bytes → Bytes → Bytes → Descriptor → Result Bytes ℕ
  created_of repo tag_name os arch desc =
      if desc.is_index
      then desc.manifests >>= created_of_index repo tag_name os arch
      else desc.created

  unfoldable pub resolve_created_at : Bytes → Bytes → Bytes → Bytes → Result Bytes ℕ
  resolve_created_at repo tag_name os arch = do
    desc ← remote.get (remote.tag_ref repo tag_name)
    created_of repo tag_name os arch desc

module _ {C V : Type 0} (ops : CacheOps C V) (key : Bytes) (work : Result Bytes V) where
  -- The work is done, and its result kept.
  unfoldable pub filled : C → Result Bytes V × C
  filled c = elim work [ err e ↦ (err e, c) | ok v ↦ (ok v, ops.add c key v) ]

  -- What calls of the same key share: another look into the cache, and the work where it has nothing.
  unfoldable pub shared : C → Result Bytes V × C
  shared c = let (hit, c') = ops.get c key in elim hit [ some v ↦ (ok v, c') | none ↦ filled c' ]

  unfoldable pub cached : C → Result Bytes V × C
  cached c = let (hit, c') = ops.get c key in elim hit [ some v ↦ (ok v, c') | none ↦ shared c' ]

unfoldable pub created_key : Bytes → Bytes → Bytes → Bytes → Bytes
created_key repo tag_name os arch =
    repo ++ (codes ":" ++ (tag_name ++ (codes "@" ++ (os ++ (codes "/" ++ arch)))))

-- A tag whose time was asked for is kept; one whose time is not known is skipped.
abbrev pub keep_tag : Bytes → Result Bytes ℕ → List Tag → List Tag
keep_tag name (err e) tags = tags
keep_tag name (ok t) tags = tags ++ record { name = name; created_at = t } ∷ []

-- The function of `sort.Slice`: `tags[i].CreatedAt.After(tags[j].CreatedAt)`
unfoldable pub created_after : Tag → Tag → Bool
created_after t u = ltb u.created_at t.created_at

-- The caches of a finder.
pub record Caches (N T : Type 0) : Type 0 where
  pub names : N
  pub times : T

module _ {N T : Type 0} (name_ops : CacheOps N (List Bytes)) (time_ops : CacheOps T ℕ)
    (remote : Remote) where
  unfoldable pub cached_tag_names : Bytes → N → Result Bytes (List Bytes) × N
  cached_tag_names repo c = cached name_ops repo (remote.list repo) c

  unfoldable pub cached_created_at : Bytes → Bytes → Bytes → Bytes → T → Result Bytes ℕ × T
  cached_created_at repo tag_name os arch c =
      cached time_ops (created_key repo tag_name os arch)
        (resolve_created_at remote repo tag_name os arch) c

  -- The loop over the ranked tags.
  unfoldable pub date_tags : Bytes → Bytes → Bytes → List Bytes → List Tag → T → List Tag × T
  date_tags repo os arch [] tags c = (tags, c)
  date_tags repo os arch (target ∷ targets) tags c =
      let (r, c') = cached_created_at repo target os arch c in
      date_tags repo os arch targets (keep_tag target r tags) c'

  module _ (rank_find : Bytes → List Bytes → List Bytes)
      (slice : (Tag → Tag → Bool) → List Tag → List Tag) (wanted : Bytes) where
    -- The best of the names, dated and sorted.
    unfoldable pub best_tags : Bytes → Bytes → ℕ → List Bytes → T → List Tag × T
    best_tags repo keyword limit tag_names c =
        let ranked = rank_find keyword tag_names in
        let (os, arch) = platform wanted in
        let (found, c') =
          date_tags repo os arch (if ltb limit (length ranked) then take limit ranked else ranked)
            [] c in
        (slice created_after found, c')

    -- What is asked of the arguments, and the repository that they name, as it is written and as it is
    -- read.
    unfoldable pub tags_repository :
        (quote : Bytes → Bytes) → Bytes → Bytes → Bytes → ℤ → Result Bytes (Bytes × Bytes)
    tags_repository quote registry name keyword limit = do
      reject_if (beq keyword []) (codes "keyword must not be empty")
      reject_if (pos_part limit == 0) (codes "limit must be positive")
      let ref =
            registry_or_hub registry
            ++ (codes "/" ++ normalize_image (registry_or_hub registry) name) in
          map_err (λ e. codes "invalid repository " ++ (quote ref ++ (codes ": " ++ e)))
            (remote.new_repository ref)
          >>= λ repo. ok (ref, repo)

    -- What is done with the names of the tags.
    unfoldable pub tags_named :
        Bytes × Bytes
        → Bytes
        → ℕ
        → Result Bytes (List Bytes)
        → Caches N T
        → Result Bytes (List Tag) × Caches N T
    tags_named (ref, repo) keyword limit (err e) s =
        (err (codes "listing tags for " ++ (ref ++ (codes ": " ++ e))), s)
    tags_named (ref, repo) keyword limit (ok names) s =
        let (found, c) = best_tags repo keyword limit names s.times in
        (ok found, record s { times = c })

    -- `Tags` behind its checks.
    unfoldable pub tags_of :
        Bytes × Bytes → Bytes → ℕ → Caches N T → Result Bytes (List Tag) × Caches N T
    tags_of (ref, repo) keyword limit s =
        let (names, c) = cached_tag_names repo s.names in
        tags_named (ref, repo) keyword limit names (record s { names = c })

    unfoldable pub tags :
        (quote : Bytes → Bytes)
        → Bytes
        → Bytes
        → Bytes
        → ℤ
        → Caches N T
        → Result Bytes (List Tag) × Caches N T
    tags quote registry name keyword limit s =
        elim (tags_repository quote registry name keyword limit) [
          | err e ↦ (err e, s)
          | ok repository ↦ tags_of repository keyword (pos_part limit) s
        ]

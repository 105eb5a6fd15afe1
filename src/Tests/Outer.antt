-- ===== src/Tests/Outer.antt =====
-- pkg/registryutil, pkg/builder/builder.go, pkg/zbplan/model.go and the tools that search registries: on
-- a registry with one image.
use zbplan.Finder.{Image, Tag, platform}
use zbplan.Finder.Tags.{CacheOps, Remote, Caches, tags_repository, tags}
use zbplan.Finder.Tags.Cached.{IsCache, IsTrue}
use zbplan.Finder.Tags.Keys.{HasNoColon, on_platform}
use zbplan.Finder.Tags.Newest.{IsTagged, IsRegistry, AreTrue, tags-IsTagged}
use zbplan.Gather.{rest, start}
use zbplan.Gather.Complete.{IsRunning, delivers}
use zbplan.Models.{ModelEnv, new_model_from_env}
use zbplan.Models.Chosen.{Choice, new_model_from_env-Choice}
use zbplan.Policy.{Nodes, node, nil, cons, end}
use zbplan.Prelude.{
  ℕ, suc, Bool, true, false, Option, none, some, List, [], ◌∷◌, Bytes, codes, beq, beq_iff, length,
  ◌≡◌, refl, ◌⊎◌, inl, inr, if◌then◌else◌, Bool-cases, Result, ok, err, pos, arith, All,
}
use zbplan.Registry.{RegistryOps}
use zbplan.RegistryTools.{TagsCall, TagToolOps, list_tags, ListsImages}
use zbplan.RegistryTools.Allowed.{IsAllowed, list_tags-cases}
use zbplan.RegistryTools.Searched.{IsListing, list_images-cases}
use zbplan.Solve.{BuildImageOptions, Outside, World, build_oci}
use zbplan.Solve.Released.{Requests, build_oci-releases}
use zbplan.Registry.{cut}
use zbplan.Strings.{contains_byte}
use zbplan.Tests.Sorting.{insertion_sort, insertion_sort-IsSliceSort}

abbrev two_workers : List (List ℕ)
two_workers = (1 ∷ 2 ∷ []) ∷ (3 ∷ []) ∷ []

delivers_example : IsRunning 2 false two_workers 0 (start false two_workers)
delivers_example =
    delivers 2 false two_workers 0 (start false two_workers) (λ h. omega arith)
      (rest (start false two_workers))

abbrev golang : Image
golang = record { registry = codes "docker.io"; name = codes "golang"; description = [] }

-- Only one registry answers.
abbrev search_one : Bytes → Bytes → ℕ → Result Bytes (List Image)
search_one registry query limit =
    if beq registry (codes "docker.io") then ok (golang ∷ []) else err (codes "down")

abbrev two_registries : List Bytes
two_registries = codes "docker.io" ∷ codes "ghcr.io" ∷ []

list_images-cases_example :
    ((later : Bool) × (result : Result Bytes (List Image)) × ListsImages search_one two_registries
        true
        (codes "go")
        later
        result)
    × ((later : Bool) (result : Result Bytes (List Image))
        → ListsImages search_one two_registries true (codes "go") later result
        → IsListing search_one two_registries true (codes "go") later result)
list_images-cases_example = list_images-cases search_one two_registries true (codes "go")

abbrev plain_ops : RegistryOps
plain_ops = record { to_lower = λ s. s; trim_space = λ s. s; registry_name = λ s. some s }

abbrev tool_ops : TagToolOps
tool_ops = record {
  registry_ops = plain_ops;
  parse_named = λ s. some (record { is_name_only = true; domain = codes "docker.io" });
  quote = λ s. s;
  error_text = λ e. codes "bad allowlist";
}

abbrev no_tags : TagsCall → ℕ → Result Bytes (List Tag) × ℕ
no_tags call n = (ok [], suc n)

list_tags-cases_example :
    ((call : TagsCall) × IsAllowed tool_ops two_registries (codes "docker.io") (codes "golang") call
      × (list_tags tool_ops two_registries no_tags (codes "docker.io") (codes "golang") [] 0
          ≡ no_tags call 0))
    ⊎ ((e : Bytes) × (list_tags tool_ops two_registries no_tags
            (codes "docker.io")
            (codes "golang")
            []
            0
          ≡ (err e, 0)))
list_tags-cases_example =
    list_tags-cases tool_ops two_registries no_tags (codes "docker.io") (codes "golang") [] 0

-- A cache that keeps all.
look_up : {V : Type 0} → List (Bytes × V) → Bytes → Option V
look_up [] key = none
look_up ((k, v) ∷ c) key = let older = look_up c key in if beq k key then some v else older

abbrev keep_all : {V : Type 0} → CacheOps (List (Bytes × V)) V
keep_all = record { get = λ c key. (look_up c key, c); add = λ c key v. (key, v) ∷ c }

keep_all-IsCache : {V : Type 0} → IsCache {C = List (Bytes × V)} {V = V} keep_all
unfolding look_up
keep_all-IsCache = record {
  looked = λ c key k v h. h;
  added = λ c key k v v' h. elim (Bool-cases (beq key k)) [
    | inl same ↦ inl ((beq_iff key k).0 same, (let z = rw (same, look_up) at h in cc))
    | inr other ↦ inr (rw (other, look_up) at h)
  ];
}

abbrev one_image : Remote
one_image = record {
  new_repository = λ s. ok s;
  list = λ repo. ok (codes "1.26" ∷ codes "latest" ∷ []);
  get = λ ref. ok (record { is_index = false; manifests = ok []; created = ok (length ref) });
  tag_ref = λ repo tag. tag;
  digest_ref = λ repo digest. digest;
}

abbrev all_names : Bytes → List Bytes → List Bytes
all_names keyword names = names

one_image-IsRegistry : IsRegistry one_image all_names insertion_sort
unfolding contains_byte
one_image-IsRegistry = record {
  listed = λ repo names h. elim_names names h;
  ranked = λ keyword n names m. m;
  sorted = insertion_sort-IsSliceSort;
}
  where
    elim_names :
        (names : List Bytes)
        → ◌≡◌ {A = Result Bytes (List Bytes)} (ok (codes "1.26" ∷ codes "latest" ∷ [])) (ok names)
        → All HasNoColon names
    elim_names names h =
        let same : (codes "1.26" ∷ codes "latest" ∷ []) ≡ names = cc in
        mathlib.Core.Path.subst (All HasNoColon) same (refl, (refl, tt))

abbrev no_caches : Caches (List (Bytes × List Bytes)) (List (Bytes × ℕ))
no_caches = record { names = []; times = [] }

default_plain : HasNoColon (on_platform (platform []).0 (platform []).1)
unfolding contains_byte platform cut beq
default_plain = refl

no_caches-AreTrue :
    AreTrue keep_all keep_all one_image keep_all-IsCache keep_all-IsCache all_names insertion_sort
      one_image-IsRegistry [] default_plain no_caches
unfolding look_up IsTrue
no_caches-AreTrue = record { names = λ k v h. absurd (cc); times = λ k v h. absurd (cc) }

tags-IsTagged_example :
    IsTagged keep_all keep_all one_image keep_all-IsCache keep_all-IsCache all_names insertion_sort
      one_image-IsRegistry [] default_plain
      (tags_repository keep_all keep_all one_image all_names insertion_sort []
        (λ s. s)
        (codes "docker.io")
        (codes "golang")
        (codes "1")
        (pos 5))
      5
      (tags keep_all keep_all one_image all_names insertion_sort []
        (λ s. s)
        (codes "docker.io")
        (codes "golang")
        (codes "1")
        (pos 5)
        no_caches)
tags-IsTagged_example =
    tags-IsTagged keep_all keep_all one_image keep_all-IsCache keep_all-IsCache all_names
      insertion_sort one_image-IsRegistry [] default_plain (λ s. s) (codes "docker.io")
      (codes "golang") (codes "1") (pos 5) no_caches no_caches-AreTrue

abbrev one_instruction : Nodes
one_instruction = cons (node nil end) nil

-- BuildKit closes the output itself.
abbrev willing : Outside
willing = record {
  parse = λ s. ok one_instruction;
  registry_ops = plain_ops;
  dockerfile_error = λ e. [];
  allowlist_error = λ e. [];
  prepare = λ s vars. ok (record {
    dockerfile = s;
    prepared = record { build_args = λ k. none; use_bundled_frontend = false };
  });
  context_error = none;
  mkdir_temp = none;
  new_context_fs = λ s. none;
  write_dockerfile = λ s. none;
  new_dockerfile_fs = none;
  buildkit = λ opt. (none, 1);
  display = none;
  display_first = false;
  close_output = none;
}

abbrev small_build : BuildImageOptions
small_build = record {
  dockerfile = codes "FROM scratch";
  context = codes "/p";
  allowed_registries = [];
  exclude_context_path = none;
  variables = [];
}

abbrev at_rest : World
at_rest = record { temps = 0; solves = []; once = false; close_error = none; closes = 0 }

build_oci-releases_example :
    ((build_oci willing small_build true at_rest).1.temps ≡ 0)
    × ((build_oci willing small_build true at_rest).1.closes ≡ 1)
    × Requests willing small_build true
        (build_oci willing small_build true at_rest).0
        []
        (build_oci willing small_build true at_rest).1.solves
build_oci-releases_example = build_oci-releases willing small_build at_rest

abbrev key_only : ModelEnv ℕ
key_only = record {
  getenv = λ name. if beq name (codes "ZBPLAN_ANTHROPIC_API_KEY") then codes "key" else [];
  to_lower = λ s. s;
  quote = λ s. s;
  new_claude = λ client. ok 1;
  new_openai = λ client. ok 2;
}

new_model_from_env-Choice_example : Choice key_only (new_model_from_env key_only)
new_model_from_env-Choice_example = new_model_from_env-Choice key_only

-- ===== src/Finder/Images.antt =====
-- pkg/registryutil/images.go: the search for images. The HTTP client and the JSON decoders are parameters.
use zbplan.Finder.{Image, registry_or_hub}
use zbplan.Gather.{IsGathered}
use zbplan.Prelude.{
  ℕ, ◌≡◌, true, Bool, false, not, Option, none, some, List, [], ◌∷◌, ◌++◌, map, Bytes, codes, beq,
  length, decimal, ◌==◌, if◌then◌else◌, Result, ok, err, ◌>>=◌, ◌>>◌, reject_if, map_err,
}
use zbplan.Registry.{registry_docker_hub, registry_ghcr}

pub record Response : Type 0 where
  pub status_code : ℕ
  pub status : Bytes
  pub body : Bytes

-- A repository that a search found.
pub record Found : Type 0 where
  pub name : Bytes
  pub description : Bytes

pub record Http : Type 0 where
  pub query_escape : Bytes → Bytes
  -- the request for an address, with its `Accept` header where there is one, and the answer to it
  pub fetch : Bytes → Option Bytes → Result Bytes Response
  pub decode_hub : Bytes → Result Bytes (List Found)
  pub decode_github : Bytes → Result Bytes (List Found)
  pub decode_token : Bytes → Result Bytes Bytes

-- `http.StatusOK`
abbrev pub status_ok : ℕ
status_ok = 200

abbrev pub hub_image : Found → Image
hub_image r = record { registry = registry_docker_hub; name = r.name; description = r.description }

abbrev pub ghcr_image : Found → Image
ghcr_image r = record { registry = registry_ghcr; name = r.name; description = r.description }

module _ (http : Http) where
  unfoldable pub search_docker_hub : Bytes → ℕ → Result Bytes (List Image)
  search_docker_hub keyword limit = do
    resp ←
        http.fetch
          (codes "https://hub.docker.com/v2/search/repositories/?query="
            ++ (http.query_escape keyword ++ (codes "&page_size=" ++ decimal limit)))
          none
    reject_if (not (resp.status_code == status_ok)) (codes "hub search returned " ++ resp.status)
    results ← map_err (λ e. codes "decoding hub search response: " ++ e) (http.decode_hub resp.body)
    ok (map hub_image results)

  -- Whether an anonymous token for the package is given.
  unfoldable pub package_token : Bytes → Result Bytes Bytes
  package_token full_name = do
    resp ←
        http.fetch
          (codes "https://ghcr.io/token?service=ghcr.io&scope="
            ++ http.query_escape (codes "repository:" ++ (full_name ++ codes ":pull")))
          none
    reject_if (not (resp.status_code == status_ok)) []
    http.decode_token resp.body

  unfoldable pub has_ghcr_package : Bytes → Bool
  has_ghcr_package full_name = elim (package_token full_name) [
    | err e ↦ false
    | ok token ↦ not (beq token [])
  ]

  -- What the goroutine of a repository finds, once it has looked at its context.
  unfoldable pub ghcr_worker : Found → List Image
  ghcr_worker item = if has_ghcr_package item.name then ghcr_image item ∷ [] else []

  -- What GitHub's search finds.
  unfoldable pub search_github : Bytes → ℕ → Result Bytes (List Found)
  search_github keyword limit = do
    resp ←
        http.fetch
          (codes "https://api.github.com/search/repositories?q="
            ++ (http.query_escape keyword ++ (codes "&per_page=" ++ decimal limit)))
          (some (codes "application/vnd.github+json"))
    reject_if (not (resp.status_code == status_ok)) (codes "github search returned " ++ resp.status)
    map_err (λ e. codes "decoding github search response: " ++ e) (http.decode_github resp.body)

  -- A result of `searchGHCR` for a context that is cancelled or not, and may be cancelled later: its
  -- goroutines may come in any order.
  pub data SearchesGhcr (keyword : Bytes) (limit : ℕ) (cancelled later : Bool)
      (result : Result Bytes (List Image)) : Type 0 where
    failed :
        (e : Bytes)
        → search_github keyword limit ≡ err e
        → result ≡ err e
        → SearchesGhcr keyword limit cancelled later result
    collects :
        (items : List Found) (got : List Image)
        → search_github keyword limit ≡ ok items
        → IsGathered (length items) cancelled (map ghcr_worker items) later got
        → result ≡ ok got
        → SearchesGhcr keyword limit cancelled later result

  -- A result of `Images`; the error text holds the registry as `%q` prints it.
  pub data FindsImages (quote : Bytes → Bytes) (registry keyword : Bytes) (limit : ℕ)
      (cancelled later : Bool) (result : Result Bytes (List Image)) : Type 0 where
    on_hub :
        beq (registry_or_hub registry) registry_docker_hub ≡ true
        → result ≡ search_docker_hub keyword limit
        → FindsImages quote registry keyword limit cancelled later result
    on_ghcr :
        beq (registry_or_hub registry) registry_docker_hub ≡ false
        → beq (registry_or_hub registry) registry_ghcr ≡ true
        → SearchesGhcr keyword limit cancelled later result
        → FindsImages quote registry keyword limit cancelled later result
    on_no_other :
        beq (registry_or_hub registry) registry_docker_hub ≡ false
        → beq (registry_or_hub registry) registry_ghcr ≡ false
        → result
          ≡ err
              (codes "image search not supported for registry " ++ quote (registry_or_hub registry))
        → FindsImages quote registry keyword limit cancelled later result

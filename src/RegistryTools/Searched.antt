-- ===== src/RegistryTools/Searched.antt =====
-- What `ListImages` returns: what the searches of the registries found, whoever came first.
use zbplan.Finder.{Image}
use zbplan.Gather.Complete.{IsCollected, IsGathered-IsCollected, gathers}
use zbplan.Prelude.{
  ℕ, ◌*◌, ◌<◌, ◌≤◌, Bool, List, [], ◌∷◌, map, Bytes, codes, beq, beq_iff, length, ltb, Bool-cases,
  ◌≡◌, ◌≢◌, refl, ◌⊎◌, inl, inr, Result, ok, err, arith,
}
use zbplan.RegistryTools.{
  max_per_registry, check_query, found_by, search_images, ListsImages, refused, collects,
}

-- What a query may be, and what the check of it gives.
check_query-cases :
    (query : Bytes)
    → ((query ≢ []) × (length query ≤ 128) × (check_query query ≡ ok tt))
      ⊎ (((query ≡ []) ⊎ (128 < length query)) × ((e : Bytes) × (check_query query ≡ err e)))
unfolding check_query
check_query-cases query = elim (Bool-cases (beq query [])) [
  | inl blank ↦ inr (inl ((beq_iff query []).0 blank), (codes "query is required", rw blank refl))
  | inr given ↦ elim (Bool-cases (ltb 128 (length query))) [
    | inl long ↦ inr (inr (ground arith), (codes "query is too long", rw (given, long) refl))
    | inr short ↦
        inl ((λ e. cc ((beq_iff query []).1 e, given)), ground arith, rw (given, short) refl)
  ]
]

module _ (images : Bytes → Bytes → ℕ → Result Bytes (List Image)) (registries : List Bytes)
    (cancelled : Bool) (query : Bytes) where
  -- What each registry has for the query, none where its search fails.
  abbrev pub found_in_each : List (List Image)
  found_in_each = map (λ registry. found_by (images registry query 3)) registries

  -- A result for a context that is cancelled by `later`.
  pub record IsListing (later : Bool) (result : Result Bytes (List Image)) : Type 0 where
    pub cases :
        ((query ≢ [])
          × (length query ≤ 128)
          × ((found : List Image) × (result ≡ ok found)
              × IsCollected cancelled later found_in_each found))
        ⊎ (((query ≡ []) ⊎ (128 < length query)) × ((e : Bytes) × (result ≡ err e)))

  room :
      (rs : List Bytes)
      → map (search_images images query) rs ≢ []
      → 0 < max_per_registry * length rs
  room [] h = absurd (h refl)
  room (r ∷ rs) h = omega arith

  result-IsListing :
      (later : Bool) (result : Result Bytes (List Image))
      → ListsImages images registries cancelled query later result
      → IsListing later result
  unfolding search_images
  result-IsListing later result (refused e bad r) = elim (check_query-cases query) [
    | inl (given, short, good) ↦ absurd (cc (bad, good))
    | inr (why, _) ↦ record { cases = inr (why, (e, r)) }
  ]
  result-IsListing later result (collects got good g r) = elim (check_query-cases query) [
    | inl (given, short, _) ↦ record {
      cases =
          inl
            (given, short, (got, r, IsGathered-IsCollected _ cancelled found_in_each later got g));
    }
    | inr (why, (e, bad)) ↦ absurd (cc (bad, good))
  ]

  -- `ListImages` returns. Whenever its context is cancelled and whoever comes first, a query that is blank or
  -- longer than 128 bytes is refused, and another is answered: with all that the searches of the registries
  -- found, in some order, where the context is never cancelled; with nothing, where it was cancelled from
  -- the start; and otherwise with all or nothing of what each found. A registry whose search fails hides no
  -- other.
  pub list_images-cases :
      ((later : Bool) × (result : Result Bytes (List Image)) × ListsImages images registries
          cancelled query later result)
      × ((later : Bool) (result : Result Bytes (List Image))
          → ListsImages images registries cancelled query later result
          → IsListing later result)
  list_images-cases = (returns, result-IsListing)
    where
      returns :
          (later : Bool) × (result : Result Bytes (List Image)) × ListsImages images registries
            cancelled query later result
      returns = elim (check_query-cases query) [
        | inr (why, (e, bad)) ↦ (cancelled, err e, refused e bad refl)
        | inl (given, short, good) ↦
            let (later, got, g) =
              gathers (max_per_registry * length registries) cancelled
                (map (search_images images query) registries) (room registries) in
            (later, ok got, collects got good g refl)
      ]

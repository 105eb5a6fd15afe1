-- ===== src/Finder/Tags/Cached.antt =====
-- What the caches hold stays true, and a failure is not kept.
use zbplan.Finder.Tags.{CacheOps, filled, shared, cached}
use zbplan.Prelude.{Option, none, some, Bytes, ◌≡◌, refl, ◌∙◌, ◌⊎◌, inl, inr, Result, ok, err}

module _ {C V : Type 0} (ops : CacheOps C V) where
  abbrev pub Holds : C → Bytes → V → Type 0
  Holds c key v = (ops.get c key).0 ≡ some v

  -- What the code relies on: a look or an addition may drop values, and makes none up.
  pub record IsCache : Type 0 where
    pub looked : (c : C) (key k : Bytes) (v : V) → Holds (ops.get c key).1 k v → Holds c k v
    pub added :
        (c : C) (key k : Bytes) (v v' : V)
        → Holds (ops.add c key v) k v'
        → ((key ≡ k) × (v ≡ v')) ⊎ Holds c k v'

  module _ (P : Bytes → V → Type 0) where
    -- Each value of the cache is one that its key may have.
    unfoldable pub IsTrue : C → Type 0
    IsTrue c = (k : Bytes) (v : V) → Holds c k v → P k v

    -- A result, and the cache behind it.
    pub record IsRight (key : Bytes) (r : Result Bytes V × C) : Type 0 where
      pub value : (v : V) → r.0 ≡ ok v → P key v
      pub cache : IsTrue r.1

    module _ (laws : IsCache) (key : Bytes) (work : Result Bytes V)
        (right : (v : V) → work ≡ ok v → P key v) where
      filled-IsRight : (c : C) → IsTrue c → IsRight key (filled ops key work c)
      unfolding filled IsTrue
      filled-IsRight c h = go work refl
        where
          go : (m : Result Bytes V) → work ≡ m → IsRight key (filled ops key work c)
          go (err e) k = rw k (record { value = λ v z. absurd (cc); cache = h })
          go (ok v) k = rw k (record {
            value = λ v' z. right v' (k ∙ z);
            cache = λ k' v' held. elim (laws.added c key k' v v' held) [
              | inl (e, e') ↦
                  mathlib.Core.Path.subst (λ a. P a v') e
                    (mathlib.Core.Path.subst (P key) e' (right v k))
              | inr before ↦ h k' v' before
            ];
          })

      looked-IsTrue : (c : C) → IsTrue c → IsTrue (ops.get c key).1
      unfolding IsTrue
      looked-IsTrue c h k v held = h k v (laws.looked c key k v held)

      shared-IsRight : (c : C) → IsTrue c → IsRight key (shared ops key work c)
      unfolding shared IsTrue
      shared-IsRight c h = go (ops.get c key).0 refl
        where
          go : (m : Option V) → (ops.get c key).0 ≡ m → IsRight key (shared ops key work c)
          go none k = rw (k, shared) (filled-IsRight (ops.get c key).1 (looked-IsTrue c h))
          go (some v) k =
              rw (k, shared)
                (record { value = λ v' z. h key v' (k ∙ (cc)); cache = looked-IsTrue c h })

      -- A cached call gives a right value or an error, and leaves a cache whose values are right, where the
      -- work gives right values and the cache held such.
      pub cached-IsRight : (c : C) → IsTrue c → IsRight key (cached ops key work c)
      unfolding cached IsTrue
      cached-IsRight c h = go (ops.get c key).0 refl
        where
          go : (m : Option V) → (ops.get c key).0 ≡ m → IsRight key (cached ops key work c)
          go none k = rw (k, cached) (shared-IsRight (ops.get c key).1 (looked-IsTrue c h))
          go (some v) k =
              rw (k, cached)
                (record { value = λ v' z. h key v' (k ∙ (cc)); cache = looked-IsTrue c h })

  -- A failure is not kept: where the work fails, the call gives a value that the cache held or an error,
  -- and the cache holds nothing that it did not hold before.
  pub cached_failed :
      IsCache
      → (key e : Bytes) (work : Result Bytes V) (c : C) → work ≡ err e
      → IsRight (Holds c) key (cached ops key work c)
  unfolding IsTrue
  cached_failed laws key e work c h =
      cached-IsRight (Holds c) laws key work (λ v z. absurd (cc)) c (λ k v held. held)

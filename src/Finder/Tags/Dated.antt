-- ===== src/Finder/Tags/Dated.antt =====
-- The tags that the loop keeps have their own times.
use mathlib.Core.Path.{subst}
use zbplan.Finder.{Tag}
use zbplan.Finder.Tags.{
  CacheOps, Remote, resolve_created_at, created_key, cached_created_at, keep_tag, date_tags,
}
use zbplan.Finder.Tags.Cached.{IsCache, IsTrue, IsRight, cached-IsRight}
use zbplan.Prelude.{
  ℕ, suc, ◌+◌, ◌≤◌, List, [], ◌∷◌, ◌++◌, Bytes, length, length-append, ◌≡◌, refl, sym, Result, ok,
  err, arith, All, All-snoc,
}
use zbplan.Finder.Tags.Keys.{HasNoColon, on_platform, created_key_unique, IsDated, IsTimed}

module _ {N T : Type 0} (name_ops : CacheOps N (List Bytes)) (time_ops : CacheOps T ℕ)
    (remote : Remote) (time_laws : IsCache time_ops) (os arch : Bytes)
    (plain : HasNoColon (on_platform os arch)) where
  cached_created_at-IsRight :
      (repo tag : Bytes) (c : T)
      → HasNoColon tag
      → IsTrue time_ops (IsTimed remote os arch) c
      → IsRight time_ops
          (IsTimed remote os arch)
          (created_key repo tag os arch)
          (cached_created_at name_ops time_ops remote repo tag os arch c)
  unfolding cached_created_at IsTimed
  cached_created_at-IsRight repo tag c h true_cache =
      cached-IsRight time_ops (IsTimed remote os arch) time_laws (created_key repo tag os arch)
        (resolve_created_at remote repo tag os arch)
        (λ time e repo' tag' k h'.
          let (r, same) = created_key_unique repo repo' tag tag' os arch plain h h' k in
          subst (λ t. resolve_created_at remote repo' t os arch ≡ ok time) same
            (subst (λ p. resolve_created_at remote p tag os arch ≡ ok time) r e))
        c true_cache

  module _ (repo : Bytes) (Q : Bytes → Type 0) where
    -- Tags with their own times, and the cache behind them.
    pub record IsDating (most : ℕ) (r : List Tag × T) : Type 0 where
      pub each : All (λ t. IsDated remote os arch repo t × Q t.name) r.0
      pub few : length r.0 ≤ most
      pub cache : IsTrue time_ops (IsTimed remote os arch) r.1

    pub more_room : (m n : ℕ) (r : List Tag × T) → m ≤ n → IsDating m r → IsDating n r
    more_room m n r le d = record { each = d.each; few = omega (arith, d.few, le); cache = d.cache }

    abbrev pub IsKnown : List Tag → Type 0
    IsKnown found = All (λ t. IsDated remote os arch repo t × Q t.name) found

    pub date_tags-IsDating :
        (targets : List Bytes) (found : List Tag) (c : T)
        → All (λ n. HasNoColon n × Q n) targets
        → IsKnown found
        → IsTrue time_ops (IsTimed remote os arch) c
        → IsDating
            (length found + length targets)
            (date_tags name_ops time_ops remote repo os arch targets found c)
    unfolding date_tags
    date_tags-IsDating [] found c h k true_cache = record {
      each = k;
      few = omega arith;
      cache = true_cache;
    }
    date_tags-IsDating (target ∷ targets) found c ((h, q), hs) k true_cache =
        go next.0 refl (λ found' k'. date_tags-IsDating targets found' next.1 hs k' right.cache)
      where
        next : Result Bytes ℕ × T
        next = cached_created_at name_ops time_ops remote repo target os arch c

        right : IsRight time_ops (IsTimed remote os arch) (created_key repo target os arch) next
        right = cached_created_at-IsRight repo target c h true_cache

        rest : List Tag → List Tag × T
        rest found' = date_tags name_ops time_ops remote repo os arch targets found' next.1

        go :
            (m : Result Bytes ℕ)
            → next.0 ≡ m
            → ((found' : List Tag)
                → IsKnown found'
                → IsDating (length found' + length targets) (rest found'))
            → IsDating (length found + suc (length targets)) (rest (keep_tag target next.0 found))
        go (err x) e ih =
            subst
              (λ m. IsDating (length found + suc (length targets)) (rest (keep_tag target m found)))
              (sym e) (more_room _ _ _ (omega arith) (ih found k))
        go (ok time) e ih =
            let longer = found ++ record { name = target; created_at = time } ∷ [] in
            subst
              (λ m. IsDating (length found + suc (length targets)) (rest (keep_tag target m found)))
              (sym e)
              (more_room (length longer + length targets) _ _
                (omega
                  (arith, length-append found (record { name = target; created_at = time } ∷ [])))
                (ih longer (
                  All-snoc (λ t. IsDated remote os arch repo t × Q t.name) found _ k
                    (
                      (unfold IsDated in unfold IsTimed in right.value time e repo target refl h),
                      q,
                    ))))

-- ===== src/Finder/Tags/Newest.antt =====
-- What `Tags` returns: tags of the repository with their own times, the newest first.
use mathlib.Core.Path.{subst}
use zbplan.Finder.{Tag, platform}
use zbplan.Finder.Tags.{
  CacheOps, Remote, Caches, cached_tag_names, created_after, date_tags, best_tags, tags_repository,
  tags_named, tags_of, tags,
}
use zbplan.Finder.Tags.Cached.{IsCache, IsTrue, IsRight, cached-IsRight}
use zbplan.Prelude.{
  ℕ, ◌+◌, ◌≤◌, List, [], Bytes, take, length, length-take, ltb, if◌then◌else◌, ◌≡◌, refl, sym, ap,
  Result, ok, err, ℤ, pos_part, arith, Permᴰ-length, cut_at-take, All-of, All-Among, All, All-take,
  All-Permᴰ, Among, IsOrdered, IsSort, IsSliceSort, IsLess, IsSliceSort-IsSort, Bool, false,
}
use zbplan.Finder.Tags.Keys.{HasNoColon, on_platform, IsDated, IsTimed}
use zbplan.Finder.Tags.Dated.{IsDating, more_room, date_tags-IsDating}

-- One tag is not older than another.
abbrev pub Newer : Tag → Tag → Type 0
Newer t u = u.created_at ≤ t.created_at

created_after-IsLess : IsLess created_after
unfolding created_after
created_after-IsLess = record { asym = λ t u h. ground arith; trans = λ t u v h k. ground arith }

created_after-Newer : (t u : Tag) → created_after u t ≡ false → Newer t u
unfolding created_after
created_after-Newer t u h = ground arith

-- What the code relies on in the registry client, the ranking and `sort.Slice`.
pub record IsRegistry (remote : Remote) (rank_find : Bytes → List Bytes → List Bytes)
    (slice : (Tag → Tag → Bool) → List Tag → List Tag) : Type 0 where
  -- a tag has no colon
  pub listed :
      (repo : Bytes) (names : List Bytes) → remote.list repo ≡ ok names → All HasNoColon names
  pub ranked :
      (keyword n : Bytes) (names : List Bytes) → Among n (rank_find keyword names) → Among n names
  pub sorted : IsSliceSort slice

-- The tags of a repository, each with the time of its image, the newest first.
pub record IsNewest (remote : Remote) (os arch : Bytes) (repo : Bytes) (limit : ℕ)
    (found : List Tag) : Type 0 where
  pub names : List Bytes
  pub listed : remote.list repo ≡ ok names
  pub each : All (λ t. IsDated remote os arch repo t × Among t.name names) found
  pub ordered : IsOrdered Newer found
  pub few : length found ≤ limit

module _ {N T : Type 0} (name_ops : CacheOps N (List Bytes)) (time_ops : CacheOps T ℕ)
    (remote : Remote) (name_laws : IsCache name_ops) (time_laws : IsCache time_ops)
    (rank_find : Bytes → List Bytes → List Bytes) (slice : (Tag → Tag → Bool) → List Tag → List Tag)
    (laws : IsRegistry remote rank_find slice) (wanted : Bytes)
    (plain : HasNoColon (on_platform (platform wanted).0 (platform wanted).1)) where
  unfoldable pub IsListed : Bytes → List Bytes → Type 0
  IsListed repo names = remote.list repo ≡ ok names

  -- Both caches hold what the registry gave.
  pub record AreTrue (s : Caches N T) : Type 0 where
    pub names : IsTrue name_ops IsListed s.names
    pub times : IsTrue time_ops (IsTimed remote (platform wanted).0 (platform wanted).1) s.times

  -- Sorting by the program's comparison puts the newest first.
  newest_first : IsSort Newer (slice created_after)
  newest_first =
      IsSliceSort-IsSort Newer slice created_after laws.sorted created_after-IsLess
        created_after-Newer

  best_tags-IsNewest :
      (repo keyword : Bytes) (limit : ℕ) (names : List Bytes) (c : T)
      → remote.list repo ≡ ok names
      → IsTrue time_ops (IsTimed remote (platform wanted).0 (platform wanted).1) c
      → let r =
          best_tags name_ops time_ops remote rank_find slice wanted repo keyword limit names c in
        IsNewest remote (platform wanted).0 (platform wanted).1 repo limit r.0
        × IsTrue time_ops (IsTimed remote (platform wanted).0 (platform wanted).1) r.1
  unfolding best_tags
  best_tags-IsNewest repo keyword limit names c listed true_cache = (
    record {
      names = names;
      listed = listed;
      each =
          All-Permᴰ _ dated.0 (slice created_after dated.0) (laws.sorted.same created_after dated.0)
            known.each;
      ordered = newest_first.ordered dated.0;
      few = omega (
        arith,
        known.few,
        sym (
            Permᴰ-length dated.0 (slice created_after dated.0)
              (laws.sorted.same created_after dated.0)),
        ap length (cut_at-take limit ranked),
        length-take limit ranked,
      );
    },
    known.cache,
  )
    where
      ranked : List Bytes
      ranked = rank_find keyword names

      chosen : List Bytes
      chosen = if ltb limit (length ranked) then take limit ranked else ranked

      dated : List Tag × T
      dated =
          date_tags name_ops time_ops remote repo (platform wanted).0 (platform wanted).1 chosen []
            c

      chosen_all : All (λ n. HasNoColon n × Among n names) chosen
      chosen_all =
          subst (All (λ n. HasNoColon n × Among n names)) (sym (cut_at-take limit ranked)) (
            All-take (λ n. HasNoColon n × Among n names) limit ranked
              (All-of _ ranked (λ n m.
                let there = laws.ranked keyword n names m in
                (All-Among HasNoColon names n (laws.listed repo names listed) there, there))))

      known :
          IsDating name_ops time_ops remote time_laws
            (platform wanted).0
            (platform wanted).1
            plain
            repo
            (λ n. Among n names)
            (length chosen)
            dated
      known =
          more_room name_ops time_ops remote time_laws (platform wanted).0 (platform wanted).1 plain
            repo (λ n. Among n names) (0 + length chosen) (length chosen) dated (omega arith)
            (date_tags-IsDating name_ops time_ops remote time_laws (platform wanted).0
              (platform wanted).1 plain repo (λ n. Among n names) chosen [] c chosen_all tt
              true_cache)

  -- A result of `Tags` for a repository, and the caches behind it.
  pub record IsAnswer (repo : Bytes) (limit : ℕ) (r : Result Bytes (List Tag) × Caches N T)
      : Type 0 where
    pub newest :
        (found : List Tag)
        → r.0 ≡ ok found
        → IsNewest remote (platform wanted).0 (platform wanted).1 repo limit found
    pub caches : AreTrue r.1

  tags_of-IsAnswer :
      (ref repo keyword : Bytes) (limit : ℕ) (s : Caches N T)
      → AreTrue s
      → IsAnswer repo limit
          (tags_of name_ops time_ops remote rank_find slice wanted (ref, repo) keyword limit s)
  unfolding tags_of tags_named cached_tag_names
  tags_of-IsAnswer ref repo keyword limit s h = go listing.0 refl
    where
      listing : Result Bytes (List Bytes) × N
      listing = cached_tag_names name_ops time_ops remote repo s.names

      right : IsRight name_ops IsListed repo listing
      right =
          unfold IsListed in
          cached-IsRight name_ops IsListed name_laws repo (remote.list repo) (λ v e. e) s.names
            h.names

      go :
          (m : Result Bytes (List Bytes))
          → listing.0 ≡ m
          → IsAnswer repo limit (
              tags_named name_ops time_ops remote rank_find slice wanted
                (ref, repo)
                keyword
                limit
                listing.0
                (record s { names = listing.1 }))
      go (err x) e = rw e (record {
        newest = λ found k. absurd (cc);
        caches = record { names = right.cache; times = h.times };
      })
      go (ok names) e =
          let (newest, times) =
            best_tags-IsNewest repo keyword limit names s.times
              (unfold IsListed in right.value names e) h.times in
          rw e (record {
            newest = λ found k.
                subst (IsNewest remote (platform wanted).0 (platform wanted).1 repo limit) (cc)
                  newest;
            caches = record { names = right.cache; times = times };
          })

  -- What `Tags` answers for its arguments, and the caches behind it.
  pub record IsTagged (repository : Result Bytes (Bytes × Bytes)) (limit : ℕ)
      (r : Result Bytes (List Tag) × Caches N T) : Type 0 where
    pub newest :
        (found : List Tag)
        → r.0 ≡ ok found
        → (ref : Bytes) × (repo : Bytes) × (repository ≡ ok (ref, repo))
          × IsNewest remote (platform wanted).0 (platform wanted).1 repo limit found
    pub caches : AreTrue r.1

  -- Where the caches hold only what the registry gave, they still do behind `Tags`. What it returns is no
  -- more tags than the limit, each one that the registry lists for the repository of the arguments, with
  -- the time of its own image, and the newest first.
  pub tags-IsTagged :
      (quote : Bytes → Bytes) (registry name keyword : Bytes) (limit : ℤ) (s : Caches N T)
      → AreTrue s
      → IsTagged
          (tags_repository name_ops time_ops remote rank_find slice wanted quote registry name
            keyword limit)
          (pos_part limit)
          (tags name_ops time_ops remote rank_find slice wanted quote registry name keyword limit s)
  unfolding tags
  tags-IsTagged quote registry name keyword limit s h = go repository refl
    where
      repository : Result Bytes (Bytes × Bytes)
      repository =
          tags_repository name_ops time_ops remote rank_find slice wanted quote registry name
            keyword limit

      go :
          (m : Result Bytes (Bytes × Bytes))
          → repository ≡ m
          → IsTagged repository (pos_part limit) (
              tags name_ops time_ops remote rank_find slice wanted quote registry name keyword limit
                s)
      go (err e) k = rw (k, tags) (record { newest = λ found z. absurd (cc); caches = h })
      go (ok (ref, repo)) k =
          let a = tags_of-IsAnswer ref repo keyword (pos_part limit) s h in
          rw (k, tags)
            (record { newest = λ found z. (ref, repo, refl, a.newest found z); caches = a.caches })

-- ===== src/Restore/Stream.antt =====
-- What lru_restore_thread of src/do_restore.c restores, whatever the size of the cache.
use destor.Base.{
  ℕ, ◌+◌, ◌≡◌, ◌≤◌, refl, Bool, true, false, none, some, List, [], ◌∷◌, ◌++◌, length, if◌then◌else◌,
  ℤ, All, Bool-cases, Option-cases, inl, inr, arith, ◌||◌,
}
use destor.Chunk.{Chunk, Fingerprint, is_file_mark}
use destor.LruCache.{LruCache, new_lru_cache, lru_cache_lookup}
use destor.LruCache.Invariant.{IsValid, new_lru_cache-IsValid, lru_cache_lookup-IsValid}
use destor.LruCache.Elements.{Each, lru_cache_lookup-Each, lru_cache_insert-Each}
use destor.Restore.Defs.{RestoreReader, fetch, restored, lru_restore, lru_restore_thread}

-- What a restore without a cache sends: the marks of files and, unless it is simulated, the stored
-- copy of each chunk.
abbrev pub plain_restore : Bool → (Fingerprint → Chunk) → List Chunk → List Chunk
plain_restore simulated copy [] = []
plain_restore simulated copy (c ∷ cs) =
    (if is_file_mark c then c ∷ [] else (if simulated then [] else copy c.fp ∷ []))
    ++ plain_restore simulated copy cs

module _ {E : Type 0} (D : RestoreReader E) (copy : Fingerprint → Chunk) where
  -- What has been read from a container that knows a fingerprint is the copy of that chunk.
  abbrev pub Faithful : E → Type 0
  Faithful con =
      (fp : Fingerprint) → D.has_fingerprint fp con ≡ true → D.get_chunk con fp ≡ some (copy fp)

  -- The container that the recipe names is there and knows the chunk.
  abbrev pub readable : Chunk → Bool
  readable c = elim (D.retrieve c.id) [ none ↦ false | some con ↦ D.has_fingerprint c.fp con ]

  fetch_lem :
      (c : Chunk) (cache : LruCache E)
      → ((id : ℤ) (con : E) → D.retrieve id ≡ some con → Faithful con)
      → readable c ≡ true
      → IsValid cache
      → Each Faithful cache
      → (found : E) × (cache' : LruCache E) × (n : ℕ) × (fetch D c cache ≡ some (found, cache', n))
        × (D.get_chunk found c.fp ≡ some (copy c.fp))
        × (n ≤ 1)
        × IsValid cache'
        × Each Faithful cache'
  unfolding fetch
  fetch_lem c cache faithful there v each =
      let hit = D.has_fingerprint c.fp in
      let v' = lru_cache_lookup-IsValid hit v in
      let (each', hits) = lru_cache_lookup-Each Faithful hit cache each in
      elim (Option-cases (lru_cache_lookup hit cache).0) [
        | inr (con, found) ↦
            let (good, has) = hits con found in
            (
              con,
              (lru_cache_lookup hit cache).1,
              0,
              ground (arith, found),
              good c.fp has,
              omega arith,
              v',
              each',
            )
        | inl miss ↦ elim (Option-cases (D.retrieve c.id)) [
          | inl gone ↦ absurd (ground (arith, gone, there))
          | inr (con, read) ↦
              let good = faithful c.id con read in
              let has : D.has_fingerprint c.fp con ≡ true = ground (arith, read, there) in
              let (r, put, v2, each2) = lru_cache_insert-Each Faithful con v' each' good in
              (
                con,
                r.0,
                1,
                ground (arith, miss, read, has, put),
                good c.fp has,
                omega arith,
                v2,
                each2,
              )
        ]
      ]

  restore_lem :
      (cs : List Chunk) (cache : LruCache E)
      → ((id : ℤ) (con : E) → D.retrieve id ≡ some con → Faithful con)
      → All (λ c. (is_file_mark c || readable c) ≡ true) cs
      → IsValid cache
      → Each Faithful cache
      → (reads : ℕ) × (lru_restore D cs cache ≡ some (plain_restore D.simulated copy cs, reads))
        × (reads ≤ length cs)
  unfolding lru_restore restored
  restore_lem [] cache faithful there v each = (0, refl, omega arith)
  restore_lem (c ∷ cs) cache faithful there v each = elim (Bool-cases (is_file_mark c)) [
    | inl mark ↦
        let (reads, run, few) = restore_lem cs cache faithful there.1 v each in
        (reads, ground (arith, mark, run), omega (arith, few))
    | inr normal ↦
        let (con, cache', n, step, right, one, v', each') =
          fetch_lem c cache faithful (ground (arith, normal, there.0)) v each in
        let (reads, run, few) = restore_lem cs cache' faithful there.1 v' each' in
        (
          n + reads,
          elim (Bool-cases D.simulated) [
            | inl sim ↦ ground (arith, normal, step, sim, run)
            | inr real ↦ ground (arith, normal, step, real, right, run)
          ],
          omega (arith, one, few),
        )
  ]

  -- Let every container that the recipe names be there and know its chunk, and let each container
  -- read return the stored copy for every fingerprint that it knows. Then for every size of the
  -- cache the restore fails nowhere, sends what a restore without a cache sends, and reads no more
  -- containers than there are chunks.
  pub lru_restore_thread-plain_restore :
      (size : ℤ) (recipe : List Chunk)
      → ((id : ℤ) (con : E) → D.retrieve id ≡ some con → Faithful con)
      → All (λ c. (is_file_mark c || readable c) ≡ true) recipe
      → (reads : ℕ) × (lru_restore_thread D size recipe
          ≡ some (plain_restore D.simulated copy recipe, reads))
        × (reads ≤ length recipe)
  unfolding lru_restore_thread new_lru_cache
  lru_restore_thread-plain_restore size recipe faithful there =
      restore_lem recipe (new_lru_cache size) faithful there (new_lru_cache-IsValid size) tt

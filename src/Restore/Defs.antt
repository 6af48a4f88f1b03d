-- ===== src/Restore/Defs.antt =====
-- lru_restore_thread of src/do_restore.c. The elements of the cache are containers or, where the
-- restore is simulated, their metadata; reading one is `retrieve`, NULL being `none`. A failed
-- assert or a null pointer is `none`.
use mathlib.Core.Option
use destor.Base.{ℕ, ◌+◌, Bool, Option, none, some, List, [], ◌∷◌, ◌++◌, if◌then◌else◌, ℤ}
use destor.Chunk.{Chunk, Fingerprint, is_file_mark}
use destor.LruCache.{LruCache, new_lru_cache, lru_cache_lookup, lru_cache_insert}

-- retrieve_container_by_id, the test that the cache is given, and get_chunk_in_container; or, if
-- `simulated`, retrieve_container_meta_by_id and lookup_fingerprint_in_container_meta.
pub record RestoreReader (E : Type 0) : Type 0 where
  pub simulated : Bool
  pub retrieve : ℤ → Option E
  pub has_fingerprint : Fingerprint → E → Bool
  pub get_chunk : E → Fingerprint → Option Chunk

module _ {E : Type 0} (D : RestoreReader E) where
  -- The element for a chunk, the cache, and by how much jcr.read_container_num grows.
  unfoldable pub fetch : Chunk → LruCache E → Option (E × LruCache E × ℕ)
  fetch c cache =
      let (found, cache') = lru_cache_lookup (D.has_fingerprint c.fp) cache in
      elim found [
        | some con ↦ some (con, cache', 0)
        | none ↦ elim (D.retrieve c.id) [
          | none ↦ none
          | some con ↦
              if D.simulated
              then (if D.has_fingerprint c.fp con
                  then Option.map (λ r. (con, r.0, 1)) (lru_cache_insert con cache')
                  else none)
              else Option.map (λ r. (con, r.0, 1)) (lru_cache_insert con cache')
        ]
      ]

  -- What is pushed to restore_chunk_queue for a chunk.
  unfoldable pub restored : E → Chunk → Option (List Chunk)
  restored con c =
      if D.simulated then some [] else Option.map (λ rc. rc ∷ []) (D.get_chunk con c.fp)

  -- The loop over the recipe: what goes to restore_chunk_queue, and how many containers are read.
  unfoldable pub lru_restore : List Chunk → LruCache E → Option (List Chunk × ℕ)
  unfolding fetch restored
  lru_restore [] cache = some ([], 0)
  lru_restore (c ∷ cs) cache =
      let next : Option (List Chunk × LruCache E × ℕ) =
        if is_file_mark c then some (c ∷ [], cache, 0) else elim (fetch c cache) [
          | none ↦ none
          | some (con, cache', n) ↦ Option.map (λ rs. (rs, cache', n)) (restored con c)
        ] in
      elim next [
        | none ↦ none
        | some (rs, cache', n) ↦ Option.map (λ u. (rs ++ u.0, n + u.1)) (lru_restore cs cache')
      ]

  unfoldable pub lru_restore_thread : ℤ → List Chunk → Option (List Chunk × ℕ)
  unfolding lru_restore
  lru_restore_thread size recipe = lru_restore recipe (new_lru_cache size)

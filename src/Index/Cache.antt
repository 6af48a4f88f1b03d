-- ===== src/Index/Cache.antt =====
-- src/index/fingerprint_cache.c: the cache of container metadata or of segment recipes. What
-- containerstore.c and recipestore.c return for an identifier is the interface Prefetch; a failed
-- assert, a null pointer or exit(1) is `none`.
use mathlib.Core.Option
use destor.Base.{
  ℕ, ◌==◌, Bool, Option, none, some, List, [], ◌∷◌, if◌then◌else◌, ℤ, ltb_int, ◌==ℤ◌, Table,
  is_some,
}
use destor.Chunk.{Fingerprint, temporary_id}
use destor.Container.{MetaEntry, ContainerMeta}
use destor.LruCache.{LruCache, new_lru_cache, lru_cache_lookup, lru_cache_hits, lru_cache_insert}

pub record ChunkPointer : Type 0 where
  pub fp : Fingerprint
  pub id : ℤ
  pub size : ℤ

pub record SegmentRecipe (Map : Type 0) : Type 0 where
  pub id : ℤ
  pub kvpairs : Map

-- destor.index_category[1]
pub data Locality : Type 0 where
  physical_locality : Locality
  logical_locality : Locality

-- `lru_queue`, by the category that init_fingerprint_cache finds.
pub data FingerprintCache (MetaMap RecipeMap : Type 0) : Type 0 where
  metas : LruCache (ContainerMeta MetaMap) → FingerprintCache MetaMap RecipeMap
  recipes : LruCache (SegmentRecipe RecipeMap) → FingerprintCache MetaMap RecipeMap

-- retrieve_container_meta_by_id, and prefetch_segments with its number of segments.
pub record Prefetch (MetaMap RecipeMap : Type 0) : Type 0 where
  pub retrieve_container_meta_by_id : ℤ → Option (ContainerMeta MetaMap)
  pub prefetch_segments : ℤ → List (SegmentRecipe RecipeMap)

module _ (M : Table Fingerprint MetaEntry ◌==◌) (S : Table Fingerprint ChunkPointer ◌==◌) where
  unfoldable pub init_fingerprint_cache : Locality → ℤ → FingerprintCache M.Map S.Map
  init_fingerprint_cache physical_locality size = metas (new_lru_cache size)
  init_fingerprint_cache logical_locality size = recipes (new_lru_cache size)

  abbrev pub lookup_fingerprint_in_container_meta : Fingerprint → ContainerMeta M.Map → Bool
  lookup_fingerprint_in_container_meta fp cm = is_some (M.lookup fp cm.map)

  abbrev pub lookup_fingerprint_in_segment_recipe : Fingerprint → SegmentRecipe S.Map → Bool
  lookup_fingerprint_in_segment_recipe fp sr = is_some (S.lookup fp sr.kvpairs)

  abbrev pub segment_recipe_check_id : ℤ → SegmentRecipe S.Map → Bool
  segment_recipe_check_id id sr = sr.id ==ℤ id

  -- The identifier that a segment recipe has for a fingerprint.
  unfoldable pub recipe_id : Fingerprint → SegmentRecipe S.Map → Option ℤ
  recipe_id fp sr = elim (S.lookup fp sr.kvpairs) [
    | none ↦ none
    | some cp ↦ if ltb_int temporary_id cp.id then some cp.id else none
  ]

  unfoldable pub fingerprint_cache_lookup :
      Fingerprint → FingerprintCache M.Map S.Map → Option (ℤ × FingerprintCache M.Map S.Map)
  unfolding recipe_id
  fingerprint_cache_lookup fp (metas q) =
      let (found, q') = lru_cache_lookup (lookup_fingerprint_in_container_meta fp) q in
      elim found [ some cm ↦ some (cm.id, metas q') | none ↦ some (temporary_id, metas q') ]
  fingerprint_cache_lookup fp (recipes q) =
      let (found, q') = lru_cache_lookup (lookup_fingerprint_in_segment_recipe fp) q in
      elim found [
        | some sr ↦ Option.map (λ id. (id, recipes q')) (recipe_id fp sr)
        | none ↦ some (temporary_id, recipes q')
      ]

  -- The loop over the prefetched segments, from tail to head.
  unfoldable pub insert_segments :
      List (SegmentRecipe S.Map)
      → LruCache (SegmentRecipe S.Map)
      → Option (LruCache (SegmentRecipe S.Map))
  insert_segments [] q = some q
  insert_segments (sr ∷ segments) q = elim (insert_segments segments q) [
    | none ↦ none
    | some q1 ↦
        let (hit, q2) = lru_cache_hits (segment_recipe_check_id sr.id) q1 in
        elim hit [ some _ ↦ some q2 | none ↦ Option.map (λ r. r.0) (lru_cache_insert sr q2) ]
  ]

  -- The new cache, and by how much index_overhead.read_prefetching_units grows.
  unfoldable pub fingerprint_cache_prefetch :
      Prefetch M.Map S.Map
      → ℤ
      → FingerprintCache M.Map S.Map
      → Option (FingerprintCache M.Map S.Map × ℕ)
  unfolding insert_segments
  fingerprint_cache_prefetch P id (metas q) = elim (P.retrieve_container_meta_by_id id) [
    | none ↦ none
    | some cm ↦ Option.map (λ r. (metas r.0, 1)) (lru_cache_insert cm q)
  ]
  fingerprint_cache_prefetch P id (recipes q) =
      let (hit, q') = lru_cache_hits (segment_recipe_check_id id) q in
      elim hit [
        | some _ ↦ some (recipes q', 0)
        | none ↦ Option.map (λ r. (recipes r, 1)) (insert_segments (P.prefetch_segments id) q')
      ]

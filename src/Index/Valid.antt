-- ===== src/Index/Valid.antt =====
-- The fingerprint cache of src/index/fingerprint_cache.c between its calls: no call fails.
use destor.Base.{
  ℕ, ◌==◌, ◌≡◌, refl, true, some, List, [], ◌∷◌, ℤ, ltb_int, Table, is_some, All, Option-cases, inl,
  inr, arith,
}
use destor.Chunk.{Fingerprint, temporary_id}
use destor.Container.{MetaEntry}
use destor.LruCache.{LruCache, new_lru_cache, lru_cache_lookup, lru_cache_hits}
use destor.LruCache.Invariant.{
  IsValid, new_lru_cache-IsValid, lru_cache_lookup-IsValid, lru_cache_hits-IsValid,
  lru_cache_insert-IsValid,
}
use destor.LruCache.Elements.{
  Each, lru_cache_lookup-Each, lru_cache_hits-Each, lru_cache_insert-Each,
}
use destor.Index.Cache.{
  ChunkPointer, SegmentRecipe, Locality, physical_locality, logical_locality, FingerprintCache,
  metas, recipes, Prefetch, fingerprint_cache_lookup, fingerprint_cache_prefetch,
  init_fingerprint_cache, recipe_id, insert_segments, lookup_fingerprint_in_segment_recipe,
  lookup_fingerprint_in_container_meta, segment_recipe_check_id,
}

module _ (M : Table Fingerprint MetaEntry ◌==◌) (S : Table Fingerprint ChunkPointer ◌==◌) where
  -- Every chunk of a segment recipe has the identifier of a container.
  abbrev pub Stored : SegmentRecipe S.Map → Type 0
  Stored sr =
      (fp : Fingerprint) (cp : ChunkPointer)
      → S.lookup fp sr.kvpairs ≡ some cp
      → ltb_int temporary_id cp.id ≡ true

  -- A cache of the units that the locality asks for.
  abbrev pub IsValidCache : Locality → FingerprintCache M.Map S.Map → Type 0
  IsValidCache physical_locality (metas q) = IsValid q
  IsValidCache logical_locality (recipes q) = IsValid q × Each Stored q
  IsValidCache l q = ⊥

  -- The unit of an identifier is there: the metadata of the container, or the prefetched recipes,
  -- which name containers.
  abbrev pub Answers : Prefetch M.Map S.Map → Locality → ℤ → Type 0
  Answers P physical_locality id = is_some (P.retrieve_container_meta_by_id id) ≡ true
  Answers P logical_locality id = All Stored (P.prefetch_segments id)

  pub init_fingerprint_cache-IsValid :
      (l : Locality) (size : ℤ) → IsValidCache l (init_fingerprint_cache M S l size)
  unfolding init_fingerprint_cache new_lru_cache
  init_fingerprint_cache-IsValid physical_locality size = new_lru_cache-IsValid size
  init_fingerprint_cache-IsValid logical_locality size = (new_lru_cache-IsValid size, tt)

  recipe_id-Stored :
      (fp : Fingerprint) (sr : SegmentRecipe S.Map)
      → Stored sr
      → lookup_fingerprint_in_segment_recipe M S fp sr ≡ true
      → (id : ℤ) × (recipe_id M S fp sr ≡ some id)
  unfolding recipe_id
  recipe_id-Stored fp sr stored there = elim (Option-cases (S.lookup fp sr.kvpairs)) [
    | inl gone ↦ absurd (ground (arith, gone, there))
    | inr (cp, found) ↦ (cp.id, ground (arith, found, stored fp cp found))
  ]

  -- A lookup in a valid cache fails no assert and leaves a valid cache.
  pub fingerprint_cache_lookup-IsValid :
      (l : Locality) (fp : Fingerprint) (q : FingerprintCache M.Map S.Map)
      → IsValidCache l q
      → (id : ℤ) × (q' : FingerprintCache M.Map S.Map) × (fingerprint_cache_lookup M S fp q
          ≡ some (id, q'))
        × IsValidCache l q'
  unfolding fingerprint_cache_lookup
  fingerprint_cache_lookup-IsValid physical_locality fp (recipes q) v = absurd v
  fingerprint_cache_lookup-IsValid logical_locality fp (metas q) v = absurd v
  fingerprint_cache_lookup-IsValid physical_locality fp (metas q) v =
      let hit = lookup_fingerprint_in_container_meta M S fp in
      let v' = lru_cache_lookup-IsValid hit v in
      elim (Option-cases (lru_cache_lookup hit q).0) [
        | inl miss ↦ (temporary_id, metas (lru_cache_lookup hit q).1, ground (arith, miss), v')
        | inr (cm, found) ↦ (cm.id, metas (lru_cache_lookup hit q).1, ground (arith, found), v')
      ]
  fingerprint_cache_lookup-IsValid logical_locality fp (recipes q) v =
      let hit = lookup_fingerprint_in_segment_recipe M S fp in
      let v' = lru_cache_lookup-IsValid hit v.0 in
      let (each, hits) = lru_cache_lookup-Each Stored hit q v.1 in
      elim (Option-cases (lru_cache_lookup hit q).0) [
        | inl miss ↦
            (temporary_id, recipes (lru_cache_lookup hit q).1, ground (arith, miss), (v', each))
        | inr (sr, found) ↦
            let (stored, here) = hits sr found in
            let (id, run) = recipe_id-Stored fp sr stored here in
            (id, recipes (lru_cache_lookup hit q).1, ground (arith, found, run), (v', each))
      ]

  insert_segments-IsValid :
      (segments : List (SegmentRecipe S.Map)) (q : LruCache (SegmentRecipe S.Map))
      → All Stored segments
      → IsValidCache logical_locality (recipes q)
      → (q' : LruCache (SegmentRecipe S.Map)) × (insert_segments M S segments q ≡ some q')
        × IsValidCache logical_locality (recipes q')
  unfolding insert_segments
  insert_segments-IsValid [] q stored v = (q, refl, v)
  insert_segments-IsValid (sr ∷ segments) q stored v =
      let (q1, run, v1) = insert_segments-IsValid segments q stored.1 v in
      let hit = segment_recipe_check_id M S sr.id in
      let v2 = lru_cache_hits-IsValid hit v1.0 in
      let each = lru_cache_hits-Each Stored hit q1 v1.1 in
      elim (Option-cases (lru_cache_hits hit q1).0) [
        | inl miss ↦
            let (r, put, v3, each') = lru_cache_insert-Each Stored sr v2 each stored.0 in
            (r.0, ground (arith, run, miss, put), (v3, each'))
        | inr (_, found) ↦ ((lru_cache_hits hit q1).1, ground (arith, run, found), (v2, each))
      ]

  -- Where the unit is there, so does a prefetch.
  pub fingerprint_cache_prefetch-IsValid :
      (P : Prefetch M.Map S.Map) (l : Locality) (id : ℤ) (q : FingerprintCache M.Map S.Map)
      → Answers P l id
      → IsValidCache l q
      → (q' : FingerprintCache M.Map S.Map) × (units : ℕ) × (fingerprint_cache_prefetch M S P id q
          ≡ some (q', units))
        × IsValidCache l q'
  unfolding fingerprint_cache_prefetch
  fingerprint_cache_prefetch-IsValid P physical_locality id (recipes q) answers v = absurd v
  fingerprint_cache_prefetch-IsValid P logical_locality id (metas q) answers v = absurd v
  fingerprint_cache_prefetch-IsValid P physical_locality id (metas q) answers v =
      elim (Option-cases (P.retrieve_container_meta_by_id id)) [
        | inl gone ↦ absurd (ground (arith, gone, answers))
        | inr (cm, found) ↦
            let (r, put, v', size, queue) = lru_cache_insert-IsValid cm v in
            (metas r.0, 1, ground (arith, found, put), v')
      ]
  fingerprint_cache_prefetch-IsValid P logical_locality id (recipes q) answers v =
      let hit = segment_recipe_check_id M S id in
      let v1 = lru_cache_hits-IsValid hit v.0 in
      let each = lru_cache_hits-Each Stored hit q v.1 in
      elim (Option-cases (lru_cache_hits hit q).0) [
        | inl miss ↦
            let (q', run, v') =
              insert_segments-IsValid (P.prefetch_segments id) (lru_cache_hits hit q).1 answers
                (v1, each) in
            (recipes q', 1, ground (arith, miss, run), v')
        | inr (_, found) ↦ (recipes (lru_cache_hits hit q).1, 0, ground (arith, found), (v1, each))
      ]

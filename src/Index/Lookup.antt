-- ===== src/Index/Lookup.antt =====
-- index_lookup and the functions it calls, index_update and index_delete.
use mathlib.Core.Option
use destor.Base.{
  ℕ, ◌+◌, ◌==◌, ltb, leb, Bool, true, false, ◌&&◌, Option, none, some, List, [], ◌∷◌, if◌then◌else◌,
  ℤ, ◌==ℤ◌, Table,
}
use destor.Chunk.{Chunk, Fingerprint, temporary_id, is_file_mark}
use destor.Container.{MetaEntry, Container, lookup_fingerprint_in_container}
use destor.KvStore.{kvstore_htable_lookup, kvstore_htable_update, kvstore_htable_delete}
use destor.Index.Cache.{
  ChunkPointer, FingerprintCache, Prefetch, fingerprint_cache_lookup, fingerprint_cache_prefetch,
}
use destor.Index.Defs.{
  IndexElem, IndexBuffer, IndexOverhead, set_duplicate, set_denied, buffer_chunk, check_buffered,
}

-- index_buffer, the key-value store, the fingerprint cache and index_overhead.
pub record Index (Buffered Pairs MetaMap RecipeMap : Type 0) : Type 0 where
  pub index_buffer : IndexBuffer Buffered
  pub htable : Pairs
  pub cache : FingerprintCache MetaMap RecipeMap
  pub index_overhead : IndexOverhead

-- `if(id != TEMPORARY_ID)`
unfoldable pub mark_found : ℤ → Chunk → Chunk
mark_found id c = if id ==ℤ temporary_id then c else set_duplicate id c

module _ {K : Type 0} {eq : K → K → Bool} (B : Table Fingerprint (List IndexElem) ◌==◌)
    (V : Table K (List ℤ) eq) (M : Table Fingerprint MetaEntry ◌==◌)
    (S : Table Fingerprint ChunkPointer ◌==◌) (P : Prefetch M.Map S.Map) (key_of : Fingerprint → K)
    (len : ℕ) where
  abbrev pub State : Type 0
  State = Index B.Map V.Map M.Map S.Map

  -- "First check it in the storage buffer".
  unfoldable pub check_storage : Option (Container M.Map) → Chunk → Chunk
  unfolding set_duplicate
  check_storage none c = c
  check_storage (some container_buffer) c =
      if lookup_fingerprint_in_container M container_buffer c.fp
      then set_denied (set_duplicate container_buffer.meta.id c)
      else c

  -- "Check the fingerprint cache".
  unfoldable pub check_cache : Chunk → State → Option (Chunk × State)
  unfolding mark_found
  check_cache c ix =
      if c.flag.duplicate
      then some (c, ix)
      else Option.map (λ r. (mark_found r.0 c, record ix { cache = r.1 }))
          (fingerprint_cache_lookup M S c.fp ix.cache)

  abbrev pub bump : State → ℕ → ℕ → ℕ → ℕ → State
  bump ix lookups updates uniques units = record ix {
    index_overhead = record {
      lookup_requests = ix.index_overhead.lookup_requests + lookups;
      update_requests = ix.index_overhead.update_requests + updates;
      lookup_requests_for_unique = ix.index_overhead.lookup_requests_for_unique + uniques;
      read_prefetching_units = ix.index_overhead.read_prefetching_units + units;
    };
  }

  -- The unit of ids[0] fetched, and the cache asked again.
  unfoldable pub fetch_unit : Chunk → List ℤ → State → Option (Chunk × State)
  unfolding check_cache
  fetch_unit c [] ix = none
  fetch_unit c (id ∷ ids) ix = elim (fingerprint_cache_prefetch M S P id ix.cache) [
    | none ↦ none
    | some (cache, units) ↦ check_cache c (bump (record ix { cache = cache }) 1 0 0 units)
  ]

  -- "Searching in key-value store".
  unfoldable pub check_store : Chunk → State → Option (Chunk × State)
  unfolding fetch_unit
  check_store c ix =
      if c.flag.duplicate
      then some (c, ix)
      else elim (kvstore_htable_lookup V len (key_of c.fp) ix.htable) [
        | none ↦ some (c, bump ix 0 0 1 0)
        | some ids ↦ fetch_unit c ids ix
      ]

  -- The cache, and, if it is `searched`, the key-value store.
  unfoldable pub search_chunk : Bool → Chunk → State → Option (Chunk × State)
  unfolding check_cache check_store
  search_chunk searched c ix = elim (check_cache c ix) [
    | none ↦ none
    | some (c1, ix1) ↦ if searched then check_store c1 ix1 else some (c1, ix1)
  ]

  -- The body of the loop behind the test for file marks. index_lookup_base searches the store for
  -- every chunk; the loop of index_lookup_similarity_detection where the category is exact or the
  -- selection is INDEX_SEGMENT_SELECT_MIX.
  unfoldable pub lookup_chunk :
      Bool → Option (Container M.Map) → Chunk → State → Option (Chunk × State)
  unfolding check_storage search_chunk
  lookup_chunk searched buffer c ix =
      elim (check_buffered B ix.index_buffer (check_storage buffer c)) [
        | none ↦ none
        | some c1 ↦
            Option.map
              (λ r. (r.0, record (r.1) { index_buffer = buffer_chunk B r.0 r.1.index_buffer }))
              (search_chunk searched c1 ix)
      ]

  unfoldable pub lookup_chunks :
      Bool → Option (Container M.Map) → List Chunk → State → Option (List Chunk × State)
  unfolding lookup_chunk
  lookup_chunks searched buffer [] ix = some ([], ix)
  lookup_chunks searched buffer (c ∷ cs) ix =
      elim (if is_file_mark c then some (c, ix) else lookup_chunk searched buffer c ix) [
        | none ↦ none
        | some (c', ix') ↦ Option.map (λ r. (c' ∷ r.0, r.1)) (lookup_chunks searched buffer cs ix')
      ]

  unfoldable pub index_lookup_base :
      Option (Container M.Map) → List Chunk → State → Option (List Chunk × State)
  unfolding lookup_chunks
  index_lookup_base = lookup_chunks true

  -- index_lookup where the index is not similarity-based: with 0 (`false`) nothing is done.
  unfoldable pub index_lookup :
      ℕ → Option (Container M.Map) → List Chunk → State → Option (Bool × List Chunk × State)
  unfolding index_lookup_base
  index_lookup wait_threshold buffer cs ix =
      if ltb 0 wait_threshold && leb wait_threshold ix.index_buffer.chunk_num
      then some (false, cs, ix)
      else Option.map (λ r. (true, r.0, r.1)) (index_lookup_base buffer cs ix)

  -- `features` is what an iterator meets of the table of features.
  unfoldable pub index_update : List K → ℤ → State → State
  index_update [] id ix = ix
  index_update (key ∷ features) id ix =
      index_update features id
        (record (bump ix 0 1 0 0) { htable = kvstore_htable_update V len key id ix.htable })

  unfoldable pub index_delete : Fingerprint → ℤ → State → Option State
  index_delete fp id ix =
      Option.map (λ h. record ix { htable = h })
        (kvstore_htable_delete V len (key_of fp) id ix.htable)

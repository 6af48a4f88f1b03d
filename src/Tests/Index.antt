-- ===== src/Tests/Index.antt =====
-- src/index/index.c and src/index/sampling_method.c at small inputs.
use mathlib.Core.List.{Perm}
use mathlib.Core.Path.{subst}
use destor.Base.{
  is_some, false, ◌≢◌, ap, ℕ, ◌==◌, ==_iff, ◌≡◌, refl, true, none, some, List, [], ◌∷◌, map, take,
  arith, ℤ, pos, Table, assoc, replicate,
}
use destor.Chunk.{Chunk, chunk_unique, temporary_id}
use destor.Container.{
  MetaEntry, Container, Pool, init_container_meta, create_container, container_overflow,
  append_chunk,
}
use destor.Container.Add.{IsValid, create_container-IsValid, append_chunk-IsValid}
use destor.Serial.{little}
use destor.Pool.{read_container_meta}
use destor.Pool.RoundTrip.{ShortKeys}
use destor.Pool.Metadata.{read_container_meta-write_container}
use destor.LruCache.{new_lru_cache}
use destor.LruCache.Invariant.{new_lru_cache-IsValid}
use destor.Segment.Dedup.{payload}
use destor.Index.{
  ChunkPointer, metas, physical_locality, Prefetch, IndexElem, IndexBuffer, init_index_buffer,
  buffer_chunk, Index, State, lookup_chunks, update_chunk, check_chunk, index_update_buffer,
}
use destor.Index.Buffer.{
  Buffers, init_index_buffer-Buffers, buffer_chunk-Buffers, index_update_buffer-Buffers,
}
use destor.Index.Marks.{IsValidIndex, Fetchable, only_first, lookup_chunks-IsValid}
use destor.Index.Check.{check_chunk-update_chunk}
use destor.Sampling.{Anchor, select_anchors, all_ones}
use destor.Sampling.Smallest.{Sorted}
use destor.Sampling.Candidates.{anchors_of, select_anchors-smallest}

abbrev buffered : Table ℕ (List IndexElem) ◌==◌
buffered = assoc ℕ (List IndexElem) ◌==◌ ==_iff

abbrev pairs : Table ℕ (List ℤ) ◌==◌
pairs = assoc ℕ (List ℤ) ◌==◌ ==_iff

abbrev entries : Table ℕ MetaEntry ◌==◌
entries = assoc ℕ MetaEntry ◌==◌ ==_iff

abbrev pointers : Table ℕ ChunkPointer ◌==◌
pointers = assoc ℕ ChunkPointer ◌==◌ ==_iff

-- A simulated pool of three containers, to which a fourth with one chunk is written.
abbrev pool : Pool
pool = record { container_count = 3; file = λ i. 0 }

abbrev new_container : Container entries.Map
new_container = record {
  meta = record (init_container_meta entries) { id = pos 3 };
  contents = none;
}

abbrev first_chunk : Chunk
first_chunk = record {
  size = 2;
  flag = chunk_unique;
  id = temporary_id;
  fp = 9;
  data_bytes = 10 ∷ 20 ∷ [];
}

abbrev one_chunk : Container entries.Map
one_chunk = append_chunk entries 2 new_container first_chunk

create_container_new : (create_container entries 2 pool).0 ≡ new_container
unfolding create_container
create_container_new = refl

new_container-IsValid : IsValid entries 2 new_container
new_container-IsValid = rw⁻¹ create_container_new ((create_container-IsValid entries 2 pool).0)

new_room : container_overflow entries new_container 2 ≡ false
unfolding container_overflow init_container_meta
new_room = refl

one_chunk-IsValid : IsValid entries 2 one_chunk
unfolding init_container_meta
one_chunk-IsValid =
    append_chunk-IsValid entries 2 first_chunk new_container-IsValid new_room refl refl

one_chunk-ShortKeys : ShortKeys little entries one_chunk
unfolding append_chunk init_container_meta
one_chunk-ShortKeys fp me here = ground (arith, here)

one_chunk_id : one_chunk.meta.id ≡ pos 3
unfolding append_chunk
one_chunk_id = refl

one_chunk_some : one_chunk.meta.chunk_num ≢ 0
unfolding append_chunk init_container_meta
one_chunk_some e = omega (arith, e)

abbrev written : Pool
written =
    (read_container_meta-write_container little entries 2 3 one_chunk pool (omega arith)
      one_chunk-IsValid one_chunk-ShortKeys one_chunk_id (omega arith) one_chunk_some).0

-- The metadata of that pool.
abbrev prefetch : Prefetch entries.Map pointers.Map
prefetch = record {
  retrieve_container_meta_by_id = λ id. read_container_meta little entries 2 id written;
  prefetch_segments = λ id. [];
}

three_there : is_some (read_container_meta little entries 2 (pos 3) written) ≡ true
three_there =
    ap is_some
      (read_container_meta-write_container little entries 2 3 one_chunk pool (omega arith)
        one_chunk-IsValid one_chunk-ShortKeys one_chunk_id (omega arith) one_chunk_some).2

abbrev chunk_of : ℕ → Chunk
chunk_of f = record { size = 10; flag = chunk_unique; id = temporary_id; fp = f; data_bytes = [] }

abbrev index : Index buffered.Map pairs.Map entries.Map pointers.Map
index = record {
  index_buffer = init_index_buffer buffered;
  htable = pairs.insert 9 (pos 3 ∷ []) pairs.empty;
  cache = metas (new_lru_cache (pos 2));
  index_overhead = record {
    lookup_requests = 0;
    update_requests = 0;
    lookup_requests_for_unique = 0;
    read_prefetching_units = 0;
  };
}

index-IsValid :
    IsValidIndex buffered pairs entries pointers prefetch (λ f. f) 1 physical_locality index []
index-IsValid = record {
  buffers = init_index_buffer-Buffers buffered;
  cache_valid = new_lru_cache-IsValid (pos 2);
  pairs = λ k ids there. fetchable k ids there;
}
  where
    fetchable :
        (k : ℕ) (ids : List ℤ)
        → pairs.lookup k index.htable ≡ some ids
        → Fetchable buffered pairs entries pointers prefetch (λ f. f) 1 physical_locality ids
    fetchable k [] there = absurd (ground (arith, there))
    fetchable k (id ∷ ids) there =
        subst (λ i. is_some (read_container_meta little entries 2 i written) ≡ true)
          (only_three there) three_there
      where
        only_three : pairs.lookup k index.htable ≡ some (id ∷ ids) → pos 3 ≡ id
        only_three h = ground (arith, h)

lookup_chunks-IsValid_example :
    (cs' : List Chunk) × (ix' : State buffered pairs entries pointers prefetch (λ f. f) 1)
    × (lookup_chunks buffered pairs entries pointers prefetch
          (λ f. f)
          1
          true
          none
          (chunk_of 5 ∷ chunk_of 9 ∷ chunk_of 5 ∷ [])
          index
        ≡ some (cs', ix'))
    × (map payload cs' ≡ map payload (chunk_of 5 ∷ chunk_of 9 ∷ chunk_of 5 ∷ []))
    × (only_first [] cs' ≡ true)
    × IsValidIndex buffered pairs entries pointers prefetch
        (λ f. f)
        1
        physical_locality
        ix'
        (5 ∷ 9 ∷ 5 ∷ [])
lookup_chunks-IsValid_example =
    lookup_chunks-IsValid buffered pairs entries pointers prefetch (λ f. f) 1 physical_locality true
      none (chunk_of 5 ∷ chunk_of 9 ∷ chunk_of 5 ∷ []) index [] index-IsValid

-- Two chunks of one fingerprint are pending.
abbrev two_pending : IndexBuffer buffered.Map
two_pending =
    buffer_chunk buffered (chunk_of 5)
      (buffer_chunk buffered (chunk_of 5) (init_index_buffer buffered))

two_pending-Buffers : Buffers buffered two_pending (5 ∷ 5 ∷ [])
two_pending-Buffers =
    buffer_chunk-Buffers buffered (buffer_chunk buffered (chunk_of 5) (init_index_buffer buffered))
      (5 ∷ []) (chunk_of 5)
      (buffer_chunk-Buffers buffered (init_index_buffer buffered) [] (chunk_of 5)
        (init_index_buffer-Buffers buffered))

abbrev stored_chunk : Chunk
stored_chunk = record (chunk_of 5) { id = pos 4 }

abbrev copy : Chunk
copy = record (chunk_of 5) { flag = record chunk_unique { duplicate = true } }

index_update_buffer-Buffers_example :
    (b' : IndexBuffer buffered.Map) × (index_update_buffer buffered 1
        (stored_chunk ∷ [])
        two_pending
      ≡ some (true, b'))
    × Buffers buffered b' (5 ∷ [])
index_update_buffer-Buffers_example =
    index_update_buffer-Buffers buffered 1 (stored_chunk ∷ []) two_pending (5 ∷ [])
      two_pending-Buffers (refl, tt)

check_chunk-update_chunk_example :
    (b' : IndexBuffer buffered.Map) × (update_chunk buffered stored_chunk two_pending ≡ some b')
    × (check_chunk buffered b' copy ≡ some (record copy { id = pos 4 }))
check_chunk-update_chunk_example =
    check_chunk-update_chunk buffered two_pending (5 ∷ []) stored_chunk copy two_pending-Buffers
      refl refl refl refl refl

select_anchors-smallest_example :
    (all : List Anchor) × Perm all (anchors_of [] (9 ∷ 5 ∷ 7 ∷ []))
    × Sorted (λ a. a.anchor) all
    × (select_anchors 2 (chunk_of 9 ∷ chunk_of 5 ∷ chunk_of 7 ∷ []) (replicate 9 all_ones) 0 []
        ≡ some (take 2 all))
select_anchors-smallest_example =
    select_anchors-smallest 2 (chunk_of 9 ∷ chunk_of 5 ∷ chunk_of 7 ∷ []) (omega arith)

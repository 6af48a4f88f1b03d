-- ===== src/Tests/Filter.antt =====
-- src/filter_phase.c at small inputs.
use destor.Base.{
  ℕ, ◌+◌, ◌*◌, ◌^◌, ◌<◌, ltb, ℤ, ◌==ℤ◌, ==ℤ_iff, ◌==◌, ==_iff, ◌≡◌, refl, true, false, ◌||◌, none,
  some, List, [], ◌∷◌, arith, pos, Table, assoc,
}
use destor.Chunk.{Chunk, chunk_unique, temporary_id}
use destor.Container.{MetaEntry}
use destor.Segment.{Segment}
use destor.Filter.{
  FilterConfig, Monitors, FilterState, State, filter_chunk, RecipeWrite, write_segments,
}
use destor.Filter.Watch.{is_stored, Watched}
use destor.Filter.Store.{IsValidState, in_buffer}
use destor.LruCache.{new_lru_cache}
use destor.LruCache.Invariant.{new_lru_cache-IsValid}
use destor.Rewrite.{init_restore_aware}
use destor.Rewrite.Har.Sparse.{size_of}
use destor.Filter.Outcome.{base, filter_chunk-stored}
use destor.Filter.Files.{FileChunks, recipe_of, without_flags, write_segments-recipe_of}

abbrev entries : Table ℕ MetaEntry ◌==◌
entries = assoc ℕ MetaEntry ◌==◌ ==_iff

abbrev recent : Table ℕ Chunk ◌==◌
recent = assoc ℕ Chunk ◌==◌ ==_iff

abbrev config : FilterConfig
config = record {
  level = 0;
  physical_locality = true;
  exact = true;
  rewrite_no = false;
  rewrite_enable_cache_aware = true;
  rewrite_enable_cfl_switch = true;
  cfl_above = λ ocf ccf. ltb ccf (2 * ocf);
  cfl_below = λ ocf ccf. ltb (2 * ocf) ccf;
}

abbrev sizes_of_containers : Table ℤ ℕ ◌==ℤ◌
sizes_of_containers = assoc ℤ ℕ ◌==ℤ◌ ==ℤ_iff

-- A restore cache of two containers.
abbrev monitors : Monitors sizes_of_containers.Map
monitors = record { restore_aware = init_restore_aware (pos 2); har = sizes_of_containers.empty }

monitors-Watched : Watched (init_restore_aware (pos 2))
unfolding init_restore_aware new_lru_cache
monitors-Watched = record { cache = new_lru_cache-IsValid (pos 2); containers = tt }

abbrev state : FilterState entries.Map recent.Map (List Chunk) sizes_of_containers.Map
state = record {
  container_buffer = none;
  chunks = [];
  pool = record { container_count = 7; file = λ i. 0 };
  written = [];
  recently_unique_chunks = recent.empty;
  recently_rewritten_chunks = recent.empty;
  enable_rewrite = true;
  index = [];
  monitor = monitors;
}

state-IsValid : IsValidState entries recent config sizes_of_containers (λ cs id ix. ix) state
state-IsValid = record {
  buffer = tt;
  all_written = tt;
  watched = monitors-Watched;
  unique_stored = λ fp ck there. absurd (ground (arith, there));
  rewritten_stored = λ fp ck there. absurd (ground (arith, there));
}

abbrev unique_chunk : Chunk
unique_chunk = record {
  size = 2;
  flag = chunk_unique;
  id = temporary_id;
  fp = 5;
  data_bytes = 1 ∷ 2 ∷ [];
}

state_near : (id : ℤ) → size_of sizes_of_containers id monitors.har + unique_chunk.size < 2 ^ 31
state_near id = ground arith

filter_chunk-stored_example :
    (c' : Chunk) × (st' : State {I = List Chunk} entries recent config sizes_of_containers
      (λ cs id ix. ix))
    × (filter_chunk entries recent config sizes_of_containers (λ cs id ix. ix) unique_chunk state
        ≡ some (c', st'))
    × (base c' ≡ base unique_chunk)
    × (is_stored c'.id ≡ true)
    × ((false
          || in_buffer {I = List Chunk} entries recent config sizes_of_containers
              (λ cs id ix. ix)
              st'.container_buffer
              c')
        ≡ true)
    × IsValidState {I = List Chunk} entries recent config sizes_of_containers (λ cs id ix. ix) st'
filter_chunk-stored_example =
    filter_chunk-stored entries recent config sizes_of_containers (λ cs id ix. ix) unique_chunk
      state (omega arith) refl refl state_near state-IsValid refl refl

-- A file of two chunks, cut into two segments.
abbrev file_start_mark : Chunk
file_start_mark = record {
  size = 1;
  flag = record chunk_unique { file_start = true };
  id = temporary_id;
  fp = 0;
  data_bytes = 97 ∷ [];
}

abbrev file_end_mark : Chunk
file_end_mark = record {
  size = 0;
  flag = record chunk_unique { file_end = true };
  id = temporary_id;
  fp = 0;
  data_bytes = [];
}

abbrev stored_chunk : Chunk
stored_chunk = record unique_chunk { id = pos 7 }

abbrev file : FileChunks
file = record {
  start = file_start_mark;
  body = stored_chunk ∷ stored_chunk ∷ [];
  stop = file_end_mark;
}

abbrev two_segments : List Segment
two_segments =
    record { id = temporary_id; chunk_num = 1; chunks = file_start_mark ∷ stored_chunk ∷ [] }
    ∷ record { id = temporary_id; chunk_num = 1; chunks = stored_chunk ∷ file_end_mark ∷ [] }
    ∷ []

write_segments-recipe_of_example :
    (ws : List RecipeWrite) × (write_segments two_segments none ≡ some (ws, none))
    × (without_flags ws ≡ recipe_of (file ∷ []))
write_segments-recipe_of_example =
    write_segments-recipe_of two_segments (file ∷ []) refl
      (record { starts = refl; stored = ((refl, refl), ((refl, refl), tt)); stops = refl }, tt)

-- ===== src/Filter/Defs.antt =====
-- The body of the second loop of filter_thread in src/filter_phase.c, which sends a chunk to a
-- container or keeps its identifier. The containers are those of containerstore.c, and a container
-- handed to write_container_async is put at the end of `written`. The monitors are those of
-- har_rewrite.c and restore_aware.c, sampling with index_update is `update_index`. A failed assert
-- is `none`.
use mathlib.Core.Option
use destor.Base.{
  ℕ, ◌-◌, ◌==◌, Bool, true, false, not, ◌&&◌, ◌||◌, Option, none, some, List, [], ◌∷◌, ◌++◌,
  if◌then◌else◌, ℤ, ◌==ℤ◌, Table,
}
use destor.Chunk.{Chunk, Fingerprint, temporary_id, is_file_mark}
use destor.Container.{
  MetaEntry, Container, Pool, create_container, container_overflow, container_empty,
  add_chunk_to_container,
}
use destor.Index.{set_denied}
use destor.Rewrite.{Monitor, restore_aware_update, restore_aware_contains}
use destor.Rewrite.Har.{har_monitor_update}
use destor.Segment.{empty_chunk}

-- The options that filter_thread reads; `level` is destor.simulation_level.
-- Of ocf and ccf, `cfl_above` and `cfl_below` tell how restore_aware_get_cfl, a quotient of doubles,
-- compares with destor.rewrite_cfl_require.
pub record FilterConfig : Type 0 where
  pub level : ℕ
  pub physical_locality : Bool
  pub exact : Bool
  pub rewrite_no : Bool
  pub rewrite_enable_cache_aware : Bool
  pub rewrite_enable_cfl_switch : Bool
  pub cfl_above : ℕ → ℕ → Bool
  pub cfl_below : ℕ → ℕ → Bool

-- The two monitors.
pub record Monitors (HarMap : Type 0) : Type 0 where
  pub restore_aware : Monitor
  pub har : HarMap

-- storage_buffer, the counter of containers, the containers written, the two tables of the
-- segment, enable_rewrite, the index and the monitors.
pub record FilterState (Map Recent I HarMap : Type 0) : Type 0 where
  pub container_buffer : Option (Container Map)
  pub chunks : List Chunk
  pub pool : Pool
  pub written : List (Container Map)
  pub recently_unique_chunks : Recent
  pub recently_rewritten_chunks : Recent
  pub enable_rewrite : Bool
  pub index : I
  pub monitor : Monitors HarMap

-- The test for chunks that go to a container: unique, or fragmented and not denied.
unfoldable pub must_write : Bool → Chunk → Bool
must_write enable_rewrite c =
    not c.flag.duplicate
    || (not c.flag.rewrite_denied
        && (c.flag.sparse || (enable_rewrite && (c.flag.out_of_order && not c.flag.in_cache))))

-- new_chunk(0) with the fingerprint and, for the two tables, the identifier.
abbrev pub chunk_of : Fingerprint → ℤ → Chunk
chunk_of fp id = record empty_chunk { fp = fp; id = id }

module _ {I : Type 0} (T : Table Fingerprint MetaEntry ◌==◌) (R : Table Fingerprint Chunk ◌==◌)
    (o : FilterConfig) (H : Table ℤ ℕ ◌==ℤ◌) (update_index : List Chunk → ℤ → I → I) where
  abbrev pub State : Type 0
  State = FilterState T.Map R.Map I H.Map

  -- The cfl-switch: whether out-of-order chunks are rewritten from here.
  unfoldable pub cfl_switch : Monitor → Bool → Bool
  cfl_switch m enable_rewrite =
      if not o.rewrite_enable_cfl_switch
      then enable_rewrite
      else (if enable_rewrite && o.cfl_above m.ocf m.ccf
          then false
          else (if not enable_rewrite && o.cfl_below m.ocf m.ccf then true else enable_rewrite))

  -- har_monitor_update and restore_aware_update of a chunk.
  unfoldable pub monitor_update : ℤ → ℕ → Monitors H.Map → Option (Monitors H.Map)
  monitor_update id size mo = elim (har_monitor_update H id size mo.har) [
    | none ↦ none
    | some har ↦
        Option.map (λ m. record { restore_aware = m; har = har })
          (restore_aware_update id size mo.restore_aware)
  ]

  -- An empty container is not put into the queue, and its number is free again.
  unfoldable pub write_container_async :
      Container T.Map → Pool → List (Container T.Map) → Option (Pool × List (Container T.Map))
  write_container_async co pool written =
      if not (co.meta.chunk_num == T.size co.meta.map)
      then none
      else (if container_empty T co
          then some (record pool { container_count = pool.container_count - 1 }, written)
          else some (pool, written ++ (co ∷ [])))

  -- "Cache-Aware Filter".
  unfoldable pub mark_cached : Chunk → State → Option Chunk
  mark_cached c st =
      if o.rewrite_enable_cache_aware && restore_aware_contains c.id st.monitor.restore_aware
      then (if c.id ==ℤ temporary_id
          then none
          else some (record c { flag = record (c.flag) { in_cache = true } }))
      else some c

  -- The identifier of a copy of a chunk of this segment that was unique.
  unfoldable pub resolve_unique : Chunk → State → Option Chunk
  resolve_unique c st =
      if c.flag.duplicate && (c.id ==ℤ temporary_id)
      then Option.map (λ ruc. record c { id = ruc.id }) (R.lookup c.fp st.recently_unique_chunks)
      else some c

  -- The identifier of a copy of a chunk of this segment that was rewritten.
  unfoldable pub resolve_rewritten : Chunk → State → Chunk
  resolve_rewritten c st = elim (R.lookup c.fp st.recently_rewritten_chunks) [
    | none ↦ c
    | some rwc ↦ set_denied (record c { id = rwc.id })
  ]

  -- A container in the buffer.
  unfoldable pub open_container : State → Container T.Map × State
  open_container st = elim (st.container_buffer) [
    | some co ↦ (co, st)
    | none ↦
        let (co, pool) = create_container T o.level st.pool in
        (
          co,
          record st {
            pool = pool;
            container_buffer = some co;
            chunks = if o.physical_locality then [] else st.chunks;
          },
        )
  ]

  -- The container is written, after the index, and a new one takes its place.
  unfoldable pub switch_container : Container T.Map → State → Option (Container T.Map × State)
  unfolding write_container_async
  switch_container co st = elim (write_container_async co st.pool st.written) [
    | none ↦ none
    | some (pool1, written) ↦
        let (co', pool) = create_container T o.level pool1 in
        some (
          co',
          record st {
            index =
                if o.physical_locality
                then update_index st.chunks co.meta.id st.index
                else st.index;
            chunks = if o.physical_locality then [] else st.chunks;
            written = written;
            pool = pool;
            container_buffer = some co';
          },
        )
  ]

  unfoldable pub make_room : Chunk → State → Option (Container T.Map × State)
  unfolding open_container switch_container
  make_room c st =
      let (co, st1) = open_container st in
      if container_overflow T co c.size then switch_container co st1 else some (co, st1)

  -- What is noted of a chunk that was added.
  unfoldable pub note_added : Chunk → State → State
  note_added c st =
      let wc = chunk_of c.fp c.id in
      record st {
        recently_unique_chunks =
            if c.flag.duplicate
            then st.recently_unique_chunks
            else R.insert c.fp wc st.recently_unique_chunks;
        recently_rewritten_chunks =
            if c.flag.duplicate
            then R.insert c.fp wc st.recently_rewritten_chunks
            else st.recently_rewritten_chunks;
        chunks =
            if o.physical_locality
            then st.chunks ++ (chunk_of c.fp temporary_id ∷ [])
            else st.chunks;
      }

  unfoldable pub write_chunk : Chunk → State → Option (Chunk × State)
  unfolding make_room note_added
  write_chunk c st = elim (make_room c st) [
    | none ↦ none
    | some (co, st1) ↦ elim (add_chunk_to_container T o.level co c) [
      | none ↦ none
      | some (added, co', c') ↦
          let st2 = record st1 { container_buffer = some co' } in
          if added
          then some (c', note_added c' st2)
          else (if o.exact && o.rewrite_no then none else some (c', st2))
    ]
  ]

  -- What follows the decision: assert, and the two monitors.
  unfoldable pub observe : Chunk → State → Option (Chunk × State)
  unfolding monitor_update
  observe c st =
      if c.id ==ℤ temporary_id
      then none
      else Option.map (λ mo. (c, record st { monitor = mo }))
          (monitor_update c.id c.size st.monitor)

  unfoldable pub filter_chunk : Chunk → State → Option (Chunk × State)
  unfolding mark_cached resolve_unique resolve_rewritten write_chunk observe must_write cfl_switch
  filter_chunk c st = elim (mark_cached c st) [
    | none ↦ none
    | some c1 ↦
        let st1 = record st {
          enable_rewrite = cfl_switch st.monitor.restore_aware st.enable_rewrite;
        } in
        elim (resolve_unique c1 st1) [
          | none ↦ none
          | some c2 ↦
              let c3 = resolve_rewritten c2 st1 in
              elim (if must_write st1.enable_rewrite c3
                then write_chunk c3 st1
                else some (c3, st1)) [ none ↦ none | some (c4, st4) ↦ observe c4 st4 ]
        ]
  ]

  -- The loop over the chunks of a segment.
  unfoldable pub filter_chunks : List Chunk → State → Option (List Chunk × State)
  unfolding filter_chunk
  filter_chunks [] st = some ([], st)
  filter_chunks (c ∷ cs) st = elim (if is_file_mark c then some (c, st) else filter_chunk c st) [
    | none ↦ none
    | some (c', st') ↦ Option.map (λ r. (c' ∷ r.0, r.1)) (filter_chunks cs st')
  ]

  -- What filter_thread does with the container buffer once all segments are done.
  unfoldable pub finish : State → Option State
  unfolding write_container_async
  finish st = elim (st.container_buffer) [
    | none ↦ some st
    | some co ↦
        if container_empty T co
        then some st
        else elim (write_container_async co st.pool st.written) [
          | none ↦ none
          | some (pool, written) ↦ some (record st {
            index =
                if o.physical_locality
                then update_index st.chunks co.meta.id st.index
                else st.index;
            written = written;
            pool = pool;
          })
        ]
  ]

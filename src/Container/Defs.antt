-- ===== src/Container/Defs.antt =====
-- The container buffer of src/storage/containerstore.c: its metadata, the tests for room, and the
-- functions that put chunks in and take them out. The map from fingerprints to entries is a
-- GHashTable, a parameter. `level` is destor.simulation_level. Where an assert fails or a null
-- pointer is read the result is `none`.
use mathlib.Core.Option
use destor.Base.{
  ℕ, ◌+◌, ◌-◌, ◌*◌, ◌==◌, ltb, ◌||◌, Bool, true, false, Option, none, some, List, ◌++◌, length,
  take, drop, replicate, if◌then◌else◌, ℤ, pos, Table, is_some,
}
use destor.Chunk.{Chunk, Fingerprint, temporary_id, chunk_unique}

abbrev pub container_size : ℕ
container_size = 4194304

abbrev pub container_meta_size : ℕ
container_meta_size = 32768

-- SIMULATION_RESTORE and SIMULATION_APPEND
abbrev pub simulation_restore : ℕ
simulation_restore = 1

abbrev pub simulation_append : ℕ
simulation_append = 2

pub record MetaEntry : Type 0 where
  pub off : ℕ
  pub len : ℕ
  pub fp : Fingerprint

-- `data_size` and `chunk_num` are int32_t; `Add.IsValid` keeps both small.
pub record ContainerMeta (Map : Type 0) : Type 0 where
  pub id : ℤ
  pub data_size : ℕ
  pub chunk_num : ℕ
  pub map : Map

-- `contents` is `data`; `none` is its null pointer.
pub record Container (Map : Type 0) : Type 0 where
  pub meta : ContainerMeta Map
  pub contents : Option (List ℕ)

-- calloc and bzero: a buffer of zero bytes.
unfoldable pub zeros : ℕ → List ℕ
zeros n = replicate n 0

-- memcpy into a buffer at an offset.
abbrev pub write_at : List ℕ → ℕ → List ℕ → List ℕ
write_at d off bs = take off d ++ (bs ++ drop (off + length bs) d)

-- `len` bytes of a buffer from an offset on.
abbrev pub slice : List ℕ → ℕ → ℕ → List ℕ
slice d off len = take len (drop off d)

-- The int64_t counter of containers, and the file behind `fp` as the byte at each offset.
pub record Pool : Type 0 where
  pub container_count : ℕ
  pub file : ℕ → ℕ

module _ (T : Table Fingerprint MetaEntry ◌==◌) where
  unfoldable pub init_container_meta : ContainerMeta T.Map
  init_container_meta = record { id = temporary_id; data_size = 0; chunk_num = 0; map = T.empty }

  unfoldable pub create_container : ℕ → Pool → Container T.Map × Pool
  create_container level p = (
    record {
      meta = record (init_container_meta) { id = pos p.container_count };
      contents = if ltb level simulation_append then some (zeros container_size) else none;
    },
    record p { container_count = p.container_count + 1 },
  )

  -- 28 is the size of a metadata entry, 16 that of the header.
  unfoldable pub container_overflow : Container T.Map → ℕ → Bool
  container_overflow c size =
      ltb (container_size - container_meta_size) (c.meta.data_size + size)
      || ltb container_meta_size ((c.meta.chunk_num + 1) * 28 + 16)

  unfoldable pub container_empty : Container T.Map → Bool
  container_empty c = c.meta.chunk_num == 0

  unfoldable pub lookup_fingerprint_in_container : Container T.Map → Fingerprint → Bool
  lookup_fingerprint_in_container c fp = is_some (T.lookup fp c.meta.map)

  -- The chunk's bytes copied behind those that are there.
  unfoldable pub append_data : ℕ → Container T.Map → Chunk → Option (List ℕ)
  append_data level c ck =
      if ltb level simulation_append
      then Option.map (λ d. write_at d c.meta.data_size (take ck.size ck.data_bytes)) c.contents
      else c.contents

  -- The container with a chunk that was not there: its entry, its bytes and the counters.
  unfoldable pub append_chunk : ℕ → Container T.Map → Chunk → Container T.Map
  append_chunk level c ck = record {
    meta = record (c.meta) {
      map =
          T.insert ck.fp (record { off = c.meta.data_size; len = ck.size; fp = ck.fp }) c.meta.map;
      chunk_num = c.meta.chunk_num + 1;
      data_size = c.meta.data_size + ck.size;
    };
    contents = append_data level c ck;
  }

  -- The result is 1 (`true`) if the chunk was added, with the container and the chunk.
  unfoldable pub add_chunk_to_container :
      ℕ → Container T.Map → Chunk → Option (Bool × Container T.Map × Chunk)
  add_chunk_to_container level c ck =
      if container_overflow c ck.size
      then none
      else if is_some (T.lookup ck.fp c.meta.map)
      then some (false, c, record ck { id = c.meta.id })
      else some (true, append_chunk level c ck, record ck { id = c.meta.id })

  -- The new chunk's memory is not initialised, and the fingerprint is copied from `&fp`, the
  -- address of the parameter, not from `fp`: what lies there is `stack_fp`, and `heap` is what
  -- malloc returns.
  unfoldable pub get_chunk_in_container :
      ℕ → Fingerprint → List ℕ → Container T.Map → Fingerprint → Option Chunk
  get_chunk_in_container level stack_fp heap c fp = elim (T.lookup fp c.meta.map) [
    | none ↦ none
    | some me ↦ elim (c.contents) [
      | none ↦
          if ltb level simulation_restore
          then none
          else some (record {
            size = me.len;
            flag = chunk_unique;
            id = c.meta.id;
            fp = stack_fp;
            data_bytes = heap;
          })
      | some d ↦ some (record {
        size = me.len;
        flag = chunk_unique;
        id = c.meta.id;
        fp = stack_fp;
        data_bytes = if ltb level simulation_restore then slice d me.off me.len else heap;
      })
    ]
  ]

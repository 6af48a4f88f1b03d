-- ===== src/Rewrite/Defs.antt =====
-- The buffer of the rewrite phase, the threads no_rewrite and cfl_rewrite, and the monitor. Where an
-- assert fails the result is `none`. container_record_seq is searched only, so its order is not kept;
-- a search finds a record that the comparison takes for the one sought.
use mathlib.Core.Option
use destor.Base.{
  ℕ, zero, suc, ◌+◌, ◌-◌, ◌/◌, ◌==◌, ltb, leb, Bool, true, false, ◌&&◌, ◌||◌, not, Option, none,
  some, List, [], ◌∷◌, ◌++◌, length, if◌then◌else◌, ℤ, ◌==ℤ◌, put, delete, is_some,
}
use destor.Chunk.{Chunk, is_signal, has_id, temporary_id}
use destor.Container.{container_size}
use destor.Serial.{to_word}
use destor.LruCache.{
  LruCache, new_lru_cache, lru_cache_lookup, lru_cache_insert, lru_cache_lookup_without_update,
}

-- struct seemsLikeABuffer; a record is its cid with its size, and its out_of_order is 1.
pub record RewriteBuffer : Type 0 where
  pub chunk_queue : List Chunk
  pub container_records : List (ℤ × ℕ)
  pub num : ℕ
  pub size : ℕ

unfoldable pub init_rewrite_buffer : RewriteBuffer
init_rewrite_buffer = record { chunk_queue = []; container_records = []; num = 0; size = 0 }

-- g_record_cmp_by_id gives 0: it returns the difference of two int64_t as a gint, the low 32 bits.
unfoldable pub same_record : ℤ → ℤ → Bool
same_record a b = to_word 32 a == to_word 32 b

-- g_sequence_lookup by g_record_cmp_by_id.
unfoldable pub find_record : ℤ → List (ℤ × ℕ) → Option (ℤ × ℕ)
unfolding same_record
find_record id [] = none
find_record id (r ∷ records) = if same_record r.0 id then some r else find_record id records

-- The record of a chunk's container in rewrite_buffer_push.
unfoldable pub add_record : Chunk → List (ℤ × ℕ) → Option (List (ℤ × ℕ))
unfolding find_record
add_record c records =
    if not (has_id c)
    then some records
    else (if not c.flag.duplicate then none else elim (find_record c.id records) [
      | none ↦ some (put ◌==ℤ◌ c.id c.size records)
      | some (cid, size) ↦
          if cid ==ℤ c.id then some (put ◌==ℤ◌ c.id (size + c.size) records) else none
    ])

-- `most` is destor.rewrite_algorithm[1]; `true` if the buffer is full.
unfoldable pub rewrite_buffer_push : ℕ → Chunk → RewriteBuffer → Option (Bool × RewriteBuffer)
rewrite_buffer_push most c b =
    if is_signal c
    then some (false, record b { chunk_queue = b.chunk_queue ++ (c ∷ []) })
    else elim (add_record c b.container_records) [
      | none ↦ none
      | some records ↦
          let b' : RewriteBuffer = record {
            chunk_queue = b.chunk_queue ++ (c ∷ []);
            container_records = records;
            num = b.num + 1;
            size = b.size + c.size;
          } in
          if leb most b'.num
          then (if b'.num == most then some (true, b') else none)
          else some (false, b')
    ]

-- The record of a chunk's container in rewrite_buffer_pop.
unfoldable pub take_record : Chunk → List (ℤ × ℕ) → Option (List (ℤ × ℕ))
unfolding find_record
take_record c records =
    if c.flag.duplicate && has_id c
    then elim (find_record c.id records) [
      | none ↦ none
      | some (cid, size) ↦ some (
          if size - c.size == 0
          then delete ◌==ℤ◌ cid records
          else put ◌==ℤ◌ cid (size - c.size) records)
    ]
    else some records

-- har_check, where destor.rewrite_enable_har is set; `sparse` tells the keys of
-- inherited_sparse_containers. Without it, `sparse` is false.
unfoldable pub har_check : (ℤ → Bool) → Chunk → Chunk
har_check sparse c =
    if not (c.flag.file_start || c.flag.file_end) && (c.flag.duplicate && sparse c.id)
    then record c { flag = record (c.flag) { sparse = true } }
    else c

-- The call of har_check in rewrite_buffer_pop.
unfoldable pub checked : (ℤ → Bool) → Chunk → Chunk
checked sparse c = if c.flag.duplicate && has_id c then har_check sparse c else c

-- `none` for the chunk is NULL.
unfoldable pub rewrite_buffer_pop :
    (ℤ → Bool) → RewriteBuffer → Option (Option Chunk × RewriteBuffer)
rewrite_buffer_pop sparse b = elim (b.chunk_queue) [
  | [] ↦ some (none, b)
  | c ∷ queue ↦
      if is_signal c
      then some (some c, record b { chunk_queue = queue })
      else elim (take_record c b.container_records) [
        | none ↦ none
        | some records ↦ some (
          some (checked sparse c),
          record {
            chunk_queue = queue;
            container_records = records;
            num = b.num - 1;
            size = b.size - c.size;
          },
        )
      ]
]

-- no_rewrite
unfoldable pub no_rewrite : (ℤ → Bool) → List Chunk → List Chunk
no_rewrite sparse [] = []
no_rewrite sparse (c ∷ stream) =
    (if c.flag.duplicate then har_check sparse c else c) ∷ no_rewrite sparse stream

-- What cfl_rewrite does to a chunk that it pops: SET_CHUNK(bc, CHUNK_OUT_OF_ORDER), or nothing.
unfoldable pub judge : Bool → Chunk → Option Chunk
judge out_of_order c =
    if is_signal c
    then some c
    else (if out_of_order && has_id c
        then (if c.flag.duplicate
            then some (record c { flag = record (c.flag) { out_of_order = true } })
            else none)
        else some c)

-- `while ((bc = rewrite_buffer_pop()))`, with fuel: what is pushed, and the buffer.
unfoldable pub judge_all :
    (ℤ → Bool) → Bool → ℕ → RewriteBuffer → Option (List Chunk × RewriteBuffer)
judge_all sparse out_of_order zero b = none
judge_all sparse out_of_order (suc fuel) b = elim (rewrite_buffer_pop sparse b) [
  | none ↦ none
  | some (none, b') ↦ some ([], b')
  | some (some c, b') ↦ elim (judge out_of_order c) [
    | none ↦ none
    | some c' ↦ Option.map (λ r. (c' ∷ r.0, r.1)) (judge_all sparse out_of_order fuel b')
  ]
]

-- The whole buffer judged: `usage` is the least size that is not below
-- destor.rewrite_cfl_usage_threshold * (CONTAINER_SIZE - CONTAINER_META_SIZE).
unfoldable pub judge_buffer : (ℤ → Bool) → ℕ → RewriteBuffer → Option (List Chunk × RewriteBuffer)
judge_buffer sparse usage b = judge_all sparse (ltb b.size usage) (suc (length b.chunk_queue)) b

-- cfl_rewrite, with last_id and buffer_full.
unfoldable pub cfl_rewrite :
    (ℤ → Bool) → ℕ → ℕ → List Chunk → ℤ → Bool → RewriteBuffer → Option (List Chunk)
cfl_rewrite sparse usage most [] last_id buffer_full b =
    Option.map (λ r. r.0) (judge_buffer sparse usage b)
cfl_rewrite sparse usage most (c ∷ stream) last_id buffer_full b =
    elim (if (not (last_id ==ℤ temporary_id) && not (last_id ==ℤ c.id)) || buffer_full
      then judge_buffer sparse usage b
      else some ([], b)) [
        | none ↦ none
        | some (out, b') ↦ elim (rewrite_buffer_push most c b') [
          | none ↦ none
          | some (full, b'') ↦
              Option.map (λ r. out ++ r) (cfl_rewrite sparse usage most stream c.id full b'')
        ]
      ]

-- The monitor of src/restore_aware.c; `cfl` is the quotient ocf / ccf, kept as its parts.
pub record Monitor : Type 0 where
  pub total_size : ℕ
  pub ocf : ℕ
  pub ccf : ℕ
  pub cache : LruCache ℤ

unfoldable pub init_restore_aware : ℤ → Monitor
init_restore_aware restore_cache = record {
  total_size = 0;
  ocf = 0;
  ccf = 0;
  cache = new_lru_cache restore_cache;
}

-- 28 is CONTAINER_META_ENTRY.
unfoldable pub restore_aware_update : ℤ → ℕ → Monitor → Option Monitor
restore_aware_update id chunklen m =
    let total = m.total_size + chunklen + 28 in
    let ocf = (total + container_size - 1) / container_size in
    let (found, cache) = lru_cache_lookup (λ r. r ==ℤ id) m.cache in
    elim found [
      | some r ↦ some (record { total_size = total; ocf = ocf; ccf = m.ccf; cache = cache })
      | none ↦ elim (lru_cache_insert id cache) [
        | none ↦ none
        | some (cache', victim) ↦
            some (record { total_size = total; ocf = ocf; ccf = m.ccf + 1; cache = cache' })
      ]
    ]

unfoldable pub restore_aware_contains : ℤ → Monitor → Bool
restore_aware_contains id m = is_some (lru_cache_lookup_without_update (λ r. r ==ℤ id) m.cache)

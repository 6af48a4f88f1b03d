-- ===== src/Chunking/Defs.antt =====
-- The chunking functions and the loop of chunk_thread. A buffer is the list of its bytes, and its
-- size is the length. `none` is a failed assert, a NULL that is read through, or bytes outside of
-- a buffer.
use Prim.Native.Nat.{bit_and}
use mathlib.Core.Option
use destor.Base.{
  ℕ, zero, suc, ◌+◌, ◌-◌, ◌*◌, ◌%◌, ◌^◌, ◌==◌, ltb, leb, Bool, true, false, ◌||◌, not, Option, none,
  some, List, [], ◌∷◌, ◌++◌, take, drop, length, if◌then◌else◌,
}
use destor.Chunk.{Chunk, chunk_unique, temporary_id}
use destor.Serial.{big, load, byte_at}

-- fixed_chunk_data; `avg` is destor.chunk_avg_size.
unfoldable pub fixed_chunk_data : ℕ → List ℕ → ℕ
fixed_chunk_data avg p = if ltb (length p) avg then length p else avg

-- g_min_fastcdc_chunk_size, g_max_fastcdc_chunk_size, g_expect_fastcdc_chunk_size, MaskS, MaskL and
-- g_gear_matrix, as fastcdc_init leaves them.
pub record FastCdc : Type 0 where
  pub min_size : ℕ
  pub max_size : ℕ
  pub expect_size : ℕ
  pub mask_s : ℕ
  pub mask_l : ℕ
  pub gear_matrix : ℕ → ℕ

-- `fingerprint = (fingerprint<<1) + (g_gear_matrix[p[i]]);` in 64 bits.
unfoldable pub gear_step : FastCdc → ℕ → ℕ → ℕ
gear_step g fingerprint byte = (fingerprint * 2 + g.gear_matrix byte) % 2 ^ 64

-- One of the two loops, with the rounds left: whether it returned, `i`, and the fingerprint.
unfoldable pub gear_loop : FastCdc → ℕ → List ℕ → ℕ → ℕ → ℕ → Bool × ℕ × ℕ
gear_loop g mask p zero i fingerprint = (false, i, fingerprint)
gear_loop g mask p (suc rounds) i fingerprint =
    let fingerprint' = gear_step g fingerprint (byte_at p i) in
    let rest = gear_loop g mask p rounds (i + 1) fingerprint' in
    if bit_and fingerprint' mask == 0 then (true, i, fingerprint') else rest

-- fastcdc_chunk_data behind its tests: both loops, with their bounds Mid and n.
unfoldable pub gear_loops : FastCdc → List ℕ → ℕ → ℕ → ℕ
gear_loops g p mid n =
    let (returned, i, fingerprint) = gear_loop g g.mask_s p (mid - g.min_size) g.min_size 0 in
    if returned then i else (gear_loop g g.mask_l p (n - i) i fingerprint).1

unfoldable pub fastcdc_chunk_data : FastCdc → List ℕ → ℕ
fastcdc_chunk_data g p =
    let n = length p in
    if leb n g.min_size
    then n
    else (if ltb g.max_size n
        then gear_loops g p g.expect_size g.max_size
        else (if ltb n g.expect_size then gear_loops g p n n else gear_loops g p g.expect_size n))

-- my_memcmp at two positions of p: the eight bytes there as big-endian numbers; `true` is 1.
unfoldable pub my_memcmp : List ℕ → ℕ → ℕ → Bool
my_memcmp p x y = ltb (load big (take 8 (drop y p))) (load big (take 8 (drop x p)))

-- The loop of ae_chunk_data, with the rounds left; positions are counted from p.
unfoldable pub ae_loop : ℕ → ℕ → List ℕ → ℕ → ℕ → ℕ → ℕ
ae_loop window_size max_size p zero curr most = length p
ae_loop window_size max_size p (suc rounds) curr most =
    let moved = ae_loop window_size max_size p rounds (curr + 1) curr in
    let kept = ae_loop window_size max_size p rounds (curr + 1) most in
    if not (my_memcmp p curr most)
    then moved
    else (if (curr == most + window_size) || (curr == max_size) then curr else kept)

-- `curr <= end` holds of the positions 1, ..., n - 8.
unfoldable pub ae_chunk_data : ℕ → ℕ → List ℕ → ℕ
ae_chunk_data window_size max_size p =
    if leb (length p) (window_size + 8)
    then length p
    else ae_loop window_size max_size p (length p - 8) 1 0

-- DEFAULT_BLOCK_SIZE
abbrev pub default_block_size : ℕ
default_block_size = 1048576

-- new_chunk(size) with its data copied in.
unfoldable pub new_chunk : List ℕ → Chunk
new_chunk bytes = record {
  size = length bytes;
  flag = chunk_unique;
  id = temporary_id;
  fp = 0;
  data_bytes = bytes;
}

-- The bytes of the chunks that wait in a queue: the rounds that chunk_thread needs for them.
unfoldable pub bytes_left : List Chunk → ℕ
bytes_left [] = 0
bytes_left (c ∷ queue) = c.size + bytes_left queue

module _ (chunking : List ℕ → ℕ) (max_size : ℕ) where
  -- memcpy of a block behind the bytes that are left, in a buffer of DEFAULT_BLOCK_SIZE + max_size.
  unfoldable pub append_block : List ℕ → Chunk → Option (List ℕ)
  append_block left c =
      if leb (length left + c.size) (default_block_size + max_size)
      then some (left ++ take c.size c.data_bytes)
      else none

  -- `while ((leftlen < destor.chunk_max_size) && c == NULL)`: what it leaves of the queue, the
  -- bytes, and `c`.
  unfoldable pub fill_buffer : List Chunk → List ℕ → Option (List Chunk × List ℕ × Option Chunk)
  fill_buffer [] left = if ltb (length left) max_size then none else some ([], left, none)
  fill_buffer (c ∷ queue) left =
      if ltb (length left) max_size
      then (if c.flag.file_end
          then some (queue, left, some c)
          else elim (append_block left c) [ none ↦ none | some left' ↦ fill_buffer queue left' ])
      else some (c ∷ queue, left, none)

  -- The chunk that is cut off the front, and the bytes behind it.
  unfoldable pub cut_chunk : List ℕ → Option (Chunk × List ℕ)
  cut_chunk left =
      let n = chunking left in
      if ltb (length left) n || ltb max_size n
      then none
      else some (new_chunk (take n left), drop n left)

  -- The bytes at hand for the next chunk: more are read unless the FILE_END has come.
  unfoldable pub refill :
      List Chunk → List ℕ → Option Chunk → Option (List Chunk × List ℕ × Option Chunk)
  refill queue left none = fill_buffer queue left
  refill queue left (some c) = some (queue, left, some c)

  -- `assert(c); break;` with the push of `c` behind the loop.
  unfoldable pub file_tail : Option Chunk → List Chunk → Option (List Chunk × List Chunk)
  file_tail none queue = none
  file_tail (some c) queue = some (c ∷ [], queue)

  -- The inner `while (1)`, with fuel: what it pushes, the FILE_END included, and the queue.
  unfoldable pub chunk_file :
      ℕ → List Chunk → List ℕ → Option Chunk → Option (List Chunk × List Chunk)
  chunk_file zero queue left c = none
  chunk_file (suc fuel) queue left c = elim (refill queue left c) [
    | none ↦ none
    | some (queue', [], c') ↦ file_tail c' queue'
    | some (queue', b ∷ left', c') ↦ elim (cut_chunk (b ∷ left')) [
      | none ↦ none
      | some (nc, rest) ↦ Option.map (λ r. (nc ∷ r.0, r.1)) (chunk_file fuel queue' rest c')
    ]
  ]

  -- The first chunk behind a FILE_START.
  unfoldable pub first_block : List Chunk → Option (List Chunk × List ℕ × Option Chunk)
  first_block [] = none
  first_block (c ∷ queue) =
      if c.flag.file_end
      then some (queue, [], some c)
      else elim (append_block [] c) [ none ↦ none | some left ↦ some (queue, left, none) ]

  -- One file: its FILE_START, `c`, is pushed first.
  unfoldable pub chunk_one : Chunk → List Chunk → Option (List Chunk × List Chunk)
  chunk_one c queue =
      if c.flag.file_start
      then elim (first_block queue) [
        | none ↦ none
        | some (queue', left, e) ↦
            Option.map (λ r. (c ∷ r.0, r.1))
              (chunk_file (suc (length left + bytes_left queue')) queue' left e)
      ]
      else none

  -- chunk_thread, with fuel for its files: what it pushes to chunk_queue.
  unfoldable pub chunk_thread : ℕ → List Chunk → Option (List Chunk)
  chunk_thread fuel [] = some []
  chunk_thread zero (c ∷ queue) = none
  chunk_thread (suc fuel) (c ∷ queue) = elim (chunk_one c queue) [
    | none ↦ none
    | some (out, queue') ↦ Option.map (λ r. out ++ r) (chunk_thread fuel queue')
  ]

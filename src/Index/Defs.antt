-- ===== src/Index/Defs.antt =====
-- src/index/index.c and the loop of similarity_detection.c. The key-value store, the cache and the
-- storage buffer are those of the other modules; `key_of` takes the first index_key_size bytes of
-- a fingerprint. GHashTable is the parameter Table. A null pointer, a failed assert or a call of
-- GLib on NULL is `none`.
use mathlib.Core.Option
use destor.Base.{
  ℕ, ◌+◌, ◌-◌, ◌==◌, ltb, leb, Bool, true, not, ◌&&◌, ◌||◌, Option, none, some, List, [], ◌∷◌, ◌++◌,
  map, if◌then◌else◌, ℤ, ltb_int, ◌==ℤ◌, Table,
}
use destor.Chunk.{Chunk, Fingerprint, temporary_id, is_file_mark}

pub record IndexElem : Type 0 where
  pub id : ℤ
  pub fp : Fingerprint

pub record IndexBuffer (Map : Type 0) : Type 0 where
  pub buffered_fingerprints : Map
  pub chunk_num : ℕ

pub record IndexOverhead : Type 0 where
  pub lookup_requests : ℕ
  pub update_requests : ℕ
  pub lookup_requests_for_unique : ℕ
  pub read_prefetching_units : ℕ

-- g_sequence and the marks: CHUNK_DUPLICATE with an identifier.
unfoldable pub set_duplicate : ℤ → Chunk → Chunk
set_duplicate id c = record c { id = id; flag = record (c.flag) { duplicate = true } }

abbrev pub set_denied : Chunk → Chunk
set_denied c = record c { flag = record (c.flag) { rewrite_denied = true } }

-- ie->id = c->id
abbrev pub set_id : ℤ → IndexElem → IndexElem
set_id id ie = record ie { id = id }

-- The index buffer alone. `chunk_num` is an int that the functions count up and down; the natural
-- number stops at 0 where the int would not, which Buffer excludes.
module _ (B : Table Fingerprint (List IndexElem) ◌==◌) where
  unfoldable pub init_index_buffer : IndexBuffer B.Map
  init_index_buffer = record { buffered_fingerprints = B.empty; chunk_num = 0 }

  -- "Insert it into the index buffer".
  unfoldable pub buffer_chunk : Chunk → IndexBuffer B.Map → IndexBuffer B.Map
  buffer_chunk c b =
      let ne : IndexElem = record { id = c.id; fp = c.fp } in
      let tq : List IndexElem = elim (B.lookup c.fp b.buffered_fingerprints) [
        | none ↦ []
        | some q ↦ q
      ] in
      record {
        buffered_fingerprints = B.insert c.fp (tq ++ (ne ∷ [])) b.buffered_fingerprints;
        chunk_num = b.chunk_num + 1;
      }

  -- What the buffer says of a chunk that is not a duplicate yet: the head of its queue.
  unfoldable pub check_buffered : IndexBuffer B.Map → Chunk → Option Chunk
  check_buffered b c = elim (B.lookup c.fp b.buffered_fingerprints) [
    | none ↦ some c
    | some tq ↦
        if c.flag.duplicate
        then some c
        else elim tq [ [] ↦ none | be ∷ q ↦ some (set_duplicate be.id c) ]
  ]

  -- The body of the loop of index_check_buffer behind the test for file marks.
  unfoldable pub check_chunk : IndexBuffer B.Map → Chunk → Option Chunk
  check_chunk b c =
      if (c.flag.duplicate && (c.id ==ℤ temporary_id)) || (c.flag.out_of_order || c.flag.sparse)
      then elim (B.lookup c.fp b.buffered_fingerprints) [
        | none ↦ none
        | some bq ↦ elim bq [
          | [] ↦ none
          | be ∷ q ↦ some (
              if ltb_int c.id be.id
              then record (if c.id ==ℤ temporary_id then c else set_denied c) { id = be.id }
              else c)
        ]
      ]
      else some c

  unfoldable pub index_check_buffer : IndexBuffer B.Map → List Chunk → Option (List Chunk)
  unfolding check_chunk
  index_check_buffer b [] = some []
  index_check_buffer b (c ∷ cs) = elim (if is_file_mark c then some c else check_chunk b c) [
    | none ↦ none
    | some c' ↦ Option.map (◌∷◌ c') (index_check_buffer b cs)
  ]

  -- The body of the loop of index_update_buffer behind the test for file marks.
  unfoldable pub update_chunk : Chunk → IndexBuffer B.Map → Option (IndexBuffer B.Map)
  update_chunk c b =
      if c.id ==ℤ temporary_id then none else elim (B.lookup c.fp b.buffered_fingerprints) [
        | none ↦ none
        | some bq ↦ elim bq [
          | [] ↦ none
          | e ∷ [] ↦ some (record {
            buffered_fingerprints = B.remove c.fp b.buffered_fingerprints;
            chunk_num = b.chunk_num - 1;
          })
          | e ∷ ie ∷ q ↦ some (record {
            buffered_fingerprints =
                B.insert c.fp (map (λ ie. set_id c.id ie) (ie ∷ q)) b.buffered_fingerprints;
            chunk_num = b.chunk_num - 1;
          })
        ]
      ]

  unfoldable pub update_chunks : List Chunk → IndexBuffer B.Map → Option (IndexBuffer B.Map)
  unfolding update_chunk
  update_chunks [] b = some b
  update_chunks (c ∷ cs) b = elim (if is_file_mark c then some b else update_chunk c b) [
    | none ↦ none
    | some b' ↦ update_chunks cs b'
  ]

  -- The result is 1 (`true`) while the buffer remains full. A wait_threshold of 0 stands for one
  -- that is not positive.
  unfoldable pub index_update_buffer :
      ℕ → List Chunk → IndexBuffer B.Map → Option (Bool × IndexBuffer B.Map)
  unfolding update_chunks
  index_update_buffer wait_threshold cs b =
      Option.map (λ b'. (not (leb wait_threshold 0 || ltb b'.chunk_num wait_threshold), b'))
        (update_chunks cs b)

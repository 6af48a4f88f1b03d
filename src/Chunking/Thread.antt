-- ===== src/Chunking/Thread.antt =====
-- chunk_thread on the whole stream of files that read_queue holds.
use destor.Base.{
  ℕ, zero, suc, ◌+◌, ◌≤◌, ◌<◌, ◌≡◌, refl, ap, ◌∙◌, true, Option, none, some, List, [], ◌∷◌, ◌++◌,
  length, arith, inl, inr, All, append_assoc, length-append,
}
use destor.Chunk.{Chunk}
use destor.Chunking.Defs.{bytes_left, chunk_file, first_block, chunk_one, chunk_thread}
use destor.Chunking.Bounds.{IsChunking}
use destor.Chunking.File.{data_of, IsBlock, IsCut, Cuts, append_block_lem, chunk_file_lem}

-- A file as the read phase sends it: a FILE_START, blocks of its data, and a FILE_END.
pub record SentFile : Type 0 where
  pub start : Chunk
  pub blocks : List Chunk
  pub tail : Chunk

pub record IsSent (f : SentFile) : Type 0 where
  pub starts : f.start.flag.file_start ≡ true
  pub ends : f.tail.flag.file_end ≡ true
  pub inside : All IsBlock f.blocks

-- What read_queue holds for files.
abbrev pub sent : List SentFile → List Chunk
sent [] = []
sent (f ∷ fs) = f.start ∷ (f.blocks ++ (f.tail ∷ sent fs))

-- A stream that holds, for each file, its FILE_START, chunks that spell its data, and its FILE_END.
abbrev pub Spells : ℕ → List SentFile → List Chunk → Type 0
Spells max_size [] out = out ≡ []
Spells max_size (f ∷ fs) out =
    (cs : List Chunk) × (others : List Chunk) × (out ≡ f.start ∷ (cs ++ (f.tail ∷ others)))
    × (data_of cs ≡ data_of f.blocks)
    × All (IsCut max_size) cs
    × Spells max_size fs others

enough :
    (blocks rest : List Chunk)
    → All IsBlock blocks
    → length (data_of blocks) ≤ bytes_left (blocks ++ rest)
unfolding bytes_left
enough [] rest h = omega arith
enough (b ∷ blocks) rest h =
    omega (arith, length-append b.data_bytes (data_of blocks), enough blocks rest h.1, h.0.sized)

module _ (chunking : List ℕ → ℕ) (max_size : ℕ) (cuts : IsChunking chunking max_size)
    (some_size : 0 < max_size) where
  chunk_one_round :
      (s : Chunk) (queue q out rest : List Chunk) (left : List ℕ) (e : Option Chunk)
      → s.flag.file_start ≡ true
      → first_block chunking max_size queue ≡ some (q, left, e)
      → chunk_file chunking max_size (suc (length left + bytes_left q)) q left e ≡ some (out, rest)
      → chunk_one chunking max_size s queue ≡ some (s ∷ out, rest)
  unfolding chunk_one
  chunk_one_round s queue q out rest left e starts first others =
      ground (arith, starts, first, others)

  first_empty :
      (e : Chunk) (rest : List Chunk)
      → e.flag.file_end ≡ true
      → first_block chunking max_size (e ∷ rest) ≡ some (rest, [], some e)
  unfolding first_block
  first_empty e rest ends = ground (arith, ends)

  first_full :
      (b : Chunk) (queue : List Chunk)
      → IsBlock b
      → first_block chunking max_size (b ∷ queue) ≡ some (queue, b.data_bytes, none)
  unfolding first_block
  first_full b queue h =
      ground (arith, h.inside, append_block_lem chunking max_size [] b h (omega arith))

  chunk_one_lem :
      (f : SentFile) (rest : List Chunk)
      → IsSent f
      → (cs : List Chunk) × (chunk_one chunking max_size f.start (f.blocks ++ (f.tail ∷ rest))
          ≡ some (f.start ∷ (cs ++ (f.tail ∷ [])), rest))
        × (data_of cs ≡ data_of f.blocks)
        × All (IsCut max_size) cs
  unfolding Cuts
  chunk_one_lem f rest v = by_blocks f.blocks v.inside
    where
      by_blocks :
          (blocks : List Chunk)
          → All IsBlock blocks
          → (cs : List Chunk) × (chunk_one chunking max_size f.start (blocks ++ (f.tail ∷ rest))
              ≡ some (f.start ∷ (cs ++ (f.tail ∷ [])), rest))
            × (data_of cs ≡ data_of blocks)
            × All (IsCut max_size) cs
      by_blocks [] h =
          let (cs, out, d, k) =
            chunk_file_lem chunking max_size f.tail rest v.ends cuts some_size
              (suc (bytes_left rest)) rest [] (some f.tail) [] (omega arith)
              (inr (refl, refl, refl)) in
          (
            cs,
            chunk_one_round f.start (f.tail ∷ rest) rest (cs ++ (f.tail ∷ [])) rest [] (some f.tail)
                v.starts (first_empty f.tail rest v.ends)
                (ap (λ n. chunk_file chunking max_size n rest [] (some f.tail)) (omega arith)
                  ∙ out),
            d,
            k,
          )
      by_blocks (b ∷ blocks) h =
          let queue = blocks ++ (f.tail ∷ rest) in
          let (cs, out, d, k) =
            chunk_file_lem chunking max_size f.tail rest v.ends cuts some_size
              (suc (length b.data_bytes + bytes_left queue)) queue b.data_bytes none
              (data_of blocks) (omega (arith, enough blocks (f.tail ∷ rest) h.1))
              (inl (blocks, refl, h.1, refl, refl)) in
          (
            cs,
            chunk_one_round f.start (b ∷ queue) queue (cs ++ (f.tail ∷ [])) rest b.data_bytes none
                v.starts (first_full b queue h.0) out,
            d,
            k,
          )

  -- A stream of files is chunked to its end: no assert fails and no byte outside of a buffer is read
  -- or written. Between the marks of each file, passed on as they came, are chunks that together
  -- are the file's data; none is empty or larger than the largest chunk size. `fuel` counts the
  -- files.
  pub chunk_thread-Spells :
      (fuel : ℕ) (fs : List SentFile)
      → All IsSent fs
      → length fs ≤ fuel
      → (out : List Chunk) × (chunk_thread chunking max_size fuel (sent fs) ≡ some out)
        × Spells max_size fs out
  unfolding chunk_thread
  chunk_thread-Spells fuel [] h n = ([], refl, refl)
  chunk_thread-Spells zero (f ∷ fs) h n = absurd (omega arith)
  chunk_thread-Spells (suc fuel) (f ∷ fs) h n =
      let (cs, one, d, k) = chunk_one_lem f (sent fs) h.0 in
      let (others, rest, spells) = chunk_thread-Spells fuel fs h.1 (omega arith) in
      (
        f.start ∷ ((cs ++ (f.tail ∷ [])) ++ others),
        rw (chunk_thread, one, rest) refl,
        (cs, others, ap (◌∷◌ f.start) (append_assoc cs (f.tail ∷ []) others), d, k, spells),
      )

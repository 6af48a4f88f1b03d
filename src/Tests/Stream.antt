-- ===== src/Tests/Stream.antt =====
-- The phases that handle streams of chunks, at small inputs: src/chunk_phase.c and src/chunking/,
-- src/index/segmenting_method.c and src/dedup_phase.c, src/assembly_restore.c.
use destor.Base.{
  ℕ, ◌+◌, ◌<◌, ◌≤◌, ◌≡◌, refl, true, none, some, List, [], ◌∷◌, arith, ℤ, pos, min, length, All,
  map, replicate,
}
use destor.Chunk.{Chunk, chunk_unique, temporary_id}
use destor.Assembly.{Reader, assembly_restore, send, fill, container_of, set_ready}
use destor.Assembly.Stream.{chunk_by_chunk, assembly_restore-chunk_by_chunk}
use destor.Serial.{little}
use destor.Segment.{Segment, fixed, content_defined, segments, dedup_thread}
use destor.Segment.Stream.{all_chunks, segments-chunks}
use destor.Segment.Bounds.{AllButLast, Partial, Between, segments_content_defined-size}
use destor.Segment.Dedup.{payload, without_marks, dedup_thread-stream}
use destor.Chunking.{FastCdc, fastcdc_chunk_data, fixed_chunk_data, ae_chunk_data, chunk_thread}
use destor.Chunking.Bounds.{fixed_chunk_data-IsChunking, fastcdc_chunk_data-size}
use destor.Chunking.Ae.{ae_chunk_data-size, ae_chunk_data-replicate}
use destor.Chunking.Thread.{SentFile, IsSent, sent, Spells, chunk_thread-Spells}

abbrev mark_start : Chunk
mark_start = record {
  size = 0;
  flag = record chunk_unique { file_start = true };
  id = temporary_id;
  fp = 0;
  data_bytes = [];
}

abbrev mark_end : Chunk
mark_end = record mark_start { flag = record chunk_unique { file_end = true } }

-- A chunk of one byte, in a container.
abbrev stored_chunk : ℕ → ℕ → Chunk
stored_chunk container byte = record {
  size = 1;
  flag = chunk_unique;
  id = pos container;
  fp = byte;
  data_bytes = byte ∷ [];
}

-- The recipe's chunks, without bytes yet.
abbrev wanted : ℕ → ℕ → Chunk
wanted container byte = record (stored_chunk container byte) { data_bytes = [] }

abbrev recipe : List Chunk
recipe = mark_start ∷ wanted 3 10 ∷ wanted 4 20 ∷ wanted 3 30 ∷ mark_end ∷ []

abbrev restored : List Chunk
restored =
    mark_start
    ∷ set_ready (stored_chunk 3 10)
    ∷ set_ready (stored_chunk 4 20)
    ∷ set_ready (stored_chunk 3 30)
    ∷ mark_end
    ∷ []

-- Every container has every chunk of one byte, whose fingerprint it is.
abbrev reader : Reader
reader = record { Con = ℤ; retrieve = λ id. some id; chunk_of = λ con fp. some (stored_chunk 3 fp) }

recipe_chunks : chunk_by_chunk reader 0 recipe ≡ some restored
unfolding fill container_of
recipe_chunks = refl

assembly_restore-chunk_by_chunk_example :
    assembly_restore reader 0 2 recipe ≡ some (send 0 restored)
assembly_restore-chunk_by_chunk_example =
    assembly_restore-chunk_by_chunk reader 0 2 recipe restored
      (refl, (refl, (refl, (refl, (refl, tt))))) recipe_chunks

segments-chunks_example : all_chunks (segments (fixed 2) recipe none) ≡ recipe
segments-chunks_example = segments-chunks (fixed 2) recipe

segments_content_defined-size_example :
    AllButLast (Partial 3) (Between 1 3) (segments (content_defined little 10 1 3) recipe none)
segments_content_defined-size_example =
    segments_content_defined-size little 10 1 3 recipe (omega arith) (omega arith)

-- An index that counts the segments it has seen and marks nothing.
abbrev index_lookup : ℕ → Segment → ℕ × Segment
index_lookup n s = (n + 1, s)

dedup_thread-stream_example :
    without_marks (map payload (dedup_thread ℕ index_lookup (fixed 2) 0 recipe))
    ≡ map payload recipe
dedup_thread-stream_example =
    dedup_thread-stream ℕ index_lookup (fixed 2) 0 recipe (λ i s. refl)
      (refl, (refl, (refl, (refl, (refl, tt)))))

abbrev cdc : FastCdc
cdc = record {
  min_size = 2;
  max_size = 8;
  expect_size = 4;
  mask_s = 3;
  mask_l = 1;
  gear_matrix = λ b. b;
}

fastcdc_chunk_data-size_example :
    (min 5 2 ≤ fastcdc_chunk_data cdc (1 ∷ 2 ∷ 3 ∷ 4 ∷ 5 ∷ []))
    × (fastcdc_chunk_data cdc (1 ∷ 2 ∷ 3 ∷ 4 ∷ 5 ∷ []) ≤ min 5 8)
fastcdc_chunk_data-size_example =
    fastcdc_chunk_data-size cdc (1 ∷ 2 ∷ 3 ∷ 4 ∷ 5 ∷ []) (omega arith) (omega arith)

ae_chunk_data-size_example :
    (0 < ae_chunk_data 1 4 (1 ∷ 2 ∷ 3 ∷ [])) × (ae_chunk_data 1 4 (1 ∷ 2 ∷ 3 ∷ []) ≤ 3)
ae_chunk_data-size_example = ae_chunk_data-size 1 4 (1 ∷ 2 ∷ 3 ∷ []) (omega arith)

-- 20 bytes, more than a largest chunk of 12.
ae_chunk_data-replicate_example : ae_chunk_data 4 12 (replicate 20 0) ≡ 20
ae_chunk_data-replicate_example = ae_chunk_data-replicate 4 12 20 0

abbrev block : List ℕ → Chunk
block bytes = record mark_start { size = length bytes; flag = chunk_unique; data_bytes = bytes }

-- A file of five bytes in two blocks, and one without data.
abbrev files : List SentFile
files =
    record {
      start = mark_start;
      blocks = block (1 ∷ 2 ∷ 3 ∷ []) ∷ block (4 ∷ 5 ∷ []) ∷ [];
      tail = mark_end;
    }
    ∷ record { start = mark_start; blocks = []; tail = mark_end }
    ∷ []

files-IsSent : All IsSent files
files-IsSent = (
  record {
    starts = refl;
    ends = refl;
    inside = (
      record { inside = refl; sized = refl; bounded = omega arith },
      (record { inside = refl; sized = refl; bounded = omega arith }, tt),
    );
  },
  (record { starts = refl; ends = refl; inside = tt }, tt),
)

chunk_thread-Spells_example :
    (out : List Chunk) × (chunk_thread (fixed_chunk_data 2) 2 2 (sent files) ≡ some out)
    × Spells 2 files out
chunk_thread-Spells_example =
    chunk_thread-Spells (fixed_chunk_data 2) 2 (fixed_chunk_data-IsChunking 2 (omega arith))
      (omega arith) 2 files files-IsSent (omega arith)

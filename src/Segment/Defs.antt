-- ===== src/Segment/Defs.antt =====
-- src/index/segmenting_method.c: each method is a function of the chunk, NULL being `none`, and of
-- its static `tmp`, and returns its result and the new `tmp`. send_segment and
-- dedup_thread are those of src/dedup_phase.c.
use destor.Base.{
  ℕ, suc, ◌+◌, ◌%◌, ◌==◌, ltb, leb, Bool, true, Option, none, some, List, [], ◌∷◌, ◌++◌, drop,
  if◌then◌else◌, ℤ, pos, negsuc,
}
use destor.Chunk.{Chunk, Fingerprint, is_file_mark, chunk_unique, temporary_id}
use destor.Serial.{Endian, load, of_word}
use destor.Pool.{fp_bytes}

-- `struct segment`; `features` is NULL in a segment made by new_segment.
pub record Segment : Type 0 where
  pub id : ℤ
  pub chunk_num : ℕ
  pub chunks : List Chunk

unfoldable pub new_segment : Segment
new_segment = record { id = temporary_id; chunk_num = 0; chunks = [] }

-- `if (tmp == NULL) tmp = new_segment();`
unfoldable pub current : Option Segment → Segment
current none = new_segment
current (some s) = s

-- g_sequence_append(tmp->chunks, c)
unfoldable pub append_mark : Chunk → Segment → Segment
append_mark c s = record s { chunks = s.chunks ++ (c ∷ []) }

-- The same with `tmp->chunk_num++`.
unfoldable pub append_normal : Chunk → Segment → Segment
append_normal c s = record s { chunk_num = s.chunk_num + 1; chunks = s.chunks ++ (c ∷ []) }

-- What a call returns, and `tmp` behind it.
abbrev pub Cut : Type 0
Cut = Option Segment × Option Segment

-- `k` is destor.index_segment_algorithm[1].
unfoldable pub segment_fixed : ℕ → Option Chunk → Option Segment → Cut
segment_fixed k none tmp = (some (current tmp), some (current tmp))
segment_fixed k (some c) tmp =
    if is_file_mark c
    then (none, some (append_mark c (current tmp)))
    else let s = append_normal c (current tmp) in
      if s.chunk_num == k then (some s, none) else (none, some s)

unfoldable pub segment_file_defined : Option Chunk → Option Segment → Cut
segment_file_defined none tmp = (some (current tmp), some (current tmp))
segment_file_defined (some c) tmp =
    if c.flag.file_end
    then (some (append_mark c (current tmp)), none)
    else (if c.flag.file_start
        then (none, some (append_mark c (current tmp)))
        else (none, some (append_normal c (current tmp))))

-- `*(int*)&c->fp[16] % k == 0`: a signed remainder is 0 where that of the absolute value is.
unfoldable pub absolute : ℤ → ℕ
absolute (pos n) = n
absolute (negsuc n) = suc n

unfoldable pub is_boundary : Endian → ℕ → Fingerprint → Bool
is_boundary e k fp = absolute (of_word 32 (load e (drop 16 (fp_bytes fp)))) % k == 0

-- `least` and `most` are destor.index_segment_min and index_segment_max.
unfoldable pub segment_content_defined : Endian → ℕ → ℕ → ℕ → Option Chunk → Option Segment → Cut
segment_content_defined e k least most none tmp = (some (current tmp), some (current tmp))
segment_content_defined e k least most (some c) tmp =
    if is_file_mark c
    then (none, some (append_mark c (current tmp)))
    else (if ltb (current tmp).chunk_num least
        then (none, some (append_normal c (current tmp)))
        else (if is_boundary e k c.fp
            then (some (current tmp), some (append_normal c new_segment))
            else let s = append_normal c (current tmp) in
              if leb most s.chunk_num then (some s, some new_segment) else (none, some s)))

-- `segmenting`, set by init_segmenting_method.
pub data SegmentMethod : Type 0 where
  fixed : ℕ → SegmentMethod
  file_defined : SegmentMethod
  content_defined : Endian → ℕ → ℕ → ℕ → SegmentMethod

unfoldable pub segmenting : SegmentMethod → Option Chunk → Option Segment → Cut
segmenting (fixed k) = segment_fixed k
segmenting file_defined = segment_file_defined
segmenting (content_defined e k least most) = segment_content_defined e k least most

-- new_chunk(0), and the two marks made of it.
unfoldable pub empty_chunk : Chunk
empty_chunk = record { size = 0; flag = chunk_unique; id = temporary_id; fp = 0; data_bytes = [] }

abbrev pub segment_start : Chunk
segment_start = record empty_chunk { flag = record chunk_unique { segment_start = true } }

abbrev pub segment_end : Chunk
segment_end = record empty_chunk { flag = record chunk_unique { segment_end = true } }

-- What send_segment pushes to dedup_queue.
unfoldable pub send_segment : Segment → List Chunk
send_segment s = segment_start ∷ (s.chunks ++ (segment_end ∷ []))

-- The segments that the loop of dedup_thread gets for a stream and the NULL at its end.
unfoldable pub segments : SegmentMethod → List Chunk → Option Segment → List Segment
segments m [] tmp = elim (segmenting m none tmp).0 [ none ↦ [] | some s ↦ s ∷ [] ]
segments m (c ∷ stream) tmp =
    let (ret, tmp') = segmenting m (some c) tmp in
    let rest = segments m stream tmp' in elim ret [ none ↦ rest | some s ↦ s ∷ rest ]

-- dedup_thread, with the state of the index. index_lookup is an argument: it marks the chunks of a
-- segment, and it returns 0 and is called again while the index buffer is full.
module _ (I : Type 0) (index_lookup : I → Segment → I × Segment) where
  unfoldable pub dedup_segment : I → Segment → I × Segment
  dedup_segment i s = if ltb 0 s.chunk_num then index_lookup i s else (i, s)

  unfoldable pub dedup_segments : I → List Segment → List Chunk
  dedup_segments i [] = []
  dedup_segments i (s ∷ ss) =
      let (i', s') = dedup_segment i s in send_segment s' ++ dedup_segments i' ss

  unfoldable pub dedup_thread : SegmentMethod → I → List Chunk → List Chunk
  dedup_thread m i stream = dedup_segments i (segments m stream none)

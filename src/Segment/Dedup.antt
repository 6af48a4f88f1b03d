-- ===== src/Segment/Dedup.antt =====
-- The stream that dedup_thread passes on, between the marks of its segments.
use mathlib.Core.List.{map-append}
use destor.Base.{
  ◌≡◌, refl, sym, ap, ap₂, ◌∙◌, ltb, Bool, false, ◌||◌, none, List, [], ◌∷◌, ◌++◌, arith, map,
  append-nil, if◌then◌else◌, Bool-cases, inl, inr, All,
}
use destor.Chunk.{Chunk, temporary_id}
use destor.Segment.Defs.{
  Segment, SegmentMethod, segments, segment_end, send_segment, dedup_segment, dedup_segments,
  dedup_thread, empty_chunk,
}
use destor.Segment.Stream.{all_chunks, segments-chunks}

-- A chunk without what the index finds out about it.
abbrev pub payload : Chunk → Chunk
payload c = record c {
  id = temporary_id;
  flag = record (c.flag) { duplicate = false; rewrite_denied = false };
}

abbrev pub is_segment_mark : Chunk → Bool
is_segment_mark c = c.flag.segment_start || c.flag.segment_end

-- A stream without the marks of segments.
abbrev pub without_marks : List Chunk → List Chunk
without_marks [] = []
without_marks (c ∷ cs) = let rest = without_marks cs in if is_segment_mark c then rest else c ∷ rest

without_marks-append :
    (xs ys : List Chunk) → without_marks (xs ++ ys) ≡ without_marks xs ++ without_marks ys
without_marks-append [] ys = refl
without_marks-append (x ∷ xs) ys = elim (Bool-cases (is_segment_mark x)) [
  | inl m ↦ rw m (without_marks-append xs ys)
  | inr m ↦ rw m (ap (◌∷◌ x) (without_marks-append xs ys))
]

-- What is left of a stream.
abbrev content : List Chunk → List Chunk
content xs = without_marks (map payload xs)

content-append : (xs ys : List Chunk) → content (xs ++ ys) ≡ content xs ++ content ys
content-append xs ys =
    ap without_marks (map-append payload xs ys)
    ∙ without_marks-append (map payload xs) (map payload ys)

content-send_segment : (s : Segment) → content (send_segment s) ≡ content s.chunks
unfolding send_segment empty_chunk
content-send_segment s = content-append s.chunks (segment_end ∷ []) ∙ append-nil (content s.chunks)

content_id :
    (xs : List Chunk) → All (λ c. is_segment_mark c ≡ false) xs → content xs ≡ map payload xs
content_id [] h = refl
content_id (x ∷ xs) h = ground (arith, h.0, content_id xs h.1)

module _ (I : Type 0) (index_lookup : I → Segment → I × Segment) where
  -- The index finds out about chunks and does nothing else to a segment.
  abbrev pub OnlyMarks : Type 0
  OnlyMarks = (i : I) (s : Segment) → map payload (index_lookup i s).1.chunks ≡ map payload s.chunks

  dedup_segment_lem :
      (i : I) (s : Segment)
      → OnlyMarks
      → content (dedup_segment I index_lookup i s).1.chunks ≡ content s.chunks
  unfolding dedup_segment
  dedup_segment_lem i s only = elim (Bool-cases (ltb 0 s.chunk_num)) [
    | inl some_chunk ↦ rw some_chunk (ap without_marks (only i s))
    | inr empty ↦ rw empty refl
  ]

  dedup_segments_lem :
      (i : I) (ss : List Segment)
      → OnlyMarks
      → content (dedup_segments I index_lookup i ss) ≡ content (all_chunks ss)
  unfolding dedup_segments
  dedup_segments_lem i [] only = refl
  dedup_segments_lem i (s ∷ ss) only =
      let (i', s') = dedup_segment I index_lookup i s in
      content-append (send_segment s') (dedup_segments I index_lookup i' ss)
      ∙ ap₂ ◌++◌ (content-send_segment s' ∙ dedup_segment_lem i s only)
          (dedup_segments_lem i' ss only)
      ∙ sym (content-append s.chunks (all_chunks ss))

  -- Whatever the segmenting method, if the index only marks the chunks of a segment, then what
  -- dedup_thread passes on is, between the marks of segments, the stream that came in: every chunk
  -- of it, in order.
  pub dedup_thread-stream :
      (m : SegmentMethod) (i : I) (stream : List Chunk)
      → OnlyMarks
      → All (λ c. is_segment_mark c ≡ false) stream
      → without_marks (map payload (dedup_thread I index_lookup m i stream)) ≡ map payload stream
  unfolding dedup_thread
  dedup_thread-stream m i stream only h =
      dedup_segments_lem i (segments m stream none) only
      ∙ ap content (segments-chunks m stream)
      ∙ content_id stream h

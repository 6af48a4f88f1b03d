-- ===== src/Segment/Stream.antt =====
-- Cutting a stream into segments and sending them on loses no chunk and keeps their order.
use destor.Base.{
  ℕ, ◌+◌, ◌≡◌, refl, sym, ap, ◌∙◌, ◌==◌, ltb, leb, Option, none, some, List, [], ◌∷◌, ◌++◌, arith,
  append_assoc, append-nil, Bool-cases, Option-cases, inl, inr,
}
use destor.Chunk.{Chunk, is_file_mark}
use destor.Serial.{Endian}
use destor.Segment.Defs.{
  Segment, Cut, current, new_segment, append_mark, append_normal, segment_fixed,
  segment_file_defined, segment_content_defined, SegmentMethod, fixed, file_defined,
  content_defined, segmenting, segments, is_boundary,
}

abbrev pub returned : Option Segment → List Chunk
returned none = []
returned (some s) = s.chunks

-- A cut that took `c` in: what it returned and what it still holds.
abbrev pub Keeps : Chunk → Option Segment → Cut → Type 0
Keeps c tmp cut = returned cut.0 ++ (current cut.1).chunks ≡ (current tmp).chunks ++ (c ∷ [])

fixed-Keeps :
    (k : ℕ) (c : Chunk) (tmp : Option Segment) → Keeps c tmp (segment_fixed k (some c) tmp)
unfolding segment_fixed append_mark append_normal current new_segment
fixed-Keeps k c tmp = elim (Bool-cases (is_file_mark c)) [
  | inl m ↦ rw m refl
  | inr m ↦ elim (Bool-cases ((current tmp).chunk_num + 1 == k)) [
    | inl full ↦ rw (m, full) (append-nil ((current tmp).chunks ++ (c ∷ [])))
    | inr more ↦ rw (m, more) refl
  ]
]

file_defined-Keeps :
    (c : Chunk) (tmp : Option Segment) → Keeps c tmp (segment_file_defined (some c) tmp)
unfolding segment_file_defined append_mark append_normal current new_segment
file_defined-Keeps c tmp = elim (Bool-cases (c.flag.file_end)) [
  | inl e ↦ ground (arith, append-nil ((current tmp).chunks ++ (c ∷ [])))
  | inr e ↦ elim (Bool-cases (c.flag.file_start)) [ inl s ↦ ground arith | inr s ↦ ground arith ]
]

content_defined-Keeps :
    (e : Endian) (k least most : ℕ) (c : Chunk) (tmp : Option Segment)
    → Keeps c tmp (segment_content_defined e k least most (some c) tmp)
unfolding segment_content_defined append_mark append_normal current new_segment
content_defined-Keeps e k least most c tmp = elim (Bool-cases (is_file_mark c)) [
  | inl m ↦ rw m refl
  | inr m ↦ elim (Bool-cases (ltb (current tmp).chunk_num least)) [
    | inl small ↦ rw (m, small) refl
    | inr large ↦ elim (Bool-cases (is_boundary e k c.fp)) [
      | inl b ↦ rw (m, large, b) refl
      | inr b ↦ elim (Bool-cases (leb most ((current tmp).chunk_num + 1))) [
        | inl full ↦ rw (m, large, b, full) (append-nil ((current tmp).chunks ++ (c ∷ [])))
        | inr more ↦ rw (m, large, b, more) refl
      ]
    ]
  ]
]

segmenting-Keeps :
    (m : SegmentMethod) (c : Chunk) (tmp : Option Segment) → Keeps c tmp (segmenting m (some c) tmp)
unfolding segmenting
segmenting-Keeps (fixed k) c tmp = fixed-Keeps k c tmp
segmenting-Keeps file_defined c tmp = file_defined-Keeps c tmp
segmenting-Keeps (content_defined e k least most) c tmp = content_defined-Keeps e k least most c tmp

segmenting-end :
    (m : SegmentMethod) (tmp : Option Segment) → (segmenting m none tmp).0 ≡ some (current tmp)
unfolding segmenting segment_fixed segment_file_defined segment_content_defined
segmenting-end (fixed k) tmp = refl
segmenting-end file_defined tmp = refl
segmenting-end (content_defined e k least most) tmp = refl

-- The chunks of segments, in order.
abbrev pub all_chunks : List Segment → List Chunk
all_chunks [] = []
all_chunks (s ∷ ss) = s.chunks ++ all_chunks ss

step :
    (m : SegmentMethod) (c : Chunk) (stream : List Chunk) (tmp : Option Segment)
    → all_chunks (segments m (c ∷ stream) tmp)
      ≡ returned (segmenting m (some c) tmp).0
        ++ all_chunks (segments m stream (segmenting m (some c) tmp).1)
unfolding segments
step m c stream tmp = elim (Option-cases (segmenting m (some c) tmp).0) [
  | inl null ↦ rw (segments, null) refl
  | inr (s, ret) ↦ rw (segments, ret) refl
]

segments_lem :
    (m : SegmentMethod) (stream : List Chunk) (tmp : Option Segment)
    → all_chunks (segments m stream tmp) ≡ (current tmp).chunks ++ stream
unfolding segments
segments_lem m [] tmp = rw (all_chunks, segmenting-end m tmp) refl
segments_lem m (c ∷ stream) tmp =
    step m c stream tmp
    ∙ ap (λ t. returned (segmenting m (some c) tmp).0 ++ t)
        (segments_lem m stream (segmenting m (some c) tmp).1)
    ∙ sym (
        append_assoc (returned (segmenting m (some c) tmp).0)
          (current (segmenting m (some c) tmp).1).chunks stream)
    ∙ ap (λ t. t ++ stream) (segmenting-Keeps m c tmp)
    ∙ append_assoc (current tmp).chunks (c ∷ []) stream

-- Whatever the method, the segments of a stream put back together are the stream.
pub segments-chunks :
    (m : SegmentMethod) (stream : List Chunk) → all_chunks (segments m stream none) ≡ stream
unfolding current new_segment
segments-chunks m stream = segments_lem m stream none

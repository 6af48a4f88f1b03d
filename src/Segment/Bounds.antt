-- ===== src/Segment/Bounds.antt =====
-- How large the segments of each method are, and where they end.
use destor.Base.{
  ℕ, suc, ◌+◌, ◌≤◌, ◌<◌, ◌≡◌, refl, ◌==◌, ==_iff, ltb, leb, true, false, Option, none, some, List,
  [], ◌∷◌, ◌++◌, arith, if◌then◌else◌, Bool-cases, inl, inr,
}
use destor.Chunk.{Chunk, is_file_mark}
use destor.Serial.{Endian}
use destor.Segment.Defs.{
  Segment, current, new_segment, append_mark, append_normal, segment_fixed, segment_content_defined,
  SegmentMethod, fixed, content_defined, segmenting, segments, is_boundary,
}

-- The chunks that are no file marks.
abbrev pub normals : List Chunk → ℕ
normals [] = 0
normals (c ∷ cs) = let n = normals cs in if is_file_mark c then n else suc n

normals-append :
    (cs : List Chunk) (c : Chunk) → normals (cs ++ (c ∷ [])) ≡ normals cs + normals (c ∷ [])
normals-append [] c = omega arith
normals-append (x ∷ cs) c = elim (Bool-cases (is_file_mark x)) [
  | inl m ↦ rw m (normals-append cs c)
  | inr m ↦ rw m (omega (arith, normals-append cs c))
]

-- chunk_num counts the chunks that are no marks.
abbrev pub Counted : Segment → Type 0
Counted s = s.chunk_num ≡ normals s.chunks

append_mark-Counted :
    (c : Chunk) (s : Segment) → is_file_mark c ≡ true → Counted s → Counted (append_mark c s)
unfolding append_mark
append_mark-Counted c s m h = rw (normals-append s.chunks c, m) (omega (arith, h))

append_normal-Counted :
    (c : Chunk) (s : Segment) → is_file_mark c ≡ false → Counted s → Counted (append_normal c s)
unfolding append_normal
append_normal-Counted c s m h = rw (normals-append s.chunks c, m) (omega (arith, h))

-- `Q` of every segment but the last, which is the one at the end of the stream, and `P` of that.
abbrev pub AllButLast : (Segment → Type 0) → (Segment → Type 0) → List Segment → Type 0
AllButLast P Q [] = ⊥
AllButLast P Q (s ∷ []) = P s
AllButLast P Q (s ∷ s' ∷ ss) = Q s × AllButLast P Q (s' ∷ ss)

abbrev Returned : (Segment → Type 0) → Option Segment → Type 0
Returned Q none = Unit
Returned Q (some s) = Q s

module _ (m : SegmentMethod) (P Q : Segment → Type 0) where
  -- What a method does to a segment of which `P` holds.
  abbrev Steps : Type 0
  Steps =
      (c : Chunk) (tmp : Option Segment)
      → P (current tmp)
      → Returned Q (segmenting m (some c) tmp).0 × P (current (segmenting m (some c) tmp).1)

  more : (s : Segment) (ss : List Segment) → Q s → AllButLast P Q ss → AllButLast P Q (s ∷ ss)
  more s [] q h = absurd h
  more s (s' ∷ ss) q h = (q, h)

  segments-AllButLast :
      (stream : List Chunk) (tmp : Option Segment)
      → Steps
      → ((tmp : Option Segment) → (segmenting m none tmp).0 ≡ some (current tmp))
      → P (current tmp)
      → AllButLast P Q (segments m stream tmp)
  unfolding segments
  segments-AllButLast [] tmp step last p = rw (AllButLast, last tmp) p
  segments-AllButLast (c ∷ stream) tmp step last p =
      behind (segmenting m (some c) tmp).0 refl (step c tmp p).0
        (segments-AllButLast stream (segmenting m (some c) tmp).1 step last (step c tmp p).1)
    where
      tmp' : Option Segment
      tmp' = (segmenting m (some c) tmp).1

      behind :
          (ret : Option Segment)
          → (segmenting m (some c) tmp).0 ≡ ret
          → Returned Q ret
          → AllButLast P Q (segments m stream tmp')
          → AllButLast P Q (segments m (c ∷ stream) tmp)
      behind none e q rest = rw (segments, e) rest
      behind (some s) e q rest = rw (segments, e) (more s (segments m stream tmp') q rest)

-- A segment with `k` chunks that are no file marks, and one with fewer.
abbrev Full : ℕ → Segment → Type 0
Full k s = Counted s × (s.chunk_num ≡ k)

abbrev pub Partial : ℕ → Segment → Type 0
Partial k s = Counted s × (s.chunk_num < k)

-- For a positive `k` each fixed segment but the last has exactly `k` chunks that are no file marks,
-- and the last has fewer; chunk_num counts them.
segments_fixed-size :
    (k : ℕ) (stream : List Chunk)
    → 0 < k
    → AllButLast (Partial k) (Full k) (segments (fixed k) stream none)
unfolding segmenting segment_fixed current new_segment append_mark append_normal
segments_fixed-size k stream h =
    segments-AllButLast (fixed k) (Partial k) (Full k) stream none step (λ tmp. refl) (refl, h)
  where
    step : Steps (fixed k) (Partial k) (Full k)
    step c tmp p = elim (Bool-cases (is_file_mark c)) [
      | inl m ↦ rw m (tt, (append_mark-Counted c (current tmp) m p.0, p.1))
      | inr m ↦ elim (Bool-cases ((current tmp).chunk_num + 1 == k)) [
        | inl full ↦
            rw (m, full)
              (
                (
                  append_normal-Counted c (current tmp) m p.0,
                  (==_iff ((current tmp).chunk_num + 1) k).0 full,
                ),
                (refl, h),
              )
        | inr room ↦
            rw (m, room) (tt, (append_normal-Counted c (current tmp) m p.0, below room p.1))
      ]
    ]
      where
        below :
            (current tmp).chunk_num + 1 == k ≡ false
            → (current tmp).chunk_num < k
            → (current tmp).chunk_num + 1 < k
        below e l = ground arith

-- A segment with no fewer than `least` and no more than `most` of them.
abbrev pub Between : ℕ → ℕ → Segment → Type 0
Between least most s = Counted s × (least ≤ s.chunk_num) × (s.chunk_num ≤ most)

-- Where `least` is below `most` and `most` is at least 2, each content-defined segment but the last
-- has between `least` and `most` chunks that are no file marks, and the last has fewer than `most`;
-- chunk_num counts them.
pub segments_content_defined-size :
    (e : Endian) (k least most : ℕ) (stream : List Chunk)
    → least < most
    → 2 ≤ most
    → AllButLast
        (Partial most)
        (Between least most)
        (segments (content_defined e k least most) stream none)
unfolding segmenting segment_content_defined current new_segment append_mark append_normal
segments_content_defined-size e k least most stream h two =
    segments-AllButLast (content_defined e k least most) (Partial most) (Between least most) stream
      none step (λ tmp. refl) (refl, omega arith)
  where
    step : Steps (content_defined e k least most) (Partial most) (Between least most)
    step c tmp p = elim (Bool-cases (is_file_mark c)) [
      | inl m ↦ rw m (tt, (append_mark-Counted c (current tmp) m p.0, p.1))
      | inr m ↦ elim (Bool-cases (ltb (current tmp).chunk_num least)) [
        | inl small ↦ rw (m, small) (tt, (append_normal-Counted c (current tmp) m p.0, below small))
        | inr large ↦ elim (Bool-cases (is_boundary e k c.fp)) [
          | inl b ↦
              rw (m, large, b)
                (
                  (p.0, above large, omega (arith, p.1)),
                  (append_normal-Counted c new_segment m refl, omega arith),
                )
          | inr b ↦ elim (Bool-cases (leb most ((current tmp).chunk_num + 1))) [
            | inl full ↦
                rw (m, large, b, full)
                  (
                    (
                      append_normal-Counted c (current tmp) m p.0,
                      omega (arith, above large),
                      omega (arith, p.1),
                    ),
                    (refl, omega arith),
                  )
            | inr room ↦
                rw (m, large, b, room)
                  (tt, (append_normal-Counted c (current tmp) m p.0, under room))
          ]
        ]
      ]
    ]
      where
        below : ltb (current tmp).chunk_num least ≡ true → (current tmp).chunk_num + 1 < most
        below s = ground (arith, h)

        above : ltb (current tmp).chunk_num least ≡ false → least ≤ (current tmp).chunk_num
        above l = ground arith

        under : leb most ((current tmp).chunk_num + 1) ≡ false → (current tmp).chunk_num + 1 < most
        under r = ground arith

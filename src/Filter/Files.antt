-- ===== src/Filter/Files.antt =====
-- The recipe that filter_thread of src/filter_phase.c writes for whole files.
use mathlib.Core.Option
use mathlib.Core.Option.{some_inj}
use destor.Base.{
  ℕ, ◌+◌, ◌≡◌, refl, sym, ap, ap₂, ◌∙◌, true, false, Option, none, some, List, [], ◌∷◌, ◌++◌,
  append_assoc, append-nil, map, length, All, pos, ltb_int, Option-cases, inl, inr, arith,
}
use destor.Chunk.{Chunk}
use destor.Segment.{Segment}
use destor.Segment.Stream.{all_chunks}
use destor.Filter.Recipe.{
  FileRecipeMeta, RecipeWrite, segment_flag_start, segment_flag_end, chunk_pointer, file_meta,
  new_file_recipe_meta, write_entry, write_entries, write_segment, write_segments,
}

-- A file in the stream: its two marks and the chunks between them.
pub record FileChunks : Type 0 where
  pub start : Chunk
  pub body : List Chunk
  pub stop : Chunk

pub record IsFile (f : FileChunks) : Type 0 where
  pub starts : f.start.flag.file_start ≡ true
  pub stored : All (λ c. (c.flag.file_end ≡ false) × (ltb_int c.id (pos 0) ≡ false)) f.body
  pub stops : f.stop.flag.file_end ≡ true

abbrev pub chunks_of : List FileChunks → List Chunk
chunks_of [] = []
chunks_of (f ∷ fs) = (f.start ∷ (f.body ++ (f.stop ∷ []))) ++ chunks_of fs

abbrev pub total_size : List Chunk → ℕ
total_size [] = 0
total_size (c ∷ cs) = c.size + total_size cs

abbrev pub pointer_of : Chunk → RecipeWrite
pointer_of c = chunk_pointer (record { fp = c.fp; id = c.id; size = pos c.size })

-- The number of chunks, the size and the name of the file.
abbrev pub meta_of : FileChunks → RecipeWrite
meta_of f = file_meta (record {
  chunknum = length f.body;
  filesize = total_size f.body;
  filename = f.start.data_bytes;
})

-- A pointer for each chunk, then the file's metadata.
abbrev pub recipe_of : List FileChunks → List RecipeWrite
recipe_of [] = []
recipe_of (f ∷ fs) = (map pointer_of f.body ++ (meta_of f ∷ [])) ++ recipe_of fs

-- The writes that do not delimit segments.
abbrev pub without_flags : List RecipeWrite → List RecipeWrite
without_flags [] = []
without_flags (segment_flag_start n ∷ ws) = without_flags ws
without_flags (segment_flag_end ∷ ws) = without_flags ws
without_flags (chunk_pointer cp ∷ ws) = chunk_pointer cp ∷ without_flags ws
without_flags (file_meta r ∷ ws) = file_meta r ∷ without_flags ws

without_flags-append :
    (xs ys : List RecipeWrite) → without_flags (xs ++ ys) ≡ without_flags xs ++ without_flags ys
without_flags-append [] ys = refl
without_flags-append (segment_flag_start n ∷ ws) ys = without_flags-append ws ys
without_flags-append (segment_flag_end ∷ ws) ys = without_flags-append ws ys
without_flags-append (chunk_pointer cp ∷ ws) ys =
    ap (◌∷◌ (chunk_pointer cp)) (without_flags-append ws ys)
without_flags-append (file_meta r ∷ ws) ys = ap (◌∷◌ (file_meta r)) (without_flags-append ws ys)

abbrev Writes : Type 0
Writes = Option (List RecipeWrite × Option FileRecipeMeta)

-- Writes, and then those of what follows.
abbrev and_then : Writes → (Option FileRecipeMeta → Writes) → Writes
and_then none f = none
and_then (some (us, r)) f = Option.map (λ u. (us ++ u.0, u.1)) (f r)

and_then-nil :
    (r : Option FileRecipeMeta) (f : Option FileRecipeMeta → Writes)
    → and_then (some ([], r)) f ≡ f r
and_then-nil r f = elim (Option-cases (f r)) [
  | inl fault ↦ ground (arith, fault)
  | inr (u, run) ↦ ground (arith, run)
]

and_then_assoc :
    (us : List RecipeWrite) (o : Writes) (f : Option FileRecipeMeta → Writes)
    → Option.map (λ u. (us ++ u.0, u.1)) (and_then o f)
      ≡ and_then (Option.map (λ u. (us ++ u.0, u.1)) o) f
and_then_assoc us none f = refl
and_then_assoc us (some (vs, r)) f = elim (Option-cases (f r)) [
  | inl fault ↦ ground (arith, fault)
  | inr (u, run) ↦ ground (arith, run, append_assoc us vs u.0)
]

-- The loop over two lists of chunks, one after the other.
write_entries-append :
    (xs ys : List Chunk) (r : Option FileRecipeMeta)
    → write_entries (xs ++ ys) r ≡ and_then (write_entries xs r) (write_entries ys)
unfolding write_entries
write_entries-append [] ys r = sym (and_then-nil r (write_entries ys))
write_entries-append (c ∷ xs) ys r = elim (Option-cases (write_entry c r)) [
  | inl fault ↦ ground (arith, fault)
  | inr ((ws, r'), run) ↦ ground (
    arith,
    run,
    write_entries-append xs ys r',
    and_then_assoc ws (write_entries xs r') (write_entries ys),
  )
]

-- The writes of segments, their flags apart, are those of all their chunks.
write_segments-entries :
    (ss : List Segment) (r r2 : Option FileRecipeMeta) (ws : List RecipeWrite)
    → write_entries (all_chunks ss) r ≡ some (ws, r2)
    → (vs : List RecipeWrite) × (write_segments ss r ≡ some (vs, r2))
      × (without_flags vs ≡ without_flags ws)
unfolding write_segments write_segment write_entries
write_segments-entries [] r r2 ws h =
    ([], ap (λ p. some ([], p.1)) (some_inj.0 h), ap (λ p. without_flags p.0) (some_inj.0 h))
write_segments-entries (s ∷ ss) r r2 ws h =
    let whole = sym (write_entries-append s.chunks (all_chunks ss) r) ∙ h in
    elim (Option-cases (write_entries s.chunks r)) [
      | inl fault ↦ absurd (ground (arith, fault, whole))
      | inr ((us, r1), run) ↦ elim (Option-cases (write_entries (all_chunks ss) r1)) [
        | inl fault ↦ absurd (ground (arith, run, fault, whole))
        | inr ((vs, r2'), rest) ↦
            let both : ◌≡◌ {A = List RecipeWrite × Option FileRecipeMeta} (us ++ vs, r2') (ws, r2) =
              some_inj.0 (ground (arith, run, rest, whole)) in
            let (vs1, run1, same) =
              write_segments-entries ss r1 r2 vs (rest ∙ ap (λ p. some (vs, p.1)) both) in
            (
              (segment_flag_start s.chunk_num ∷ (us ++ (segment_flag_end ∷ []))) ++ vs1,
              ground (arith, run, run1),
              flags us vs1 vs ws same (ap (λ p. p.0) both),
            )
      ]
    ]
  where
    flags :
        (us vs1 vs ws : List RecipeWrite)
        → without_flags vs1 ≡ without_flags vs
        → us ++ vs ≡ ws
        → without_flags ((us ++ (segment_flag_end ∷ [])) ++ vs1) ≡ without_flags ws
    flags us vs1 vs ws same e =
        without_flags-append (us ++ (segment_flag_end ∷ [])) vs1
        ∙ ap (λ l. l ++ without_flags vs1)
            (without_flags-append us (segment_flag_end ∷ []) ∙ append-nil (without_flags us))
        ∙ ap (λ l. without_flags us ++ l) same
        ∙ sym (without_flags-append us vs)
        ∙ ap without_flags e

body_entries :
    (cs : List Chunk) (r : FileRecipeMeta)
    → All (λ c. (c.flag.file_end ≡ false) × (ltb_int c.id (pos 0) ≡ false)) cs
    → write_entries cs (some r)
      ≡ some (
        map pointer_of cs,
        some
            (record r { chunknum = r.chunknum + length cs; filesize = r.filesize + total_size cs }),
      )
unfolding write_entries write_entry
body_entries [] r h = ground arith
body_entries (c ∷ cs) r h = ground (
  arith,
  h.0.0,
  h.0.1,
  body_entries cs (record r { chunknum = r.chunknum + 1; filesize = r.filesize + c.size }) h.1,
)

without_flags-pointers : (cs : List Chunk) → without_flags (map pointer_of cs) ≡ map pointer_of cs
without_flags-pointers [] = refl
without_flags-pointers (c ∷ cs) = ap (◌∷◌ (pointer_of c)) (without_flags-pointers cs)

without_flags-recipe_of : (fs : List FileChunks) → without_flags (recipe_of fs) ≡ recipe_of fs
without_flags-recipe_of [] = refl
without_flags-recipe_of (f ∷ fs) =
    without_flags-append (map pointer_of f.body ++ (meta_of f ∷ [])) (recipe_of fs)
    ∙ ap₂ ◌++◌
        (without_flags-append (map pointer_of f.body) (meta_of f ∷ [])
          ∙ ap (λ l. l ++ (meta_of f ∷ [])) (without_flags-pointers f.body))
        (without_flags-recipe_of fs)

files_entries :
    (fs : List FileChunks)
    → All IsFile fs
    → write_entries (chunks_of fs) none ≡ some (recipe_of fs, none)
unfolding write_entries write_entry new_file_recipe_meta
files_entries [] h = refl
files_entries (f ∷ fs) h =
    let r0 = new_file_recipe_meta f.start.data_bytes in
    ground (
      arith,
      h.0.starts,
      h.0.stops,
      write_entries-append (f.body ++ (f.stop ∷ [])) (chunks_of fs) (some r0),
      write_entries-append f.body (f.stop ∷ []) (some r0),
      body_entries f.body r0 h.0.stored,
      files_entries fs h.1,
    )

-- Let the stream consist of whole files, each between its marks, whose chunks have containers. Then
-- however the stream is cut into segments, no assert fails, `r` is NULL again at the end, and the
-- writes, apart from the flags of segments, are for each file in order a pointer to each of its
-- chunks and then its number of chunks, its size and its name.
pub write_segments-recipe_of :
    (ss : List Segment) (fs : List FileChunks)
    → all_chunks ss ≡ chunks_of fs
    → All IsFile fs
    → (ws : List RecipeWrite) × (write_segments ss none ≡ some (ws, none))
      × (without_flags ws ≡ recipe_of fs)
write_segments-recipe_of ss fs same h =
    let (ws, run, flags) =
      write_segments-entries ss none none (recipe_of fs)
        (ap (λ cs. write_entries cs none) same ∙ files_entries fs h) in
    (ws, run, flags ∙ without_flags-recipe_of fs)

-- ===== src/Index/Buffer.antt =====
-- The index buffer of src/index/index.c against the chunks that were looked up and not yet
-- updated: `pending` lists their fingerprints, oldest first.
use destor.Base.{
  ℕ, suc, ◌+◌, ◌-◌, ◌==◌, ◌≡◌, refl, ap, ltb, leb, true, false, not, ◌&&◌, ◌||◌, Option, none, some,
  List, [], ◌∷◌, ◌++◌, map, inl, inr, if◌then◌else◌, ◌==ℤ◌, Table, length, length-append,
  Bool-cases, arith, All,
}
use destor.Chunk.{Chunk, Fingerprint, temporary_id, is_file_mark}
use destor.Index.Defs.{
  IndexElem, IndexBuffer, set_id, buffer_chunk, init_index_buffer, update_chunk, update_chunks,
  index_update_buffer,
}

-- How often a fingerprint occurs.
abbrev pub count : Fingerprint → List Fingerprint → ℕ
count f [] = 0
count f (g ∷ fs) = if g == f then suc (count f fs) else count f fs

-- The fingerprints of the chunks that are not marks of files.
abbrev pub fingerprints : List Chunk → List Fingerprint
fingerprints [] = []
fingerprints (c ∷ cs) = if is_file_mark c then fingerprints cs else c.fp ∷ fingerprints cs

count-append :
    (f : Fingerprint) (xs ys : List Fingerprint) → count f (xs ++ ys) ≡ count f xs + count f ys
count-append f [] ys = omega arith
count-append f (x ∷ xs) ys = ground (arith, count-append f xs ys)

length_map : {A B : Type 0} (f : A → B) (xs : List A) → length (map f xs) ≡ length xs
length_map f [] = refl
length_map f (x ∷ xs) = ap suc (length_map f xs)

-- A queue of a fingerprint that is pending so many times: there is none that is empty.
abbrev pub QueueOf : Option (List IndexElem) → ℕ → Type 0
QueueOf none n = n ≡ 0
QueueOf (some []) n = ⊥
QueueOf (some (e ∷ q)) n = n ≡ suc (length q)

-- A queue, or a new one, with an element at its tail.
abbrev queue_with : Option (List IndexElem) → IndexElem → List IndexElem
queue_with o e = (elim o [ none ↦ [] | some q ↦ q ]) ++ (e ∷ [])

QueueOf-push :
    (o : Option (List IndexElem)) (n : ℕ) (e : IndexElem)
    → QueueOf o n
    → QueueOf (some (queue_with o e)) (n + 1)
QueueOf-push none n e h = omega arith
QueueOf-push (some []) n e h = absurd h
QueueOf-push (some (d ∷ q)) n e h = omega (arith, h, length-append q (e ∷ []))

QueueOf-num : (o : Option (List IndexElem)) (n m : ℕ) → n ≡ m → QueueOf o m → QueueOf o n
QueueOf-num o n m e h = rw e h

module _ (B : Table Fingerprint (List IndexElem) ◌==◌) where
  QueueOf-insert :
      (m : B.Map) (k f : Fingerprint) (q : List IndexElem) (n : ℕ)
      → ((k == f) ≡ true → QueueOf (some q) n)
      → ((k == f) ≡ false → QueueOf (B.lookup f m) n)
      → QueueOf (B.lookup f (B.insert k q m)) n
  QueueOf-insert m k f q n h g = elim (Bool-cases (k == f)) [
    | inl same ↦ rw (B.lookup-insert f k q m, same) (h same)
    | inr other ↦ rw (B.lookup-insert f k q m, other) (g other)
  ]

  QueueOf-remove :
      (m : B.Map) (k f : Fingerprint) (n : ℕ)
      → ((k == f) ≡ true → n ≡ 0)
      → ((k == f) ≡ false → QueueOf (B.lookup f m) n)
      → QueueOf (B.lookup f (B.remove k m)) n
  QueueOf-remove m k f n h g = elim (Bool-cases (k == f)) [
    | inl same ↦ rw (B.lookup-remove f k m, same) (h same)
    | inr other ↦ rw (B.lookup-remove f k m, other) (g other)
  ]

  -- The buffer has a queue for each pending fingerprint, with as many elements as it is pending
  -- times, and no other; `chunk_num` is their number.
  pub record Buffers (b : IndexBuffer B.Map) (pending : List Fingerprint) : Type 0 where
    pub counted : b.chunk_num ≡ length pending
    pub queues : (f : Fingerprint) → QueueOf (B.lookup f b.buffered_fingerprints) (count f pending)

  pub init_index_buffer-Buffers : Buffers (init_index_buffer B) []
  unfolding init_index_buffer
  init_index_buffer-Buffers = record { counted = refl; queues = λ f. rw (B.lookup-empty f) refl }

  -- "Insert it into the index buffer" makes one more occurrence pending.
  pub buffer_chunk-Buffers :
      (b : IndexBuffer B.Map) (pending : List Fingerprint) (c : Chunk)
      → Buffers b pending
      → Buffers (buffer_chunk B c b) (pending ++ (c.fp ∷ []))
  unfolding buffer_chunk
  buffer_chunk-Buffers b pending c bufs = record {
    counted = omega (arith, bufs.counted, length-append pending (c.fp ∷ []));
    queues = λ f.
        QueueOf-insert b.buffered_fingerprints c.fp f _ (count f (pending ++ (c.fp ∷ [])))
          (λ same.
            QueueOf-num
              (some (
                queue_with (B.lookup c.fp b.buffered_fingerprints)
                  (record { id = c.id; fp = c.fp })))
              (count f (pending ++ (c.fp ∷ []))) (count c.fp pending + 1)
              (ground (arith, count-append f pending (c.fp ∷ []), same))
              (QueueOf-push (B.lookup c.fp b.buffered_fingerprints) (count c.fp pending)
                (record { id = c.id; fp = c.fp }) (bufs.queues c.fp)))
          (λ other.
            QueueOf-num _ _ (count f pending)
              (ground (arith, count-append f pending (c.fp ∷ []), other)) (bufs.queues f));
  }

  -- Where the oldest pending chunk has an identifier, index_update_buffer takes it out of the
  -- buffer without a failed assert and without a queue that is missing.
  pub update_chunk-Buffers :
      (b : IndexBuffer B.Map) (pending : List Fingerprint) (c : Chunk)
      → Buffers b (c.fp ∷ pending)
      → (c.id ==ℤ temporary_id) ≡ false
      → (b' : IndexBuffer B.Map) × (update_chunk B c b ≡ some b') × Buffers b' pending
  unfolding update_chunk
  update_chunk-Buffers b pending c bufs stored =
      go (B.lookup c.fp b.buffered_fingerprints) refl (bufs.queues c.fp)
    where
      rest :
          (f : Fingerprint)
          → (c.fp == f) ≡ false
          → QueueOf (B.lookup f b.buffered_fingerprints) (count f pending)
      rest f other =
          QueueOf-num _ _ (count f (c.fp ∷ pending)) (ground (arith, other)) (bufs.queues f)

      go :
          (o : Option (List IndexElem))
          → B.lookup c.fp b.buffered_fingerprints ≡ o
          → QueueOf o (count c.fp (c.fp ∷ pending))
          → (b' : IndexBuffer B.Map) × (update_chunk B c b ≡ some b') × Buffers b' pending
      go none found q = absurd (ground (arith, q))
      go (some []) found q = absurd q
      go (some (e ∷ [])) found q = (
        record {
          buffered_fingerprints = B.remove c.fp b.buffered_fingerprints;
          chunk_num = b.chunk_num - 1;
        },
        rw (update_chunk, stored, found) refl,
        record {
          counted = omega (arith, bufs.counted);
          queues = λ f.
              QueueOf-remove b.buffered_fingerprints c.fp f (count f pending)
                (λ same. ground (arith, same, q)) (rest f);
        },
      )
      go (some (e ∷ ie ∷ ies)) found q = (
        record {
          buffered_fingerprints =
              B.insert c.fp (map (λ ie. set_id c.id ie) (ie ∷ ies)) b.buffered_fingerprints;
          chunk_num = b.chunk_num - 1;
        },
        rw (update_chunk, stored, found) refl,
        record {
          counted = omega (arith, bufs.counted);
          queues = λ f.
              QueueOf-insert b.buffered_fingerprints c.fp f (map (λ ie. set_id c.id ie) (ie ∷ ies))
                (count f pending)
                (λ same. ground (arith, same, q, length_map (λ ie. set_id c.id ie) ies)) (rest f);
        },
      )

  update_chunks-Buffers :
      (cs : List Chunk) (b : IndexBuffer B.Map) (pending : List Fingerprint)
      → Buffers b (fingerprints cs ++ pending)
      → All (λ c. (is_file_mark c || not (c.id ==ℤ temporary_id)) ≡ true) cs
      → (b' : IndexBuffer B.Map) × (update_chunks B cs b ≡ some b') × Buffers b' pending
  unfolding update_chunks
  update_chunks-Buffers [] b pending bufs stored = (b, refl, bufs)
  update_chunks-Buffers (c ∷ cs) b pending bufs stored = elim (Bool-cases (is_file_mark c)) [
    | inl mark ↦
        let (b', run, left) = update_chunks-Buffers cs b pending (rw mark at bufs) stored.1 in
        (b', ground (arith, mark, run), left)
    | inr normal ↦
        let (b1, step, bufs1) =
          update_chunk-Buffers b (fingerprints cs ++ pending) c (rw normal at bufs)
            (ground (arith, normal, stored.0)) in
        let (b', run, left) = update_chunks-Buffers cs b1 pending bufs1 stored.1 in
        (b', ground (arith, normal, step, run), left)
  ]

  -- The update of the segment that is oldest in the buffer, every chunk of which has an
  -- identifier, fails no assert and misses no queue; what stays is pending, and the result says
  -- whether it is still as many as the threshold.
  pub index_update_buffer-Buffers :
      (wait_threshold : ℕ) (cs : List Chunk) (b : IndexBuffer B.Map) (pending : List Fingerprint)
      → Buffers b (fingerprints cs ++ pending)
      → All (λ c. (is_file_mark c || not (c.id ==ℤ temporary_id)) ≡ true) cs
      → (b' : IndexBuffer B.Map) × (index_update_buffer B wait_threshold cs b
          ≡ some (ltb 0 wait_threshold && leb wait_threshold (length pending), b'))
        × Buffers b' pending
  unfolding index_update_buffer
  index_update_buffer-Buffers wait_threshold cs b pending bufs stored =
      let (b', run, left) = update_chunks-Buffers cs b pending bufs stored in
      (b', ground (arith, run, left.counted), left)

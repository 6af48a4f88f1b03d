-- ===== src/Index/Check.antt =====
-- index_check_buffer of src/index/index.c: what it does for copies of chunks that are pending.
use destor.Base.{
  ◌==◌, ◌≡◌, refl, ap, ap₂, ltb, Bool, true, false, not, ◌&&◌, ◌||◌, Option, none, some, List, [],
  ◌∷◌, map, ℤ, pos, negsuc, ◌-◌, ltb_int, ◌==ℤ◌, Table, All, Bool-cases, inl, inr, arith,
}
use destor.Chunk.{Chunk, Fingerprint, temporary_id, is_file_mark}
use destor.Segment.Dedup.{payload}
use destor.Index.Defs.{
  IndexElem, IndexBuffer, set_denied, set_id, check_chunk, index_check_buffer, update_chunk,
}
use destor.Index.Buffer.{count, Buffers, QueueOf}

ltb_int_irrefl : (x : ℤ) → ltb_int x x ≡ false
ltb_int_irrefl (pos n) = ground arith
ltb_int_irrefl (negsuc n) = ground arith

ltb_int_asymm : (x y : ℤ) → ltb_int x y ≡ true → ltb_int y x ≡ false
ltb_int_asymm (pos n) (pos m) h = ground arith
ltb_int_asymm (pos n) (negsuc m) h = ground arith
ltb_int_asymm (negsuc n) (pos m) h = ground arith
ltb_int_asymm (negsuc n) (negsuc m) h = ground arith

module _ (B : Table Fingerprint (List IndexElem) ◌==◌) where
  check_chunk_lem :
      (b : IndexBuffer B.Map) (pending : List Fingerprint) (c : Chunk)
      → Buffers B b pending
      → ltb 0 (count c.fp pending) ≡ true
      → (c' : Chunk) × (check_chunk B b c ≡ some c')
        × (payload c' ≡ payload c)
        × (ltb_int c'.id c.id ≡ false)
  unfolding check_chunk
  check_chunk_lem b pending c bufs waits =
      go (B.lookup c.fp b.buffered_fingerprints) refl (bufs.queues c.fp)
    where
      go :
          (o : Option (List IndexElem))
          → B.lookup c.fp b.buffered_fingerprints ≡ o
          → QueueOf o (count c.fp pending)
          → (c' : Chunk) × (check_chunk B b c ≡ some c')
            × (payload c' ≡ payload c)
            × (ltb_int c'.id c.id ≡ false)
      go none found q = absurd (ground (arith, q, waits))
      go (some []) found q = absurd q
      go (some (be ∷ bq)) found q =
          elim (Bool-cases (
            (c.flag.duplicate && (c.id ==ℤ temporary_id))
            || (c.flag.out_of_order || c.flag.sparse))) [
              | inr plain ↦ (c, ground (arith, plain), refl, ltb_int_irrefl c.id)
              | inl asked ↦ elim (Bool-cases (ltb_int c.id be.id)) [
                | inr old ↦ (c, ground (arith, asked, found, old), refl, ltb_int_irrefl c.id)
                | inl newer ↦ elim (Bool-cases (c.id ==ℤ temporary_id)) [
                  | inl copy ↦ (
                    record c { id = be.id },
                    ground (arith, asked, found, newer, copy),
                    refl,
                    ltb_int_asymm c.id be.id newer,
                  )
                  | inr rewritten ↦ (
                    record (set_denied c) { id = be.id },
                    ground (arith, asked, found, newer, rewritten),
                    refl,
                    ltb_int_asymm c.id be.id newer,
                  )
                ]
              ]
            ]

  -- No identifier is smaller than it was.
  abbrev pub ids_grow : List Chunk → List Chunk → Bool
  ids_grow [] ds = true
  ids_grow (c ∷ cs) [] = false
  ids_grow (c ∷ cs) (d ∷ ds) = not (ltb_int d.id c.id) && ids_grow cs ds

  -- For a segment all of whose chunks are pending, index_check_buffer fails no assert; it changes
  -- identifiers and the mark that denies a rewrite, and no identifier becomes smaller.
  pub index_check_buffer-payload :
      (b : IndexBuffer B.Map) (pending : List Fingerprint) (cs : List Chunk)
      → Buffers B b pending
      → All (λ c. (is_file_mark c || ltb 0 (count c.fp pending)) ≡ true) cs
      → (cs' : List Chunk) × (index_check_buffer B b cs ≡ some cs')
        × (map payload cs' ≡ map payload cs)
        × (ids_grow cs cs' ≡ true)
  unfolding index_check_buffer
  index_check_buffer-payload b pending [] bufs waits = ([], refl, refl, refl)
  index_check_buffer-payload b pending (c ∷ cs) bufs waits =
      let (cs', run, same, grow) = index_check_buffer-payload b pending cs bufs waits.1 in
      elim (Bool-cases (is_file_mark c)) [
        | inl mark ↦ (
          c ∷ cs',
          ground (arith, mark, run),
          ap (◌∷◌ (payload c)) same,
          ground (arith, ltb_int_irrefl c.id, grow),
        )
        | inr normal ↦
            let (c', step, same', grow') =
              check_chunk_lem b pending c bufs (ground (arith, normal, waits.0)) in
            (
              c' ∷ cs',
              ground (arith, normal, step, run),
              ap₂ (◌∷◌) same' same,
              ground (arith, grow, grow'),
            )
      ]

  -- A chunk that was found to be a copy of one without a container yet has TEMPORARY_ID. Once that
  -- one has been updated with its container, index_check_buffer gives the copy the same container.
  pub check_chunk-update_chunk :
      (b : IndexBuffer B.Map) (pending : List Fingerprint) (c d : Chunk)
      → Buffers B b (c.fp ∷ pending)
      → ltb_int temporary_id c.id ≡ true
      → ltb 0 (count c.fp pending) ≡ true
      → d.fp ≡ c.fp
      → d.flag.duplicate ≡ true
      → d.id ≡ temporary_id
      → (b' : IndexBuffer B.Map) × (update_chunk B c b ≡ some b')
        × (check_chunk B b' d ≡ some (record d { id = c.id }))
  unfolding update_chunk check_chunk
  check_chunk-update_chunk b pending c d bufs stored waits same dup temp =
      go (B.lookup c.fp b.buffered_fingerprints) refl (bufs.queues c.fp)
    where
      not_temporary : (x : ℤ) → ltb_int temporary_id x ≡ true → (x ==ℤ temporary_id) ≡ false
      not_temporary (pos n) h = refl
      not_temporary (negsuc n) h = ground arith

      go :
          (o : Option (List IndexElem))
          → B.lookup c.fp b.buffered_fingerprints ≡ o
          → QueueOf o (count c.fp (c.fp ∷ pending))
          → (b' : IndexBuffer B.Map) × (update_chunk B c b ≡ some b')
            × (check_chunk B b' d ≡ some (record d { id = c.id }))
      go none found q = absurd (ground (arith, q))
      go (some []) found q = absurd q
      go (some (e ∷ [])) found q = absurd (ground (arith, q, waits))
      go (some (e ∷ ie ∷ ies)) found q = (
        record {
          buffered_fingerprints =
              B.insert c.fp (map (λ ie. set_id c.id ie) (ie ∷ ies)) b.buffered_fingerprints;
          chunk_num = b.chunk_num - 1;
        },
        rw (update_chunk, not_temporary c.id stored, found) refl,
        ground (
          arith,
          dup,
          temp,
          stored,
          same,
          B.lookup-insert d.fp c.fp (map (λ ie. set_id c.id ie) (ie ∷ ies)) b.buffered_fingerprints,
        ),
      )

-- ===== src/Chunking/File.antt =====
-- chunk_thread: the chunks of each file put together are its data.
use destor.Base.{
  ℕ, zero, suc, ◌+◌, ◌≤◌, ◌<◌, ◌≡◌, refl, sym, ap, ◌∙◌, ltb, true, false, Option, none, some, List,
  [], ◌∷◌, ◌++◌, take, drop, length, arith, Bool-cases, ◌⊎◌, inl, inr, All, append_assoc,
  length-append, length-take, length-drop, take-append-drop, take_of_length-le, le→leb,
  le→ltb_false,
}
use destor.Chunk.{Chunk}
use destor.Chunking.Defs.{
  default_block_size, new_chunk, append_block, fill_buffer, cut_chunk, refill, file_tail,
  chunk_file,
}
use destor.Chunking.Bounds.{IsChunking}

-- The bytes of chunks, in order.
abbrev pub data_of : List Chunk → List ℕ
data_of [] = []
data_of (c ∷ cs) = c.data_bytes ++ data_of cs

-- A block that the read phase sends: no FILE_END, and as many bytes as its size says.
pub record IsBlock (c : Chunk) : Type 0 where
  pub inside : c.flag.file_end ≡ false
  pub sized : c.size ≡ length c.data_bytes
  pub bounded : c.size ≤ default_block_size

-- A chunk of a size that the phases behind can hold.
pub record IsCut (max_size : ℕ) (c : Chunk) : Type 0 where
  pub some_byte : 0 < c.size
  pub sized : c.size ≡ length c.data_bytes
  pub bounded : c.size ≤ max_size

module _ (chunking : List ℕ → ℕ) (max_size : ℕ) where
  pub append_block_lem :
      (left : List ℕ) (c : Chunk)
      → IsBlock c
      → length left ≤ max_size
      → append_block chunking max_size left c ≡ some (left ++ c.data_bytes)
  unfolding append_block
  append_block_lem left c b h =
      rw
        (
          le→leb (length left + c.size) (default_block_size + max_size) (omega (arith, b.bounded)),
          take_of_length-le c.size c.data_bytes (omega (arith, b.sized)),
        )
        refl

  -- Where the loop is in a file whose FILE_END is `e`, with `rest` behind it: the bytes that are
  -- still in the queue are `bs`.
  abbrev pub Pending : Chunk → List Chunk → List Chunk → Option Chunk → List ℕ → Type 0
  Pending e rest queue c bs =
      ((blocks : List Chunk) × (queue ≡ blocks ++ (e ∷ rest))
        × All IsBlock blocks
        × (data_of blocks ≡ bs)
        × (c ≡ none))
      ⊎ ((queue ≡ rest) × (bs ≡ []) × (c ≡ some e))

  -- What is read before a cut: the FILE_END has come or the largest chunk is there.
  abbrev Read :
      Chunk → List Chunk → List ℕ → List ℕ → Option (List Chunk × List ℕ × Option Chunk) → Type 0
  Read e rest left bs result =
      (queue : List Chunk) × (left' : List ℕ) × (c : Option Chunk) × (bs' : List ℕ) × (result
        ≡ some (queue, left', c))
      × Pending e rest queue c bs'
      × (left ++ bs ≡ left' ++ bs')
      × ((c ≡ some e) ⊎ (max_size ≤ length left'))

  module _ (e : Chunk) (rest : List Chunk) (is_end : e.flag.file_end ≡ true) where
    fill_lem :
        (blocks : List Chunk) (left : List ℕ)
        → All IsBlock blocks
        → Read e rest left
            (data_of blocks)
            (fill_buffer chunking max_size (blocks ++ (e ∷ rest)) left)
    unfolding fill_buffer append_block
    fill_lem [] left h = elim (Bool-cases (ltb (length left) max_size)) [
      | inl room ↦
          (rest, left, some e, [], rw (room, is_end) refl, inr (refl, refl, refl), refl, inl refl)
      | inr full ↦ (
        e ∷ rest,
        left,
        none,
        [],
        rw full refl,
        inl ([], refl, tt, refl, refl),
        refl,
        inr (reached full),
      )
    ]
      where
        reached : ltb (length left) max_size ≡ false → max_size ≤ length left
        reached f = ground arith
    fill_lem (b ∷ blocks) left h = elim (Bool-cases (ltb (length left) max_size)) [
      | inl room ↦
          let (queue, left', c, bs', r, p, split, stop) =
            fill_lem blocks (left ++ b.data_bytes) h.1 in
          (
            queue,
            left',
            c,
            bs',
            rw (room, h.0.inside, append_block_lem left b h.0 (below room)) r,
            p,
            sym (append_assoc left b.data_bytes (data_of blocks)) ∙ split,
            stop,
          )
      | inr full ↦ (
        b ∷ (blocks ++ (e ∷ rest)),
        left,
        none,
        data_of (b ∷ blocks),
        rw full refl,
        inl (b ∷ blocks, refl, h, refl, refl),
        refl,
        inr (reached full),
      )
    ]
      where
        reached : ltb (length left) max_size ≡ false → max_size ≤ length left
        reached f = ground arith

        below : ltb (length left) max_size ≡ true → length left ≤ max_size
        below f = ground arith

    refill_lem :
        (queue : List Chunk) (left : List ℕ) (c : Option Chunk) (bs : List ℕ)
        → Pending e rest queue c bs
        → Read e rest left bs (refill chunking max_size queue left c)
    unfolding refill
    refill_lem queue left c bs (inl (blocks, q, h, d, n)) =
        rw (q, n, sym d) (fill_lem blocks left h)
    refill_lem queue left c bs (inr (q, d, n)) =
        (queue, left, c, bs, rw n refl, inr (q, d, n), refl, inl n)

    module _ (cuts : IsChunking chunking max_size) (some_size : 0 < max_size) where
      cut_chunk_lem :
          (left : List ℕ)
          → 0 < length left
          → (nc : Chunk) × (left' : List ℕ) × (cut_chunk chunking max_size left ≡ some (nc, left'))
            × (left ≡ nc.data_bytes ++ left')
            × IsCut max_size nc
            × (length left' < length left)
      unfolding cut_chunk new_chunk
      cut_chunk_lem left some_byte =
          let (pos_n, in_left, in_max) = cuts left some_byte in
          let n = chunking left in
          (
            new_chunk (take n left),
            drop n left,
            rw (le→ltb_false (length left) n in_left, le→ltb_false max_size n in_max) refl,
            sym (take-append-drop n left),
            record {
              some_byte = omega (arith, length-take n left);
              sized = refl;
              bounded = omega (arith, length-take n left);
            },
            omega (arith, length-drop n left),
          )

      -- The rest of a file comes out as chunks that spell it, and then its FILE_END.
      unfoldable pub Cuts : List ℕ → Option (List Chunk × List Chunk) → Type 0
      Cuts bs result =
          (cs : List Chunk) × (result ≡ some (cs ++ (e ∷ []), rest))
          × (data_of cs ≡ bs)
          × All (IsCut max_size) cs

      -- One round, where the rounds behind it are known to work.
      file_round :
          (fuel : ℕ) (queue queue' : List Chunk) (left left' : List ℕ) (c c' : Option Chunk)
          (bs' : List ℕ)
          → refill chunking max_size queue left c ≡ some (queue', left', c')
          → Pending e rest queue' c' bs'
          → (c' ≡ some e) ⊎ (max_size ≤ length left')
          → ((l : List ℕ)
              → length l < length left'
              → Cuts (l ++ bs') (chunk_file chunking max_size fuel queue' l c'))
          → Cuts (left' ++ bs') (chunk_file chunking max_size (suc fuel) queue left c)
      unfolding chunk_file file_tail Cuts
      file_round fuel queue queue' left [] c c' bs' r (inl (blocks, q, h, d, n)) (inl ended) ih =
          absurd (ground (arith, n, ended))
      file_round fuel queue queue' left [] c c' bs' r p (inr full) ih =
          absurd (omega (arith, full, some_size))
      file_round fuel queue queue' left [] c c' bs' r (inr (q, d, n)) (inl ended) ih =
          ([], rw (chunk_file, r, n, q) refl, sym d, tt)
      file_round fuel queue queue' left (b ∷ left') c c' bs' r p stop ih =
          let (nc, l, k, spell, is_cut, less) = cut_chunk_lem (b ∷ left') (omega arith) in
          let (cs, out, d, h) = ih l less in
          (
            nc ∷ cs,
            rw (chunk_file, r, k, out) refl,
            ap (λ t. nc.data_bytes ++ t) d
                ∙ sym (append_assoc nc.data_bytes l bs')
                ∙ ap (λ t. t ++ bs') (sym spell),
            (is_cut, h),
          )

      pub chunk_file_lem :
          (fuel : ℕ) (queue : List Chunk) (left : List ℕ) (c : Option Chunk) (bs : List ℕ)
          → length left + length bs < fuel
          → Pending e rest queue c bs
          → Cuts (left ++ bs) (chunk_file chunking max_size fuel queue left c)
      unfolding Cuts
      chunk_file_lem zero queue left c bs less p = absurd (omega arith)
      chunk_file_lem (suc fuel) queue left c bs less p =
          let (queue', left', c', bs', r, p', split, stop) = refill_lem queue left c bs p in
          let all : length left + length bs ≡ length left' + length bs' =
            sym (length-append left bs) ∙ ap length split ∙ length-append left' bs' in
          let (cs, out, d, h) =
            file_round fuel queue queue' left left' c c' bs' r p' stop (λ l shorter.
              chunk_file_lem fuel queue' l c' bs' (omega (arith, less, all, shorter)) p') in
          (cs, out, d ∙ sym split, h)

-- ===== src/Pool/Apart.antt =====
-- A container written to the pool leaves the others alone.
use destor.Base.{
  ℕ, ◌+◌, ◌-◌, ◌*◌, ◌^◌, ◌≤◌, ◌<◌, ◌≡◌, refl, ap, ◌∙◌, true, false, some, List, length, arith, pos,
  Table, ◌==◌, ==_iff, ne→==_false, ltb, leb, if◌then◌else◌, ◌≢◌, ◌⊎◌, inl, inr, Bool-cases,
  Option-cases, ltb→lt, le→ltb_false, lt→ltb, le→leb, lt→leb_false,
}
use native.Mathlib.Decide.{ℕ_discrete, dec_lt}
use destor.Chunk.{Fingerprint}
use destor.Container.{
  container_size, container_meta_size, simulation_append, MetaEntry, Container, Pool, write_at,
  zeros, container_empty,
}
use destor.Container.Buffer.{length-write_at, length-zeros}
use destor.Container.Add.{IsValid}
use destor.Serial.{Endian}
use destor.Pool.Defs.{
  write_file, read_file, meta_bytes, write_container, meta_offset, retrieve_container_by_id,
  read_container_meta,
}
use destor.Pool.File.{read_file-write_file_apart}
use destor.Pool.RoundTrip.{read_at_lem, image, flush_lem, write_lem, length-image, meta_room}

-- The bytes that one container takes in the file.
abbrev pub stride : ℕ → ℕ
stride level = if ltb level simulation_append then container_size else container_meta_size

-- What a write does to the file: nothing, or new bytes in the container's own place.
abbrev pub Touches : ℕ → ℕ → (ℕ → ℕ) → (ℕ → ℕ) → Type 0
Touches level n f f' =
    (f' ≡ f)
    ⊎ ((bs : List ℕ) × (length bs ≡ stride level) × (f' ≡ write_file f (n * stride level + 8) bs))

module _ (e : Endian) (T : Table Fingerprint MetaEntry ◌==◌) where
  pub write_simulated :
      (level n : ℕ) (c : Container T.Map) (p : Pool)
      → 2 ≤ level
      → IsValid T level c
      → c.meta.id ≡ pos n
      → n < 2 ^ 41
      → c.meta.chunk_num ≢ 0
      → write_container e T level c p
        ≡ some (record p {
          file =
              write_file p.file
                (n * container_meta_size + 8)
                (write_at (zeros container_meta_size) 0 (meta_bytes e T c.meta));
        })
  unfolding write_container container_empty
  write_simulated level n c p high v hid near some_chunk =
      rw
        (
          (==_iff c.meta.chunk_num (T.size c.meta.map)).1 v.counted,
          ne→==_false c.meta.chunk_num 0 some_chunk,
          le→ltb_false level 2 high,
        )
        (flush_lem e T level n container_meta_size c
          (write_at (zeros container_meta_size) 0 (meta_bytes e T c.meta)) p v hid
          (omega (arith, near)))

  write_empty :
      (level : ℕ) (c : Container T.Map) (p : Pool)
      → IsValid T level c
      → c.meta.chunk_num ≡ 0
      → write_container e T level c p ≡ some (record p { container_count = p.container_count - 1 })
  unfolding write_container container_empty
  write_empty level c p v none_there =
      rw ((==_iff c.meta.chunk_num (T.size c.meta.map)).1 v.counted, none_there)

  touches :
      (level n : ℕ) (c : Container T.Map) (p : Pool)
      → IsValid T level c
      → c.meta.id ≡ pos n
      → n < 2 ^ 41
      → (p' : Pool) × (write_container e T level c p ≡ some p') × Touches level n p.file p'.file
  touches level n c p v hid near = elim (ℕ_discrete c.meta.chunk_num 0) [
    | yes empty ↦ (_, write_empty level c p v empty, inl refl)
    | no some_chunk ↦ elim (Bool-cases (ltb level 2)) [
      | inl low ↦ elim (Option-cases c.contents) [
        | inl null ↦ absurd (contradiction low (rw null at v.buffered))
        | inr (d, b) ↦ (
          _,
          write_lem e T level n c d p (ltb→lt level 2 low) v b hid near some_chunk,
          inr (image e T c d, rw low (length-image e T level c d v (rw b at v.buffered)), rw low),
        )
      ]
      | inr high ↦ (
        _,
        write_simulated level n c p (not_below high) v hid near some_chunk,
        inr (
          write_at (zeros container_meta_size) 0 (meta_bytes e T c.meta),
          rw high (
              length-write_at (zeros container_meta_size) (meta_bytes e T c.meta) 0
                (omega (arith, meta_room e T level c v, length-zeros container_meta_size))
              ∙ length-zeros container_meta_size),
          rw high,
        ),
      )
    ]
  ]
    where
      contradiction : ltb level 2 ≡ true → 2 ≤ level → ⊥
      contradiction a b = ground arith

      not_below : ltb level 2 ≡ false → 2 ≤ level
      not_below a = ground arith

-- A read of another container's bytes, or of a part of them, does not see the write.
other_place :
    (level n k o N : ℕ) (f f' : ℕ → ℕ)
    → k ≢ n
    → Touches level n f f'
    → k * stride level + 8 ≤ o
    → o + N ≤ (k + 1) * stride level + 8
    → read_file f' o N ≡ read_file f o N
other_place level n k o N f f' ne (inl same) lo hi = ap (λ g. read_file g o N) same
other_place level n k o N f f' ne (inr (bs, len, written)) lo hi =
    ap (λ g. read_file g o N) written
    ∙ read_file-write_file_apart f (n * stride level + 8) o N bs (apart (dec_lt k n))
  where
    before : k < n → o + N ≤ n * stride level + 8
    before h = grind arith

    after : n < k → n * stride level + 8 + length bs ≤ o
    after h = grind arith

    apart : Dec (k < n) → (o + N ≤ n * stride level + 8) ⊎ (n * stride level + 8 + length bs ≤ o)
    apart (yes h) = inl (before h)
    apart (no h) = inr (after (omega arith))

-- Where the metadata that are read alone lie.
meta_place :
    (level k : ℕ)
    → (k * stride level + 8 ≤ meta_offset level k)
      × (meta_offset level k + container_meta_size ≤ (k + 1) * stride level + 8)
unfolding meta_offset
meta_place level k = elim (Bool-cases (ltb level 2)) [
  | inl low ↦ rw (low, lt→leb_false 2 level (ltb→lt level 2 low)) (omega arith)
  | inr high ↦ rw (high, le→leb 2 level (not_below high)) (omega arith)
]
  where
    not_below : ltb level 2 ≡ false → 2 ≤ level
    not_below a = ground arith

-- The offset does not overflow.
meta_near : (level k : ℕ) → k + 1 < 2 ^ 41 → meta_offset level k < 2 ^ 63
unfolding meta_offset
meta_near level k h = ground (arith, h)

whole_place :
    (level k : ℕ)
    → leb 1 level ≡ false
    → (k * stride level + 8 ≤ k * container_size + 8)
      × (k * container_size + 8 + container_size ≤ (k + 1) * stride level + 8)
whole_place level k h = rw (lt→ltb level 2 low) (omega arith)
  where
    low : level < 2
    low = ground arith

module _ (e : Endian) (T : Table Fingerprint MetaEntry ◌==◌) where
  retrieve_reads :
      (level k : ℕ) (p p' : Pool)
      → k + 1 < 2 ^ 41
      → read_file p'.file (meta_offset level k) container_meta_size
        ≡ read_file p.file (meta_offset level k) container_meta_size
      → (leb 1 level ≡ false
          → read_file p'.file (k * container_size + 8) container_size
            ≡ read_file p.file (k * container_size + 8) container_size)
      → retrieve_container_by_id e T level (pos k) p' ≡ retrieve_container_by_id e T level (pos k) p
  unfolding retrieve_container_by_id
  retrieve_reads level k p p' near meta whole =
      let at = meta_near level k near in
      let far : k * container_size + 8 < 2 ^ 63 = omega (arith, near) in
      elim (Bool-cases (leb 1 level)) [
        | inl t ↦
            rw
              (
                t,
                read_at_lem (meta_offset level k) container_meta_size p' at,
                read_at_lem (meta_offset level k) container_meta_size p at,
                meta,
              )
              refl
        | inr f ↦
            rw
              (
                f,
                read_at_lem (k * container_size + 8) container_size p' far,
                read_at_lem (k * container_size + 8) container_size p far,
                whole f,
              )
              refl
      ]

  meta_reads :
      (level k : ℕ) (p p' : Pool)
      → k + 1 < 2 ^ 41
      → read_file p'.file (meta_offset level k) container_meta_size
        ≡ read_file p.file (meta_offset level k) container_meta_size
      → read_container_meta e T level (pos k) p' ≡ read_container_meta e T level (pos k) p
  unfolding read_container_meta
  meta_reads level k p p' near meta =
      let at = meta_near level k near in
      rw
        (
          read_container_meta,
          read_at_lem (meta_offset level k) container_meta_size p' at,
          read_at_lem (meta_offset level k) container_meta_size p at,
          meta,
        )
        refl

  -- For numbers so far below 2 ^ 41 that no offset overflows: writing a valid container succeeds,
  -- and leaves every other number's container as it was: what is read back, as a container or as its metadata, is what was read before, in either layout.
  pub retrieve-write_container_other :
      (level n k : ℕ) (c : Container T.Map) (p : Pool)
      → IsValid T level c
      → c.meta.id ≡ pos n
      → n < 2 ^ 41
      → k + 1 < 2 ^ 41
      → k ≢ n
      → (p' : Pool) × (write_container e T level c p ≡ some p')
        × (retrieve_container_by_id e T level (pos k) p'
            ≡ retrieve_container_by_id e T level (pos k) p)
        × (read_container_meta e T level (pos k) p' ≡ read_container_meta e T level (pos k) p)
  retrieve-write_container_other level n k c p v hid near_n near_k ne =
      let (p', w, t) = touches e T level n c p v hid near_n in
      let (lo, hi) = meta_place level k in
      let meta =
        other_place level n k (meta_offset level k) container_meta_size p.file p'.file ne t lo hi in
      (
        p',
        w,
        retrieve_reads level k p p' near_k meta (λ f.
            let (lo', hi') = whole_place level k f in
            other_place level n k (k * container_size + 8) container_size p.file p'.file ne t lo'
              hi'),
        meta_reads level k p p' near_k meta,
      )

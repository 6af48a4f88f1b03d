-- ===== src/Container/Add.antt =====
-- The layout of a container, kept by add_chunk_to_container.
use mathlib.Core.Option
use destor.Base.{
  ℕ, ◌+◌, ◌-◌, ◌*◌, ◌≤◌, ◌≡◌, refl, Bool, true, false, Option, none, some, List, length, take,
  arith, ◌==◌, if◌then◌else◌, ltb, Table, Option-cases, Bool-cases, ◌⊎◌, inl, inr, length-take, pos,
  sym, ◌∙◌,
}
use destor.Chunk.{Chunk, Fingerprint}
use destor.Container.Defs.{
  container_size, container_meta_size, simulation_append, MetaEntry, Container, Pool, write_at,
  zeros, create_container, init_container_meta, container_overflow, append_data, append_chunk,
  lookup_fingerprint_in_container, add_chunk_to_container,
}
use destor.Container.Buffer.{length-write_at, length-zeros}

-- The buffer: present, with all of a container's bytes, unless appending is simulated.
abbrev pub Buffered : ℕ → Option (List ℕ) → Type 0
Buffered level none = simulation_append ≤ level
Buffered level (some d) = length d ≡ container_size

module _ (T : Table Fingerprint MetaEntry ◌==◌) (level : ℕ) where
  pub record IsValid (c : Container T.Map) : Type 0 where
    pub counted : c.meta.chunk_num ≡ T.size c.meta.map
    -- The metadata fit in their 32 KB, and the data in the rest.
    pub meta_fits : c.meta.chunk_num * 28 + 16 ≤ container_meta_size
    pub data_fits : c.meta.data_size ≤ container_size - container_meta_size
    -- An entry names its key, and lies within the data written so far.
    pub placed :
        (fp : Fingerprint) (me : MetaEntry)
        → T.lookup fp c.meta.map ≡ some me
        → (me.fp ≡ fp) × (me.off + me.len ≤ c.meta.data_size)
    pub buffered : Buffered level c.contents

  -- A new container is valid, and takes the next number of the pool.
  pub create_container-IsValid :
      (p : Pool)
      → IsValid (create_container T level p).0
        × ((create_container T level p).0.meta.id ≡ pos p.container_count)
        × ((create_container T level p).1.container_count ≡ p.container_count + 1)
  unfolding create_container init_container_meta
  create_container-IsValid p = (
    record {
      counted = sym T.size-empty;
      meta_fits = omega arith;
      data_fits = omega arith;
      placed = λ fp me h. absurd (ground (arith, T.lookup-empty fp));
      buffered = buffer (Bool-cases (ltb level simulation_append));
    },
    refl,
    refl,
  )
    where
      buffer :
          (ltb level simulation_append ≡ true) ⊎ (ltb level simulation_append ≡ false)
          → Buffered level
              (if ltb level simulation_append then some (zeros container_size) else none)
      buffer (inl h) = rw h (length-zeros container_size)
      buffer (inr h) = rw h (ground arith)

  Buffered-append :
      (b : Option (List ℕ)) (off : ℕ) (bs : List ℕ)
      → off + length bs ≤ container_size
      → Buffered level b
      → Buffered level
          (if ltb level simulation_append then Option.map (λ d. write_at d off bs) b else b)
  Buffered-append none off bs h b = rw (← not_below) b
    where
      not_below :
          none
          ≡ (if ltb level simulation_append then Option.map (λ d. write_at d off bs) none else none)
      not_below = ground arith
  Buffered-append (some d) off bs h b = elim (Bool-cases (ltb level simulation_append)) [
    | inl t ↦ rw t (length-write_at d bs off (rw b h) ∙ b)
    | inr f ↦ rw f b
  ]

  length-take_data :
      (ck : Chunk) → length ck.data_bytes ≡ ck.size → length (take ck.size ck.data_bytes) ≡ ck.size
  length-take_data ck e = omega (arith, length-take ck.size ck.data_bytes)

  overflow_bounds :
      (c : Container T.Map) (size : ℕ)
      → container_overflow T c size ≡ false
      → (c.meta.data_size + size ≤ container_size - container_meta_size)
        × ((c.meta.chunk_num + 1) * 28 + 16 ≤ container_meta_size)
  unfolding container_overflow
  overflow_bounds c size h = ground arith

  pub append_chunk-IsValid :
      {c : Container T.Map} (ck : Chunk)
      → IsValid c
      → container_overflow T c ck.size ≡ false
      → T.lookup ck.fp c.meta.map ≡ none
      → length ck.data_bytes ≡ ck.size
      → IsValid (append_chunk T level c ck)
  unfolding append_chunk append_data
  append_chunk-IsValid {c} ck v room new e = record {
    counted = rw (T.size-insert, new) (omega (arith, v.counted));
    meta_fits = omega (arith, overflow_bounds c ck.size room);
    data_fits = omega (arith, overflow_bounds c ck.size room);
    placed = λ fp me h. ground (
      arith,
      T.lookup-insert fp ck.fp (record { off = c.meta.data_size; len = ck.size; fp = ck.fp })
          c.meta.map,
      v.placed fp me,
    );
    buffered =
        Buffered-append c.contents c.meta.data_size (take ck.size ck.data_bytes)
          (omega (arith, length-take_data ck e, overflow_bounds c ck.size room)) v.buffered;
  }

  -- Where container_overflow lets a chunk in, add_chunk_to_container succeeds: the container stays
  -- valid and keeps its number, the chunk gets that number, and the container knows the chunk's
  -- fingerprint, whether it was added now or before.
  pub add_chunk_to_container-IsValid :
      {c : Container T.Map} (ck : Chunk)
      → IsValid c
      → container_overflow T c ck.size ≡ false
      → length ck.data_bytes ≡ ck.size
      → (r : Bool × Container T.Map × Chunk) × (add_chunk_to_container T level c ck ≡ some r)
        × IsValid r.1
        × (r.1.meta.id ≡ c.meta.id)
        × (r.2.id ≡ c.meta.id)
        × (lookup_fingerprint_in_container T r.1 ck.fp ≡ true)
  unfolding add_chunk_to_container lookup_fingerprint_in_container append_chunk
  add_chunk_to_container-IsValid {c} ck v room e = elim (Option-cases (T.lookup ck.fp c.meta.map)) [
    | inl new ↦ (
      (true, append_chunk T level c ck, record ck { id = c.meta.id }),
      ground (arith, room, new),
      append_chunk-IsValid ck v room new e,
      refl,
      refl,
      ground (
        arith,
        T.lookup-insert ck.fp ck.fp (record { off = c.meta.data_size; len = ck.size; fp = ck.fp })
            c.meta.map,
      ),
    )
    | inr (me, old) ↦ (
      (false, c, record ck { id = c.meta.id }),
      ground (arith, room, old),
      v,
      refl,
      refl,
      ground (arith, old),
    )
  ]

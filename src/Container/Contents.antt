-- ===== src/Container/Contents.antt =====
-- A container as a map from fingerprints to bytes: what it gives back for each.
use mathlib.Core.Option
use destor.Base.{
  ℕ, ◌≡◌, refl, Bool, true, false, Option, none, some, List, length, take, arith, ◌==◌,
  if◌then◌else◌, Table, is_some, Option-cases, Bool-cases, inl, inr, take_of_length-le, not, ◌&&◌,
}
use destor.Chunk.{Chunk, Fingerprint, chunk_unique}
use destor.Container.Defs.{
  container_size, MetaEntry, Container, slice, container_overflow, append_data, append_chunk,
  add_chunk_to_container, get_chunk_in_container,
}
use destor.Container.Buffer.{slice-write_at_before, slice-write_at_self}
use destor.Container.Add.{IsValid}

module _ (T : Table Fingerprint MetaEntry ◌==◌) where
  -- The bytes stored under a fingerprint.
  abbrev pub stored : Container T.Map → Fingerprint → Option (List ℕ)
  stored c fp = elim (T.lookup fp c.meta.map) [
    | none ↦ none
    | some me ↦ Option.map (λ d. slice d me.off me.len) c.contents
  ]

  -- Two containers with the same entry for a fingerprint, and the same bytes there.
  pub stored_same :
      (c c' : Container T.Map) (d d' : List ℕ) (fp : Fingerprint)
      → c.contents ≡ some d
      → c'.contents ≡ some d'
      → T.lookup fp c'.meta.map ≡ T.lookup fp c.meta.map
      → ((me : MetaEntry)
          → T.lookup fp c.meta.map ≡ some me
          → slice d' me.off me.len ≡ slice d me.off me.len)
      → stored c' fp ≡ stored c fp
  stored_same c c' d d' fp b b' same bytes = elim (Option-cases (T.lookup fp c.meta.map)) [
    | inl absent ↦ ground arith
    | inr (me, here) ↦ ground (arith, bytes me here)
  ]

  stored_append :
      (c : Container T.Map) (ck : Chunk) (fp : Fingerprint) (d : List ℕ)
      → IsValid T 0 c
      → c.contents ≡ some d
      → container_overflow T c ck.size ≡ false
      → length ck.data_bytes ≡ ck.size
      → stored (append_chunk T 0 c ck) fp
        ≡ (if ck.fp == fp then some ck.data_bytes else stored c fp)
  unfolding append_chunk append_data container_overflow
  stored_append c ck fp d v b room e =
      let me : MetaEntry = record { off = c.meta.data_size; len = ck.size; fp = ck.fp } in
      let whole : length d ≡ container_size = rw b at v.buffered in
      let all : take ck.size ck.data_bytes ≡ ck.data_bytes =
        take_of_length-le ck.size ck.data_bytes (omega arith) in
      let own =
        slice-write_at_self d ck.data_bytes c.meta.data_size (omega (arith, whole, v.data_fits)) in
      elim (Bool-cases (ck.fp == fp)) [
        | inl same ↦ ground (arith, T.lookup-insert fp ck.fp me c.meta.map, all, own)
        | inr other ↦ elim (Option-cases (T.lookup fp c.meta.map)) [
          | inl absent ↦ ground (arith, T.lookup-insert fp ck.fp me c.meta.map)
          | inr (old, here) ↦
              let inside = (v.placed fp old here).1 in
              ground (
                arith,
                T.lookup-insert fp ck.fp me c.meta.map,
                all,
                slice-write_at_before d ck.data_bytes old.off old.len c.meta.data_size inside
                    (omega (arith, whole, v.data_fits)),
              )
        ]
      ]

  -- Without simulation, a chunk that fits is stored under its fingerprint unless that is taken, and
  -- every other fingerprint keeps its bytes: the container is a map that only grows.
  pub stored-add_chunk_to_container :
      (c : Container T.Map) (ck : Chunk) (d : List ℕ) (fp : Fingerprint)
      → IsValid T 0 c
      → c.contents ≡ some d
      → container_overflow T c ck.size ≡ false
      → length ck.data_bytes ≡ ck.size
      → (r : Bool × Container T.Map × Chunk) × (add_chunk_to_container T 0 c ck ≡ some r)
        × (r.0 ≡ not (is_some (T.lookup ck.fp c.meta.map)))
        × (stored r.1 fp ≡ (if r.0 && (ck.fp == fp) then some ck.data_bytes else stored c fp))
  unfolding add_chunk_to_container
  stored-add_chunk_to_container c ck d fp v b room e =
      elim (Option-cases (T.lookup ck.fp c.meta.map)) [
        | inl new ↦ (
          (true, append_chunk T 0 c ck, record ck { id = c.meta.id }),
          ground (arith, room, new),
          rw new,
          ground (arith, stored_append c ck fp d v b room e),
        )
        | inr (me, old) ↦
            ((false, c, record ck { id = c.meta.id }), ground (arith, room, old), rw old, refl)
      ]

  -- Without simulation, a chunk that was just added is read back with its size and its bytes and
  -- the container's number. Its fingerprint is what lay on the stack.
  pub get_chunk-add_chunk :
      (c : Container T.Map) (ck : Chunk) (d : List ℕ) (stack_fp : Fingerprint) (heap : List ℕ)
      → IsValid T 0 c
      → c.contents ≡ some d
      → container_overflow T c ck.size ≡ false
      → length ck.data_bytes ≡ ck.size
      → T.lookup ck.fp c.meta.map ≡ none
      → (r : Bool × Container T.Map × Chunk) × (add_chunk_to_container T 0 c ck ≡ some r)
        × (get_chunk_in_container T 0 stack_fp heap r.1 ck.fp
            ≡ some (record {
              size = ck.size;
              flag = chunk_unique;
              id = c.meta.id;
              fp = stack_fp;
              data_bytes = ck.data_bytes;
            }))
  unfolding add_chunk_to_container append_chunk append_data get_chunk_in_container
  get_chunk-add_chunk c ck d stack_fp heap v b room e new =
      let me : MetaEntry = record { off = c.meta.data_size; len = ck.size; fp = ck.fp } in
      let whole : length d ≡ container_size = rw b at v.buffered in
      let all : take ck.size ck.data_bytes ≡ ck.data_bytes =
        take_of_length-le ck.size ck.data_bytes (omega arith) in
      let own =
        slice-write_at_self d ck.data_bytes c.meta.data_size (omega (arith, whole, v.data_fits)) in
      (
        (true, append_chunk T 0 c ck, record ck { id = c.meta.id }),
        ground (arith, room, new),
        ground (arith, T.lookup-insert ck.fp ck.fp me c.meta.map, all, own, e, b),
      )

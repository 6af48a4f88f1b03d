-- ===== src/Filter/Store.antt =====
-- Where filter_thread of src/filter_phase.c leaves a chunk.
use mathlib.Core.Option.{some_inj}
use destor.Base.{
  if◌then◌else◌, ℕ, ◌-◌, ◌==◌, ◌≡◌, ◌≤◌, refl, sym, ap, ◌∙◌, Bool, true, false, ◌&&◌, Option, none,
  some, List, [], ◌∷◌, ◌++◌, ℤ, ◌==ℤ◌, ==ℤ_iff, Table, All, All-append, length, Bool-cases,
  Option-cases, inl, inr, arith,
}
use destor.Chunk.{Chunk, Fingerprint}
use destor.Container.{
  MetaEntry, Container, Pool, create_container, container_overflow, add_chunk_to_container,
  container_size, container_meta_size, lookup_fingerprint_in_container, init_container_meta,
  append_chunk, container_empty,
}
use destor.Container.Add.{IsValid, create_container-IsValid, add_chunk_to_container-IsValid}
use destor.Segment.{empty_chunk}
use destor.Filter.Watch.{is_stored, Watched}
use destor.Filter.Defs.{
  FilterConfig, State, write_container_async, chunk_of, open_container, switch_container, make_room,
  note_added, write_chunk,
}

module _ {I : Type 0} (T : Table Fingerprint MetaEntry ◌==◌) (R : Table Fingerprint Chunk ◌==◌)
    (o : FilterConfig) (H : Table ℤ ℕ ◌==ℤ◌) (update_index : List Chunk → ℤ → I → I) where
  abbrev pub St : Type 0
  St = State {I = I} T R o H update_index

  abbrev pub Opened : Container T.Map → Type 0
  Opened co = IsValid T o.level co × (is_stored co.meta.id ≡ true)

  abbrev pub OpenedBuffer : Option (Container T.Map) → Type 0
  OpenedBuffer none = Unit {0}
  OpenedBuffer (some co) = Opened co

  -- The containers are valid, and the tables of the segment name containers.
  pub record IsValidState (st : St) : Type 0 where
    pub buffer : OpenedBuffer st.container_buffer
    pub all_written : All Opened st.written
    pub watched : Watched st.monitor.restore_aware
    pub unique_stored :
        (fp : Fingerprint) (ck : Chunk)
        → R.lookup fp st.recently_unique_chunks ≡ some ck
        → is_stored ck.id ≡ true
    pub rewritten_stored :
        (fp : Fingerprint) (ck : Chunk)
        → R.lookup fp st.recently_rewritten_chunks ≡ some ck
        → is_stored ck.id ≡ true

  new_container_lem :
      (p : Pool) (size : ℕ)
      → size ≤ container_size - container_meta_size
      → Opened (create_container T o.level p).0
        × (container_overflow T (create_container T o.level p).0 size ≡ false)
  unfolding container_overflow create_container init_container_meta
  new_container_lem p size fits =
      let (valid, id, count) = create_container-IsValid T o.level p in
      ((valid, ground (arith, id)), ground arith)

  same_pair :
      (p : Container T.Map × St) (co : Container T.Map) (st : St)
      → p ≡ (co, st)
      → Opened co
      → IsValidState st
      → Opened p.0 × IsValidState p.1
  same_pair p co st e opened v = rw e (opened, v)

  open_buffer :
      (st : St) (b : Option (Container T.Map))
      → st.container_buffer ≡ b
      → IsValidState st
      → Opened (open_container T R o H update_index st).0
        × IsValidState (open_container T R o H update_index st).1
  unfolding open_container
  open_buffer st none e v =
      let (opened, room) = new_container_lem st.pool 0 (omega arith) in
      rw e (
        opened,
        record {
          buffer = opened;
          all_written = v.all_written;
          watched = v.watched;
          unique_stored = v.unique_stored;
          rewritten_stored = v.rewritten_stored;
        },
      )
  open_buffer st (some co) e v =
      same_pair (open_container T R o H update_index st) co st (ground (arith, e))
        (rw e at v.buffer) v

  open-monitor : (st : St) → (open_container T R o H update_index st).1.monitor ≡ st.monitor
  unfolding open_container
  open-monitor st = elim (Option-cases st.container_buffer) [
    | inl none_there ↦ ground (arith, none_there)
    | inr (co, there) ↦ ground (arith, there)
  ]

  write_async_lem :
      (co : Container T.Map) (pool : Pool) (written : List (Container T.Map))
      → Opened co
      → All Opened written
      → (r : Pool × List (Container T.Map)) × (write_container_async {I = I} T R o H update_index co
            pool written
          ≡ some r)
        × All Opened r.1
  unfolding write_container_async
  write_async_lem co pool written opened all = elim (Bool-cases (container_empty T co)) [
    | inl empty ↦ (
      (record pool { container_count = pool.container_count - 1 }, written),
      ground (arith, empty, opened.0.counted),
      all,
    )
    | inr full ↦ (
      (pool, written ++ (co ∷ [])),
      ground (arith, full, opened.0.counted),
      All-append Opened written (co ∷ []) all (opened, tt),
    )
  ]

  switch_lem :
      (co : Container T.Map) (st : St) (size : ℕ)
      → size ≤ container_size - container_meta_size
      → Opened co
      → IsValidState st
      → (co' : Container T.Map) × (st' : St) × (switch_container T R o H update_index co st
          ≡ some (co', st'))
        × Opened co'
        × (container_overflow T co' size ≡ false)
        × IsValidState st'
        × (st'.monitor ≡ st.monitor)
  unfolding switch_container
  switch_lem co st size fits opened v =
      let (r, run, all) = write_async_lem co st.pool st.written opened v.all_written in
      let (new, room) = new_container_lem r.0 size fits in
      let made = create_container T o.level r.0 in
      let st' : St = record st {
        index =
            if o.physical_locality then update_index st.chunks co.meta.id st.index else st.index;
        chunks = if o.physical_locality then [] else st.chunks;
        written = r.1;
        pool = made.1;
        container_buffer = some made.0;
      } in
      (
        made.0,
        st',
        rw (switch_container, run) refl,
        new,
        room,
        record {
          buffer = new;
          all_written = all;
          watched = v.watched;
          unique_stored = v.unique_stored;
          rewritten_stored = v.rewritten_stored;
        },
        refl,
      )

  -- A container with room for the chunk, in a state that is as valid as it was.
  make_room_lem :
      (c : Chunk) (st : St)
      → c.size ≤ container_size - container_meta_size
      → IsValidState st
      → (co : Container T.Map) × (st1 : St) × (make_room T R o H update_index c st ≡ some (co, st1))
        × Opened co
        × (container_overflow T co c.size ≡ false)
        × IsValidState st1
        × (st1.monitor ≡ st.monitor)
  unfolding make_room
  make_room_lem c st fits v =
      let (opened, v1) = open_buffer st st.container_buffer refl v in
      let co = (open_container T R o H update_index st).0 in
      let st1 = (open_container T R o H update_index st).1 in
      let kept = open-monitor st in
      elim (Bool-cases (container_overflow T co c.size)) [
        | inr room ↦ (co, st1, ground (arith, room), opened, room, v1, kept)
        | inl full ↦
            let (co', st', run, new, room, v2, same) = switch_lem co st1 c.size fits opened v1 in
            (co', st', ground (arith, full, run), new, room, v2, same ∙ kept)
      ]

  add_chunk_same :
      (co : Container T.Map) (c : Chunk) (r : Bool × Container T.Map × Chunk)
      → add_chunk_to_container T o.level co c ≡ some r
      → r.2 ≡ record c { id = co.meta.id }
  unfolding add_chunk_to_container
  add_chunk_same co c r run = elim (Bool-cases (container_overflow T co c.size)) [
    | inl full ↦ absurd (ground (arith, full, run))
    | inr room ↦ elim (Option-cases (T.lookup c.fp co.meta.map)) [
      | inl new ↦ sym (ap (λ q. q.2) (some_inj.0 (added_new room new ∙ run)))
      | inr (me, old) ↦ sym (ap (λ q. q.2) (some_inj.0 (added_old me room old ∙ run)))
    ]
  ]
    where
      added_new :
          container_overflow T co c.size ≡ false
          → T.lookup c.fp co.meta.map ≡ none
          → some (true, append_chunk T o.level co c, record c { id = co.meta.id })
            ≡ add_chunk_to_container T o.level co c
      added_new room new = ground (arith, room, new)

      added_old :
          (me : MetaEntry)
          → container_overflow T co c.size ≡ false
          → T.lookup c.fp co.meta.map ≡ some me
          → some (false, co, record c { id = co.meta.id }) ≡ add_chunk_to_container T o.level co c
      added_old me room old = ground (arith, room, old)

  -- The chunk has the number of the container in the buffer, which knows its fingerprint.
  abbrev pub in_buffer : Option (Container T.Map) → Chunk → Bool
  in_buffer none c = false
  in_buffer (some co) c = (co.meta.id ==ℤ c.id) && lookup_fingerprint_in_container T co c.fp

  note_added-IsValid :
      (c : Chunk) (st : St)
      → is_stored c.id ≡ true
      → IsValidState st
      → IsValidState (note_added T R o H update_index c st)
        × ((note_added T R o H update_index c st).container_buffer ≡ st.container_buffer)
        × ((note_added T R o H update_index c st).monitor ≡ st.monitor)
  unfolding note_added empty_chunk
  note_added-IsValid c st stored v = elim (Bool-cases c.flag.duplicate) [
    | inl dup ↦ rw dup (
      record {
        buffer = v.buffer;
        all_written = v.all_written;
        watched = v.watched;
        unique_stored = v.unique_stored;
        rewritten_stored = λ fp ck here. ground (
          arith,
          R.lookup-insert fp c.fp (chunk_of c.fp c.id) st.recently_rewritten_chunks,
          v.rewritten_stored fp ck,
          stored,
          here,
        );
      },
      refl,
      refl,
    )
    | inr new ↦ rw new (
      record {
        buffer = v.buffer;
        all_written = v.all_written;
        watched = v.watched;
        unique_stored = λ fp ck here. ground (
          arith,
          R.lookup-insert fp c.fp (chunk_of c.fp c.id) st.recently_unique_chunks,
          v.unique_stored fp ck,
          stored,
          here,
        );
        rewritten_stored = v.rewritten_stored;
      },
      refl,
      refl,
    )
  ]

  ==ℤ_self : (a : ℤ) → (a ==ℤ a) ≡ true
  ==ℤ_self a = (==ℤ_iff a a).1 refl

  pub write_chunk_lem :
      (c : Chunk) (st : St)
      → c.size ≤ container_size - container_meta_size
      → length c.data_bytes ≡ c.size
      → (o.exact && o.rewrite_no) ≡ false
      → IsValidState st
      → (c' : Chunk) × (st' : St) × (write_chunk T R o H update_index c st ≡ some (c', st'))
        × (c' ≡ record c { id = c'.id })
        × (is_stored c'.id ≡ true)
        × (in_buffer st'.container_buffer c' ≡ true)
        × IsValidState st'
        × (st'.monitor ≡ st.monitor)
  unfolding write_chunk
  write_chunk_lem c st fits bytes lax v =
      let (co, st1, run, opened, room, v1, unseen) = make_room_lem c st fits v in
      let (r, add, valid, id_co, id_c, known) =
        add_chunk_to_container-IsValid T o.level {c = co} c opened.0 room bytes in
      let same = add_chunk_same co c r add in
      let stored : is_stored r.2.id ≡ true = ground (arith, id_c, opened.1) in
      let here : in_buffer (some r.1) r.2 ≡ true =
        ground (arith, id_co, id_c, ==ℤ_self co.meta.id, known, ap (λ d. d.fp) same) in
      let st2 : St = record st1 { container_buffer = some r.1 } in
      let v2 : IsValidState st2 = record {
        buffer = (valid, ground (arith, id_co, opened.1));
        all_written = v1.all_written;
        watched = v1.watched;
        unique_stored = v1.unique_stored;
        rewritten_stored = v1.rewritten_stored;
      } in
      let (v3, kept, watched) = note_added-IsValid r.2 st2 stored v2 in
      let shape : r.2 ≡ record c { id = r.2.id } =
        same ∙ ap (λ i. record c { id = i }) (sym id_c) in
      elim (Bool-cases r.0) [
        | inl added ↦ (
          r.2,
          note_added T R o H update_index r.2 st2,
          ground (arith, run, add, added),
          shape,
          stored,
          ap (λ b. in_buffer b r.2) kept ∙ here,
          v3,
          watched ∙ unseen,
        )
        | inr there ↦
            (r.2, st2, ground (arith, run, add, there, lax), shape, stored, here, v2, unseen)
      ]

-- ===== src/Filter/Outcome.antt =====
-- What filter_thread of src/filter_phase.c makes of a chunk, from the decision to the container.
use destor.Base.{
  ℕ, ◌+◌, ◌<◌, ◌^◌, ◌-◌, ◌==◌, ◌≡◌, ◌≤◌, refl, sym, ap, ◌∙◌, Bool, true, false, not, ◌&&◌, ◌||◌,
  some, List, if◌then◌else◌, ℤ, ◌==ℤ◌, ==ℤ_iff, Table, is_some, length, Bool-cases, Option-cases,
  inl, inr, arith,
}
use destor.Chunk.{Chunk, Fingerprint, temporary_id}
use destor.Container.{MetaEntry, container_size, container_meta_size}
use destor.Rewrite.{restore_aware_contains}
use destor.Rewrite.Har.Sparse.{size_of, har_monitor_update_lem}
use destor.Filter.Defs.{
  FilterConfig, Monitors, State, must_write, mark_cached, resolve_unique, resolve_rewritten,
  write_chunk, observe, filter_chunk, cfl_switch, monitor_update,
}
use destor.Filter.Watch.{
  is_stored, Watched, never_temporary, not_temporary, restore_aware_update-Watched,
}
use destor.Filter.Store.{IsValidState, in_buffer, write_chunk_lem}

-- A chunk without its identifier and the marks that filter_thread sets.
abbrev pub base : Chunk → Chunk
base c = record c {
  id = temporary_id;
  flag = record (c.flag) { in_cache = false; rewrite_denied = false };
}

module _ {I : Type 0} (T : Table Fingerprint MetaEntry ◌==◌) (R : Table Fingerprint Chunk ◌==◌)
    (o : FilterConfig) (H : Table ℤ ℕ ◌==ℤ◌) (update_index : List Chunk → ℤ → I → I) where
  abbrev pub St : Type 0
  St = State {I = I} T R o H update_index

  mark_cached_lem :
      (c : Chunk) (st : St)
      → Watched st.monitor.restore_aware
      → (c1 : Chunk) × (mark_cached T R o H update_index c st ≡ some c1)
        × (base c1 ≡ base c)
        × (c1.id ≡ c.id)
  unfolding mark_cached
  mark_cached_lem c st works =
      elim (Bool-cases
        (o.rewrite_enable_cache_aware && restore_aware_contains c.id st.monitor.restore_aware)) [
          | inr plain ↦ (c, ground (arith, plain), refl, refl)
          | inl cached ↦ elim (Bool-cases (c.id ==ℤ temporary_id)) [
            | inl temp ↦ absurd (
                ground (
                  arith,
                  cached,
                  never_temporary st.monitor.restore_aware works,
                  ap (λ i. restore_aware_contains i st.monitor.restore_aware)
                      ((==ℤ_iff c.id temporary_id).0 temp),
                ))
            | inr there ↦ (
              record c { flag = record (c.flag) { in_cache = true } },
              ground (arith, cached, there),
              refl,
              refl,
            )
          ]
        ]

  resolve_unique_lem :
      (c : Chunk) (st : St)
      → IsValidState T R o H update_index st
      → (is_stored c.id || (c.id ==ℤ temporary_id)) ≡ true
      → (not (c.flag.duplicate && (c.id ==ℤ temporary_id))
          || is_some (R.lookup c.fp st.recently_unique_chunks))
        ≡ true
      → (c2 : Chunk) × (resolve_unique T R o H update_index c st ≡ some c2)
        × (base c2 ≡ base c)
        × ((not c2.flag.duplicate || is_stored c2.id) ≡ true)
  unfolding resolve_unique
  resolve_unique_lem c st v ids known =
      elim (Bool-cases (c.flag.duplicate && (c.id ==ℤ temporary_id))) [
        | inr plain ↦ (c, ground (arith, plain), refl, ground (arith, plain, ids))
        | inl copy ↦ elim (Option-cases (R.lookup c.fp st.recently_unique_chunks)) [
          | inl gone ↦ absurd (ground (arith, copy, gone, known))
          | inr (ruc, there) ↦ (
            record c { id = ruc.id },
            ground (arith, copy, there),
            refl,
            ground (arith, v.unique_stored c.fp ruc there),
          )
        ]
      ]

  resolve_rewritten_lem :
      (c : Chunk) (st : St)
      → IsValidState T R o H update_index st
      → (not c.flag.duplicate || is_stored c.id) ≡ true
      → (base (resolve_rewritten T R o H update_index c st) ≡ base c)
        × ((not (resolve_rewritten T R o H update_index c st).flag.duplicate
              || is_stored (resolve_rewritten T R o H update_index c st).id)
            ≡ true)
  unfolding resolve_rewritten
  resolve_rewritten_lem c st v stored =
      elim (Option-cases (R.lookup c.fp st.recently_rewritten_chunks)) [
        | inl new ↦ (ground (arith, new), ground (arith, new, stored))
        | inr (rwc, there) ↦
            (ground (arith, there), ground (arith, there, v.rewritten_stored c.fp rwc there))
      ]

  observe_lem :
      (c : Chunk) (st : St)
      → Watched st.monitor.restore_aware
      → size_of H c.id st.monitor.har + c.size < 2 ^ 31
      → is_stored c.id ≡ true
      → (mo : Monitors H.Map) × (observe T R o H update_index c st
          ≡ some (c, record st { monitor = mo }))
        × Watched mo.restore_aware
  unfolding observe monitor_update
  observe_lem c st watched near stored =
      let (m, run, watched') =
        restore_aware_update-Watched c.id c.size st.monitor.restore_aware stored watched in
      let (har, known, _) = har_monitor_update_lem H c.id c.size st.monitor.har near in
      (
        record { restore_aware = m; har = har },
        ground (arith, run, known, not_temporary c.id stored),
        watched',
      )

  still_near :
      (id : ℤ) (n n' : ℕ) (mo mo' : Monitors H.Map)
      → mo' ≡ mo
      → n' ≡ n
      → size_of H id mo.har + n < 2 ^ 31
      → size_of H id mo'.har + n' < 2 ^ 31
  still_near id n n' mo mo' same same_size near = rw (same, same_size) near

  decide_lem :
      (c : Chunk) (st : St) (enable : Bool)
      → c.size ≤ container_size - container_meta_size
      → length c.data_bytes ≡ c.size
      → (o.exact && o.rewrite_no) ≡ false
      → IsValidState T R o H update_index st
      → (not c.flag.duplicate || is_stored c.id) ≡ true
      → (c' : Chunk) × (st' : St) × ((if must_write enable c
            then write_chunk T R o H update_index c st
            else some (c, st))
          ≡ some (c', st'))
        × (base c' ≡ base c)
        × (is_stored c'.id ≡ true)
        × ((c.flag.duplicate || in_buffer T R o H update_index st'.container_buffer c') ≡ true)
        × IsValidState T R o H update_index st'
        × (st'.monitor ≡ st.monitor)
  unfolding must_write
  decide_lem c st enable fits bytes lax v stored = elim (Bool-cases (must_write enable c)) [
    | inl write ↦
        let (c', st', run, shape, id, here, v', unseen) =
          write_chunk_lem T R o H update_index c st fits bytes lax v in
        (c', st', ground (arith, write, run), ap base shape, id, ground (arith, here), v', unseen)
    | inr keep ↦ (
      c,
      st,
      ground (arith, keep),
      refl,
      ground (arith, keep, stored),
      ground (arith, keep),
      v,
      refl,
    )
  ]

  -- For a chunk that fits into an empty container and has all of its bytes, where a duplicate has
  -- a container or is a copy of a chunk of this segment that was unique, and unless deduplication
  -- is exact without rewriting, and no container's share in this job comes to 2 ^ 31 bytes: no assert fails and no table lacks an entry, in particular the
  -- container has room. The chunk keeps its fingerprint, size, bytes and its mark as a duplicate,
  -- its identifier is that of a container, and a unique chunk is in the container in the buffer,
  -- under that identifier.
  pub filter_chunk-stored :
      (c : Chunk) (st : St)
      → c.size ≤ container_size - container_meta_size
      → length c.data_bytes ≡ c.size
      → (o.exact && o.rewrite_no) ≡ false
      → ((id : ℤ) → size_of H id st.monitor.har + c.size < 2 ^ 31)
      → IsValidState T R o H update_index st
      → (is_stored c.id || (c.id ==ℤ temporary_id)) ≡ true
      → (not (c.flag.duplicate && (c.id ==ℤ temporary_id))
          || is_some (R.lookup c.fp st.recently_unique_chunks))
        ≡ true
      → (c' : Chunk) × (st' : St) × (filter_chunk T R o H update_index c st ≡ some (c', st'))
        × (base c' ≡ base c)
        × (is_stored c'.id ≡ true)
        × ((c.flag.duplicate || in_buffer T R o H update_index st'.container_buffer c') ≡ true)
        × IsValidState T R o H update_index st'
  unfolding filter_chunk
  filter_chunk-stored c st fits bytes lax near v ids known =
      let (c1, run1, base1, id1) = mark_cached_lem c st v.watched in
      let st1 : St = record st {
        enable_rewrite =
            cfl_switch {I = I} T R o H update_index st.monitor.restore_aware st.enable_rewrite;
      } in
      let v1 : IsValidState T R o H update_index st1 = record {
        buffer = v.buffer;
        all_written = v.all_written;
        watched = v.watched;
        unique_stored = v.unique_stored;
        rewritten_stored = v.rewritten_stored;
      } in
      let dup1 = ap (λ d. d.flag.duplicate) base1 in
      let fp1 = ap (λ d. d.fp) base1 in
      let (c2, run2, base2, stored2) =
        resolve_unique_lem c1 st1 v1 (ground (arith, ids, id1))
          (ground (arith, known, id1, dup1, fp1)) in
      let (base3, stored3) = resolve_rewritten_lem c2 st1 v1 stored2 in
      let c3 = resolve_rewritten T R o H update_index c2 st1 in
      let same3 : base c3 ≡ base c = base3 ∙ (base2 ∙ base1) in
      let (c4, st4, run4, base4, id4, here, v4, unseen) =
        decide_lem c3 st1 st1.enable_rewrite (ground (arith, fits, ap (λ d. d.size) same3))
          (ap (λ d. length d.data_bytes) same3 ∙ (bytes ∙ sym (ap (λ d. d.size) same3))) lax v1
          stored3 in
      let size4 : c4.size ≡ c.size = ap (λ d. d.size) (base4 ∙ same3) in
      let (mo, run5, watched) =
        observe_lem c4 st4 v4.watched
          (still_near c4.id c.size c4.size st.monitor st4.monitor unseen size4 (near c4.id)) id4 in
      (
        c4,
        record st4 { monitor = mo },
        ground (arith, run1, run2, run4, run5),
        base4 ∙ same3,
        id4,
        ground (arith, here, ap (λ d. d.flag.duplicate) same3),
        record {
          buffer = v4.buffer;
          all_written = v4.all_written;
          watched = watched;
          unique_stored = v4.unique_stored;
          rewritten_stored = v4.rewritten_stored;
        },
      )

-- ===== src/Index/Marks.antt =====
-- index_lookup of src/index/index.c: it fails nowhere, marks chunks and changes nothing else.
use destor.Base.{
  ℕ, ◌==◌, ◌≡◌, refl, sym, ap, ap₂, ◌∙◌, Bool, true, false, not, ◌&&◌, ◌||◌, Option, none, some,
  List, [], ◌∷◌, ◌++◌, map, if◌then◌else◌, ℤ, ◌==ℤ◌, Table, Bool-cases, Option-cases, inl, inr,
  arith, append_assoc, append-nil,
}
use destor.Chunk.{Chunk, Fingerprint, temporary_id, is_file_mark}
use destor.Container.{MetaEntry, Container, lookup_fingerprint_in_container}
use destor.KvStore.{kvstore_htable_lookup}
use destor.Segment.Dedup.{payload}
use destor.Index.Cache.{ChunkPointer, Prefetch, Locality}
use destor.Index.Defs.{IndexElem, IndexBuffer, set_duplicate, buffer_chunk, check_buffered}
use destor.Index.Lookup.{
  State, check_storage, mark_found, check_cache, bump, fetch_unit, check_store, search_chunk,
  lookup_chunk, lookup_chunks,
}
use destor.Index.Buffer.{count, fingerprints, Buffers, QueueOf, buffer_chunk-Buffers}
use destor.Index.Valid.{
  IsValidCache, Answers, fingerprint_cache_lookup-IsValid, fingerprint_cache_prefetch-IsValid,
}

-- Every chunk that is not marked as a duplicate is the first of its fingerprint, among those
-- pending and those before it.
abbrev pub only_first : List Fingerprint → List Chunk → Bool
only_first pending [] = true
only_first pending (c ∷ cs) =
    if is_file_mark c
    then only_first pending cs
    else (c.flag.duplicate || (count c.fp pending == 0)) && only_first (pending ++ (c.fp ∷ [])) cs

payload-set_duplicate : (id : ℤ) (c : Chunk) → payload (set_duplicate id c) ≡ payload c
unfolding set_duplicate
payload-set_duplicate id c = refl

module _ (B : Table Fingerprint (List IndexElem) ◌==◌) where
  Buffers-pending :
      (b : IndexBuffer B.Map) {p q : List Fingerprint} → p ≡ q → Buffers B b p → Buffers B b q
  Buffers-pending b e h = rw (sym e) h

  check_buffered_lem :
      (b : IndexBuffer B.Map) (pending : List Fingerprint) (c : Chunk)
      → Buffers B b pending
      → (c' : Chunk) × (check_buffered B b c ≡ some c')
        × (payload c' ≡ payload c)
        × ((c'.flag.duplicate || (count c.fp pending == 0)) ≡ true)
  unfolding check_buffered set_duplicate
  check_buffered_lem b pending c bufs =
      go (B.lookup c.fp b.buffered_fingerprints) refl (bufs.queues c.fp)
    where
      go :
          (o : Option (List IndexElem))
          → B.lookup c.fp b.buffered_fingerprints ≡ o
          → QueueOf o (count c.fp pending)
          → (c' : Chunk) × (check_buffered B b c ≡ some c')
            × (payload c' ≡ payload c)
            × ((c'.flag.duplicate || (count c.fp pending == 0)) ≡ true)
      go none found q = (c, ground (arith, found), refl, ground (arith, q))
      go (some []) found q = absurd q
      go (some (be ∷ tq)) found q = elim (Bool-cases c.flag.duplicate) [
        | inl dup ↦ (c, ground (arith, found, dup), refl, ground (arith, dup))
        | inr new ↦ (set_duplicate be.id c, ground (arith, found, new), refl, refl)
      ]

module _ {K : Type 0} {eq : K → K → Bool} (B : Table Fingerprint (List IndexElem) ◌==◌)
    (V : Table K (List ℤ) eq) (M : Table Fingerprint MetaEntry ◌==◌)
    (S : Table Fingerprint ChunkPointer ◌==◌) (P : Prefetch M.Map S.Map) (key_of : Fingerprint → K)
    (len : ℕ) (l : Locality) where
  abbrev pub Ix : Type 0
  Ix = State B V M S P key_of len

  -- What the store has for a key: an identifier first, and its unit can be fetched.
  abbrev pub Fetchable : List ℤ → Type 0
  Fetchable [] = ⊥
  Fetchable (id ∷ ids) = Answers M S P l id

  -- The index between two calls, with what is pending in its buffer.
  pub record IsValidIndex (ix : Ix) (pending : List Fingerprint) : Type 0 where
    pub buffers : Buffers B ix.index_buffer pending
    pub cache_valid : IsValidCache M S l ix.cache
    pub pairs : (k : K) (ids : List ℤ) → V.lookup k ix.htable ≡ some ids → Fetchable ids

  -- What a search does to a chunk and to the index.
  record Found (c : Chunk) (ix : Ix) (c' : Chunk) (ix' : Ix) : Type 0 where
    same_payload : payload c' ≡ payload c
    kept_duplicate : (not c.flag.duplicate || c'.flag.duplicate) ≡ true
    same_buffer : ix'.index_buffer ≡ ix.index_buffer
    same_htable : ix'.htable ≡ ix.htable
    valid : IsValidCache M S l ix'.cache

  mark_found-Found :
      (id : ℤ) (c : Chunk)
      → (payload (mark_found id c) ≡ payload c)
        × ((not c.flag.duplicate || (mark_found id c).flag.duplicate) ≡ true)
  unfolding mark_found set_duplicate
  mark_found-Found id c = elim (Bool-cases (id ==ℤ temporary_id)) [
    | inl none_found ↦ rw none_found (refl, ground arith)
    | inr here ↦ rw here (refl, ground arith)
  ]

  check_cache-Found :
      (c : Chunk) (ix : Ix)
      → IsValidCache M S l ix.cache
      → (c' : Chunk) × (ix' : Ix) × (check_cache B V M S P key_of len c ix ≡ some (c', ix'))
        × Found c ix c' ix'
  unfolding check_cache
  check_cache-Found c ix v = elim (Bool-cases c.flag.duplicate) [
    | inl dup ↦ (
      c,
      ix,
      ground (arith, dup),
      record {
        same_payload = refl;
        kept_duplicate = ground (arith, dup);
        same_buffer = refl;
        same_htable = refl;
        valid = v;
      },
    )
    | inr new ↦
        let (id, q, run, v') = fingerprint_cache_lookup-IsValid M S l c.fp ix.cache v in
        let (same, kept) = mark_found-Found id c in
        (
          mark_found id c,
          record ix { cache = q },
          ground (arith, new, run),
          record {
            same_payload = same;
            kept_duplicate = kept;
            same_buffer = refl;
            same_htable = refl;
            valid = v';
          },
        )
  ]

  fetch_unit-Found :
      (c : Chunk) (ids : List ℤ) (ix : Ix)
      → IsValidCache M S l ix.cache
      → Fetchable ids
      → (c' : Chunk) × (ix' : Ix) × (fetch_unit B V M S P key_of len c ids ix ≡ some (c', ix'))
        × Found c ix c' ix'
  unfolding fetch_unit
  fetch_unit-Found c [] ix v fetched = absurd fetched
  fetch_unit-Found c (id ∷ ids) ix v fetched =
      let (q, units, run, v1) = fingerprint_cache_prefetch-IsValid M S P l id ix.cache fetched v in
      let ix1 : Ix = bump B V M S P key_of len (record ix { cache = q }) 1 0 0 units in
      let (c', ix', found, f) = check_cache-Found c ix1 v1 in
      (
        c',
        ix',
        ground (arith, run, found),
        record {
          same_payload = f.same_payload;
          kept_duplicate = f.kept_duplicate;
          same_buffer = f.same_buffer;
          same_htable = f.same_htable;
          valid = f.valid;
        },
      )

  check_store-Found :
      (c : Chunk) (ix : Ix)
      → IsValidCache M S l ix.cache
      → ((k : K) (ids : List ℤ) → V.lookup k ix.htable ≡ some ids → Fetchable ids)
      → (c' : Chunk) × (ix' : Ix) × (check_store B V M S P key_of len c ix ≡ some (c', ix'))
        × Found c ix c' ix'
  unfolding check_store kvstore_htable_lookup
  check_store-Found c ix v pairs = elim (Bool-cases c.flag.duplicate) [
    | inl dup ↦ (
      c,
      ix,
      ground (arith, dup),
      record {
        same_payload = refl;
        kept_duplicate = ground (arith, dup);
        same_buffer = refl;
        same_htable = refl;
        valid = v;
      },
    )
    | inr new ↦ elim (Option-cases (V.lookup (key_of c.fp) ix.htable)) [
      | inl unique ↦ (
        c,
        bump B V M S P key_of len ix 0 0 1 0,
        ground (arith, new, unique),
        record {
          same_payload = refl;
          kept_duplicate = ground (arith, new);
          same_buffer = refl;
          same_htable = refl;
          valid = v;
        },
      )
      | inr (ids, there) ↦
          let (c', ix', found, f) = fetch_unit-Found c ids ix v (pairs (key_of c.fp) ids there) in
          (c', ix', ground (arith, new, there, found), f)
    ]
  ]

  search_chunk-Found :
      (searched : Bool) (c : Chunk) (ix : Ix)
      → IsValidCache M S l ix.cache
      → ((k : K) (ids : List ℤ) → V.lookup k ix.htable ≡ some ids → Fetchable ids)
      → (c' : Chunk) × (ix' : Ix) × (search_chunk B V M S P key_of len searched c ix
          ≡ some (c', ix'))
        × Found c ix c' ix'
  unfolding search_chunk
  search_chunk-Found false c ix v pairs =
      let (c1, ix1, run1, f1) = check_cache-Found c ix v in (c1, ix1, ground (arith, run1), f1)
  search_chunk-Found true c ix v pairs =
      let (c1, ix1, run1, f1) = check_cache-Found c ix v in
      let (c2, ix2, run2, f2) =
        check_store-Found c1 ix1 f1.valid
          (λ k ids there. pairs k ids (ap (V.lookup k) (sym f1.same_htable) ∙ there)) in
      (
        c2,
        ix2,
        ground (arith, run1, run2),
        record {
          same_payload = f2.same_payload ∙ f1.same_payload;
          kept_duplicate = ground (arith, f1.kept_duplicate, f2.kept_duplicate);
          same_buffer = f2.same_buffer ∙ f1.same_buffer;
          same_htable = f2.same_htable ∙ f1.same_htable;
          valid = f2.valid;
        },
      )

  check_storage_lem :
      (buffer : Option (Container M.Map)) (c : Chunk)
      → payload (check_storage B V M S P key_of len buffer c) ≡ payload c
  unfolding check_storage set_duplicate
  check_storage_lem none c = refl
  check_storage_lem (some co) c = elim (Bool-cases (lookup_fingerprint_in_container M co c.fp)) [
    | inl here ↦ rw here refl
    | inr gone ↦ rw gone refl
  ]

  lookup_chunk_lem :
      (searched : Bool) (buffer : Option (Container M.Map)) (c : Chunk) (ix : Ix)
      (pending : List Fingerprint)
      → IsValidIndex ix pending
      → (c' : Chunk) × (ix' : Ix) × (lookup_chunk B V M S P key_of len searched buffer c ix
          ≡ some (c', ix'))
        × (payload c' ≡ payload c)
        × ((c'.flag.duplicate || (count c.fp pending == 0)) ≡ true)
        × IsValidIndex ix' (pending ++ (c.fp ∷ []))
  unfolding lookup_chunk
  lookup_chunk_lem searched buffer c ix pending v =
      let c0 = check_storage B V M S P key_of len buffer c in
      let same0 = check_storage_lem buffer c in
      let (c1, run1, same1, dup1) = check_buffered_lem B ix.index_buffer pending c0 v.buffers in
      let (c2, ix2, run2, f) = search_chunk-Found searched c1 ix v.cache_valid v.pairs in
      let same = f.same_payload ∙ same1 ∙ same0 in
      let fp_eq : c2.fp ≡ c.fp = ap (λ d. d.fp) same in
      (
        c2,
        record ix2 { index_buffer = buffer_chunk B c2 ix2.index_buffer },
        ground (arith, run1, run2),
        same,
        ground (arith, dup1, f.kept_duplicate, ap (λ d. d.fp) same0),
        record {
          buffers =
              Buffers-pending B _ (ap (λ g. pending ++ (g ∷ [])) fp_eq)
                (buffer_chunk-Buffers B ix2.index_buffer pending c2 (rw f.same_buffer v.buffers));
          cache_valid = f.valid;
          pairs = λ k ids there. v.pairs k ids (ap (V.lookup k) (sym f.same_htable) ∙ there);
        },
      )

  file_mark_eq : (c c' : Chunk) → payload c' ≡ payload c → is_file_mark c' ≡ is_file_mark c
  file_mark_eq c c' same = ap is_file_mark same

  -- From a valid index, whose store names for each of its keys a unit that can be fetched, the loop
  -- over a segment fails no assert and reads through no null pointer. It changes the marks and identifiers of
  -- chunks and nothing else, the chunks become pending in the index buffer, the index stays valid,
  -- and every chunk that is not marked as a duplicate is the first of its fingerprint, among those
  -- of the segment and those that were pending.
  pub lookup_chunks-IsValid :
      (searched : Bool) (buffer : Option (Container M.Map)) (cs : List Chunk) (ix : Ix)
      (pending : List Fingerprint)
      → IsValidIndex ix pending
      → (cs' : List Chunk) × (ix' : Ix) × (lookup_chunks B V M S P key_of len searched buffer cs ix
          ≡ some (cs', ix'))
        × (map payload cs' ≡ map payload cs)
        × (only_first pending cs' ≡ true)
        × IsValidIndex ix' (pending ++ fingerprints cs)
  unfolding lookup_chunks
  lookup_chunks-IsValid searched buffer [] ix pending v =
      ([], ix, refl, refl, refl, rw (append-nil pending) v)
  lookup_chunks-IsValid searched buffer (c ∷ cs) ix pending v = elim (Bool-cases (is_file_mark c)) [
    | inl mark ↦
        let (cs', ix', run, same, first, v') =
          lookup_chunks-IsValid searched buffer cs ix pending v in
        (
          c ∷ cs',
          ix',
          ground (arith, mark, run),
          ap (◌∷◌ (payload c)) same,
          rw mark first,
          rw mark v',
        )
    | inr normal ↦
        let (c1, ix1, run1, same1, first1, v1) = lookup_chunk_lem searched buffer c ix pending v in
        let (cs', ix', run, same, first, v') =
          lookup_chunks-IsValid searched buffer cs ix1 (pending ++ (c.fp ∷ [])) v1 in
        (
          c1 ∷ cs',
          ix',
          ground (arith, normal, run1, run),
          ap₂ (◌∷◌) same1 same,
          ground (arith, file_mark_eq c c1 same1, normal, first1, ap (λ d. d.fp) same1, first),
          rw normal (rw (append_assoc pending (c.fp ∷ []) (fingerprints cs)) at v'),
        )
  ]

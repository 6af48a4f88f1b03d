-- ===== src/Pool/RoundTrip.antt =====
-- A container written to the pool and read back.
use destor.Base.{
  ℕ, ◌+◌, ◌-◌, ◌*◌, ◌%◌, ◌^◌, ◌≤◌, ◌<◌, ◌≡◌, refl, ap, sym, ◌∙◌, Option, some, List, ◌++◌, length,
  take, drop, arith, pos, Table, insert_all, lookup-copy, All-find, drop-append, length-take, ◌==◌,
  ==_iff, ne→==_false, lt→ltb, le→ltb_false, ◌≢◌,
}
use destor.Chunk.{Fingerprint}
use destor.Container.{
  container_size, container_meta_size, MetaEntry, ContainerMeta, Container, Pool, write_at,
  container_empty,
}
use destor.Container.Buffer.{length-write_at, slice-write_at_before}
use destor.Container.Add.{IsValid}
use destor.Container.Contents.{stored, stored_same}
use destor.Serial.{Endian}
use destor.Pool.Defs.{
  seek, read_at, write_file, read_file, meta_bytes, flush, write_container, read_meta, finish_read,
  retrieve_container_by_id,
}
use destor.Pool.File.{read_file-write_file}
use destor.Pool.Meta.{Fits, AllFit, read_meta-meta_bytes, length-meta_bytes}

pub seek_lem : (offset : ℕ) → offset < 2 ^ 63 → seek offset ≡ some offset
unfolding seek
seek_lem offset h = rw (whole, lt→ltb offset (2 ^ 63) h) refl
  where
    whole : offset % 2 ^ 64 ≡ offset
    whole = omega arith

pub read_at_lem :
    (offset size : ℕ) (p : Pool)
    → offset < 2 ^ 63
    → read_at offset size p ≡ some (read_file p.file offset size)
unfolding read_at
read_at_lem offset size p h = rw (seek_lem offset h) refl

module _ (e : Endian) (T : Table Fingerprint MetaEntry ◌==◌) where
  -- The fingerprints of a container are 20 bytes each.
  abbrev pub ShortKeys : Container T.Map → Type 0
  ShortKeys c =
      (fp : Fingerprint) (me : MetaEntry) → T.lookup fp c.meta.map ≡ some me → fp < 256 ^ 20

  -- The metadata as they are read back: the same lookups, from a new table.
  abbrev pub copy_meta : ContainerMeta T.Map → ContainerMeta T.Map
  copy_meta m = record m { map = insert_all ==_iff T (T.entries m.map) T.empty }

  entries_fit :
      (level : ℕ) (c : Container T.Map)
      → IsValid T level c
      → ShortKeys c
      → AllFit e (T.entries c.meta.map)
  entries_fit level c v short =
      All-find ==_iff T (λ k me. (me.fp ≡ k) × Fits me) (T.entries c.meta.map)
        (T.entries-Distinct c.meta.map)
        (λ k me found. fit k me (sym (T.find-entries k c.meta.map) ∙ found))
    where
      fit :
          (k : Fingerprint) (me : MetaEntry)
          → T.lookup k c.meta.map ≡ some me
          → (me.fp ≡ k) × Fits me
      fit k me found =
          let (named, inside) = v.placed k me found in
          (
            named,
            record {
              off_fits = omega (arith, v.data_fits);
              len_fits = omega (arith, v.data_fits);
              fp_fits = omega (arith, short k me found);
            },
          )

  pub read_back :
      (level n : ℕ) (c : Container T.Map) (rest : List ℕ)
      → IsValid T level c
      → ShortKeys c
      → c.meta.id ≡ pos n
      → n < 2 ^ 63
      → read_meta e T (pos n) (meta_bytes e T c.meta ++ rest)
        ≡ some (record (copy_meta c.meta) { id = pos n }, 16 + 28 * c.meta.chunk_num)
  read_back level n c rest v short hid hn =
      read_meta-meta_bytes e T c.meta n rest hid hn (omega (arith, v.data_fits))
        (omega (arith, v.meta_fits)) (v.counted ∙ T.size_lem c.meta.map)
        (entries_fit level c v short)

  pub meta_room :
      (level : ℕ) (c : Container T.Map)
      → IsValid T level c
      → length (meta_bytes e T c.meta) ≤ container_meta_size
  meta_room level c v =
      omega (arith, length-meta_bytes e T c.meta, v.counted, T.size_lem c.meta.map, v.meta_fits)

  -- The bytes that a container becomes: its data, with the metadata in the last 32 KB.
  abbrev pub image : Container T.Map → List ℕ → List ℕ
  image c d = write_at d (container_size - container_meta_size) (meta_bytes e T c.meta)

  abbrev pub at_offset : ℕ → ℕ
  at_offset n = n * container_size + 8

  pub flush_lem :
      (level n size : ℕ) (c : Container T.Map) (bs : List ℕ) (p : Pool)
      → IsValid T level c
      → c.meta.id ≡ pos n
      → n * size + 8 < 2 ^ 63
      → flush e T c.meta size bs p ≡ some (record p { file = write_file p.file (n * size + 8) bs })
  unfolding flush
  flush_lem level n size c bs p v hid near =
      rw (hid, seek_lem (n * size + 8) near) (ground (arith, meta_room level c v))

  pub write_lem :
      (level n : ℕ) (c : Container T.Map) (d : List ℕ) (p : Pool)
      → level < 2
      → IsValid T level c
      → c.contents ≡ some d
      → c.meta.id ≡ pos n
      → n < 2 ^ 41
      → c.meta.chunk_num ≢ 0
      → write_container e T level c p
        ≡ some (record p { file = write_file p.file (at_offset n) (image c d) })
  unfolding write_container container_empty
  write_lem level n c d p low v b hid near some_chunk =
      rw
        (
          (==_iff c.meta.chunk_num (T.size c.meta.map)).1 v.counted,
          ne→==_false c.meta.chunk_num 0 some_chunk,
          lt→ltb level 2 low,
          b,
        )
        (flush_lem level n container_size c (image c d) p v hid (omega (arith, near)))

  pub length-image :
      (level : ℕ) (c : Container T.Map) (d : List ℕ)
      → IsValid T level c
      → length d ≡ container_size
      → length (image c d) ≡ container_size
  length-image level c d v h =
      length-write_at d (meta_bytes e T c.meta) (container_size - container_meta_size)
        (omega (arith, meta_room level c v, h))
      ∙ h

  read_image :
      (level n : ℕ) (c : Container T.Map) (d : List ℕ) (f : ℕ → ℕ)
      → IsValid T level c
      → length d ≡ container_size
      → read_file (write_file f (at_offset n) (image c d)) (at_offset n) container_size ≡ image c d
  read_image level n c d f v h =
      ap (read_file (write_file f (at_offset n) (image c d)) (at_offset n))
        (sym (length-image level c d v h))
      ∙ read_file-write_file f (at_offset n) (image c d)

  drop-image :
      (c : Container T.Map) (d : List ℕ)
      → length d ≡ container_size
      → (rest : List ℕ) × (drop (container_size - container_meta_size) (image c d)
          ≡ meta_bytes e T c.meta ++ rest)
  drop-image c d h =
      let mb = meta_bytes e T c.meta in
      let rest = drop (container_size - container_meta_size + length mb) d in
      (
        rest,
        drop-append (container_size - container_meta_size)
            (take (container_size - container_meta_size) d) (mb ++ rest)
            (omega (arith, length-take (container_size - container_meta_size) d, h)),
      )

  finish_lem :
      (contents : Option (List ℕ)) (m : ContainerMeta T.Map) (used : ℕ)
      → used ≤ container_meta_size
      → finish_read e T contents (some (m, used)) ≡ some (record { meta = m; contents = contents })
  unfolding finish_read
  finish_lem contents m used h = rw (le→ltb_false container_meta_size used h)

  retrieve_image :
      (n : ℕ) (c : Container T.Map) (d : List ℕ) (p : Pool)
      → IsValid T 0 c
      → ShortKeys c
      → length d ≡ container_size
      → c.meta.id ≡ pos n
      → n < 2 ^ 41
      → retrieve_container_by_id e T 0
          (pos n)
          (record p { file = write_file p.file (at_offset n) (image c d) })
        ≡ some (record {
          meta = record (copy_meta c.meta) { id = pos n };
          contents = some (image c d);
        })
  unfolding retrieve_container_by_id
  retrieve_image n c d p v short h hid hn =
      let (rest, tail) = drop-image c d h in
      let whole : Pool = record p { file = write_file p.file (at_offset n) (image c d) } in
      let sought = read_at_lem (at_offset n) container_size whole (omega (arith, hn)) in
      rw
        (
          sought,
          read_image 0 n c d p.file v h,
          tail,
          read_back 0 n c rest v short hid (omega (arith, hn)),
        )
        (finish_lem (some (image c d)) (record (copy_meta c.meta) { id = pos n })
          (16 + 28 * c.meta.chunk_num) (omega (arith, v.meta_fits)))

  -- Without simulation a valid container that holds a chunk and has a number below 2 ^ 41, so that
  -- no offset overflows, is written, and is read back under its number with the same counters and, for each fingerprint, the same bytes.
  pub retrieve-write_container :
      (n : ℕ) (c : Container T.Map) (d : List ℕ) (p : Pool) (fp : Fingerprint)
      → IsValid T 0 c
      → ShortKeys c
      → c.contents ≡ some d
      → c.meta.id ≡ pos n
      → n < 2 ^ 41
      → c.meta.chunk_num ≢ 0
      → (p' : Pool) × (write_container e T 0 c p ≡ some p')
        × (c' : Container T.Map) × (retrieve_container_by_id e T 0 (pos n) p' ≡ some c')
        × (c'.meta.id ≡ c.meta.id)
        × (c'.meta.chunk_num ≡ c.meta.chunk_num)
        × (c'.meta.data_size ≡ c.meta.data_size)
        × (stored T c' fp ≡ stored T c fp)
  retrieve-write_container n c d p fp v short b hid hn some_chunk =
      let whole : length d ≡ container_size = rw b at v.buffered in
      (
        record p { file = write_file p.file (at_offset n) (image c d) },
        write_lem 0 n c d p (omega arith) v b hid hn some_chunk,
        record { meta = record (copy_meta c.meta) { id = pos n }; contents = some (image c d) },
        retrieve_image n c d p v short whole hid hn,
        sym hid,
        refl,
        refl,
        stored_same T c
            (record {
              meta = record (copy_meta c.meta) { id = pos n };
              contents = some (image c d);
            })
            d (image c d) fp b refl (lookup-copy ==_iff T fp c.meta.map)
            (λ me here.
              let inside = (v.placed fp me here).1 in
              slice-write_at_before d (meta_bytes e T c.meta) me.off me.len
                (container_size - container_meta_size) (omega (arith, inside, v.data_fits))
                (omega (arith, whole))),
      )

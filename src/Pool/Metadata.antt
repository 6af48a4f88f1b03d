-- ===== src/Pool/Metadata.antt =====
-- The metadata of a container that was written, read alone: retrieve_container_meta_by_id.
use destor.Base.{
  ℕ, ◌+◌, ◌*◌, ◌^◌, ◌≤◌, ◌<◌, ◌≡◌, ◌≢◌, refl, ap, sym, ◌∙◌, some, List, length, arith, pos, Table,
  ◌==◌, le→leb,
}
use destor.Chunk.{Fingerprint}
use destor.Container.{
  container_meta_size, MetaEntry, ContainerMeta, Container, Pool, write_at, zeros,
}
use destor.Container.Buffer.{length-write_at, length-zeros}
use destor.Container.Add.{IsValid}
use destor.Serial.{Endian}
use destor.Pool.Defs.{
  write_file, read_file, meta_bytes, meta_offset, write_container, read_container_meta,
}
use destor.Pool.File.{read_file-write_file}
use destor.Pool.RoundTrip.{ShortKeys, copy_meta, read_at_lem, read_back, meta_room}
use destor.Pool.Apart.{write_simulated}

module _ (e : Endian) (T : Table Fingerprint MetaEntry ◌==◌) where
  abbrev page : ContainerMeta T.Map → List ℕ
  page m = write_at (zeros container_meta_size) 0 (meta_bytes e T m)

  length-page :
      (level : ℕ) (c : Container T.Map)
      → IsValid T level c
      → length (page c.meta) ≡ container_meta_size
  length-page level c v =
      length-write_at (zeros container_meta_size) (meta_bytes e T c.meta) 0
        (omega (arith, meta_room e T level c v, length-zeros container_meta_size))
      ∙ length-zeros container_meta_size

  -- Where only metadata are written, those of a written container are there again.
  pub read_container_meta-write_container :
      (level n : ℕ) (c : Container T.Map) (p : Pool)
      → 2 ≤ level
      → IsValid T level c
      → ShortKeys e T c
      → c.meta.id ≡ pos n
      → n < 2 ^ 41
      → c.meta.chunk_num ≢ 0
      → (p' : Pool) × (write_container e T level c p ≡ some p')
        × (read_container_meta e T level (pos n) p'
            ≡ some (record (copy_meta e T c.meta) { id = pos n }))
  unfolding read_container_meta meta_offset
  read_container_meta-write_container level n c p high v short hid near some_chunk =
      let off = n * container_meta_size + 8 in
      let p' : Pool = record p { file = write_file p.file off (page c.meta) } in
      let back : read_file p'.file off container_meta_size ≡ page c.meta =
        ap (read_file p'.file off) (sym (length-page level c v))
        ∙ read_file-write_file p.file off (page c.meta) in
      let offset : meta_offset level n ≡ off = rw (meta_offset, le→leb 2 level high) refl in
      (
        p',
        write_simulated e T level n c p high v hid near some_chunk,
        rw
            (
              read_container_meta,
              offset,
              read_at_lem off container_meta_size p' (omega (arith, near)),
              back,
              read_back e T level n c _ v short hid (omega (arith, near)),
            )
            refl,
      )

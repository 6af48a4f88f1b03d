-- ===== src/Pool/Defs.antt =====
-- How src/storage/containerstore.c lays a container out on disk, writes it and reads it.
-- `e` is the byte order of the host; a failed assert, a null buffer and a seek to a negative
-- offset give `none`. An offset is an int64_t, which wraps around.
use mathlib.Core.Option
use destor.Base.{
  ℕ, zero, suc, ◌+◌, ◌-◌, ◌*◌, ◌%◌, ◌^◌, ◌==◌, ltb, leb, ◌&&◌, not, Option, none, some, List, [],
  ◌∷◌, ◌++◌, length, take, drop, if◌then◌else◌, ℤ, pos, negsuc, ◌==ℤ◌, Table,
}
use destor.Chunk.{Fingerprint}
use destor.Container.{
  container_size, container_meta_size, simulation_restore, simulation_append, MetaEntry,
  ContainerMeta, Container, Pool, write_at, zeros, container_empty,
}
use destor.Serial.{
  Endian, memory, load, byte_at, le_value, le_bytes, to_word, serial_int32, serial_int64,
  unserial_int32, unserial_int64,
}
use mathlib.Core.List.{reverse}

-- The 20 bytes of a fingerprint.
abbrev pub fp_bytes : Fingerprint → List ℕ
fp_bytes fp = reverse (le_bytes 20 fp)

abbrev pub fp_value : List ℕ → Fingerprint
fp_value bs = le_value (reverse bs)

-- fseek and fwrite at an offset, fseek and fread from one.
unfoldable pub write_file : (ℕ → ℕ) → ℕ → List ℕ → ℕ → ℕ
write_file f off bs i = if leb off i && ltb i (off + length bs) then byte_at bs (i - off) else f i

unfoldable pub read_file : (ℕ → ℕ) → ℕ → ℕ → List ℕ
read_file f off zero = []
read_file f off (suc n) = f off ∷ read_file f (off + 1) n

-- An offset as the machine computes it, modulo 2 ^ 64; a negative one cannot be sought, and
-- what the code reads after such a failure, which it does not test, is not modelled.
unfoldable pub seek : ℕ → Option ℕ
seek offset = let word = offset % 2 ^ 64 in if ltb word (2 ^ 63) then some word else none

-- A read of the file from an offset, as fseek and fread do.
unfoldable pub read_at : ℕ → ℕ → Pool → Option (List ℕ)
read_at offset size p = Option.map (λ o. read_file p.file o size) (seek offset)

-- Where the metadata of the n-th container start, when only they are read.
unfoldable pub meta_offset : ℕ → ℕ → ℕ
meta_offset level n =
    if leb simulation_append level
    then n * container_meta_size + 8
    else (n + 1) * container_size - container_meta_size + 8

-- The rounds of `for (i = 0; i < chunk_num; i++)`.
abbrev pub rounds : ℤ → ℕ
rounds (pos n) = n
rounds (negsuc n) = 0

module _ (e : Endian) where
  unfoldable pub entry_bytes : MetaEntry → List ℕ
  entry_bytes me = fp_bytes me.fp ++ (memory e 4 me.len ++ memory e 4 me.off)

  unfoldable pub read_entry : List ℕ → MetaEntry
  read_entry cur = record {
    off = load e (take 4 (drop 24 cur));
    len = load e (take 4 (drop 20 cur));
    fp = fp_value (take 20 cur);
  }

  unfoldable pub entries_bytes : List (Fingerprint × MetaEntry) → List ℕ
  entries_bytes [] = []
  entries_bytes ((k, me) ∷ es) = entry_bytes me ++ entries_bytes es

  module _ (T : Table Fingerprint MetaEntry ◌==◌) where
    -- What `ser_ptr` has put behind `cur`.
    unfoldable pub meta_bytes : ContainerMeta T.Map → List ℕ
    meta_bytes m =
        serial_int64 e m.id
        ++ (serial_int32 e (pos m.chunk_num)
            ++ (serial_int32 e (pos m.data_size) ++ entries_bytes (T.entries m.map)))

    -- The second half of write_container: the bytes for the file, at a multiple of their length.
    unfoldable pub flush : ContainerMeta T.Map → ℕ → List ℕ → Pool → Option Pool
    flush m size bs p =
        if ltb container_meta_size (length (meta_bytes m)) then none else elim (m.id) [
          | pos n ↦ elim (seek (n * size + 8)) [
            | none ↦ none
            | some offset ↦ some (record p { file = write_file p.file offset bs })
          ]
          | negsuc _ ↦ none
        ]

    unfoldable pub write_container : ℕ → Container T.Map → Pool → Option Pool
    write_container level c p =
        if not (c.meta.chunk_num == T.size c.meta.map)
        then none
        else if container_empty T c
        then some (record p { container_count = p.container_count - 1 })
        else if ltb level simulation_append
        then elim (c.contents) [
          | none ↦ none
          | some d ↦
              flush c.meta container_size
                (write_at d (container_size - container_meta_size) (meta_bytes c.meta)) p
        ]
        else flush c.meta container_meta_size
            (write_at (zeros container_meta_size) 0 (meta_bytes c.meta)) p

    -- The loop over the entries, with the count of rounds left.
    unfoldable pub read_entries : ℕ → List ℕ → T.Map → T.Map
    read_entries zero cur m = m
    read_entries (suc n) cur m =
        let me = read_entry cur in read_entries n (drop 28 cur) (T.insert me.fp me m)

    -- After the header: the test of the number, and the loop.
    unfoldable pub build_meta : ℤ → ℤ → ℤ → ℤ → List ℕ → Option (ContainerMeta T.Map × ℕ)
    build_meta id found chunk_num data_size cur =
        if not (found ==ℤ id)
        then none
        else some (
          record {
            id = found;
            data_size = to_word 32 data_size;
            chunk_num = to_word 32 chunk_num;
            map = read_entries (rounds chunk_num) cur T.empty;
          },
          16 + 28 * rounds chunk_num,
        )

    -- The metadata behind `cur`, if they are those of the container asked for, and the number of
    -- bytes that `ser_ptr` has gone over.
    unfoldable pub read_meta : ℤ → List ℕ → Option (ContainerMeta T.Map × ℕ)
    read_meta id cur =
        let (found, rest) = unserial_int64 e cur in
        let (chunk_num, rest') = unserial_int32 e rest in
        let (data_size, rest'') = unserial_int32 e rest' in
        build_meta id found chunk_num data_size rest''

    -- unser_end, and the container.
    unfoldable pub finish_read :
        Option (List ℕ) → Option (ContainerMeta T.Map × ℕ) → Option (Container T.Map)
    finish_read contents none = none
    finish_read contents (some (m, used)) =
        if ltb container_meta_size used
        then none
        else some (record { meta = m; contents = contents })

    unfoldable pub retrieve_container_by_id : ℕ → ℤ → Pool → Option (Container T.Map)
    unfolding finish_read read_at
    retrieve_container_by_id level (negsuc n) p = none
    retrieve_container_by_id level (pos n) p =
        if leb simulation_restore level
        then elim (read_at (meta_offset level n) container_meta_size p) [
          | none ↦ none
          | some buf ↦ finish_read none (read_meta (pos n) buf)
        ]
        else elim (read_at (n * container_size + 8) container_size p) [
          | none ↦ none
          | some d ↦
              finish_read (some d)
                (read_meta (pos n) (drop (container_size - container_meta_size) d))
        ]

    -- The part of retrieve_container_meta_by_id that reads the disk; it checks no end.
    unfoldable pub read_container_meta : ℕ → ℤ → Pool → Option (ContainerMeta T.Map)
    unfolding read_at
    read_container_meta level (negsuc n) p = none
    read_container_meta level (pos n) p =
        elim (read_at (meta_offset level n) container_meta_size p) [
          | none ↦ none
          | some buf ↦ Option.map (λ r. r.0) (read_meta (pos n) buf)
        ]

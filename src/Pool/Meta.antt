-- ===== src/Pool/Meta.antt =====
-- The metadata of a container as bytes: what is written is what is read.
use mathlib.Core.List.{reverse-reverse}
use destor.Base.{
  ℕ, suc, ◌+◌, ◌*◌, ◌^◌, ◌<◌, ◌≡◌, refl, ap, sym, ◌∙◌, some, List, [], ◌∷◌, ◌++◌, length, take,
  drop, arith, pos, Table, All, insert_all, append_assoc, take-append, drop-append, length-append,
  ◌==◌, ==_iff,
}
use destor.Chunk.{Fingerprint}
use destor.Container.{MetaEntry, ContainerMeta}
use destor.Serial.{
  Endian, memory, load, to_word, serial_uint32, serial_uint64, serial_int32, serial_int64,
}
use destor.Serial.Bytes.{le_value-le_bytes, length-be_bytes}
use destor.Serial.Wire.{load-memory, length-memory, serial_uint-be_bytes}
use destor.Serial.RoundTrip.{unserial_int-serial_int}
use destor.Pool.Defs.{
  fp_bytes, fp_value, entry_bytes, read_entry, entries_bytes, meta_bytes, read_entries, read_meta,
  build_meta,
}

-- What the fields of an entry can hold: 32 bits for the numbers, 20 bytes for the fingerprint.
pub record Fits (me : MetaEntry) : Type 0 where
  pub off_fits : me.off < 256 ^ 4
  pub len_fits : me.len < 256 ^ 4
  pub fp_fits : me.fp < 256 ^ 20

module _ (e : Endian) where
  split_entry :
      (me : MetaEntry) (rest : List ℕ)
      → entry_bytes e me ++ rest
        ≡ fp_bytes me.fp ++ (memory e 4 me.len ++ (memory e 4 me.off ++ rest))
  unfolding entry_bytes
  split_entry me rest =
      append_assoc (fp_bytes me.fp) (memory e 4 me.len ++ memory e 4 me.off) rest
      ∙ ap (λ t. fp_bytes me.fp ++ t) (append_assoc (memory e 4 me.len) (memory e 4 me.off) rest)

  read_fields :
      (me : MetaEntry) (rest : List ℕ)
      → (take 20 (entry_bytes e me ++ rest) ≡ fp_bytes me.fp)
        × (take 4 (drop 20 (entry_bytes e me ++ rest)) ≡ memory e 4 me.len)
        × (take 4 (drop 24 (entry_bytes e me ++ rest)) ≡ memory e 4 me.off)
        × (drop 28 (entry_bytes e me ++ rest) ≡ rest)
  unfolding entry_bytes
  read_fields me rest = (
    ap (take 20) split ∙ take-append 20 fp (len ++ (off ++ rest)) n20,
    ap (λ t. take 4 (drop 20 t)) split
        ∙ ap (take 4) (drop-append 20 fp (len ++ (off ++ rest)) n20)
        ∙ take-append 4 len (off ++ rest) (length-memory e 4 me.len),
    ap (λ t. take 4 (drop 24 t)) (split ∙ sym (append_assoc fp len (off ++ rest)))
        ∙ ap (take 4) (
            drop-append 24 (fp ++ len) (off ++ rest)
              (omega (arith, length-append fp len, n20, length-memory e 4 me.len)))
        ∙ take-append 4 off rest (length-memory e 4 me.off),
    drop-append 28 (entry_bytes e me) rest (
        omega (
          arith,
          length-append fp (len ++ off),
          length-append len off,
          n20,
          length-memory e 4 me.len,
          length-memory e 4 me.off,
        )),
  )
    where
      fp : List ℕ
      fp = fp_bytes me.fp

      len : List ℕ
      len = memory e 4 me.len

      off : List ℕ
      off = memory e 4 me.off

      n20 : length fp ≡ 20
      n20 = length-be_bytes 20 me.fp

      split : entry_bytes e me ++ rest ≡ fp ++ (len ++ (off ++ rest))
      split = split_entry me rest

  read_entry-entry_bytes :
      (me : MetaEntry) (rest : List ℕ) → Fits me → read_entry e (entry_bytes e me ++ rest) ≡ me
  unfolding read_entry
  read_entry-entry_bytes me rest h =
      let (fp, len, off, _) = read_fields me rest in
      λ i. record {
        off = (ap (load e) off ∙ load-memory e 4 me.off h.off_fits) i;
        len = (ap (load e) len ∙ load-memory e 4 me.len h.len_fits) i;
        fp = (ap fp_value fp ∙ own) i;
      }
    where
      own : fp_value (fp_bytes me.fp) ≡ me.fp
      own = rw reverse-reverse (le_value-le_bytes 20 me.fp h.fp_fits)

  -- The entries of an iteration, each under the fingerprint that it names.
  abbrev pub AllFit : List (Fingerprint × MetaEntry) → Type 0
  AllFit es = All (λ p. (p.1.fp ≡ p.0) × Fits p.1) es

  module _ (T : Table Fingerprint MetaEntry ◌==◌) where
    read_entries_step :
        (n : ℕ) (cur next : List ℕ) (me : MetaEntry) (m : T.Map)
        → read_entry e cur ≡ me
        → drop 28 cur ≡ next
        → read_entries e T (suc n) cur m ≡ read_entries e T n next (T.insert me.fp me m)
    unfolding read_entries
    read_entries_step n cur next me m p q =
        λ i. read_entries e T n (q i) (T.insert (p i).fp (p i) m)

    pub read_entries-entries_bytes :
        (es : List (Fingerprint × MetaEntry)) (rest : List ℕ) (m : T.Map)
        → AllFit es
        → read_entries e T (length es) (entries_bytes e es ++ rest) m ≡ insert_all ==_iff T es m
    unfolding read_entries entries_bytes
    read_entries-entries_bytes [] rest m h = refl
    read_entries-entries_bytes ((k, me) ∷ es) rest m h =
        let ((named, fits), others) = h in
        let tail = entries_bytes e es ++ rest in
        let flat = append_assoc (entry_bytes e me) (entries_bytes e es) rest in
        let (_, _, _, behind) = read_fields me tail in
        ap (λ t. read_entries e T (suc (length es)) t m) flat
        ∙ read_entries_step (length es) (entry_bytes e me ++ tail) tail me m
            (read_entry-entry_bytes me tail fits) behind
        ∙ ap (λ k. read_entries e T (length es) tail (T.insert k me m)) named
        ∙ read_entries-entries_bytes es rest (T.insert k me m) others

    pub length-entries_bytes :
        (es : List (Fingerprint × MetaEntry)) → length (entries_bytes e es) ≡ 28 * length es
    unfolding entries_bytes entry_bytes
    length-entries_bytes [] = refl
    length-entries_bytes ((k, me) ∷ es) = omega (
      arith,
      length-append (entry_bytes e me) (entries_bytes e es),
      length-append (fp_bytes me.fp) (memory e 4 me.len ++ memory e 4 me.off),
      length-append (memory e 4 me.len) (memory e 4 me.off),
      length-be_bytes 20 me.fp,
      length-memory e 4 me.len,
      length-memory e 4 me.off,
      length-entries_bytes es,
    )

    -- The number of bytes in front of the entries, and of all.
    pub length-meta_bytes :
        (m : ContainerMeta T.Map) → length (meta_bytes e T m) ≡ 16 + 28 * length (T.entries m.map)
    unfolding meta_bytes serial_int64 serial_int32
    length-meta_bytes m = omega (
      arith,
      length-append (serial_uint64 e (to_word 64 m.id)) (
          serial_uint32 e (to_word 32 (pos m.chunk_num))
          ++ (serial_uint32 e (to_word 32 (pos m.data_size)) ++ entries_bytes e (T.entries m.map))),
      length-append (serial_uint32 e (to_word 32 (pos m.chunk_num)))
          (serial_uint32 e (to_word 32 (pos m.data_size)) ++ entries_bytes e (T.entries m.map)),
      length-append (serial_uint32 e (to_word 32 (pos m.data_size)))
          (entries_bytes e (T.entries m.map)),
      length-entries_bytes (T.entries m.map),
      ap length ((serial_uint-be_bytes e (to_word 64 m.id)).2),
      ap length ((serial_uint-be_bytes e (to_word 32 (pos m.chunk_num))).1),
      ap length ((serial_uint-be_bytes e (to_word 32 (pos m.data_size))).1),
      length-be_bytes 8 (to_word 64 m.id),
      length-be_bytes 4 (to_word 32 (pos m.chunk_num)),
      length-be_bytes 4 (to_word 32 (pos m.data_size)),
    )

    built_meta :
        (m : ContainerMeta T.Map) (n : ℕ) (rest : List ℕ)
        → m.data_size < 2 ^ 31
        → m.chunk_num < 2 ^ 31
        → m.chunk_num ≡ length (T.entries m.map)
        → AllFit (T.entries m.map)
        → build_meta e T
            (pos n)
            (pos n)
            (pos m.chunk_num)
            (pos m.data_size)
            (entries_bytes e (T.entries m.map) ++ rest)
          ≡ some (
            record m { id = pos n; map = insert_all ==_iff T (T.entries m.map) T.empty },
            16 + 28 * m.chunk_num,
          )
    unfolding build_meta
    built_meta m n rest hd hc count fit = ground (
      arith,
      ap (λ k. read_entries e T k (entries_bytes e (T.entries m.map) ++ rest) T.empty) count,
      read_entries-entries_bytes (T.entries m.map) rest T.empty fit,
    )

    -- read_meta returns what meta_bytes wrote: the number, the counters and, for every fingerprint,
    -- its entry.
    pub read_meta-meta_bytes :
        (m : ContainerMeta T.Map) (n : ℕ) (rest : List ℕ)
        → m.id ≡ pos n
        → n < 2 ^ 63
        → m.data_size < 2 ^ 31
        → m.chunk_num < 2 ^ 31
        → m.chunk_num ≡ length (T.entries m.map)
        → AllFit (T.entries m.map)
        → read_meta e T (pos n) (meta_bytes e T m ++ rest)
          ≡ some (
            record m { id = pos n; map = insert_all ==_iff T (T.entries m.map) T.empty },
            16 + 28 * m.chunk_num,
          )
    unfolding read_meta
    read_meta-meta_bytes m n rest hid hn hd hc count fit =
        let es = entries_bytes e (T.entries m.map) ++ rest in
        let (_, _, read_id) =
          unserial_int-serial_int e e (pos n)
            (serial_int32 e (pos m.chunk_num) ++ (serial_int32 e (pos m.data_size) ++ es)) in
        let (_, read_num, _) =
          unserial_int-serial_int e e (pos m.chunk_num) (serial_int32 e (pos m.data_size) ++ es) in
        let (_, read_size, _) = unserial_int-serial_int e e (pos m.data_size) es in
        rw (flat, hid, read_id hn, read_num hc, read_size hd) (built_meta m n rest hd hc count fit)
      where
        flat :
            meta_bytes e T m ++ rest
            ≡ serial_int64 e m.id
              ++ (serial_int32 e (pos m.chunk_num)
                  ++ (serial_int32 e (pos m.data_size)
                      ++ (entries_bytes e (T.entries m.map) ++ rest)))
        flat = unfold meta_bytes in simp append_assoc

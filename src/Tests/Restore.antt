-- ===== src/Tests/Restore.antt =====
-- src/do_restore.c and src/chunking/rabin_chunking.c at small inputs.
use destor.Base.{
  ℕ, ◌*◌, negsuc, ◌==◌, ◌≡◌, ◌≤◌, refl, false, none, some, List, [], ◌∷◌, if◌then◌else◌, arith, pos,
}
use destor.Chunk.{Chunk, chunk_unique}
use destor.Restore.{RestoreReader, lru_restore_thread}
use destor.Restore.Stream.{Faithful, lru_restore_thread-plain_restore}
use destor.Chunking.Rabin.{
  Rabin, rabin_chunk_data, normalized_rabin_chunk_data, tttd_chunk_data, end_of,
}
use destor.Chunking.RabinBounds.{Between, rabin_chunk_data-size}

abbrev copy : ℕ → Chunk
copy f = record { size = 1; flag = chunk_unique; id = pos 0; fp = f; data_bytes = f ∷ [] }

-- A container is the fingerprint that it holds, and has the number of it.
abbrev reader : RestoreReader ℕ
reader = record {
  simulated = false;
  retrieve = λ id. elim id [ pos n ↦ some n | negsuc n ↦ none ];
  has_fingerprint = λ fp con. fp == con;
  get_chunk = λ con fp. if fp == con then some (copy fp) else none;
}

reader-Faithful : (con : ℕ) → Faithful reader copy con
reader-Faithful con fp has = ground (arith, has)

abbrev recipe_chunk : ℕ → Chunk
recipe_chunk f = record (copy f) { id = pos f; data_bytes = [] }

lru_restore_thread-plain_restore_example :
    (reads : ℕ) × (lru_restore_thread reader
        (pos 1)
        (recipe_chunk 3 ∷ recipe_chunk 4 ∷ recipe_chunk 3 ∷ [])
      ≡ some (copy 3 ∷ copy 4 ∷ copy 3 ∷ [], reads))
    × (reads ≤ 3)
lru_restore_thread-plain_restore_example =
    lru_restore_thread-plain_restore reader copy (pos 1)
      (recipe_chunk 3 ∷ recipe_chunk 4 ∷ recipe_chunk 3 ∷ []) (λ id con read. reader-Faithful con)
      (refl, (refl, (refl, tt)))

abbrev rabin : Rabin
rabin = record {
  table_t = λ x. x * 7;
  table_u = λ x. x * 5;
  shift = 45;
  chunk_min_size = 2;
  chunk_avg_size = 4;
  chunk_max_size = 6;
}

abbrev some_data : List ℕ
some_data = 9 ∷ 8 ∷ 7 ∷ 6 ∷ 5 ∷ 4 ∷ 3 ∷ 2 ∷ []

rabin_chunk_data-size_example :
    Between 2 6 (rabin_chunk_data rabin some_data)
    × Between 2 6 (normalized_rabin_chunk_data rabin some_data)
    × Between 2 6 (tttd_chunk_data rabin some_data)
    × (end_of rabin 8 ≤ 8)
    × (end_of rabin 8 ≤ 6)
rabin_chunk_data-size_example =
    rabin_chunk_data-size rabin some_data (omega arith) (omega arith) (omega arith)

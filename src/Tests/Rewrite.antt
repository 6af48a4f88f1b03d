-- ===== src/Tests/Rewrite.antt =====
-- The rewrite phase at small inputs: src/rewrite_phase.c, src/cfl_rewrite.c, src/cap_rewrite.c,
-- src/restore_aware.c.
use destor.Base.{
  ℕ, ◌+◌, ◌≡◌, Bool, true, false, some, List, [], ◌∷◌, ℤ, pos, negsuc, ◌==◌, if◌then◌else◌,
}
use destor.Chunk.{Chunk, chunk_unique, temporary_id}
use destor.LruCache.Invariant.{new_lru_cache-IsValid}
use destor.LruCache.Invariant as Lru
use destor.Rewrite.{
  RewriteBuffer, Monitor, init_restore_aware, restore_aware_update, restore_aware_contains,
}
use destor.Rewrite.Buffer.{IsValid}
use destor.Rewrite.RestoreAware.{restore_aware_update-contains}

-- A duplicate of 100 bytes in container 3, a unique chunk, and a duplicate in container 4.
abbrev duplicate_in : ℕ → Chunk
duplicate_in container = record {
  size = 100;
  flag = record chunk_unique { duplicate = true };
  id = pos container;
  fp = 1;
  data_bytes = [];
}

abbrev unique : Chunk
unique = record { size = 50; flag = chunk_unique; id = temporary_id; fp = 2; data_bytes = [] }

abbrev stream : List Chunk
stream = duplicate_in 3 ∷ unique ∷ duplicate_in 4 ∷ []

-- Container 3 is sparse.
abbrev sparse : ℤ → Bool
sparse (pos n) = n == 3
sparse (negsuc n) = false

-- A buffer with the first chunk.
abbrev one : RewriteBuffer
one = record {
  chunk_queue = duplicate_in 3 ∷ [];
  container_records = (pos 3, 100) ∷ [];
  num = 1;
  size = 100;
}

monitor : Lru.IsValid (init_restore_aware (pos 2)).cache
unfolding init_restore_aware
monitor = new_lru_cache-IsValid (pos 2)

restore_aware_update-contains_example :
    (m' : Monitor) × (restore_aware_update (pos 3) 100 (init_restore_aware (pos 2)) ≡ some m')
    × Lru.IsValid m'.cache
    × (restore_aware_contains (pos 3) m' ≡ true)
    × (m'.ccf ≡ (
        if restore_aware_contains (pos 3) (init_restore_aware (pos 2))
        then (init_restore_aware (pos 2)).ccf
        else (init_restore_aware (pos 2)).ccf + 1))
    × (m'.total_size ≡ (init_restore_aware (pos 2)).total_size + 100 + 28)
restore_aware_update-contains_example =
    restore_aware_update-contains (pos 3) 100 (init_restore_aware (pos 2)) monitor

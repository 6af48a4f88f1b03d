-- ===== src/Tests/Cache.antt =====
-- src/utils/lru_cache.c and src/index/kvstore_htable.c at small inputs.
use destor.Base.{
  ℕ, ◌≡◌, ◌≢◌, if◌then◌else◌, ◌++◌, Bool, true, ◌&&◌, ap, refl, false, Option, none, some, List, [],
  ◌∷◌, arith, ℤ, pos, ◌==◌, ==_iff, assoc, Table, length, ◌⊎◌, All,
}
use destor.LruCache.{
  LruCache, evict, must_evict, split_last, find_last, lru_cache_insert, lru_cache_lookup,
  lru_cache_lookup_without_update, lru_cache_kicks, lru_cache_is_full,
}
use destor.LruCache.Invariant.{IsValid, lru_cache_insert-keep}
use destor.LruCache.Order.{FirstHit, lru_cache_lookup_lem, lru_cache_lookup_without_update_lem}
use destor.LruCache.Kicks.{LastHit, lru_cache_kicks_lem, kicked-not-full}
use destor.KvStore.{
  kvstore_htable_lookup, kvstore_htable_delete, new_values, init_kvstore_htable, FileSystem, Word,
  close_kvstore_htable,
}
use destor.KvStore.History.{updated, value_of, lookup-updated}
use destor.KvStore.Delete.{lookup-delete, delete_out_of_order}
use destor.KvStore.Dump.{init-close}
use destor.Chunk.{temporary_id}

abbrev two : LruCache ℕ
two = record { elem_queue = 2 ∷ 1 ∷ []; max_size = pos 2; size = 2; hit_count = 0; miss_count = 0 }

two-IsValid : IsValid two
two-IsValid = record { counted = refl; within = omega arith }

-- A third element puts the oldest out.
insert_third : lru_cache_insert 3 two ≡ some (record two { elem_queue = 3 ∷ 2 ∷ [] }, some 1)
unfolding lru_cache_insert evict must_evict split_last
insert_third = refl

lru_cache_insert-keep_example :
    (victim : Option ℕ) × (lru_cache_insert 3 two
      ≡ some (record two { elem_queue = 3 ∷ 2 ∷ []; size = 2 }, victim))
lru_cache_insert-keep_example = lru_cache_insert-keep 3 two-IsValid

lru_cache_lookup_lem_example :
    (All (λ x. x == 1 ≡ false) two.elem_queue
      × (lru_cache_lookup (λ x. x == 1) two ≡ (none, record two { miss_count = 1 })))
    ⊎ ((e : ℕ) × (rest : List ℕ) × FirstHit (λ x. x == 1) two.elem_queue e rest
        × (lru_cache_lookup (λ x. x == 1) two
            ≡ (some e, record two { elem_queue = e ∷ rest; hit_count = 1 })))
lru_cache_lookup_lem_example = lru_cache_lookup_lem (λ x. x == 1) two

lru_cache_lookup_without_update_lem_example :
    (lru_cache_lookup_without_update (λ x. x == 1) two ≡ (lru_cache_lookup (λ x. x == 1) two).0)
    × (lru_cache_lookup_without_update (λ x. x == 1) (lru_cache_lookup (λ x. x == 1) two).1
        ≡ (lru_cache_lookup (λ x. x == 1) two).0)
lru_cache_lookup_without_update_lem_example = lru_cache_lookup_without_update_lem (λ x. x == 1) two

lru_cache_kicks_lem_example :
    (All (λ x. x == 2 ≡ false) two.elem_queue × (lru_cache_kicks (λ x. x == 2) two ≡ (none, two)))
    ⊎ ((e : ℕ) × (rest : List ℕ) × LastHit (λ x. x == 2) two.elem_queue e rest
        × (lru_cache_kicks (λ x. x == 2) two
            ≡ (some e, record two { elem_queue = rest; size = 1 })))
lru_cache_kicks_lem_example = lru_cache_kicks_lem (λ x. x == 2) two

kick_two : (lru_cache_kicks (λ x. x == 2) two).0 ≡ some 2
unfolding lru_cache_kicks find_last
kick_two = refl

bounded : two.max_size ≢ pos 0
bounded e = ground (arith, e)

kicked-not-full_example : lru_cache_is_full (lru_cache_kicks (λ x. x == 2) two).1 ≡ false
kicked-not-full_example = kicked-not-full (λ x. x == 2) two-IsValid bounded kick_two

-- Arrays of identifiers under numbers.
abbrev store : Table ℕ (List ℤ) ◌==◌
store = assoc ℕ (List ℤ) ◌==◌ ==_iff

abbrev updates : List (ℕ × ℤ)
updates = (7, pos 3) ∷ (8, pos 2) ∷ (7, pos 1) ∷ (7, pos 0) ∷ []

lookup-updated_example :
    kvstore_htable_lookup store 2 7 (updated ==_iff store 2 updates)
    ≡ value_of 2 (pos 3 ∷ pos 1 ∷ pos 0 ∷ [])
lookup-updated_example = lookup-updated ==_iff store 2 updates 7 (omega arith)

-- Key 7 with the identifiers 3 and, older, 1.
abbrev one_key : store.Map
one_key = store.insert 7 (pos 3 ∷ pos 1 ∷ []) store.empty

newer_three : All (λ x. (x ≢ pos 1) × (x ≢ temporary_id)) (pos 3 ∷ [])
newer_three = ((λ e. ground (arith, e), λ e. ground (arith, e)), tt)

lookup-delete_example :
    (t' : store.Map) × (kvstore_htable_delete store 2 7 (pos 1) one_key ≡ some t')
    × (store.lookup 7 t' ≡ some (pos 3 ∷ temporary_id ∷ []))
unfolding new_values
lookup-delete_example =
    lookup-delete ==_iff store 2 7 7 (pos 3 ∷ []) (pos 1) 0 one_key newer_three refl

delete_out_of_order_example : kvstore_htable_delete store 2 7 (pos 3) one_key ≡ none
delete_out_of_order_example =
    delete_out_of_order ==_iff store 2 7 [] (pos 3) (pos 1) [] one_key tt (λ e. ground (arith, e))
      refl

one_key_full : (k : ℕ) (value : List ℤ) → store.lookup k one_key ≡ some value → length value ≡ 2
one_key_full k value e = ground (arith, e)

-- Doubled slashes are written once.
abbrev squeeze : List ℕ → List ℕ
squeeze [] = []
squeeze (x ∷ []) = x ∷ []
squeeze (x ∷ y ∷ path) =
    let rest = squeeze (y ∷ path) in if (x == 47) && (y == 47) then rest else x ∷ rest

squeeze-slashes : (a b : List ℕ) → squeeze (a ++ (47 ∷ 47 ∷ b)) ≡ squeeze (a ++ (47 ∷ b))
squeeze-slashes [] b = refl
squeeze-slashes (x ∷ []) b = refl
squeeze-slashes (x ∷ y ∷ a) b = ground (arith, squeeze-slashes (y ∷ a) b)

abbrev same_names : List ℕ → List ℕ → Bool
same_names [] [] = true
same_names (x ∷ a) (y ∷ b) = (x == y) && same_names a b
same_names a b = false

same_names_self : (a : List ℕ) → same_names a a ≡ true
same_names_self [] = refl
same_names_self (x ∷ a) = ground (arith, same_names_self a)

-- A disk with one file.
abbrev disk : FileSystem (List (Word ℕ))
disk = record {
  Files = List ℕ × List (Word ℕ);
  resolve = squeeze;
  read = λ path files. if same_names (squeeze path) files.0 then some files.1 else none;
  write = λ path content files. (squeeze path, content);
  slashes = squeeze-slashes;
  read-write = λ a b c files same.
      ground (arith, ap (same_names (squeeze a)) same, same_names_self (squeeze a));
}

init-close_example :
    (t' : store.Map) × (init_kvstore_htable store 2 disk
        (47 ∷ 100 ∷ 47 ∷ [])
        (close_kvstore_htable store 2 disk (47 ∷ 100 ∷ 47 ∷ []) one_key ([], []))
      ≡ some t')
    × ((k : ℕ) → store.lookup k t' ≡ store.lookup k one_key)
init-close_example = init-close ==_iff store 2 disk (47 ∷ 100 ∷ []) ([], []) one_key one_key_full

-- ===== src/Filter/Watch.antt =====
-- The cache of src/restore_aware.c as filter_thread uses it: it holds containers only.
use destor.Base.{
  ℕ, ◌+◌, ◌-◌, ◌/◌, ◌≡◌, refl, Bool, true, false, none, some, List, [], ◌∷◌, ℤ, pos, negsuc,
  ltb_int, ◌==ℤ◌, All, Option-cases, inl, inr, arith,
}
use destor.Chunk.{temporary_id}
use destor.Container.{container_size}
use destor.LruCache.{find_first, lru_cache_lookup, lru_cache_lookup_without_update}
use destor.LruCache.Invariant.{IsValid, lru_cache_lookup-IsValid}
use destor.LruCache.Elements.{Each, lru_cache_lookup-Each, lru_cache_insert-Each}
use destor.Rewrite.{Monitor, restore_aware_update, restore_aware_contains}

-- A known container, not TEMPORARY_ID.
abbrev pub is_stored : ℤ → Bool
is_stored id = ltb_int temporary_id id

abbrev pub IsStored : ℤ → Type 0
IsStored id = is_stored id ≡ true

pub record Watched (m : Monitor) : Type 0 where
  pub cache : IsValid m.cache
  pub containers : Each IsStored m.cache

pub not_temporary : (x : ℤ) → IsStored x → (x ==ℤ temporary_id) ≡ false
not_temporary (pos n) h = refl
not_temporary (negsuc n) h = ground arith

no_hit : (q : List ℤ) → All IsStored q → find_first (λ r. r ==ℤ temporary_id) q ≡ none
unfolding find_first
no_hit [] h = refl
no_hit (x ∷ q) h = ground (arith, not_temporary x h.0, no_hit q h.1)

pub never_temporary : (m : Monitor) → Watched m → restore_aware_contains temporary_id m ≡ false
unfolding restore_aware_contains lru_cache_lookup_without_update
never_temporary m w = ground (arith, no_hit m.cache.elem_queue w.containers)

-- An update by a chunk that has a container succeeds, and the cache is as before.
pub restore_aware_update-Watched :
    (id : ℤ) (size : ℕ) (m : Monitor)
    → IsStored id
    → Watched m
    → (m' : Monitor) × (restore_aware_update id size m ≡ some m') × Watched m'
unfolding restore_aware_update
restore_aware_update-Watched id size m stored w =
    let hit : ℤ → Bool = λ r. r ==ℤ id in
    let v = lru_cache_lookup-IsValid hit w.cache in
    let each = (lru_cache_lookup-Each IsStored hit m.cache w.containers).0 in
    elim (Option-cases (lru_cache_lookup hit m.cache).0) [
      | inr (r, found) ↦ (
        record {
          total_size = m.total_size + size + 28;
          ocf = (m.total_size + size + 28 + container_size - 1) / container_size;
          ccf = m.ccf;
          cache = (lru_cache_lookup hit m.cache).1;
        },
        rw (restore_aware_update, found) refl,
        record { cache = v; containers = each },
      )
      | inl missed ↦
          let (put, run, v', each') = lru_cache_insert-Each IsStored id v each stored in
          (
            record {
              total_size = m.total_size + size + 28;
              ocf = (m.total_size + size + 28 + container_size - 1) / container_size;
              ccf = m.ccf + 1;
              cache = put.0;
            },
            rw (restore_aware_update, missed, run) refl,
            record { cache = v'; containers = each' },
          )
    ]

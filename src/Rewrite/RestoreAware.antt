-- ===== src/Rewrite/RestoreAware.antt =====
-- restore_aware_update: the simulated restore cache.
use destor.Base.{
  ℕ, zero, suc, ◌+◌, ◌-◌, ◌/◌, ◌≡◌, refl, ap, ◌∙◌, true, Option, none, some, List, ◌∷◌, take, arith,
  if◌then◌else◌, ℤ, pos, negsuc, ◌==ℤ◌, ==ℤ_iff, inl, inr, is_some,
}
use destor.LruCache.{find_first, lru_cache_lookup, lru_cache_lookup_without_update}
use destor.LruCache.Invariant.{IsValid, keep, lru_cache_lookup-IsValid, lru_cache_insert-IsValid}
use destor.LruCache.Order.{lru_cache_lookup_lem, lru_cache_lookup_without_update_lem}
use destor.Container.{container_size}
use destor.Rewrite.Defs.{Monitor, restore_aware_update, restore_aware_contains}

keep_front :
    {E : Type 0} (m : ℤ) (x : E) (q : List E) → (rest : List E) × (keep m (x ∷ q) ≡ x ∷ rest)
keep_front (pos zero) x q = (q, refl)
keep_front (pos (suc m)) x q = (take m q, refl)
keep_front (negsuc m) x q = (q, refl)

contains_front :
    (id : ℤ) (r : ℤ) (rest : List ℤ) (m : Monitor)
    → r ==ℤ id ≡ true
    → m.cache.elem_queue ≡ r ∷ rest
    → restore_aware_contains id m ≡ true
unfolding restore_aware_contains lru_cache_lookup_without_update find_first
contains_front id r rest m same e = ground (arith, same, e)

-- On a valid cache restore_aware_update succeeds and keeps the cache valid; the container is in the
-- cache then, ccf has grown by one where it was not before, total_size by the chunk and its entry.
pub restore_aware_update-contains :
    (id : ℤ) (chunklen : ℕ) (m : Monitor)
    → IsValid m.cache
    → (m' : Monitor) × (restore_aware_update id chunklen m ≡ some m')
      × IsValid m'.cache
      × (restore_aware_contains id m' ≡ true)
      × (m'.ccf ≡ (if restore_aware_contains id m then m.ccf else m.ccf + 1))
      × (m'.total_size ≡ m.total_size + chunklen + 28)
unfolding restore_aware_update
restore_aware_update-contains id chunklen m v =
    elim (lru_cache_lookup_lem (λ r. r ==ℤ id) m.cache) [
      | inr (r, rest, f, found) ↦
          let m' : Monitor = record {
            total_size = m.total_size + chunklen + 28;
            ocf = (m.total_size + chunklen + 28 + container_size - 1) / container_size;
            ccf = m.ccf;
            cache = (lru_cache_lookup (λ r. r ==ℤ id) m.cache).1;
          } in
          (
            m',
            rw (restore_aware_update, ap (λ p. p.0) found) refl,
            lru_cache_lookup-IsValid (λ r. r ==ℤ id) v,
            contains_front id r rest m' f.hits (ap (λ p. p.1.elem_queue) found),
            ground (arith, before id m (some r) (ap (λ p. p.0) found)),
            refl,
          )
      | inl (misses, missed) ↦
          let v1 = lru_cache_lookup-IsValid (λ r. r ==ℤ id) v in
          let ((cache', victim), e, v2, _, kept) = lru_cache_insert-IsValid id v1 in
          let (rest, front) =
            keep_front (lru_cache_lookup (λ r. r ==ℤ id) m.cache).1.max_size id
              (lru_cache_lookup (λ r. r ==ℤ id) m.cache).1.elem_queue in
          let m' : Monitor = record {
            total_size = m.total_size + chunklen + 28;
            ocf = (m.total_size + chunklen + 28 + container_size - 1) / container_size;
            ccf = m.ccf + 1;
            cache = cache';
          } in
          (
            m',
            rw (restore_aware_update, ap (λ p. p.0) missed, e) refl,
            v2,
            contains_front id id rest m' ((==ℤ_iff id id).1 refl) (kept ∙ front),
            ground (arith, before id m none (ap (λ p. p.0) missed)),
            refl,
          )
    ]
  where
    before :
        (id : ℤ) (m : Monitor) (r : Option ℤ)
        → (lru_cache_lookup (λ r. r ==ℤ id) m.cache).0 ≡ r
        → restore_aware_contains id m ≡ is_some r
    before id m r e =
        unfold restore_aware_contains in
        ap is_some ((lru_cache_lookup_without_update_lem (λ r. r ==ℤ id) m.cache).0 ∙ e)

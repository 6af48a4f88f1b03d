-- ===== src/LruCache/Kicks.antt =====
-- lru_cache_kicks, the eviction that a caller chooses.
use destor.Base.{
  ◌≢◌, zero, suc, ℕ, ◌+◌, ◌-◌, ◌≡◌, refl, Bool, true, false, none, some, List, [], ◌∷◌, ◌++◌, arith,
  Option-cases, ◌⊎◌, inl, inr, All, length, ℤ, pos, negsuc,
}
use destor.LruCache.Defs.{LruCache, find_last, lru_cache_kicks, lru_cache_is_full}
use destor.LruCache.Invariant.{IsValid, Within, length-find_last}

-- `e` is the last element of `q` that satisfies `func`, and `rest` is `q` without it.
pub record LastHit {E : Type 0} (func : E → Bool) (q : List E) (e : E) (rest : List E)
    : Type 0 where
  pub before : List E
  pub after : List E
  pub queue : q ≡ before ++ (e ∷ after)
  pub others : rest ≡ before ++ after
  pub hits : func e ≡ true
  pub last : All (λ x. func x ≡ false) after

module _ {E : Type 0} (func : E → Bool) where
  misses_of_none : (q : List E) → find_last func q ≡ none → All (λ x. func x ≡ false) q
  unfolding find_last
  misses_of_none [] h = tt
  misses_of_none (x ∷ q) h = elim (Option-cases (find_last func q)) [
    | inl miss ↦ (ground arith, misses_of_none q miss)
    | inr ((e, rest), found) ↦ absurd (ground arith)
  ]

  find_last-LastHit :
      (q : List E) (e : E) (rest : List E)
      → find_last func q ≡ some (e, rest)
      → LastHit func q e rest
  unfolding find_last
  find_last-LastHit [] e rest h = absurd (cc)
  find_last-LastHit (x ∷ q) e rest h = elim (Option-cases (find_last func q)) [
    | inl miss ↦ record {
      before = [];
      after = q;
      queue = ground arith;
      others = ground arith;
      hits = ground arith;
      last = misses_of_none q miss;
    }
    | inr ((e', rest'), found) ↦
        let f = find_last-LastHit q e' rest' found in
        record {
          before = x ∷ f.before;
          after = f.after;
          queue = ground (arith, f.queue);
          others = ground (arith, f.others);
          hits = ground (arith, f.hits);
          last = f.last;
        }
  ]

  -- lru_cache_kicks frees the least recent element that satisfies `func` and nothing else; where
  -- no element does, the cache stays as it is.
  pub lru_cache_kicks_lem :
      (c : LruCache E)
      → (All (λ x. func x ≡ false) c.elem_queue × (lru_cache_kicks func c ≡ (none, c)))
        ⊎ ((e : E) × (rest : List E) × LastHit func c.elem_queue e rest
            × (lru_cache_kicks func c
                ≡ (some e, record c { elem_queue = rest; size = c.size - 1 })))
  unfolding lru_cache_kicks
  lru_cache_kicks_lem c = elim (Option-cases (find_last func c.elem_queue)) [
    | inl miss ↦ inl (misses_of_none c.elem_queue miss, ground arith)
    | inr ((e, rest), found) ↦
        inr (e, rest, find_last-LastHit c.elem_queue e rest found, ground arith)
  ]

  is_full_after :
      (m : ℤ) (q : List E) (s n hits misses : ℕ)
      → m ≢ pos 0
      → Within m s
      → n + 1 ≡ s
      → lru_cache_is_full
          (record { elem_queue = q; max_size = m; size = n; hit_count = hits; miss_count = misses })
        ≡ false
  unfolding lru_cache_is_full
  is_full_after (pos zero) q s n hits misses e w k = absurd (e refl)
  is_full_after (pos (suc m)) q s n hits misses e w k = ground arith
  is_full_after (negsuc m) q s n hits misses e w k = refl

  -- After a kick that freed an element, a valid cache whose `max_size` is not 0 is not full, so the
  -- next insertion evicts nothing.
  pub kicked-not-full :
      {c : LruCache E} {e : E}
      → IsValid c
      → c.max_size ≢ pos 0
      → (lru_cache_kicks func c).0 ≡ some e
      → lru_cache_is_full (lru_cache_kicks func c).1 ≡ false
  unfolding lru_cache_kicks
  kicked-not-full {c} {e} v ne h = elim (Option-cases (find_last func c.elem_queue)) [
    | inl miss ↦ absurd (ground arith)
    | inr ((e', rest), found) ↦
        let same = length-find_last func c.elem_queue e' rest found in
        rw (found, lru_cache_kicks)
          (is_full_after c.max_size rest (length c.elem_queue) (c.size - 1) c.hit_count c.miss_count
            ne v.within (omega (arith, v.counted, same)))
  ]

-- ===== src/LruCache/Order.antt =====
-- What lru_cache_lookup and lru_cache_hits find, and how they reorder the queue.
use mathlib.Core.List.{Perm, perm_middle}
use mathlib.Core.List.Perm
use destor.Base.{
  ◌≡◌, refl, Bool, true, false, none, some, List, [], ◌∷◌, ◌++◌, arith, Option-cases, Bool-cases,
  ◌⊎◌, inl, inr, All, ◌+◌, ◌↔◌,
}
use destor.LruCache.Defs.{LruCache, find_first, lru_cache_lookup, lru_cache_lookup_without_update}

-- `e` is the first element of `q` that hits, and `rest` is `q` without it.
pub record FirstHit {E : Type 0} (hit : E → Bool) (q : List E) (e : E) (rest : List E)
    : Type 0 where
  pub before : List E
  pub after : List E
  pub queue : q ≡ before ++ (e ∷ after)
  pub others : rest ≡ before ++ after
  pub hits : hit e ≡ true
  pub first : All (λ x. hit x ≡ false) before

module _ {E : Type 0} (hit : E → Bool) where
  pub find_first-FirstHit :
      (q : List E) (e : E) (rest : List E)
      → find_first hit q ≡ some (e, rest)
      → FirstHit hit q e rest
  unfolding find_first
  find_first-FirstHit [] e rest h = absurd (cc)
  find_first-FirstHit (x ∷ q) e rest h = elim (Bool-cases (hit x)) [
    | inl here ↦ record {
      before = [];
      after = q;
      queue = ground arith;
      others = ground arith;
      hits = ground arith;
      first = tt;
    }
    | inr later ↦ elim (Option-cases (find_first hit q)) [
      | inl miss ↦ absurd (ground arith)
      | inr ((e', rest'), found) ↦
          let same : e' ≡ e = ground arith in
          let tail : rest ≡ x ∷ rest' = ground arith in
          let f = find_first-FirstHit q e' rest' found in
          record {
            before = x ∷ f.before;
            after = f.after;
            queue = ground (arith, f.queue);
            others = ground (arith, f.others);
            hits = ground (arith, f.hits);
            first = (later, f.first);
          }
    ]
  ]

  misses_of_none : (q : List E) → find_first hit q ≡ none → All (λ x. hit x ≡ false) q
  unfolding find_first
  misses_of_none [] h = tt
  misses_of_none (x ∷ q) h = elim (Option-cases (find_first hit q)) [
    | inl miss ↦ (ground arith, misses_of_none q miss)
    | inr ((e, rest), found) ↦ absurd (ground arith)
  ]

  none_of_misses : (q : List E) → All (λ x. hit x ≡ false) q → find_first hit q ≡ none
  unfolding find_first
  none_of_misses [] h = refl
  none_of_misses (x ∷ q) h = rw (h.0, none_of_misses q h.1)

  pub find_first-eq-none_iff : (q : List E) → (find_first hit q ≡ none) ↔ All (λ x. hit x ≡ false) q
  find_first-eq-none_iff q = (misses_of_none q, none_of_misses q)

  -- lru_cache_lookup returns the most recent element that hits and moves it to the front, or, when
  -- no element hits, leaves the queue as it is; one counter is bumped.
  pub lru_cache_lookup_lem :
      (c : LruCache E)
      → (All (λ x. hit x ≡ false) c.elem_queue
          × (lru_cache_lookup hit c ≡ (none, record c { miss_count = c.miss_count + 1 })))
        ⊎ ((e : E) × (rest : List E) × FirstHit hit c.elem_queue e rest
            × (lru_cache_lookup hit c
                ≡ (some e, record c { elem_queue = e ∷ rest; hit_count = c.hit_count + 1 })))
  unfolding lru_cache_lookup
  lru_cache_lookup_lem c = elim (Option-cases (find_first hit c.elem_queue)) [
    | inl miss ↦ inl (misses_of_none c.elem_queue miss, ground arith)
    | inr ((e, rest), found) ↦
        inr (e, rest, find_first-FirstHit c.elem_queue e rest found, ground arith)
  ]

  -- A lookup loses no element and adds none.
  pub lru_cache_lookup-perm :
      (c : LruCache E) → Perm (lru_cache_lookup hit c).1.elem_queue c.elem_queue
  lru_cache_lookup-perm c = elim (lru_cache_lookup_lem c) [
    | inl (misses, same) ↦ rw same (Perm.refl c.elem_queue)
    | inr (e, rest, f, moved) ↦
        rw (moved, f.others, f.queue) (Perm.symm (perm_middle f.before f.after))
  ]

  -- The read that leaves the queue alone sees what lru_cache_lookup finds, before the lookup and
  -- after it.
  pub lru_cache_lookup_without_update_lem :
      (c : LruCache E)
      → (lru_cache_lookup_without_update hit c ≡ (lru_cache_lookup hit c).0)
        × (lru_cache_lookup_without_update hit (lru_cache_lookup hit c).1
            ≡ (lru_cache_lookup hit c).0)
  unfolding lru_cache_lookup_without_update lru_cache_lookup find_first
  lru_cache_lookup_without_update_lem c = elim (Option-cases (find_first hit c.elem_queue)) [
    | inl miss ↦ (ground arith, ground arith)
    | inr ((e, rest), found) ↦
        let f = find_first-FirstHit c.elem_queue e rest found in
        (ground arith, ground (arith, f.hits))
  ]

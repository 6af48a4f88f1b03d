-- ===== src/LruCache/Invariant.antt =====
-- The size counter of a cache, its bound, and the absence of the null read of lru_cache_insert.
use destor.Base.{
  ℕ, zero, suc, ◌≤◌, ◌≡◌, refl, Bool, Option, none, some, List, [], ◌∷◌, length, ℤ, pos, negsuc,
  arith, Option-cases, inl, inr, take, ◌∙◌, length-take, take_of_length-le,
}
use native.Mathlib.Decide.{ℕ_discrete}
use destor.LruCache.Defs.{
  LruCache, new_lru_cache, find_first, find_last, split_last, lru_cache_lookup, lru_cache_hits,
  must_evict, evict, lru_cache_insert, lru_cache_kicks,
}

-- What `max_size` allows: anything at 0 or below, where the cache never evicts.
abbrev pub Within : ℤ → ℕ → Type 0
Within (pos zero) n = Unit {0}
Within (pos (suc m)) n = n ≤ suc m
Within (negsuc _) n = Unit {0}

pub record IsValid {E : Type 0} (c : LruCache E) : Type 0 where
  pub counted : c.size ≡ length c.elem_queue
  pub within : Within c.max_size (length c.elem_queue)

Within-pred : (m : ℤ) (n : ℕ) → Within m (suc n) → Within m n
Within-pred (pos zero) n h = tt
Within-pred (pos (suc m)) n h = omega arith
Within-pred (negsuc m) n h = tt

module _ {E : Type 0} where
  pub length-find_first :
      (hit : E → Bool) (q : List E) (e : E) (rest : List E)
      → find_first hit q ≡ some (e, rest)
      → length q ≡ suc (length rest)
  unfolding find_first
  length-find_first hit [] e rest h = cc
  length-find_first hit (x ∷ q) e rest h = elim (Option-cases (find_first hit q)) [
    | inl miss ↦ ground (arith)
    | inr (er, found) ↦ ground (arith, length-find_first hit q er.0 er.1 found)
  ]

  pub length-find_last :
      (hit : E → Bool) (q : List E) (e : E) (rest : List E)
      → find_last hit q ≡ some (e, rest)
      → length q ≡ suc (length rest)
  unfolding find_last
  length-find_last hit [] e rest h = cc
  length-find_last hit (x ∷ q) e rest h = elim (Option-cases (find_last hit q)) [
    | inl miss ↦ ground (arith)
    | inr (er, found) ↦ ground (arith, length-find_last hit q er.0 er.1 found)
  ]

  pub split_last-take :
      (n : ℕ) (q : List E) → length q ≡ suc n → (e : E) × (split_last q ≡ some (e, take n q))
  unfolding split_last
  split_last-take n [] h = absurd (omega arith)
  split_last-take zero (x ∷ []) h = (x, refl)
  split_last-take zero (x ∷ y ∷ q) h = absurd (omega arith)
  split_last-take (suc n) (x ∷ []) h = absurd (omega arith)
  split_last-take (suc n) (x ∷ y ∷ q) h =
      let (e, p) = split_last-take n (y ∷ q) (omega arith) in (e, rw p)

module _ {E : Type 0} where
  -- A new cache is valid and empty, whatever its size.
  pub new_lru_cache-IsValid : (m : ℤ) → IsValid (new_lru_cache {E = E} m)
  unfolding new_lru_cache
  new_lru_cache-IsValid (pos zero) = record { counted = refl; within = tt }
  new_lru_cache-IsValid (pos (suc m)) = record { counted = refl; within = omega arith }
  new_lru_cache-IsValid (negsuc m) = record { counted = refl; within = tt }

  -- A lookup keeps the counter and the bound, on a hit and on a miss.
  pub lru_cache_lookup-IsValid :
      (hit : E → Bool) {c : LruCache E} → IsValid c → IsValid (lru_cache_lookup hit c).1
  unfolding lru_cache_lookup
  lru_cache_lookup-IsValid hit {c} v = elim (Option-cases (find_first hit c.elem_queue)) [
    | inl miss ↦ rw (miss, lru_cache_lookup) (record { counted = v.counted; within = v.within })
    | inr ((e, rest), found) ↦
        let same = length-find_first hit c.elem_queue e rest found in
        rw (found, lru_cache_lookup)
          (record { counted = v.counted ∙ same; within = rw same at v.within })
  ]

  pub lru_cache_hits-IsValid :
      (hit : E → Bool) {c : LruCache E} → IsValid c → IsValid (lru_cache_hits hit c).1
  unfolding lru_cache_hits
  lru_cache_hits-IsValid hit {c} v = elim (Option-cases (find_first hit c.elem_queue)) [
    | inl miss ↦ rw (miss, lru_cache_hits) v
    | inr ((e, rest), found) ↦
        let same = length-find_first hit c.elem_queue e rest found in
        rw (found, lru_cache_hits)
          (record { counted = v.counted ∙ same; within = rw same at v.within })
  ]

  pub lru_cache_kicks-IsValid :
      (func : E → Bool) {c : LruCache E} → IsValid c → IsValid (lru_cache_kicks func c).1
  unfolding lru_cache_kicks
  lru_cache_kicks-IsValid func {c} v = elim (Option-cases (find_last func c.elem_queue)) [
    | inl miss ↦ rw (miss, lru_cache_kicks) v
    | inr ((e, rest), found) ↦
        let same = length-find_last func c.elem_queue e rest found in
        rw (found, lru_cache_kicks)
          (record {
            counted = omega (arith, v.counted, same);
            within = Within-pred c.max_size (length rest) (rw same at v.within);
          })
  ]

  -- What an insertion leaves: the new element, and before it as much as `max_size` allows.
  abbrev pub keep : ℤ → List E → List E
  keep (pos zero) q = q
  keep (pos (suc m)) q = take (suc m) q
  keep (negsuc _) q = q

  pub length-keep-Within : (m : ℤ) (q : List E) → Within m (length (keep m q))
  length-keep-Within (pos zero) q = tt
  length-keep-Within (pos (suc m)) q = omega (arith, length-take (suc m) q)
  length-keep-Within (negsuc m) q = tt

  -- On explicit fields, so that `max_size` can be matched.
  insert_fields :
      (x : E) (m : ℤ) (q : List E) (s hits misses : ℕ)
      → s ≡ length q
      → Within m (length q)
      → (victim : Option E) × (lru_cache_insert x (record {
        elem_queue = q;
        max_size = m;
        size = s;
        hit_count = hits;
        miss_count = misses;
      })
          ≡ some (
            record {
              elem_queue = keep m (x ∷ q);
              max_size = m;
              size = length (keep m (x ∷ q));
              hit_count = hits;
              miss_count = misses;
            },
            victim,
          ))
  unfolding lru_cache_insert evict must_evict
  insert_fields x (pos zero) q s hits misses e w = (none, ground arith)
  insert_fields x (negsuc m) q s hits misses e w = (none, ground arith)
  insert_fields x (pos (suc m)) q s hits misses e w = elim (ℕ_discrete (length q) (suc m)) [
    | yes full ↦
        let (last, split) = split_last-take m q full in
        (some last, ground (arith, split, length-take m q))
    | no room ↦ (none, ground (arith, take_of_length-le m q, length-take m q))
  ]

  -- On a valid cache lru_cache_insert never reads a null `last`. It puts the element in front,
  -- keeps the most recent `max_size` elements, and counts what it keeps.
  pub lru_cache_insert-keep :
      (x : E) {c : LruCache E}
      → IsValid c
      → (victim : Option E) × (lru_cache_insert x c
          ≡ some (
            record c {
              elem_queue = keep c.max_size (x ∷ c.elem_queue);
              size = length (keep c.max_size (x ∷ c.elem_queue));
            },
            victim,
          ))
  lru_cache_insert-keep x {c} v =
      insert_fields x c.max_size c.elem_queue c.size c.hit_count c.miss_count v.counted v.within

  -- An insertion into a valid cache succeeds and leaves a valid cache with the element in front.
  pub lru_cache_insert-IsValid :
      (x : E) {c : LruCache E}
      → IsValid c
      → (r : LruCache E × Option E) × (lru_cache_insert x c ≡ some r)
        × IsValid r.0
        × (r.0.max_size ≡ c.max_size)
        × (r.0.elem_queue ≡ keep c.max_size (x ∷ c.elem_queue))
  lru_cache_insert-IsValid x {c} v =
      let (victim, e) = lru_cache_insert-keep x v in
      (
        (_, victim),
        e,
        record { counted = refl; within = length-keep-Within c.max_size (x ∷ c.elem_queue) },
        refl,
        refl,
      )

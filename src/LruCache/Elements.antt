-- ===== src/LruCache/Elements.antt =====
-- A property of all elements of a cache, which every operation keeps.
use destor.Base.{
  ℕ, zero, suc, ◌≡◌, Bool, true, Option, some, List, [], ◌∷◌, take, ℤ, pos, negsuc, All, All-left,
  All-right, All-append, ◌++◌, sym, Option-cases, inl, inr, arith,
}
use mathlib.Core.Option.{some_inj}
use destor.LruCache.Order.{find_first-FirstHit}
use destor.LruCache.Defs.{LruCache, find_first, lru_cache_lookup, lru_cache_hits, lru_cache_insert}
use destor.LruCache.Invariant.{IsValid, keep, lru_cache_insert-IsValid}

module _ {E : Type 0} (P : E → Type 0) where
  pub find_first-All :
      (hit : E → Bool) (q : List E) (e : E) (rest : List E)
      → find_first hit q ≡ some (e, rest)
      → All P q
      → All P (e ∷ rest) × (hit e ≡ true)
  find_first-All hit q e rest h all =
      let f = find_first-FirstHit hit q e rest h in
      let all' : All P (f.before ++ (e ∷ f.after)) = rw f.queue at all in
      let right = All-right P f.before (e ∷ f.after) all' in
      let left = All-left P f.before (e ∷ f.after) all' in
      ((right.0, rw f.others (All-append P f.before f.after left right.1)), f.hits)

  take-All : (n : ℕ) (q : List E) → All P q → All P (take n q)
  take-All zero q all = tt
  take-All (suc n) [] all = tt
  take-All (suc n) (x ∷ q) all = (all.0, take-All n q all.1)

  keep-All : (m : ℤ) (q : List E) → All P q → All P (keep m q)
  keep-All (pos zero) q all = all
  keep-All (pos (suc m)) q all = take-All (suc m) q all
  keep-All (negsuc m) q all = all

  -- Every element has the property.
  abbrev pub Each : LruCache E → Type 0
  Each c = All P c.elem_queue

  pub lru_cache_lookup-Each :
      (hit : E → Bool) (c : LruCache E)
      → Each c
      → Each (lru_cache_lookup hit c).1
        × ((e : E) → (lru_cache_lookup hit c).0 ≡ some e → P e × (hit e ≡ true))
  unfolding lru_cache_lookup
  lru_cache_lookup-Each hit c all = elim (Option-cases (find_first hit c.elem_queue)) [
    | inl miss ↦ rw (miss, lru_cache_lookup) (all, λ e h. absurd (ground (arith, h)))
    | inr ((x, rest), found) ↦
        let (kept, hits) = find_first-All hit c.elem_queue x rest found all in
        rw (found, lru_cache_lookup) (kept, λ e h. rw (sym (some_inj.0 h)) (kept.0, hits))
  ]

  pub lru_cache_hits-Each :
      (hit : E → Bool) (c : LruCache E) → Each c → Each (lru_cache_hits hit c).1
  unfolding lru_cache_hits
  lru_cache_hits-Each hit c all = elim (Option-cases (find_first hit c.elem_queue)) [
    | inl miss ↦ rw (miss, lru_cache_hits) all
    | inr ((x, rest), found) ↦
        rw (found, lru_cache_hits) (find_first-All hit c.elem_queue x rest found all).0
  ]

  -- An insertion into a valid cache of such elements succeeds and leaves such a cache.
  pub lru_cache_insert-Each :
      (x : E) {c : LruCache E}
      → IsValid c
      → Each c
      → P x
      → (r : LruCache E × Option E) × (lru_cache_insert x c ≡ some r) × IsValid r.0 × Each r.0
  lru_cache_insert-Each x {c} v all px =
      let (r, run, valid, size, queue) = lru_cache_insert-IsValid x v in
      (r, run, valid, rw queue (keep-All c.max_size (x ∷ c.elem_queue) (px, all)))

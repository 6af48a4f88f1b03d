-- ===== src/LruCache/Defs.antt =====
-- The functions of src/utils/lru_cache.c over any element type; a call returns the new cache
-- beside its result.
-- `hit_elem(elem, user_data)` is a test of elements. Elements handed to `free_elem` are returned.
use destor.Base.{
  ℕ, ◌+◌, ◌-◌, Bool, false, Option, none, some, List, [], ◌∷◌, ◌==◌, ltb, leb, ◌&&◌, if◌then◌else◌,
  ℤ, pos, negsuc,
}

-- A `max_size` below 0 is an infinite cache.
pub record LruCache (E : Type 0) : Type 0 where
  pub elem_queue : List E
  pub max_size : ℤ
  pub size : ℕ
  pub hit_count : ℕ
  pub miss_count : ℕ

unfoldable pub new_lru_cache : {E : Type 0} → ℤ → LruCache E
new_lru_cache size = record {
  elem_queue = [];
  max_size = size;
  size = 0;
  hit_count = 0;
  miss_count = 0;
}

module _ {E : Type 0} where
  -- The loop from g_list_first: the first element that hits, and the list without its link.
  unfoldable pub find_first : (E → Bool) → List E → Option (E × List E)
  find_first hit [] = none
  find_first hit (x ∷ xs) =
      if hit x
      then some (x, xs)
      else elim (find_first hit xs) [ none ↦ none | some (e, rest) ↦ some (e, x ∷ rest) ]

  -- The loop from g_list_last backwards.
  unfoldable pub find_last : (E → Bool) → List E → Option (E × List E)
  find_last func [] = none
  find_last func (x ∷ xs) = elim (find_last func xs) [
    | some (e, rest) ↦ some (e, x ∷ rest)
    | none ↦ if func x then some (x, xs) else none
  ]

  -- g_list_last and g_list_remove_link: the last element, and the list before it.
  unfoldable pub split_last : List E → Option (E × List E)
  split_last [] = none
  split_last (x ∷ xs) = elim (split_last xs) [
    | none ↦ some (x, [])
    | some (e, rest) ↦ some (e, x ∷ rest)
  ]

  unfoldable pub lru_cache_lookup : (E → Bool) → LruCache E → Option E × LruCache E
  lru_cache_lookup hit c = elim (find_first hit c.elem_queue) [
    | some (e, rest) ↦ (some e, record c { elem_queue = e ∷ rest; hit_count = c.hit_count + 1 })
    | none ↦ (none, record c { miss_count = c.miss_count + 1 })
  ]

  unfoldable pub lru_cache_lookup_without_update : (E → Bool) → LruCache E → Option E
  lru_cache_lookup_without_update hit c = elim (find_first hit c.elem_queue) [
    | some (e, rest) ↦ some e
    | none ↦ none
  ]

  unfoldable pub lru_cache_hits : (E → Bool) → LruCache E → Option E × LruCache E
  lru_cache_hits hit c = elim (find_first hit c.elem_queue) [
    | some (e, rest) ↦ (some e, record c { elem_queue = e ∷ rest })
    | none ↦ (none, c)
  ]

  -- `c->max_size > 0 && c->size == c->max_size`
  unfoldable pub must_evict : LruCache E → Bool
  must_evict c = elim (c.max_size) [ pos m ↦ ltb 0 m && (c.size == m) | negsuc _ ↦ false ]

  -- The first part of lru_cache_insert: `none` is the read through a null `last`.
  unfoldable pub evict : LruCache E → Option (LruCache E × Option E)
  evict c =
      if must_evict c
      then elim (split_last c.elem_queue) [
        | none ↦ none
        | some (e, rest) ↦ some (record c { elem_queue = rest; size = c.size - 1 }, some e)
      ]
      else some (c, none)

  -- The new cache and the victim, which has gone to `func` and to `free_elem`.
  unfoldable pub lru_cache_insert : E → LruCache E → Option (LruCache E × Option E)
  lru_cache_insert x c = elim (evict c) [
    | none ↦ none
    | some (c', victim) ↦
        some (record c' { elem_queue = x ∷ c'.elem_queue; size = c'.size + 1 }, victim)
  ]

  -- The new cache and the freed element.
  unfoldable pub lru_cache_kicks : (E → Bool) → LruCache E → Option E × LruCache E
  lru_cache_kicks func c = elim (find_last func c.elem_queue) [
    | some (e, rest) ↦ (some e, record c { elem_queue = rest; size = c.size - 1 })
    | none ↦ (none, c)
  ]

  unfoldable pub lru_cache_is_full : LruCache E → Bool
  lru_cache_is_full c = elim (c.max_size) [ pos m ↦ leb m c.size | negsuc _ ↦ false ]

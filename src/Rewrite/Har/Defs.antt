-- ===== src/Rewrite/Har/Defs.antt =====
-- har_monitor_update and close_har of src/har_rewrite.c. The two comparisons of doubles are
-- arguments: `is_sparse` of a size tells whether its share of a container is below
-- destor.rewrite_har_utilization_threshold, `exceeds` of the sizes of the sparse and of all
-- containers whether their quotient is above destor.rewrite_har_rewrite_limit where that is below
-- 1. `none` is a removal from an empty sequence, or a sum that overflows int32_t,
-- which C leaves undefined.
use destor.Base.{
  ℕ, zero, suc, ◌+◌, ◌-◌, ◌==ℤ◌, leb, ltb, ◌^◌, Bool, Option, none, some, List, [], ◌∷◌, length,
  if◌then◌else◌, ℤ, Table,
}

-- g_sequence_insert_sorted with g_record_cmp.
unfoldable pub insert_record : ℤ × ℕ → List (ℤ × ℕ) → List (ℤ × ℕ)
insert_record r [] = r ∷ []
insert_record r (x ∷ seq) = if leb x.1 r.1 then x ∷ insert_record r seq else r ∷ x ∷ seq

-- The loop over the monitor: the sequence, sparse_size and total_size.
unfoldable pub collect_sparse :
    (ℕ → Bool) → List (ℤ × ℕ) → List (ℤ × ℕ) → ℕ → ℕ → List (ℤ × ℕ) × ℕ × ℕ
collect_sparse is_sparse [] seq sparse_size total_size = (seq, sparse_size, total_size)
collect_sparse is_sparse (r ∷ records) seq sparse_size total_size =
    collect_sparse is_sparse records (if is_sparse r.1 then insert_record r seq else seq)
      (if is_sparse r.1 then sparse_size + r.1 else sparse_size) (total_size + r.1)

-- The record before the end of the sequence, and the sequence without it.
unfoldable pub remove_last : List (ℤ × ℕ) → Option ((ℤ × ℕ) × List (ℤ × ℕ))
remove_last [] = none
remove_last (x ∷ seq) = elim (remove_last seq) [
  | none ↦ some (x, [])
  | some (r, rest) ↦ some (r, x ∷ rest)
]

-- The loop that trims the sequence, with fuel.
unfoldable pub trim : (ℕ → ℕ → Bool) → ℕ → ℕ → ℕ → List (ℤ × ℕ) → Option (List (ℤ × ℕ))
trim exceeds zero sparse_size total_size seq = none
trim exceeds (suc fuel) sparse_size total_size seq = elim (remove_last seq) [
  | none ↦ if exceeds sparse_size total_size then none else some seq
  | some (r, rest) ↦
      let trimmed = trim exceeds fuel (sparse_size - r.1) total_size rest in
      if exceeds sparse_size total_size then trimmed else some seq
]

module _ (T : Table ℤ ℕ ◌==ℤ◌) where
  -- record->size, an int32_t.
  unfoldable pub har_monitor_update : ℤ → ℕ → T.Map → Option T.Map
  har_monitor_update id size monitor = elim (T.lookup id monitor) [
    | some old ↦ if ltb (old + size) (2 ^ 31) then some (T.insert id (old + size) monitor) else none
    | none ↦ if ltb (0 + size) (2 ^ 31) then some (T.insert id (0 + size) monitor) else none
  ]

  -- The lines of the file.
  unfoldable pub close_har : (ℕ → Bool) → (ℕ → ℕ → Bool) → T.Map → Option (List (ℤ × ℕ))
  close_har is_sparse exceeds monitor =
      let (seq, sparse_size, total_size) = collect_sparse is_sparse (T.entries monitor) [] 0 0 in
      trim exceeds (suc (length seq)) sparse_size total_size seq

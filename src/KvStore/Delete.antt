-- ===== src/KvStore/Delete.antt =====
-- kvstore_htable_delete: what it removes, where its assert holds.
use destor.Base.{
  ℕ, zero, suc, ◌≡◌, ◌≢◌, ◌↔◌, Bool, true, none, some, List, [], ◌∷◌, ◌++◌, arith, ℤ, Table,
  if◌then◌else◌, All, ==ℤ_iff,
}
use destor.Chunk.{temporary_id}
use destor.KvStore.Defs.{delete_id, all_deleted, kvstore_htable_delete, new_values}

-- An array whose oldest identifier is `i`: newer ones before it, free places behind it.
abbrev pub oldest : List ℤ → ℤ → ℕ → List ℤ
oldest newer i n = newer ++ (i ∷ new_values n)

-- None of the newer ones is `i` or TEMPORARY_ID.
abbrev pub Newer : ℤ → List ℤ → Type 0
Newer i newer = All (λ x. (x ≢ i) × (x ≢ temporary_id)) newer

delete_oldest :
    (newer : List ℤ) (i : ℤ) (n : ℕ)
    → Newer i newer
    → delete_id i (oldest newer i n) ≡ some (newer ++ (temporary_id ∷ new_values n))
unfolding delete_id new_values
delete_oldest [] i zero h = ground (arith, ==ℤ_iff i i)
delete_oldest [] i (suc n) h = ground (arith, ==ℤ_iff i i)
delete_oldest (x ∷ []) i n h = ground (arith, ==ℤ_iff x i, ==ℤ_iff i i, delete_oldest [] i n tt)
delete_oldest (x ∷ y ∷ newer) i n h = ground (arith, ==ℤ_iff x i, delete_oldest (y ∷ newer) i n h.1)

-- Two identifiers that are not free places.
assert_fails :
    (newer : List ℤ) (i y : ℤ) (older : List ℤ)
    → All (λ x. x ≢ i) newer
    → y ≢ temporary_id
    → delete_id i (newer ++ (i ∷ y ∷ older)) ≡ none
unfolding delete_id
assert_fails [] i y older h ne = ground (arith, ==ℤ_iff i i, ==ℤ_iff y temporary_id)
assert_fails (x ∷ []) i y older h ne = ground (arith, ==ℤ_iff x i, assert_fails [] i y older tt ne)
assert_fails (x ∷ x' ∷ newer) i y older h ne =
    ground (arith, ==ℤ_iff x i, assert_fails (x' ∷ newer) i y older h.1 ne)

module _ {K : Type 0} {eq : K → K → Bool} (eq_iff : (a b : K) → (eq a b ≡ true) ↔ (a ≡ b))
    (T : Table K (List ℤ) eq) (len : ℕ) where
  -- Deletion in FIFO order: the oldest identifier of a key becomes a free place, and the key goes
  -- with its only identifier. No other key changes.
  pub lookup-delete :
      (j k : K) (newer : List ℤ) (i : ℤ) (n : ℕ) (t : T.Map)
      → Newer i newer
      → T.lookup j t ≡ some (oldest newer i n)
      → (t' : T.Map) × (kvstore_htable_delete T len j i t ≡ some t')
        × (T.lookup k t' ≡ (
            if eq j k
            then elim newer [
              | [] ↦ none
              | x ∷ xs ↦ some (x ∷ (xs ++ (temporary_id ∷ new_values n)))
            ]
            else T.lookup k t))
  unfolding kvstore_htable_delete all_deleted
  lookup-delete j k [] i n t h e =
      (T.remove j t, ground (arith, delete_oldest [] i n h), T.lookup-remove k j t)
  lookup-delete j k (x ∷ newer) i n t h e =
      let value = x ∷ (newer ++ (temporary_id ∷ new_values n)) in
      (
        T.insert j value t,
        ground (arith, delete_oldest (x ∷ newer) i n h, ==ℤ_iff x temporary_id),
        T.lookup-insert k j value t,
      )

  -- Out of FIFO order, with an older identifier still behind it, the assert fails.
  pub delete_out_of_order :
      (j : K) (newer : List ℤ) (i y : ℤ) (older : List ℤ) (t : T.Map)
      → All (λ x. x ≢ i) newer
      → y ≢ temporary_id
      → T.lookup j t ≡ some (newer ++ (i ∷ y ∷ older))
      → kvstore_htable_delete T len j i t ≡ none
  unfolding kvstore_htable_delete
  delete_out_of_order j newer i y older t h ne e = ground (arith, assert_fails newer i y older h ne)

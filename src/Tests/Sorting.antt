-- ===== src/Tests/Sorting.antt =====
-- A sort by insertion, as one that g_sequence_sort of GLib may be.
use mathlib.Core.List.{Perm}
use mathlib.Core.List.Perm
use destor.Base.{
  ℕ, ◌≡◌, Bool, true, ◌||◌, List, [], ◌∷◌, if◌then◌else◌, ℤ, All, Bool-cases, inl, inr, arith,
}
use destor.Rewrite.Capping.{Ordered, Sorting}

module _ (before : ℤ × ℕ → ℤ × ℕ → Bool) where
  abbrev insert : ℤ × ℕ → List (ℤ × ℕ) → List (ℤ × ℕ)
  insert r [] = r ∷ []
  insert r (s ∷ records) =
      let rest = insert r records in if before r s then r ∷ s ∷ records else s ∷ rest

  abbrev sorted : List (ℤ × ℕ) → List (ℤ × ℕ)
  sorted [] = []
  sorted (r ∷ records) = insert r (sorted records)

  insert-Perm : (r : ℤ × ℕ) (l : List (ℤ × ℕ)) → Perm (insert r l) (r ∷ l)
  insert-Perm r [] = Perm.refl (r ∷ [])
  insert-Perm r (s ∷ l) = elim (Bool-cases (before r s)) [
    | inl t ↦ rw t (Perm.refl (r ∷ s ∷ l))
    | inr f ↦ rw f (Perm.trans (Perm.cons s (insert-Perm r l)) (Perm.swap r s l))
  ]

  pub sorted-Perm : (l : List (ℤ × ℕ)) → Perm (sorted l) l
  sorted-Perm [] = Perm.refl []
  sorted-Perm (r ∷ l) = Perm.trans (insert-Perm r (sorted l)) (Perm.cons r (sorted-Perm l))

  insert-All :
      (s r : ℤ × ℕ) (l : List (ℤ × ℕ))
      → before s r ≡ true
      → All (λ x. before s x ≡ true) l
      → All (λ x. before s x ≡ true) (insert r l)
  insert-All s r [] h all = (h, tt)
  insert-All s r (x ∷ l) h all = elim (Bool-cases (before r x)) [
    | inl t ↦ rw t (h, all)
    | inr f ↦ rw f (all.0, insert-All s r l h all.1)
  ]

  module _ (total : (r s : ℤ × ℕ) → (before r s || before s r) ≡ true)
      (chain : (r s t : ℤ × ℕ) → before r s ≡ true → before s t ≡ true → before r t ≡ true) where
    follow :
        (r s : ℤ × ℕ) (l : List (ℤ × ℕ))
        → before r s ≡ true
        → All (λ x. before s x ≡ true) l
        → All (λ x. before r x ≡ true) l
    follow r s [] h all = tt
    follow r s (x ∷ l) h all = (chain r s x h all.0, follow r s l h all.1)

    insert-Ordered : (r : ℤ × ℕ) (l : List (ℤ × ℕ)) → Ordered before l → Ordered before (insert r l)
    insert-Ordered r [] h = (tt, tt)
    insert-Ordered r (s ∷ l) h = elim (Bool-cases (before r s)) [
      | inl t ↦ rw t ((t, follow r s l t h.0), h)
      | inr f ↦ rw f (insert-All s r l (ground (arith, f, total r s)) h.0, insert-Ordered r l h.1)
    ]

    pub sorted-Ordered : (l : List (ℤ × ℕ)) → Ordered before (sorted l)
    sorted-Ordered [] = tt
    sorted-Ordered (r ∷ l) = insert-Ordered r (sorted l) (sorted-Ordered l)

abbrev pub insertion : Sorting
insertion = record {
  sort = sorted;
  sort-Perm = sorted-Perm;
  sort-Ordered = λ before records total chain. sorted-Ordered before total chain records;
}

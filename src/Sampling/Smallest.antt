-- ===== src/Sampling/Smallest.antt =====
-- The bounded sorted list of src/index/sampling_method.c holds the smallest elements.
use mathlib.Core.List.{Perm, perm_middle}
use mathlib.Core.List.Perm
use destor.Base.{
  ℕ, zero, suc, ◌≡◌, ◌≢◌, ◌≤◌, refl, sym, ap, ◌∙◌, ltb, false, none, some, List, [], ◌∷◌, ◌++◌,
  length, take, take_of_length-le, take-append, length-take, Bool-cases, Option-cases, inl, inr,
  arith,
}
use destor.Sampling.Defs.{insert_sorted, last_of, offer}

module _ {A : Type 0} (key : A → ℕ) where
  abbrev pub Sorted : List A → Type 0
  Sorted [] = Unit {0}
  Sorted (x ∷ []) = Unit {0}
  Sorted (x ∷ y ∷ l) = (key x ≤ key y) × Sorted (y ∷ l)

  Sorted-tail : (x : A) (l : List A) → Sorted (x ∷ l) → Sorted l
  Sorted-tail x [] s = tt
  Sorted-tail x (y ∷ l) s = s.1

  pub insert_sorted-Sorted : (x : A) (l : List A) → Sorted l → Sorted (insert_sorted key x l)
  unfolding insert_sorted
  insert_sorted-Sorted x [] s = tt
  insert_sorted-Sorted x (y ∷ []) s = elim (Bool-cases (ltb (key x) (key y))) [
    | inl lt ↦ rw lt (ground arith, tt)
    | inr ge ↦ rw ge (ground arith, tt)
  ]
  insert_sorted-Sorted x (y ∷ z ∷ l) s = elim (Bool-cases (ltb (key x) (key y))) [
    | inl lt ↦ rw lt (ground arith, s)
    | inr ge ↦ elim (Bool-cases (ltb (key x) (key z))) [
      | inl lt ↦ rw (ge, lt) (ground arith, (ground arith, s.1))
      | inr ge' ↦ rw (ge, ge') (s.0, rw ge' at (insert_sorted-Sorted x (z ∷ l) s.1))
    ]
  ]

  take-Sorted : (n : ℕ) (l : List A) → Sorted l → Sorted (take n l)
  take-Sorted zero l s = tt
  take-Sorted (suc n) [] s = tt
  take-Sorted (suc zero) (x ∷ l) s = tt
  take-Sorted (suc (suc n)) (x ∷ []) s = tt
  take-Sorted (suc (suc n)) (x ∷ y ∷ l) s = (s.0, take-Sorted (suc n) (y ∷ l) s.1)

  length-insert_sorted : (x : A) (l : List A) → length (insert_sorted key x l) ≡ suc (length l)
  unfolding insert_sorted
  length-insert_sorted x [] = refl
  length-insert_sorted x (y ∷ l) = ground (arith, length-insert_sorted x l)

  pub take-take : (m n : ℕ) (l : List A) → m ≤ n → take m (take n l) ≡ take m l
  take-take zero n l le = refl
  take-take (suc m) zero l le = absurd (omega arith)
  take-take (suc m) (suc n) [] le = refl
  take-take (suc m) (suc n) (x ∷ l) le = ap (◌∷◌ x) (take-take m n l (omega arith))

  take-cons : (n : ℕ) (x : A) (l : List A) → take n (x ∷ take n l) ≡ take n (x ∷ l)
  take-cons zero x l = refl
  take-cons (suc n) x l = ap (◌∷◌ x) (take-take n (suc n) l (omega arith))

  -- Of what is inserted into only the first elements matter.
  take-insert_sorted :
      (n : ℕ) (x : A) (l : List A)
      → take n (insert_sorted key x (take n l)) ≡ take n (insert_sorted key x l)
  unfolding insert_sorted
  take-insert_sorted zero x l = refl
  take-insert_sorted (suc n) x [] = refl
  take-insert_sorted (suc n) x (y ∷ l) = elim (Bool-cases (ltb (key x) (key y))) [
    | inl lt ↦ rw lt (ap (◌∷◌ x) (take-cons n y l))
    | inr ge ↦ rw ge (ap (◌∷◌ y) (take-insert_sorted n x l))
  ]

  head_le_last : (x y : A) (l : List A) → Sorted (x ∷ l) → last_of (x ∷ l) ≡ some y → key x ≤ key y
  head_le_last x y [] s e = ground (arith, e)
  head_le_last x y (z ∷ l) s e = omega (arith, s.0, head_le_last z y l s.1 e)

  insert_sorted-last :
      (x y : A) (l : List A)
      → Sorted l
      → last_of l ≡ some y
      → ltb (key x) (key y) ≡ false
      → insert_sorted key x l ≡ l ++ (x ∷ [])
  unfolding insert_sorted
  insert_sorted-last x y [] s e ge = absurd (ground (arith, e))
  insert_sorted-last x y (z ∷ []) s e ge = ground (arith, e)
  insert_sorted-last x y (z ∷ w ∷ l) s e ge =
      ground (arith, head_le_last z y (w ∷ l) s e, insert_sorted-last x y (w ∷ l) s.1 e ge)

  some_last : (x : A) (l : List A) → (y : A) × (last_of (x ∷ l) ≡ some y)
  some_last x [] = (x, refl)
  some_last x (y ∷ l) = some_last y l

  not_empty : (l : List A) → 1 ≤ length l → last_of l ≢ none
  not_empty [] le e = omega arith
  not_empty (x ∷ l) le e = ground (arith, e, (some_last x l).1)

  -- On a sorted list of at most `n` elements, an offer is an insertion cut to `n` elements.
  offer_lem :
      (n : ℕ) (x : A) (l : List A)
      → 1 ≤ n
      → Sorted l
      → length l ≤ n
      → offer key n x l ≡ take n (insert_sorted key x l)
  unfolding offer
  offer_lem n x l pos s le = elim (Bool-cases (ltb (length l) n)) [
    | inl room ↦
        ground (arith, room, length-insert_sorted x l, take_of_length-le n (insert_sorted key x l))
    | inr full ↦ elim (Option-cases (last_of l)) [
      | inl empty ↦ absurd (not_empty l (ground (arith, full, pos)) empty)
      | inr (y, last) ↦ elim (Bool-cases (ltb (key x) (key y))) [
        | inl lt ↦ ground (arith, full, last, lt, length-insert_sorted x l, le)
        | inr ge ↦
            ground (arith, full, last, ge)
            ∙ sym (
                ap (take n) (insert_sorted-last x y l s last ge)
                ∙ take-append n l (x ∷ []) (ground (arith, full, le)))
      ]
    ]
  ]

  pub offer-take :
      (n : ℕ) (x : A) (l : List A)
      → 1 ≤ n
      → Sorted l
      → offer key n x (take n l) ≡ take n (insert_sorted key x l)
  offer-take n x l pos s =
      offer_lem n x (take n l) pos (take-Sorted n l s) (omega (arith, length-take n l))
      ∙ take-insert_sorted n x l

  -- Insertion sort, as a reference.
  abbrev pub sort_into : List A → List A → List A
  sort_into l [] = l
  sort_into l (x ∷ xs) = sort_into (insert_sorted key x l) xs

  insert_sorted-perm : (x : A) (l : List A) → Perm (insert_sorted key x l) (x ∷ l)
  unfolding insert_sorted
  insert_sorted-perm x [] = Perm.refl (x ∷ [])
  insert_sorted-perm x (y ∷ l) = elim (Bool-cases (ltb (key x) (key y))) [
    | inl lt ↦ rw lt (Perm.refl (x ∷ y ∷ l))
    | inr ge ↦ rw ge (Perm.trans (Perm.cons y (insert_sorted-perm x l)) (Perm.swap x y l))
  ]

  pub sort_into-Sorted : (l xs : List A) → Sorted l → Sorted (sort_into l xs)
  sort_into-Sorted l [] s = s
  sort_into-Sorted l (x ∷ xs) s =
      sort_into-Sorted (insert_sorted key x l) xs (insert_sorted-Sorted x l s)

  pub sort_into-perm : (l xs : List A) → Perm (sort_into l xs) (xs ++ l)
  sort_into-perm l [] = Perm.refl l
  sort_into-perm l (x ∷ xs) =
      Perm.trans (sort_into-perm (insert_sorted key x l) xs)
        (Perm.trans (Perm.append_left xs (insert_sorted-perm x l)) (perm_middle xs l))

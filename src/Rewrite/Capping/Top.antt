-- ===== src/Rewrite/Capping/Top.antt =====
-- Which containers cap_segment_get_top chooses, and which containers a buffer tells apart.
use mathlib.Core.Path.{subst}
use mathlib.Core.List.{Perm}
use destor.Base.{
  ℕ, zero, suc, ◌%◌, ◌^◌, ◌≤◌, ◌≡◌, ◌∙◌, refl, ap, sym, Bool, true, false, ◌&&◌, List, [], ◌∷◌,
  ◌++◌, length, map, arith, ℤ, pos, negsuc, ◌==ℤ◌, ==ℤ_iff, ==_iff, ltb, is_some, All, All-right,
  ◌⊎◌, inl, inr, Bool-cases,
}
use destor.Chunk.{Chunk}
use destor.Rewrite.Defs.{RewriteBuffer, same_record}
use destor.Rewrite.Records.{Exact, recorded, total}
use destor.Rewrite.Capping.Defs.{Sorting, Ordered, descmp_by_length, top_ids, cap_segment_get_top}

top_ids_lem :
    (level : ℕ) (records : List (ℤ × ℕ))
    → (chosen others : List (ℤ × ℕ)) × (chosen ++ others ≡ records)
      × (top_ids level records ≡ map (λ r. r.0) chosen)
      × (length chosen ≤ level)
      × ((others ≡ []) ⊎ (length chosen ≡ level))
unfolding top_ids
top_ids_lem zero records = ([], records, refl, refl, omega arith, inr refl)
top_ids_lem (suc level) [] = ([], [], refl, refl, omega arith, inl refl)
top_ids_lem (suc level) (r ∷ records) =
    let (chosen, others, joined, top, few, all) = top_ids_lem level records in
    (
      r ∷ chosen,
      others,
      ap (λ l. r ∷ l) joined,
      ap (λ l. r.0 ∷ l) top,
      omega (arith, few),
      elim all [ inl none_left ↦ inl none_left | inr full ↦ inr (omega (arith, full)) ],
    )

-- Every chosen record is at least as long as every other.
abbrev pub Longest : List (ℤ × ℕ) → List (ℤ × ℕ) → Type 0
Longest chosen others = All (λ r. All (λ s. s.1 ≤ r.1) others) chosen

no_longer :
    (r : ℤ × ℕ) (records : List (ℤ × ℕ))
    → All (λ s. descmp_by_length r s ≡ true) records
    → All (λ s. s.1 ≤ r.1) records
unfolding descmp_by_length
no_longer r [] h = tt
no_longer r (s ∷ records) h = (ground (arith, h.0), no_longer r records h.1)

Ordered-Longest :
    (chosen others : List (ℤ × ℕ))
    → Ordered descmp_by_length (chosen ++ others)
    → Longest chosen others
Ordered-Longest [] others h = tt
Ordered-Longest (r ∷ chosen) others h = (
  no_longer r others (All-right (λ s. descmp_by_length r s ≡ true) chosen others h.0),
  Ordered-Longest chosen others h.1,
)

-- The containers chosen are those of the longest records.
pub cap_segment_get_top_lem :
    (G : Sorting) (level : ℕ) (b : RewriteBuffer)
    → (chosen others : List (ℤ × ℕ)) × Perm (chosen ++ others) b.container_records
      × (cap_segment_get_top G level b ≡ map (λ r. r.0) chosen)
      × (length chosen ≤ level)
      × ((others ≡ []) ⊎ (length chosen ≡ level))
      × Longest chosen others
unfolding cap_segment_get_top descmp_by_length
cap_segment_get_top_lem G level b =
    let sorted = G.sort descmp_by_length b.container_records in
    let (chosen, others, joined, top, few, all) = top_ids_lem level sorted in
    let ordered =
      G.sort-Ordered descmp_by_length b.container_records (λ r s. ground arith)
        (λ r s t before after. ground (arith, before, after)) in
    (
      chosen,
      others,
      subst (λ l. Perm l b.container_records) (sym joined)
          (G.sort-Perm descmp_by_length b.container_records),
      top,
      few,
      all,
      Ordered-Longest chosen others (subst (Ordered descmp_by_length) (sym joined) ordered),
    )

-- Numbers of containers whose differences fit into a gint.
abbrev pub is_near : ℤ → Bool
is_near (pos n) = ltb n (2 ^ 31)
is_near (negsuc n) = false

abbrev pub Near : Chunk → Type 0
Near c = recorded c ≡ true → is_near c.id ≡ true

total-is_near :
    (i : ℤ) (queue : List Chunk)
    → All Near queue
    → is_some (total i queue) ≡ true
    → is_near i ≡ true
total-is_near i [] h there = absurd (ground (arith, there))
total-is_near i (q ∷ queue) h there = elim (Bool-cases (recorded q && (q.id ==ℤ i))) [
  | inr other ↦ total-is_near i queue h.1 (ground (arith, there, other))
  | inl here ↦
      let same : q.id ≡ i = (==ℤ_iff q.id i).0 (ground (arith, here)) in
      ap is_near (sym same) ∙ h.0 (ground (arith, here))
]

near_apart : (i j : ℤ) → is_near i ≡ true → is_near j ≡ true → same_record i j ≡ true → i ≡ j
unfolding same_record
near_apart (pos m) (pos n) hi hj same =
    let equal : m % 2 ^ 32 ≡ n % 2 ^ 32 = (==_iff (m % 2 ^ 32) (n % 2 ^ 32)).0 same in
    ap pos (ground (arith, hi, hj, equal))
near_apart (pos m) (negsuc n) hi hj same = absurd (ground (arith, hj))
near_apart (negsuc m) j hi hj same = absurd (ground (arith, hi))

pub Near-Exact : (queue : List Chunk) → All Near queue → Exact queue
Near-Exact queue h i j there there' same =
    near_apart i j (total-is_near i queue h there) (total-is_near j queue h there') same

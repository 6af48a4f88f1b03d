-- ===== src/Sampling/Candidates.antt =====
-- What the first loops of index_sampling_min and index_sampling_optimized_min choose.
use mathlib.Core.List.{Perm}
use destor.Base.{
  ℕ, zero, suc, ◌≡◌, ◌≤◌, refl, ◌∙◌, some, List, [], ◌∷◌, ◌++◌, length, take, Bool-cases, inl, inr,
  arith, min, get_elem?, replicate, append-nil,
}
use destor.Chunk.{Chunk, Fingerprint, is_file_mark}
use destor.Index.Buffer.{fingerprints}
use destor.Sampling.Defs.{insert_sorted, min_candidates, Anchor, select_anchors, all_ones}
use destor.Sampling.Smallest.{
  Sorted, sort_into, sort_into-Sorted, sort_into-perm, offer-take, insert_sorted-Sorted, take-take,
}

min_candidates-take :
    (n : ℕ) (cs : List Chunk) (l : List Fingerprint)
    → 1 ≤ n
    → Sorted (λ f. f) l
    → min_candidates n cs (take n l) ≡ take n (sort_into (λ f. f) l (fingerprints cs))
unfolding min_candidates
min_candidates-take n [] l pos s = refl
min_candidates-take n (c ∷ cs) l pos s = elim (Bool-cases (is_file_mark c)) [
  | inl mark ↦ rw mark (min_candidates-take n cs l pos s)
  | inr normal ↦
      rw (normal, offer-take (λ f. f) n c.fp l pos s)
        (min_candidates-take n cs (insert_sorted (λ f. f) c.fp l) pos
          (insert_sorted-Sorted (λ f. f) c.fp l s))
]

-- index_sampling_min keeps the `n` smallest of the fingerprints, file marks apart, in order.
pub min_candidates-smallest :
    (n : ℕ) (cs : List Chunk)
    → 1 ≤ n
    → (all : List Fingerprint) × Perm all (fingerprints cs)
      × Sorted (λ f. f) all
      × (min_candidates n cs [] ≡ take n all)
min_candidates-smallest n cs pos = (
  sort_into (λ f. f) [] (fingerprints cs),
  rw (append-nil (fingerprints cs)) at (sort_into-perm (λ f. f) [] (fingerprints cs)),
  sort_into-Sorted (λ f. f) [] (fingerprints cs) tt,
  start n ∙ min_candidates-take n cs [] pos tt,
)
  where
    start : (n : ℕ) → min_candidates n cs [] ≡ min_candidates n cs (take n [])
    start zero = refl
    start (suc n) = refl

-- The fingerprint so many places before one, or the first: `ps` are those before it, newest first.
abbrev pub back : ℕ → Fingerprint → List Fingerprint → Fingerprint
back zero f ps = f
back (suc n) f [] = f
back (suc n) f (g ∷ ps) = back n g ps

-- Each fingerprint with the one eight places before it, or the first.
abbrev pub anchors_of : List Fingerprint → List Fingerprint → List Anchor
anchors_of ps [] = []
anchors_of ps (f ∷ fs) = record { anchor = f; candidate = back 8 f ps } ∷ anchors_of (f ∷ ps) fs

back-window :
    (k : ℕ) (f : Fingerprint) (ps pad : List Fingerprint)
    → get_elem? (take (suc k) (f ∷ (ps ++ pad))) (min (length ps) k) ≡ some (back k f ps)
back-window zero f ps pad = ground arith
back-window (suc k) f [] pad = ground arith
back-window (suc k) f (g ∷ ps) pad = ground (arith, back-window k g ps pad)

select_anchors-take :
    (n : ℕ) (cs : List Chunk) (ps : List Fingerprint) (l : List Anchor)
    → 1 ≤ n
    → Sorted (λ a. a.anchor) l
    → select_anchors n cs (take 9 (ps ++ replicate 9 all_ones)) (length ps) (take n l)
      ≡ some (take n (sort_into (λ a. a.anchor) l (anchors_of ps (fingerprints cs))))
unfolding select_anchors
select_anchors-take n [] ps l pos s = refl
select_anchors-take n (c ∷ cs) ps l pos s = elim (Bool-cases (is_file_mark c)) [
  | inl mark ↦ ground (arith, mark, select_anchors-take n cs ps l pos s)
  | inr normal ↦
      let a : Anchor = record { anchor = c.fp; candidate = back 8 c.fp ps } in
      ground (
        arith,
        normal,
        take-take (λ f. f) 8 9 (ps ++ replicate 9 all_ones) (omega arith),
        back-window 8 c.fp ps (replicate 9 all_ones),
        offer-take (λ a. a.anchor) n a l pos s,
        select_anchors-take n cs (c.fp ∷ ps) (insert_sorted (λ a. a.anchor) a l) pos
            (insert_sorted-Sorted (λ a. a.anchor) a l s),
      )
]

-- The loop of index_sampling_optimized_min reads its window at no undefined place. It keeps the
-- anchors of the `n` smallest fingerprints, file marks apart, each with the fingerprint eight
-- places before it, or with the first of all where there are fewer.
pub select_anchors-smallest :
    (n : ℕ) (cs : List Chunk)
    → 1 ≤ n
    → (all : List Anchor) × Perm all (anchors_of [] (fingerprints cs))
      × Sorted (λ a. a.anchor) all
      × (select_anchors n cs (replicate 9 all_ones) 0 [] ≡ some (take n all))
select_anchors-smallest n cs pos = (
  sort_into (λ a. a.anchor) [] (anchors_of [] (fingerprints cs)),
  rw (append-nil (anchors_of [] (fingerprints cs))) at
      (sort_into-perm (λ a. a.anchor) [] (anchors_of [] (fingerprints cs))),
  sort_into-Sorted (λ a. a.anchor) [] (anchors_of [] (fingerprints cs)) tt,
  start n ∙ select_anchors-take n cs [] [] pos tt,
)
  where
    start :
        (n : ℕ)
        → select_anchors n cs (replicate 9 all_ones) 0 []
          ≡ select_anchors n cs (take 9 ([] ++ replicate 9 all_ones)) 0 (take n [])
    start zero = refl
    start (suc n) = refl

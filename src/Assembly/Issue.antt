-- ===== src/Assembly/Issue.antt =====
-- assemble_area: it takes some settled chunks off the front of the area, in order.
use destor.Base.{
  ℕ, suc, ◌+◌, ◌-◌, ◌<◌, ◌≤◌, ◌≡◌, refl, sym, ap, ap₂, ◌∙◌, true, false, Option, some, List, [],
  ◌∷◌, ◌++◌, arith, if◌then◌else◌, Bool-cases, inl, inr, length, append_assoc,
}
use destor.Chunk.{Chunk, is_file_mark}
use destor.Assembly.Defs.{
  Reader, AssemblyArea, split_marks, issue, is_nil, assemble_rest, assemble_area,
}
use destor.Assembly.Fill.{settled, AllPlaced, fill_all_first}

module _ (R : Reader) (level : ℕ) where
  -- `q` comes out, `left` stays.
  abbrev pub Splits : List Chunk → List Chunk → List Chunk → Type 0
  Splits q left os = (rest : List Chunk) × (os ≡ q ++ rest) × AllPlaced R level left rest

  issue-Splits :
      (size : ℕ) (cs os : List Chunk)
      → AllPlaced R level cs os
      → Splits (issue size cs).0 (issue size cs).1 os × (length (issue size cs).1 ≤ length cs)
  unfolding issue
  issue-Splits size [] [] h = (([], refl, tt), omega arith)
  issue-Splits size [] (o ∷ os) h = absurd h
  issue-Splits size (c ∷ cs) [] h = absurd h
  issue-Splits size (c ∷ cs) (o ∷ os) h =
      let size' = if is_file_mark c then size else size - c.size in
      let ((rest, e, p), n) = issue-Splits size' cs os h.1 in
      elim (Bool-cases (settled c)) [
        | inl s ↦ rw s ((rest, ap₂ ◌∷◌ (sym (h.0.done s)) e, p), omega (arith, n))
        | inr s ↦ rw s ((o ∷ os, refl, h), omega arith)
      ]

  -- The marks in front go out, and a chunk that is no mark comes first in what is behind them.
  split_marks-Splits :
      (cs os : List Chunk)
      → AllPlaced R level cs os
      → Splits (split_marks cs).0 (split_marks cs).1 os
        × (length (split_marks cs).0 + length (split_marks cs).1 ≡ length cs)
  unfolding split_marks
  split_marks-Splits [] [] h = (([], refl, tt), refl)
  split_marks-Splits [] (o ∷ os) h = absurd h
  split_marks-Splits (c ∷ cs) [] h = absurd h
  split_marks-Splits (c ∷ cs) (o ∷ os) h =
      let ((rest, e, p), n) = split_marks-Splits cs os h.1 in
      elim (Bool-cases (is_file_mark c)) [
        | inl m ↦ rw m ((rest, ap₂ ◌∷◌ (sym (mark_stays m)) e, p), omega (arith, n))
        | inr m ↦ rw m ((o ∷ os, refl, h), omega arith)
      ]
    where
      mark_stays : is_file_mark c ≡ true → c ≡ o
      mark_stays m = h.0.done (rw m refl)

  -- With a settled chunk in front, something is issued.
  issue_first :
      (size : ℕ) (c : Chunk) (cs os : List Chunk)
      → AllPlaced R level (c ∷ cs) os
      → settled c ≡ true
      → length (issue size (c ∷ cs)).1 ≤ length cs
  unfolding issue
  issue_first size c cs [] h s = absurd h
  issue_first size c cs (o ∷ os) h s =
      let size' = if is_file_mark c then size else size - c.size in
      rw s ((issue-Splits size' cs os h.1).1)

  -- What a call returns: a queue of filled chunks, in order, and an area with fewer chunks.
  abbrev Issues : Option (Option (List Chunk) × AssemblyArea) → ℕ → List Chunk → Type 0
  Issues result n os =
      (q : List Chunk) × (a' : AssemblyArea) × (result ≡ some (some q, a'))
      × Splits q a'.area os
      × (length a'.area < n)

  assemble_rest-Splits :
      (a : AssemblyArea) (marks left rest os : List Chunk) (n : ℕ)
      → os ≡ marks ++ rest
      → AllPlaced R level left rest
      → length marks + length left ≡ suc n
      → Issues (assemble_rest R level a marks left) (suc n) os
  unfolding assemble_rest
  assemble_rest-Splits a marks [] rest os n split p k =
      (marks, record a { area = [] }, refl, (rest, split, p), omega arith)
  assemble_rest-Splits a marks (b ∷ left) rest os n split p k =
      let (b', filled, f, ps, s, same) = fill_all_first R level b left rest p in
      let ((rest', split', ps'), _) = issue-Splits a.size (b' ∷ filled) rest ps in
      let (q, kept, size) = issue a.size (b' ∷ filled) in
      (
        marks ++ q,
        record a { area = kept; size = size },
        rw (assemble_rest, f) refl,
        (rest', split ∙ ap (λ t. marks ++ t) split' ∙ sym (append_assoc marks q rest'), ps'),
        omega (arith, k, same, issue_first a.size b' filled rest ps s),
      )

  -- A call on an area with chunks returns some of them filled, in order, and leaves fewer.
  pub assemble_area-Splits :
      (a : AssemblyArea) (os : List Chunk)
      → is_nil a.area ≡ false
      → AllPlaced R level a.area os
      → Issues (assemble_area R level a) (length a.area) os
  unfolding assemble_area is_nil
  assemble_area-Splits a os some_chunk h =
      let ((rest, split, p), n) = split_marks-Splits a.area os h in
      let k : length a.area ≡ suc (length a.area - 1) = longer a.area some_chunk in
      let (q, a', e, sp, less) =
        assemble_rest-Splits a (split_marks a.area).0 (split_marks a.area).1 rest os
          (length a.area - 1) split p (n ∙ k) in
      (q, a', rw some_chunk e, sp, omega (arith, k, less))
    where
      longer : (cs : List Chunk) → is_nil cs ≡ false → length cs ≡ suc (length cs - 1)
      longer [] e = absurd (ground arith)
      longer (c ∷ cs) e = omega arith

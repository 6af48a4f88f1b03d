-- ===== src/Assembly/Stream.antt =====
-- assembly_restore_thread: the chunks that go on to the restore, for a whole recipe.
use mathlib.Core.Option
use mathlib.Core.Option.{some_inj}
use destor.Base.{
  ℕ, zero, suc, ◌<◌, ◌≡◌, refl, sym, ap, ◌∙◌, true, false, ◌||◌, not, Option, none, some, List, [],
  ◌∷◌, ◌++◌, arith, Bool-cases, Option-cases, inl, inr, length, append_assoc, append-nil, All, leb,
}
use destor.Chunk.{Chunk, is_file_mark}
use destor.Assembly.Defs.{
  Reader, AssemblyArea, is_nil, init_assembly_area, assemble_area, assembly_area_push, send,
  restore_loop, drain, assembly_restore,
}
use destor.Assembly.Fill.{settled, own, own_mark, Placed, AllPlaced}
use destor.Assembly.Issue.{assemble_area-Splits}

-- The reference: every chunk read on its own, in the order of the recipe.
abbrev pub chunk_by_chunk : (R : Reader) → ℕ → List Chunk → Option (List Chunk)
chunk_by_chunk R level [] = some []
chunk_by_chunk R level (c ∷ recipe) = elim (own R level c) [
  | none ↦ none
  | some o ↦ Option.map (◌∷◌ o) (chunk_by_chunk R level recipe)
]

send-append :
    (level : ℕ) (xs ys : List Chunk) → send level (xs ++ ys) ≡ send level xs ++ send level ys
unfolding send
send-append level [] ys = refl
send-append level (x ∷ xs) ys = elim (Bool-cases (is_file_mark x || not (leb 1 level))) [
  | inl s ↦ rw s (ap (◌∷◌ x) (send-append level xs ys))
  | inr s ↦ rw s (send-append level xs ys)
]

module _ (R : Reader) (level : ℕ) where
  push-AllPlaced :
      (cs os : List Chunk) (c o : Chunk)
      → AllPlaced R level cs os
      → Placed R level c o
      → AllPlaced R level (cs ++ (c ∷ [])) (os ++ (o ∷ []))
  push-AllPlaced [] [] c o h p = (p, tt)
  push-AllPlaced [] (o' ∷ os) c o h p = absurd h
  push-AllPlaced (c' ∷ cs) [] c o h p = absurd h
  push-AllPlaced (c' ∷ cs) (o' ∷ os) c o h p = (h.0, push-AllPlaced cs os c o h.1 p)

  -- What a push leaves: the chunk at the end of the area.
  pushed : (c : Chunk) (a : AssemblyArea) → (assembly_area_push c a).1.area ≡ a.area ++ (c ∷ [])
  unfolding assembly_area_push
  pushed c a = elim (Bool-cases (is_file_mark c)) [ inl m ↦ rw m refl | inr m ↦ rw m refl ]

  some_chunk : (cs : List Chunk) (c : Chunk) → is_nil (cs ++ (c ∷ [])) ≡ false
  unfolding is_nil
  some_chunk [] c = refl
  some_chunk (c' ∷ cs) c = refl

  -- The loop over the recipe: what it sent and what is still in its area are all there is, in order.
  restore_loop_lem :
      (recipe outs : List Chunk) (a : AssemblyArea) (os : List Chunk)
      → AllPlaced R level recipe outs
      → AllPlaced R level a.area os
      → (sent : List Chunk) × (a' : AssemblyArea) × (rest : List Chunk) × (restore_loop R level
            recipe a
          ≡ some (sent, a'))
        × (send level (os ++ outs) ≡ sent ++ send level rest)
        × AllPlaced R level a'.area rest
  unfolding restore_loop
  restore_loop_lem [] [] a os r h = ([], a, os, refl, ap (send level) (append-nil os), h)
  restore_loop_lem [] (o ∷ outs) a os r h = absurd r
  restore_loop_lem (c ∷ recipe) [] a os r h = absurd r
  restore_loop_lem (c ∷ recipe) (o ∷ outs) a os r h = elim (Bool-cases (assembly_area_push c a).0) [
    | inr room ↦
        let (sent, a', rest, e, split, p) = restore_loop_lem recipe outs a1 os1 r.1 placed in
        (sent, a', rest, rw room e, ap (send level) (sym flat) ∙ split, p)
    | inl full ↦
        let (q, a2, e2, (os2, split2, placed2), _) =
          assemble_area-Splits R level a1 os1 (ap is_nil (pushed c a) ∙ some_chunk a.area c)
            placed in
        let (sent, a', rest, e, split, p) = restore_loop_lem recipe outs a2 os2 r.1 placed2 in
        (
          send level q ++ sent,
          a',
          rest,
          rw (full, e2, e) refl,
          ap (send level) (sym flat)
              ∙ ap (λ t. send level (t ++ outs)) split2
              ∙ ap (send level) (append_assoc q os2 outs)
              ∙ send-append level q (os2 ++ outs)
              ∙ ap (λ t. send level q ++ t) split
              ∙ sym (append_assoc (send level q) sent (send level rest)),
          p,
        )
  ]
    where
      a1 : AssemblyArea
      a1 = (assembly_area_push c a).1

      os1 : List Chunk
      os1 = os ++ (o ∷ [])

      placed : AllPlaced R level a1.area os1
      placed = rw (pushed c a) (push-AllPlaced a.area os c o h r.0)

      flat : os1 ++ outs ≡ os ++ (o ∷ outs)
      flat = append_assoc os (o ∷ []) outs

  drain_lem :
      (fuel : ℕ) (a : AssemblyArea) (os : List Chunk)
      → length a.area < fuel
      → AllPlaced R level a.area os
      → drain R level fuel a ≡ some (send level os)
  unfolding drain send assemble_area is_nil
  drain_lem zero a os n h = absurd (omega arith)
  drain_lem (suc fuel) a os n h = elim (Bool-cases (is_nil a.area)) [
    | inl empty ↦ rw (nothing a.area os empty h) (ground (arith, empty))
    | inr more ↦
        let (q, a', e, (rest, split, p), less) = assemble_area-Splits R level a os more h in
        rw (drain, e, drain_lem fuel a' rest (omega (arith, n, less)) p, split)
          (ap some (sym (send-append level q rest)))
  ]
    where
      nothing : (cs os : List Chunk) → is_nil cs ≡ true → AllPlaced R level cs os → os ≡ []
      nothing [] [] e h = refl
      nothing [] (o ∷ os) e h = absurd h
      nothing (c ∷ cs) os e h = absurd (ground arith)

  -- A recipe of chunks not READY yet, each of which can be read, is in place for its output.
  chunk_by_chunk-AllPlaced :
      (recipe outs : List Chunk)
      → All (λ c. c.flag.ready ≡ false) recipe
      → chunk_by_chunk R level recipe ≡ some outs
      → AllPlaced R level recipe outs
  chunk_by_chunk-AllPlaced [] [] h e = tt
  chunk_by_chunk-AllPlaced [] (o ∷ outs) h e = absurd (ground (arith, e))
  chunk_by_chunk-AllPlaced (c ∷ recipe) outs h e = elim (Option-cases (own R level c)) [
    | inl fails ↦ absurd (ground (arith, e, fails))
    | inr (o, f) ↦ elim (Option-cases (chunk_by_chunk R level recipe)) [
      | inl fails ↦ absurd (ground (arith, e, f, fails))
      | inr (os, fs) ↦
          let whole : o ∷ os ≡ outs = ground (arith, e, f, fs) in
          rw (sym whole) (
            record { filled = f; done = settled_early o f },
            chunk_by_chunk-AllPlaced recipe os h.1 fs,
          )
    ]
  ]
    where
      settled_early : (o : Chunk) → own R level c ≡ some o → settled c ≡ true → c ≡ o
      settled_early o f s = elim (Bool-cases (is_file_mark c)) [
        | inl m ↦ some_inj.0 (sym (own_mark R level c m) ∙ f)
        | inr m ↦ absurd (ground (arith, h.0, s, m))
      ]

  -- If every chunk of a recipe, none of them READY, can be read on its own, the assembly area
  -- restores the whole recipe: the thread ends, no assert fails, and what it sends on is exactly what
  -- reading chunk by chunk gives, in the order of the recipe, whatever the size of the area.
  pub assembly_restore-chunk_by_chunk :
      (restore_cache : ℕ) (recipe outs : List Chunk)
      → All (λ c. c.flag.ready ≡ false) recipe
      → chunk_by_chunk R level recipe ≡ some outs
      → assembly_restore R level restore_cache recipe ≡ some (send level outs)
  unfolding assembly_restore init_assembly_area
  assembly_restore-chunk_by_chunk restore_cache recipe outs h e =
      let (sent, a, rest, looped, split, p) =
        restore_loop_lem recipe outs (init_assembly_area restore_cache) []
          (chunk_by_chunk-AllPlaced recipe outs h e) tt in
      rw (assembly_restore, looped, drain_lem (suc (length a.area)) a rest (omega arith) p, split)
        refl

-- ===== src/Rewrite/OneContainer.antt =====
-- Queues of the rewrite buffer whose chunks are all of one container, as cfl_rewrite keeps them.
use mathlib.Core.Path.{subst}
use destor.Base.{
  is_some, ==ℤ_iff, ◌≡◌, sym, ◌∙◌, true, false, ◌&&◌, not, List, [], ◌∷◌, ◌++◌, arith, ℤ, ◌==ℤ◌,
  All, Bool-cases, inl, inr,
}
use destor.Chunk.{Chunk, temporary_id}
use destor.Rewrite.Records.{Exact, recorded, total}

-- All the containers of a queue are one.
abbrev pub Of : ℤ → List Chunk → Type 0
Of id queue = All (λ q. recorded q ≡ true → q.id ≡ id) queue

Of-total : (id i : ℤ) (queue : List Chunk) → Of id queue → is_some (total i queue) ≡ true → i ≡ id
Of-total id i [] h there = absurd (ground (arith, there))
Of-total id i (q ∷ queue) h there = elim (Bool-cases (recorded q && (q.id ==ℤ i))) [
  | inr other ↦ Of-total id i queue h.1 (ground (arith, there, other))
  | inl here ↦
      let same : q.id ≡ i = (==ℤ_iff q.id i).0 (ground (arith, here)) in
      sym same ∙ h.0 (ground (arith, here))
]

pub Of-Exact : (id : ℤ) (queue : List Chunk) → Of id queue → Exact queue
Of-Exact id queue h i j there there' same =
    Of-total id i queue h there ∙ sym (Of-total id j queue h there')

pub Of-append :
    (id : ℤ) (queue : List Chunk) (c : Chunk)
    → Of id queue
    → (recorded c ≡ true → c.id ≡ id)
    → Of id (queue ++ (c ∷ []))
Of-append id [] c h k = (k, tt)
Of-append id (x ∷ queue) c h k = (h.0, Of-append id queue c h.1 k)

-- TEMPORARY_ID is no container.
Of-temporary : (id : ℤ) (queue : List Chunk) → Of temporary_id queue → Of id queue
Of-temporary id [] h = tt
Of-temporary id (q ∷ queue) h =
    (λ there. absurd (no_container q there (h.0 there)), Of-temporary id queue h.1)
  where
    no_container : (q : Chunk) → recorded q ≡ true → q.id ≡ temporary_id → ⊥
    no_container q there same = ground (arith, there, (==ℤ_iff q.id temporary_id).1 same)

-- Without a flush the next chunk joins chunks of its own container, or of none.
pub Of-next :
    (last_id id : ℤ) (queue : List Chunk)
    → (not (last_id ==ℤ temporary_id) && not (last_id ==ℤ id)) ≡ false
    → Of last_id queue
    → Of id queue
Of-next last_id id queue stay h = elim (Bool-cases (last_id ==ℤ id)) [
  | inl same ↦ subst (λ i. Of i queue) ((==ℤ_iff last_id id).0 same) h
  | inr other ↦
      Of-temporary id queue
        (subst (λ i. Of i queue) ((==ℤ_iff last_id temporary_id).0 (ground (arith, stay, other))) h)
]

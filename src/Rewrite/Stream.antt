-- ===== src/Rewrite/Stream.antt =====
-- cfl_rewrite: the chunks that it passes on.
use destor.Base.{
  ◌≡◌, Bool, true, false, ◌&&◌, ◌||◌, not, List, arith, if◌then◌else◌, ℤ, Bool-cases, ◌⊎◌, inl, inr,
}
use destor.Chunk.{Chunk, is_signal, has_id}
use destor.Rewrite.Defs.{har_check, checked}

-- A chunk without the two flags that the rewrite phase sets.
abbrev pub plain : Chunk → Chunk
plain c = record c { flag = record (c.flag) { sparse = false; out_of_order = false } }

-- What a pop returns for a chunk.
abbrev pub popped : (ℤ → Bool) → Chunk → Chunk
popped sparse c = if is_signal c then c else checked sparse c

-- har_check sets SPARSE or nothing.
pub popped_cases :
    (sparse : ℤ → Bool) (c : Chunk)
    → (popped sparse c ≡ c)
      ⊎ (popped sparse c ≡ record c { flag = record (c.flag) { sparse = true } })
unfolding checked har_check
popped_cases sparse c = elim (Bool-cases (is_signal c)) [
  | inl s ↦ inl (ground (arith, s))
  | inr s ↦ elim (Bool-cases (c.flag.duplicate && has_id c)) [
    | inr d ↦ inl (ground (arith, s, d))
    | inl d ↦
        elim (Bool-cases
          (not (c.flag.file_start || c.flag.file_end) && (c.flag.duplicate && sparse c.id))) [
            | inl h ↦ inr (ground (arith, s, d, h))
            | inr h ↦ inl (ground (arith, s, d, h))
          ]
  ]
]

-- ===== src/Rewrite/Capping/Defs.antt =====
-- The functions of src/cap_rewrite.c.
use mathlib.Core.Option
use mathlib.Core.List.{Perm}
use destor.Base.{
  ◌≡◌, All, leb, ℕ, zero, suc, ◌==ℤ◌, Bool, true, false, ◌&&◌, ◌||◌, not, Option, none, some, List,
  [], ◌∷◌, ◌++◌, length, if◌then◌else◌, ℤ,
}
use destor.Chunk.{Chunk, is_signal}
use destor.Rewrite.Defs.{RewriteBuffer, rewrite_buffer_push, rewrite_buffer_pop}

-- The loop of cap_segment_get_top: the containers of the first records, at most `level`.
unfoldable pub top_ids : ℕ → List (ℤ × ℕ) → List ℤ
top_ids zero records = []
top_ids (suc level) [] = []
top_ids (suc level) ((id, size) ∷ records) = id ∷ top_ids level records

-- g_hash_table_lookup in top.
unfoldable pub in_top : ℤ → List ℤ → Bool
in_top id [] = false
in_top id (key ∷ top) = (key ==ℤ id) || in_top id top

-- What cap_rewrite does to a chunk that it pops; after the last chunk of the stream, where `last`
-- is true, it does not ask for the mark of a duplicate.
unfoldable pub cap_judge : Bool → List ℤ → Chunk → Chunk
cap_judge last top c =
    if not (is_signal c) && ((last || c.flag.duplicate) && not (in_top c.id top))
    then record c { flag = record (c.flag) { out_of_order = true } }
    else c

-- `while ((c = rewrite_buffer_pop()))`, with fuel: what is pushed, and the buffer.
unfoldable pub cap_judge_all :
    (ℤ → Bool) → Bool → List ℤ → ℕ → RewriteBuffer → Option (List Chunk × RewriteBuffer)
cap_judge_all sparse last top zero b = none
cap_judge_all sparse last top (suc fuel) b = elim (rewrite_buffer_pop sparse b) [
  | none ↦ none
  | some (none, b') ↦ some ([], b')
  | some (some c, b') ↦
      Option.map (λ r. (cap_judge last top c ∷ r.0, r.1)) (cap_judge_all sparse last top fuel b')
]

-- g_record_descmp_by_length gives no positive number; the sizes are no negative numbers.
unfoldable pub descmp_by_length : ℤ × ℕ → ℤ × ℕ → Bool
descmp_by_length a b = leb b.1 a.1

-- Each record stands before those that `before` lets follow it.
abbrev pub Ordered : (ℤ × ℕ → ℤ × ℕ → Bool) → List (ℤ × ℕ) → Type 0
Ordered before [] = Unit
Ordered before (r ∷ records) = All (λ s. before r s ≡ true) records × Ordered before records

-- g_sequence_sort of GLib: by a comparison that orders the records, it puts them into that order.
pub record Sorting : Type 0 where
  pub sort : (ℤ × ℕ → ℤ × ℕ → Bool) → List (ℤ × ℕ) → List (ℤ × ℕ)
  pub sort-Perm :
      (before : ℤ × ℕ → ℤ × ℕ → Bool) (records : List (ℤ × ℕ)) → Perm (sort before records) records
  pub sort-Ordered :
      (before : ℤ × ℕ → ℤ × ℕ → Bool) (records : List (ℤ × ℕ))
      → ((r s : ℤ × ℕ) → (before r s || before s r) ≡ true)
      → ((r s t : ℤ × ℕ) → before r s ≡ true → before s t ≡ true → before r t ≡ true)
      → Ordered before (sort before records)

module _ (G : Sorting) where
  unfoldable pub cap_segment_get_top : ℕ → RewriteBuffer → List ℤ
  unfolding descmp_by_length
  cap_segment_get_top level b = top_ids level (G.sort descmp_by_length b.container_records)

  -- A buffer judged as a whole.
  unfoldable pub cap_segment :
      (ℤ → Bool) → ℕ → Bool → RewriteBuffer → Option (List Chunk × RewriteBuffer)
  cap_segment sparse level last b =
      cap_judge_all sparse last (cap_segment_get_top level b) (suc (length b.chunk_queue)) b

  unfoldable pub cap_rewrite : (ℤ → Bool) → ℕ → ℕ → List Chunk → RewriteBuffer → Option (List Chunk)
  cap_rewrite sparse level most [] b = Option.map (λ r. r.0) (cap_segment sparse level true b)
  cap_rewrite sparse level most (c ∷ stream) b = elim (rewrite_buffer_push most c b) [
    | none ↦ none
    | some (full, b') ↦ elim (if full then cap_segment sparse level false b' else some ([], b')) [
      | none ↦ none
      | some (out, b'') ↦ Option.map (λ r. out ++ r) (cap_rewrite sparse level most stream b'')
    ]
  ]

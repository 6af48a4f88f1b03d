-- ===== src/Filter/Recipe.antt =====
-- The third loop of filter_thread in src/filter_phase.c, which writes the recipe. What
-- append_segment_flag, append_n_chunk_pointers and append_file_recipe_meta write is the list of
-- their calls; `r`, which is NULL between files, is kept from segment to segment. A failed assert
-- is `none`. The name of a file is the data of its first chunk.
use mathlib.Core.Option
use destor.Base.{ℕ, ◌+◌, Option, none, some, List, [], ◌∷◌, ◌++◌, if◌then◌else◌, pos, ltb_int}
use destor.Chunk.{Chunk}
use destor.Segment.{Segment}
use destor.Index.{ChunkPointer}

-- struct fileRecipeMeta
pub record FileRecipeMeta : Type 0 where
  pub chunknum : ℕ
  pub filesize : ℕ
  pub filename : List ℕ

pub data RecipeWrite : Type 0 where
  segment_flag_start : ℕ → RecipeWrite
  segment_flag_end : RecipeWrite
  chunk_pointer : ChunkPointer → RecipeWrite
  file_meta : FileRecipeMeta → RecipeWrite

unfoldable pub new_file_recipe_meta : List ℕ → FileRecipeMeta
new_file_recipe_meta name = record { chunknum = 0; filesize = 0; filename = name }

-- The body of the loop: the writes, and `r` behind it.
unfoldable pub write_entry :
    Chunk → Option FileRecipeMeta → Option (List RecipeWrite × Option FileRecipeMeta)
unfolding new_file_recipe_meta
write_entry c none =
    if c.flag.file_start then some ([], some (new_file_recipe_meta c.data_bytes)) else none
write_entry c (some r) =
    if c.flag.file_end
    then some (file_meta r ∷ [], none)
    else if ltb_int c.id (pos 0)
    then none
    else some (
      chunk_pointer (record { fp = c.fp; id = c.id; size = pos c.size }) ∷ [],
      some (record r { chunknum = r.chunknum + 1; filesize = r.filesize + c.size }),
    )

unfoldable pub write_entries :
    List Chunk → Option FileRecipeMeta → Option (List RecipeWrite × Option FileRecipeMeta)
unfolding write_entry
write_entries [] r = some ([], r)
write_entries (c ∷ cs) r = elim (write_entry c r) [
  | none ↦ none
  | some (ws, r') ↦ Option.map (λ u. (ws ++ u.0, u.1)) (write_entries cs r')
]

unfoldable pub write_segment :
    Segment → Option FileRecipeMeta → Option (List RecipeWrite × Option FileRecipeMeta)
unfolding write_entries
write_segment s r =
    Option.map (λ u. (segment_flag_start s.chunk_num ∷ (u.0 ++ (segment_flag_end ∷ [])), u.1))
      (write_entries s.chunks r)

unfoldable pub write_segments :
    List Segment → Option FileRecipeMeta → Option (List RecipeWrite × Option FileRecipeMeta)
unfolding write_segment
write_segments [] r = some ([], r)
write_segments (s ∷ ss) r = elim (write_segment s r) [
  | none ↦ none
  | some (ws, r') ↦ Option.map (λ u. (ws ++ u.0, u.1)) (write_segments ss r')
]

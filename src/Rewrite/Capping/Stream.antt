-- ===== src/Rewrite/Capping/Stream.antt =====
-- cap_rewrite: the chunks that it passes on, and how many containers they keep.
use destor.Base.{◌≡◌, true, false, List, [], ◌∷◌, ℤ}
use destor.Chunk.{Chunk, is_signal}
use destor.Rewrite.Capping.Defs.{in_top}

-- Against the queue: the chunks of `top` keep their mark, and duplicates of no container of `top`
-- are marked OUT_OF_ORDER.
abbrev pub Judged : List ℤ → List Chunk → List Chunk → Type 0
Judged top [] [] = Unit {0}
Judged top (c' ∷ out) (c ∷ queue) =
    (in_top c.id top ≡ true → c'.flag.out_of_order ≡ c.flag.out_of_order)
    × (is_signal c ≡ false
        → c.flag.duplicate ≡ true
        → in_top c.id top ≡ false
        → c'.flag.out_of_order ≡ true)
    × Judged top out queue
Judged top out queue = ⊥

-- ===== src/KvStore/Window.antt =====
-- A key's array is the window of the identifiers that it was last updated with.
use destor.Base.{ℕ, zero, suc, ◌-◌, ◌<◌, ◌≡◌, refl, ap, List, [], ◌∷◌, take, length, arith, ℤ, ◌∙◌}
use destor.Chunk.{temporary_id}
use destor.KvStore.Defs.{new_values, kv_update}

-- The newest `len` of some identifiers, newest first, filled up with TEMPORARY_ID.
unfoldable pub window : ℕ → List ℤ → List ℤ
window zero ids = []
window (suc n) [] = temporary_id ∷ window n []
window (suc n) (i ∷ ids) = i ∷ window n ids

pub length-window : (n : ℕ) (ids : List ℤ) → length (window n ids) ≡ n
unfolding window
length-window zero ids = refl
length-window (suc n) [] = ap suc (length-window n [])
length-window (suc n) (i ∷ ids) = ap suc (length-window n ids)

-- A new array is the window of nothing.
pub new_values-window : (n : ℕ) → new_values n ≡ window n []
unfolding new_values window
new_values-window zero = refl
new_values-window (suc n) = ap (◌∷◌ temporary_id) (unfold new_values in new_values-window n)

take-window : (n : ℕ) (ids : List ℤ) → take n (window (suc n) ids) ≡ window n ids
unfolding window
take-window zero ids = refl
take-window (suc n) [] = ap (◌∷◌ temporary_id) (take-window n [])
take-window (suc n) (i ∷ ids) = ap (◌∷◌ i) (take-window n ids)

-- kv_update slides the window: the new identifier enters in front, the oldest leaves.
pub kv_update-window :
    (len : ℕ) (ids : List ℤ) (i : ℤ)
    → 0 < len
    → kv_update len (window len ids) i ≡ window len (i ∷ ids)
unfolding kv_update window
kv_update-window zero ids i h = absurd (omega arith)
kv_update-window (suc n) ids i h =
    ap (◌∷◌ i) (ap (λ k. take k (window (suc n) ids)) pred_suc ∙ take-window n ids)
  where
    pred_suc : suc n - 1 ≡ n
    pred_suc = omega arith

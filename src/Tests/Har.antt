-- ===== src/Tests/Har.antt =====
-- The monitor of src/har_rewrite.c at small inputs.
use destor.Base.{
  ℕ, ◌*◌, ◌<◌, ◌^◌, ◌==ℤ◌, ==ℤ_iff, ◌≡◌, ltb, Bool, false, if◌then◌else◌, none, some, List, [], ◌∷◌,
  ◌++◌, arith, ℤ, pos, Table, assoc, find,
}
use destor.Rewrite.Har.{close_har}
use destor.Rewrite.Har.Trim.{sizes, Ascending, only_sparse, TooMuch}
use destor.Rewrite.Har.Sparse.{used, is_used, monitored, close_har-monitored}

abbrev table : Table ℤ ℕ ◌==ℤ◌
table = assoc ℤ ℕ ◌==ℤ◌ ==ℤ_iff

-- Container 3 is used twice.
abbrev calls : List (ℤ × ℕ)
calls = (pos 3, 60) ∷ (pos 4, 500) ∷ (pos 3, 20) ∷ (pos 5, 90) ∷ []

abbrev is_sparse : ℕ → Bool
is_sparse size = ltb size 100

-- More than a fifth.
abbrev exceeds : ℕ → ℕ → Bool
exceeds sparse_size total_size = ltb total_size (5 * sparse_size)

calls_fit : (j : ℤ) → used j calls < 2 ^ 31
calls_fit j = ground arith

close_har-monitored_example :
    (m : table.Map) × (monitored table calls table.empty ≡ some m)
    × (out cut : List (ℤ × ℕ)) × (close_har table is_sparse exceeds m ≡ some out)
    × Ascending 0 (out ++ cut)
    × ((j : ℤ)
        → find ◌==ℤ◌ j (out ++ cut)
          ≡ only_sparse is_sparse (if is_used j calls then some (used j calls) else none))
    × (exceeds (sizes out) (sizes (table.entries m)) ≡ false)
    × TooMuch exceeds (sizes (table.entries m)) out cut
close_har-monitored_example =
    close_har-monitored table is_sparse exceeds calls (λ total. ground arith) calls_fit

-- ===== src/Tests/Marker.antt =====
-- src/cma.c at small inputs.
use destor.Base.{
  ℕ, ◌==ℤ◌, ==ℤ_iff, ◌≡◌, refl, if◌then◌else◌, none, some, List, [], ◌∷◌, ℤ, pos, Table, assoc,
  find, Distinct, is_some,
}
use destor.Marker.{update_manifest, trunc_manifest}
use destor.Marker.Reclaim.{is_old, time_after, trunc-update_manifest}

abbrev times : Table ℤ ℕ ◌==ℤ◌
times = assoc ℤ ℕ ◌==ℤ◌ ==ℤ_iff

abbrev ids : Table ℤ (Unit {0}) ◌==ℤ◌
ids = assoc ℤ (Unit {0}) ◌==ℤ◌ ==ℤ_iff

-- Container 4 was last used by job 1, container 5 by job 2; job 3 uses 5 and 6.
abbrev old_file : List (ℤ × ℕ)
old_file = (pos 4, 1) ∷ (pos 5, 2) ∷ []

abbrev used : List ℤ
used = pos 5 ∷ pos 6 ∷ []

trunc-update_manifest_example :
    (invalid : ids.Map) × (kept : List (ℤ × ℕ)) × (live : ℕ) × (trunc_manifest times ids 2
        (some (update_manifest times ids 3 used (some old_file)).0)
      ≡ some (invalid, kept, live))
    × Distinct ◌==ℤ◌ kept
    × ((j : ℤ)
        → (is_some (ids.lookup j invalid) ≡ is_old 2 (time_after times ids 3 used old_file j))
          × (find ◌==ℤ◌ j kept ≡ (
              if is_old 2 (time_after times ids 3 used old_file j)
              then none
              else time_after times ids 3 used old_file j)))
trunc-update_manifest_example = trunc-update_manifest times ids 3 2 used old_file (refl, (refl, tt))

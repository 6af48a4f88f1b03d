-- ===== src/Marker/Reclaim.antt =====
-- Which containers src/cma.c gives back for reclaiming.
use destor.Base.{
  ℕ, ◌==ℤ◌, ==ℤ_iff, ◌≡◌, ◌∙◌, refl, leb, ◌||◌, Bool, false, Option, none, some, List, [], ◌∷◌,
  if◌then◌else◌, ℤ, Table, find, Distinct, is_some, arith,
}
use destor.Marker.Defs.{read_manifest, set_times, update_manifest, split_manifest, trunc_manifest}

abbrev pub member : ℤ → List ℤ → Bool
member id [] = false
member id (key ∷ monitor) = (key ==ℤ id) || member id monitor

-- A record with a time up to that of the job.
abbrev pub is_old : ℕ → Option ℕ → Bool
is_old jobid none = false
is_old jobid (some time) = leb time jobid

module _ (T : Table ℤ ℕ ◌==ℤ◌) (S : Table ℤ (Unit {0}) ◌==ℤ◌) where
  read_manifest-lookup :
      (j : ℤ) (file : List (ℤ × ℕ)) (m : T.Map)
      → Distinct ◌==ℤ◌ file
      → T.lookup j (read_manifest T S file m)
        ≡ elim (find ◌==ℤ◌ j file) [ some time ↦ some time | none ↦ T.lookup j m ]
  unfolding read_manifest
  read_manifest-lookup j [] m d = refl
  read_manifest-lookup j ((id, time) ∷ file) m d = ground (
    arith,
    read_manifest-lookup j file (T.insert id time m) d.1,
    T.lookup-insert j id time m,
    ==ℤ_iff id j,
    d.0,
  )

  set_times-lookup :
      (j : ℤ) (time : ℕ) (monitor : List ℤ) (m : T.Map)
      → T.lookup j (set_times T S time monitor m)
        ≡ (if member j monitor then some time else T.lookup j m)
  unfolding set_times
  set_times-lookup j time [] m = refl
  set_times-lookup j time (key ∷ monitor) m =
      ground
        (arith, set_times-lookup j time monitor (T.insert key time m), T.lookup-insert j key time m)

  -- The time that a record has after an update.
  abbrev pub time_after : ℕ → List ℤ → List (ℤ × ℕ) → ℤ → Option ℕ
  time_after id monitor old j = if member j monitor then some id else find ◌==ℤ◌ j old

  update_manifest_lem :
      (id : ℕ) (monitor : List ℤ) (old : List (ℤ × ℕ)) (j : ℤ)
      → Distinct ◌==ℤ◌ old
      → find ◌==ℤ◌ j (update_manifest T S id monitor (some old)).0 ≡ time_after id monitor old j
  unfolding update_manifest
  update_manifest_lem id monitor old j d =
      let m = read_manifest T S old T.empty in
      T.find-entries j (set_times T S id monitor m)
      ∙ ground (
        arith,
        set_times-lookup j id monitor m,
        read_manifest-lookup j old T.empty d,
        T.lookup-empty j,
      )

  split_manifest_lem :
      (jobid : ℕ) (j : ℤ) (file : List (ℤ × ℕ)) (s : S.Map) (m : T.Map)
      → Distinct ◌==ℤ◌ file
      → (is_some (S.lookup j (split_manifest T S jobid file s m).0)
          ≡ (is_old jobid (find ◌==ℤ◌ j file) || is_some (S.lookup j s)))
        × (T.lookup j (split_manifest T S jobid file s m).1 ≡ elim (find ◌==ℤ◌ j file) [
          | none ↦ T.lookup j m
          | some time ↦ if leb time jobid then T.lookup j m else some time
        ])
  unfolding split_manifest
  split_manifest_lem jobid j [] s m d = (refl, refl)
  split_manifest_lem jobid j ((id, time) ∷ file) s m d =
      let rest =
        split_manifest_lem jobid j file (if leb time jobid then S.insert id tt s else s)
          (if leb time jobid then m else T.insert id time m) d.1 in
      (
        ground (arith, rest.0, S.lookup-insert j id tt s, ==ℤ_iff id j, d.0),
        ground (arith, rest.1, T.lookup-insert j id time m, ==ℤ_iff id j, d.0),
      )

  -- Let a job number `id` update a manifest that lists no container twice, and the backups up to
  -- `jobid` then be deleted. The manifest is there. A container is given back for reclaiming if
  -- and only if the last job that refers to it, `id` if it refers to it itself, is not after
  -- `jobid`; every other record stays, with the number of its last job, and no container is
  -- listed twice.
  pub trunc-update_manifest :
      (id jobid : ℕ) (monitor : List ℤ) (old : List (ℤ × ℕ))
      → Distinct ◌==ℤ◌ old
      → (invalid : S.Map) × (kept : List (ℤ × ℕ)) × (live : ℕ) × (trunc_manifest T S jobid
            (some (update_manifest T S id monitor (some old)).0)
          ≡ some (invalid, kept, live))
        × Distinct ◌==ℤ◌ kept
        × ((j : ℤ)
            → (is_some (S.lookup j invalid) ≡ is_old jobid (time_after id monitor old j))
              × (find ◌==ℤ◌ j kept ≡ (
                  if is_old jobid (time_after id monitor old j)
                  then none
                  else time_after id monitor old j)))
  unfolding trunc_manifest update_manifest
  trunc-update_manifest id jobid monitor old d =
      let file = (update_manifest T S id monitor (some old)).0 in
      let d1 = T.entries-Distinct (set_times T S id monitor (read_manifest T S old T.empty)) in
      let parts = split_manifest T S jobid file S.empty T.empty in
      (
        parts.0,
        T.entries parts.1,
        T.size parts.1,
        refl,
        T.entries-Distinct parts.1,
        λ j.
            let both = split_manifest_lem jobid j file S.empty T.empty d1 in
            let time = update_manifest_lem id monitor old j d in
            (
              both.0 ∙ ground (arith, time, S.lookup-empty j),
              T.find-entries j parts.1 ∙ (both.1 ∙ ground (arith, time, T.lookup-empty j)),
            ),
      )

-- ===== src/Marker/Defs.antt =====
-- The functions of src/cma.c. The manifest file is the list of its records, `none` where there is
-- no file; what fprintf writes, fscanf reads back. The numbers of jobs are not negative. Opening
-- the file for writing is taken to succeed, since the program ends where it does not; the result
-- `none` is the exit of trunc_manifest without a manifest.
use destor.Base.{ℕ, ◌==ℤ◌, leb, Option, none, some, List, [], ◌∷◌, if◌then◌else◌, ℤ, Table}

module _ (T : Table ℤ ℕ ◌==ℤ◌) (S : Table ℤ (Unit {0}) ◌==ℤ◌) where
  -- The loop over the file in update_manifest.
  unfoldable pub read_manifest : List (ℤ × ℕ) → T.Map → T.Map
  read_manifest [] manifest = manifest
  read_manifest ((id, time) ∷ file) manifest = read_manifest file (T.insert id time manifest)

  -- The loop over the monitor: a record is found or made, and gets the time.
  unfoldable pub set_times : ℕ → List ℤ → T.Map → T.Map
  set_times time [] manifest = manifest
  set_times time (key ∷ monitor) manifest = set_times time monitor (T.insert key time manifest)

  -- `monitor` is what an iterator meets of the table of containers that the job `id` refers to;
  -- the results are the file and live_container_num.
  unfoldable pub update_manifest : ℕ → List ℤ → Option (List (ℤ × ℕ)) → List (ℤ × ℕ) × ℕ
  unfolding read_manifest set_times
  update_manifest id monitor file =
      let old : List (ℤ × ℕ) = elim file [ none ↦ [] | some records ↦ records ] in
      let manifest = set_times id monitor (read_manifest old T.empty) in
      (T.entries manifest, T.size manifest)

  -- The loop over the file in trunc_manifest: the containers to reclaim, and the records kept.
  unfoldable pub split_manifest : ℕ → List (ℤ × ℕ) → S.Map → T.Map → S.Map × T.Map
  split_manifest jobid [] invalid manifest = (invalid, manifest)
  split_manifest jobid ((id, time) ∷ file) invalid manifest =
      split_manifest jobid file (if leb time jobid then S.insert id tt invalid else invalid)
        (if leb time jobid then manifest else T.insert id time manifest)

  -- The containers to reclaim, the file, and live_container_num.
  unfoldable pub trunc_manifest : ℕ → Option (List (ℤ × ℕ)) → Option (S.Map × List (ℤ × ℕ) × ℕ)
  unfolding split_manifest
  trunc_manifest jobid none = none
  trunc_manifest jobid (some file) =
      let (invalid, manifest) = split_manifest jobid file S.empty T.empty in
      some (invalid, T.entries manifest, T.size manifest)

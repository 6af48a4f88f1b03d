-- ===== src/Rewrite/Har/Sparse.antt =====
-- Which containers close_har tells the next job to take for sparse.
use destor.Base.{
  ℕ, suc, ◌+◌, ◌==ℤ◌, ==ℤ_iff, ◌≡◌, ◌∙◌, ◌<◌, ◌^◌, Option, ap, Option-cases, inl, inr, refl, Bool,
  false, ◌||◌, none, some, List, [], ◌∷◌, ◌++◌, length, if◌then◌else◌, ℤ, Table, find, arith,
}
use destor.Rewrite.Har.Defs.{har_monitor_update, close_har}
use destor.Rewrite.Har.Trim.{sizes, Ascending, only_sparse, TooMuch, trim_lem, collect_sparse_lem}

-- What a job uses of a container, among the calls of har_monitor_update.
abbrev pub used : ℤ → List (ℤ × ℕ) → ℕ
used id [] = 0
used id ((key, size) ∷ calls) = if key ==ℤ id then size + used id calls else used id calls

abbrev pub is_used : ℤ → List (ℤ × ℕ) → Bool
is_used id [] = false
is_used id ((key, size) ∷ calls) = (key ==ℤ id) || is_used id calls

module _ (T : Table ℤ ℕ ◌==ℤ◌) where
  -- The calls of har_monitor_update that a job makes.
  abbrev pub monitored : List (ℤ × ℕ) → T.Map → Option T.Map
  monitored [] monitor = some monitor
  monitored ((id, size) ∷ calls) monitor = elim (har_monitor_update T id size monitor) [
    | none ↦ none
    | some m ↦ monitored calls m
  ]

  -- The size that is known of a container, 0 without a record.
  abbrev pub size_of : ℤ → T.Map → ℕ
  size_of id m = elim (T.lookup id m) [ none ↦ 0 | some size ↦ size ]

  pub har_monitor_update_lem :
      (id : ℤ) (size : ℕ) (m : T.Map)
      → size_of id m + size < 2 ^ 31
      → (m' : T.Map) × (har_monitor_update T id size m ≡ some m')
        × ((j : ℤ)
            → T.lookup j m' ≡ (if id ==ℤ j then some (size_of id m + size) else T.lookup j m))
  unfolding har_monitor_update
  har_monitor_update_lem id size m near = elim (Option-cases (T.lookup id m)) [
    | inl missing ↦ (
      T.insert id (0 + size) m,
      ground (arith, missing, near),
      λ j. ground (arith, missing, T.lookup-insert j id (0 + size) m),
    )
    | inr (old, found) ↦ (
      T.insert id (old + size) m,
      ground (arith, found, near),
      λ j. ground (arith, found, T.lookup-insert j id (old + size) m),
    )
  ]

  monitored-lookup :
      (calls : List (ℤ × ℕ)) (m : T.Map)
      → ((j : ℤ) → size_of j m + used j calls < 2 ^ 31)
      → (m' : T.Map) × (monitored calls m ≡ some m')
        × ((j : ℤ)
            → T.lookup j m' ≡ elim (T.lookup j m) [
              | none ↦ if is_used j calls then some (used j calls) else none
              | some old ↦ some (old + used j calls)
            ])
  monitored-lookup [] m near = (m, refl, λ j. ground arith)
  monitored-lookup ((id, size) ∷ calls) m near =
      let (m1, run, found1) =
        har_monitor_update_lem id size m (ground (arith, near id, ==ℤ_iff id id)) in
      let (m', run', found') =
        monitored-lookup calls m1 (λ j. ground (arith, near j, found1 j, ==ℤ_iff id j)) in
      (m', rw (monitored, run) run', λ j. ground (arith, found' j, found1 j, ==ℤ_iff id j))

  -- Let a limit never be exceeded by 0 sparse bytes, and let a job use less than 2 ^ 31 bytes of each
  -- container. No size overflows, and the file is written. Its records, and then those that were
  -- cut, are in ascending order of their sizes; together they are, each with all that the job used
  -- of it, the containers used whose size is sparse. The records of the file do not exceed the
  -- limit, and with the first of those that were cut they would.
  pub close_har-monitored :
      (is_sparse : ℕ → Bool) (exceeds : ℕ → ℕ → Bool) (calls : List (ℤ × ℕ))
      → ((total : ℕ) → exceeds 0 total ≡ false)
      → ((j : ℤ) → used j calls < 2 ^ 31)
      → (m : T.Map) × (monitored calls T.empty ≡ some m)
        × (out cut : List (ℤ × ℕ)) × (close_har T is_sparse exceeds m ≡ some out)
        × Ascending 0 (out ++ cut)
        × ((j : ℤ)
            → find ◌==ℤ◌ j (out ++ cut)
              ≡ only_sparse is_sparse (if is_used j calls then some (used j calls) else none))
        × (exceeds (sizes out) (sizes (T.entries m)) ≡ false)
        × TooMuch exceeds (sizes (T.entries m)) out cut
  unfolding close_har
  close_har-monitored is_sparse exceeds calls zero_ok near =
      let (m, run, known) =
        monitored-lookup calls T.empty (λ j. ground (arith, near j, T.lookup-empty j)) in
      let records = T.entries m in
      let (seq, c, up, found) =
        collect_sparse_lem is_sparse records [] 0 0 (T.entries-Distinct m) (λ i h. refl) refl tt in
      let (out, cut, t, joined, ok, much) =
        trim_lem exceeds (sizes records) (suc (length seq)) (sizes seq) seq
          (zero_ok (sizes records)) refl (omega arith) in
      let total : 0 + sizes records ≡ sizes records = omega arith in
      (
        m,
        run,
        out,
        cut,
        rw (c ∙ ap (λ n. (seq, sizes seq, n)) total) t,
        rw joined up,
        λ j. rw joined (found j ∙ ground (arith, T.find-entries j m, known j, T.lookup-empty j)),
        ok,
        much,
      )

-- ===== src/KvStore/History.antt =====
-- kvstore_htable_update and kvstore_htable_lookup against the history of updates.
use destor.Base.{
  ℕ, ◌<◌, ◌≡◌, ◌↔◌, Bool, true, Option, none, some, List, [], ◌∷◌, arith, ℤ, Table, if◌then◌else◌,
  ◌∙◌, ap,
}
use destor.KvStore.Defs.{kvstore_htable_lookup, kvstore_htable_update}
use destor.KvStore.Window.{window, new_values-window, kv_update-window}

-- What a key stands for after some updates: nothing, or the window of its identifiers.
abbrev pub value_of : ℕ → List ℤ → Option (List ℤ)
value_of len [] = none
value_of len (i ∷ ids) = some (window len (i ∷ ids))

-- The identifiers of a key's updates, the newest first; the updates come newest first.
abbrev pub ids_of : {K : Type 0} → (K → K → Bool) → K → List (K × ℤ) → List ℤ
ids_of same k [] = []
ids_of same k ((j, i) ∷ updates) =
    if same j k then i ∷ ids_of same k updates else ids_of same k updates

module _ {K : Type 0} {eq : K → K → Bool} (eq_iff : (a b : K) → (eq a b ≡ true) ↔ (a ≡ b))
    (T : Table K (List ℤ) eq) (len : ℕ) where
  -- The store after updates, the newest first.
  unfoldable pub updated : List (K × ℤ) → T.Map
  updated [] = T.empty
  updated ((j, i) ∷ updates) = kvstore_htable_update T len j i (updated updates)

  -- An update of a key whose value is a window stores the window of one identifier more.
  pub update-insert :
      (j : K) (i : ℤ) (ids : List ℤ) (t : T.Map)
      → 0 < len
      → T.lookup j t ≡ value_of len ids
      → kvstore_htable_update T len j i t ≡ T.insert j (window len (i ∷ ids)) t
  unfolding kvstore_htable_update
  update-insert j i [] t h e = ground (arith, new_values-window len, kv_update-window len [] i h)
  update-insert j i (i' ∷ ids) t h e = ground (arith, kv_update-window len (i' ∷ ids) i h)

  -- After any updates, a lookup gives nothing for a key without updates, and for another the
  -- newest `index_value_length` of its identifiers, newest first, filled up with TEMPORARY_ID.
  pub lookup-updated :
      (updates : List (K × ℤ)) (k : K)
      → 0 < len
      → kvstore_htable_lookup T len k (updated updates) ≡ value_of len (ids_of eq k updates)
  unfolding kvstore_htable_lookup updated
  lookup-updated [] k h = T.lookup-empty k
  lookup-updated ((j, i) ∷ updates) k h =
      let before = lookup-updated updates in
      let step = update-insert j i (ids_of eq j updates) (updated updates) h (before j h) in
      ap (T.lookup k) step
      ∙ T.lookup-insert k j (window len (i ∷ ids_of eq j updates)) (updated updates)
      ∙ ground (arith, eq_iff j k, before k h)

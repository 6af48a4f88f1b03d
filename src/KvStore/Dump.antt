-- ===== src/KvStore/Dump.antt =====
-- The store flushed to index/htable and read back.
use destor.Base.{
  ℕ, suc, ◌-◌, ◌≡◌, ◌↔◌, refl, ap, sym, Bool, true, some, List, [], ◌∷◌, ◌++◌, arith, ℤ, Table, ◌∙◌,
  All, length, map, le→leb, insert_all, lookup-copy, append-nil, append_assoc, All-find,
}
use destor.KvStore.Defs.{
  Word, int_word, key_word, id_word, new_values, write_pairs, close_kvstore_htable, read_ids,
  read_pairs, init_kvstore_htable, read_dump, FileSystem, dump_name,
}

module _ {K : Type 0} {eq : K → K → Bool} (eq_iff : (a b : K) → (eq a b ≡ true) ↔ (a ≡ b))
    (T : Table K (List ℤ) eq) (len : ℕ) where
  read_ids-map :
      (value : List ℤ) (rest : List (Word K))
      → read_ids T len (length value) (map id_word value ++ rest) ≡ some (value, rest)
  unfolding read_ids
  read_ids-map [] rest = refl
  read_ids-map (i ∷ value) rest = ground (arith, read_ids-map value rest)

  -- Every array has `index_value_length` places.
  abbrev pub Full : List (K × List ℤ) → Type 0
  Full es = All (λ e. length (e.1) ≡ len) es

  full_rest : new_values (len - len) ≡ []
  unfolding new_values
  full_rest = ap new_values nothing
    where
      nothing : len - len ≡ 0
      nothing = omega arith

  read_step :
      (n : ℕ) (k : K) (value : List ℤ) (rest : List (Word K)) (t : T.Map)
      → length value ≡ len
      → read_pairs T len (suc n) (key_word k ∷ int_word len ∷ (map id_word value ++ rest)) t
        ≡ read_pairs T len n rest (T.insert k value t)
  unfolding read_pairs
  read_step n k value rest t h =
      let ids =
        ap (λ m. read_ids T len m (map id_word value ++ rest)) (sym h) ∙ read_ids-map value rest in
      rw (le→leb len len (omega arith), ids, full_rest, append-nil value)

  read_pairs-write_pairs :
      (es : List (K × List ℤ)) (t : T.Map)
      → Full es
      → read_pairs T len (length es) (write_pairs T len es) t ≡ some (insert_all eq_iff T es t)
  unfolding write_pairs
  read_pairs-write_pairs [] t h = unfold read_pairs in refl
  read_pairs-write_pairs ((k, value) ∷ es) t h =
      read_step (length es) k value (write_pairs T len es) t h.0
      ∙ read_pairs-write_pairs es (T.insert k value t) h.1

  -- With a slash at its end, the working directory gives both names to one file.
  same_name :
      (fs : FileSystem (List (Word K))) (dir : List ℕ)
      → fs.resolve ((dir ++ (47 ∷ [])) ++ dump_name)
        ≡ fs.resolve ((dir ++ (47 ∷ [])) ++ (47 ∷ dump_name))
  same_name fs dir =
      ap fs.resolve (append_assoc dir (47 ∷ []) dump_name)
      ∙ sym (fs.slashes dir dump_name)
      ∙ ap fs.resolve (sym (append_assoc dir (47 ∷ []) (47 ∷ dump_name)))

  -- Where the name of the working directory ends in a slash, a store whose arrays are full is found
  -- again and read back with the same value for every key, in whatever order the iterator wrote it.
  pub init-close :
      (fs : FileSystem (List (Word K))) (dir : List ℕ) (files : fs.Files) (t : T.Map)
      → ((k : K) (value : List ℤ) → T.lookup k t ≡ some value → length value ≡ len)
      → (t' : T.Map) × (init_kvstore_htable T len fs
            (dir ++ (47 ∷ []))
            (close_kvstore_htable T len fs (dir ++ (47 ∷ [])) t files)
          ≡ some t')
        × ((k : K) → T.lookup k t' ≡ T.lookup k t)
  unfolding init_kvstore_htable close_kvstore_htable read_dump
  init-close fs dir files t full =
      let file = int_word (T.size t) ∷ write_pairs T len (T.entries t) in
      let there =
        fs.read-write ((dir ++ (47 ∷ [])) ++ dump_name) ((dir ++ (47 ∷ [])) ++ (47 ∷ dump_name))
          file files (same_name fs dir) in
      (
        insert_all eq_iff T (T.entries t) T.empty,
        rw (init_kvstore_htable, close_kvstore_htable, there)
            (ap (λ n. read_pairs T len n (write_pairs T len (T.entries t)) T.empty) (T.size_lem t)
              ∙ read_pairs-write_pairs (T.entries t) T.empty (
                  All-find eq_iff T (λ k value. length value ≡ len) (T.entries t)
                    (T.entries-Distinct t)
                    (λ k value found. full k value (sym (T.find-entries k t) ∙ found)))),
        λ k. lookup-copy eq_iff T k t,
      )

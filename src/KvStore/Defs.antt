-- ===== src/KvStore/Defs.antt =====
-- The functions of src/index/kvstore_htable.c. A key (the first `index_key_size` bytes) is of any
-- type with an equality; its value is the array of `length` = `index_value_length` identifiers.
-- kvstore_htable_delete gives `none` where its assert fails.
use mathlib.Core.Option
use destor.Base.{
  true, map, ◌≡◌, ℕ, zero, suc, ◌-◌, Bool, Option, none, some, List, [], ◌∷◌, ◌++◌, take, replicate,
  if◌then◌else◌, ℤ, ◌==ℤ◌, Table, leb,
}
use destor.Chunk.{temporary_id}

-- A value in the dump file, as fwrite puts it there.
pub data Word (K : Type 0) : Type 0 where
  int_word : ℕ → Word K
  key_word : K → Word K
  id_word : ℤ → Word K

-- The names of the dump, as bytes: "index/htable", behind destor.working_directory.
abbrev pub dump_name : List ℕ
dump_name = 105 ∷ 110 ∷ 100 ∷ 101 ∷ 120 ∷ 47 ∷ 104 ∷ 116 ∷ 97 ∷ 98 ∷ 108 ∷ 101 ∷ []

-- The files of the operating system. Two names with one `resolve` are names of one file; a slash
-- (47) may be doubled.
pub record FileSystem (Content : Type 0) : Type 1 where
  pub Files : Type 0
  pub resolve : List ℕ → List ℕ
  pub read : List ℕ → Files → Option Content
  pub write : List ℕ → Content → Files → Files
  pub slashes : (a b : List ℕ) → resolve (a ++ (47 ∷ 47 ∷ b)) ≡ resolve (a ++ (47 ∷ b))
  pub read-write :
      (a b : List ℕ) (c : Content) (files : Files)
      → resolve a ≡ resolve b
      → read a (write b c files) ≡ some c

-- new_kvpair_full and new_kvpair: no identifier yet.
unfoldable pub new_values : ℕ → List ℤ
new_values len = replicate len temporary_id

-- memmove by one place, and the new identifier in front.
unfoldable pub kv_update : ℕ → List ℤ → ℤ → List ℤ
kv_update len value id = id ∷ take (len - 1) value

-- The loop of kvstore_htable_delete over the array.
unfoldable pub delete_id : ℤ → List ℤ → Option (List ℤ)
delete_id id [] = some []
delete_id id (x ∷ []) = if x ==ℤ id then some (temporary_id ∷ []) else some (x ∷ [])
delete_id id (x ∷ y ∷ value) =
    let rest = delete_id id (y ∷ value) in
    if x ==ℤ id
    then (if y ==ℤ temporary_id then some (temporary_id ∷ y ∷ value) else none)
    else Option.map (◌∷◌ x) rest

-- `value[0] == TEMPORARY_ID`; the array has at least one place.
unfoldable pub all_deleted : List ℤ → Bool
all_deleted [] = true
all_deleted (x ∷ value) = x ==ℤ temporary_id

module _ {K : Type 0} {eq : K → K → Bool} (T : Table K (List ℤ) eq) (len : ℕ) where
  unfoldable pub kvstore_htable_lookup : K → T.Map → Option (List ℤ)
  kvstore_htable_lookup key htable = T.lookup key htable

  unfoldable pub kvstore_htable_update : K → ℤ → T.Map → T.Map
  kvstore_htable_update key id htable = elim (T.lookup key htable) [
    | none ↦ T.insert key (kv_update len (new_values len) id) htable
    | some value ↦ T.insert key (kv_update len value id) htable
  ]

  unfoldable pub kvstore_htable_delete : K → ℤ → T.Map → Option T.Map
  kvstore_htable_delete key id htable = elim (T.lookup key htable) [
    | none ↦ some htable
    | some value ↦ elim (delete_id id value) [
      | none ↦ none
      | some value' ↦
          some (if all_deleted value' then T.remove key htable else T.insert key value' htable)
    ]
  ]

  unfoldable pub write_pairs : List (K × List ℤ) → List (Word K)
  write_pairs [] = []
  write_pairs ((k, value) ∷ es) = key_word k ∷ int_word len ∷ (map id_word value ++ write_pairs es)

  unfoldable pub close_kvstore_htable :
      (fs : FileSystem (List (Word K))) → List ℕ → T.Map → fs.Files → fs.Files
  unfolding write_pairs
  close_kvstore_htable fs working_directory htable files =
      fs.write (working_directory ++ (47 ∷ dump_name))
        (int_word (T.size htable) ∷ write_pairs (T.entries htable)) files

  -- The loop that reads `id_num` identifiers into the array.
  unfoldable pub read_ids : ℕ → List (Word K) → Option (List ℤ × List (Word K))
  read_ids zero file = some ([], file)
  read_ids (suc n) (id_word i ∷ file) = elim (read_ids n file) [
    | none ↦ none
    | some (ids, rest) ↦ some (i ∷ ids, rest)
  ]
  read_ids (suc n) file = none

  -- The loop over the keys. What is not read of an array stays TEMPORARY_ID.
  unfoldable pub read_pairs : ℕ → List (Word K) → T.Map → Option T.Map
  unfolding read_ids new_values
  read_pairs zero file htable = some htable
  read_pairs (suc n) (key_word k ∷ int_word id_num ∷ file) htable =
      if leb id_num len
      then elim (read_ids id_num file) [
        | none ↦ none
        | some (ids, rest) ↦
            read_pairs n rest (T.insert k (ids ++ new_values (len - id_num)) htable)
      ]
      else none
  read_pairs (suc n) file htable = none

  -- What is made of the file; `none` where a value is not of the kind read, or an array is longer
  -- than `index_value_length`.
  unfoldable pub read_dump : List (Word K) → Option T.Map
  unfolding read_pairs
  read_dump (int_word key_num ∷ file) = read_pairs key_num file T.empty
  read_dump file = none

  unfoldable pub init_kvstore_htable :
      (fs : FileSystem (List (Word K))) → List ℕ → fs.Files → Option T.Map
  unfolding read_dump
  init_kvstore_htable fs working_directory files =
      elim (fs.read (working_directory ++ dump_name) files) [
        | none ↦ some T.empty
        | some file ↦ read_dump file
      ]

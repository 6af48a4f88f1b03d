-- ===== src/Sampling/Defs.antt =====
-- The functions of src/index/sampling_method.c. memcmp of two fingerprints is the order of the
-- numbers that they spell. A GSequence of candidates is a list; the table of features is a
-- GHashTable whose values are NULL. `key_of` takes the first index_key_size bytes. `k` is
-- destor.index_sampling_method[1]; a failed assert is `none`.
use mathlib.Core.Option
use destor.Base.{
  ℕ, ◌+◌, ◌-◌, ◌*◌, ◌/◌, ◌%◌, ◌^◌, ◌==◌, ltb, Bool, false, not, ◌&&◌, ◌||◌, Option, none, some,
  List, [], ◌∷◌, map, if◌then◌else◌, Table, length, get_elem?, take, replicate, is_some, min,
}
use destor.Chunk.{Chunk, Fingerprint, is_file_mark}
use destor.Serial.{Endian}
use destor.Segment.{is_boundary}

unfoldable pub feature_number : ℕ → ℕ → ℕ
feature_number k chunk_num =
    if not (k == 0) && ltb k chunk_num
    then (if ltb k (chunk_num % k * 2) then chunk_num / k + 1 else chunk_num / k)
    else 1

-- g_sequence_insert_sorted, by a key: behind the elements that are not greater.
unfoldable pub insert_sorted : {A : Type 0} → (A → ℕ) → A → List A → List A
insert_sorted key x [] = x ∷ []
insert_sorted key x (y ∷ l) = if ltb (key x) (key y) then x ∷ y ∷ l else y ∷ insert_sorted key x l

-- g_sequence_iter_prev of the end.
abbrev pub last_of : {A : Type 0} → List A → Option A
last_of [] = none
last_of (x ∷ []) = some x
last_of (x ∷ y ∷ l) = last_of (y ∷ l)

-- "insufficient candidates or new candidate"
unfoldable pub offer : {A : Type 0} → (A → ℕ) → ℕ → A → List A → List A
unfolding insert_sorted
offer key feature_num x l =
    let smaller = elim (last_of l) as (λ o. Bool) [ none ↦ false | some y ↦ ltb (key x) (key y) ] in
    let l' = insert_sorted key x l in
    if ltb (length l) feature_num || smaller
    then (if ltb feature_num (length l') then take (length l' - 1) l' else l')
    else l

-- The first loop of index_sampling_min.
unfoldable pub min_candidates : ℕ → List Chunk → List Fingerprint → List Fingerprint
unfolding offer
min_candidates n [] l = l
min_candidates n (c ∷ cs) l =
    min_candidates n cs (if is_file_mark c then l else offer (λ f. f) n c.fp l)

pub record Anchor : Type 0 where
  pub anchor : Fingerprint
  pub candidate : Fingerprint

-- The loop that selects anchors; `prefix` holds the last off + 1 = 9 fingerprints, newest first.
unfoldable pub select_anchors :
    ℕ → List Chunk → List Fingerprint → ℕ → List Anchor → Option (List Anchor)
unfolding offer
select_anchors n [] prefix count l = some l
select_anchors n (c ∷ cs) prefix count l =
    let prefix' = c.fp ∷ take 8 prefix in
    let next : Option (List Fingerprint × ℕ × List Anchor) =
      if is_file_mark c
      then some (prefix, count, l)
      else Option.map
          (λ f. (
            prefix',
            count + 1,
            offer (λ a. a.anchor) n (record { anchor = c.fp; candidate = f }) l,
          ))
          (get_elem? prefix' (min count 8)) in
    elim next [ none ↦ none | some (prefix1, count1, l1) ↦ select_anchors n cs prefix1 count1 l1 ]

-- A fingerprint of 20 bytes 0xff.
abbrev pub all_ones : Fingerprint
all_ones = 2 ^ 160 - 1

-- destor.index_sampling_method[0]
pub data SamplingMethod : Type 0 where
  random : Endian → SamplingMethod
  optimized_min : SamplingMethod
  minimum : SamplingMethod
  uniform : SamplingMethod

module _ {K : Type 0} {eq : K → K → Bool} (F : Table K (Unit {0}) eq)
    (key_of : Fingerprint → K) where
  unfoldable pub add_features : List Fingerprint → F.Map → F.Map
  add_features [] features = features
  add_features (f ∷ fs) features = add_features fs (F.insert (key_of f) tt features)

  -- The feature that an empty table gets.
  abbrev pub or_default : Fingerprint → F.Map → F.Map
  or_default f features = if F.size features == 0 then F.insert (key_of f) tt features else features

  abbrev pub number_of : List Chunk → ℕ → ℕ
  number_of chunks chunk_num = if chunk_num == 0 then length chunks else chunk_num

  unfoldable pub index_sampling_min : ℕ → List Chunk → ℕ → F.Map
  unfolding add_features min_candidates feature_number
  index_sampling_min k chunks chunk_num =
      let n = feature_number k (number_of chunks chunk_num) in
      or_default all_ones (add_features (min_candidates n chunks []) F.empty)

  unfoldable pub index_sampling_optimized_min : ℕ → List Chunk → ℕ → Option F.Map
  unfolding add_features select_anchors feature_number
  index_sampling_optimized_min k chunks chunk_num =
      let n = feature_number k (number_of chunks chunk_num) in
      Option.map (λ l. or_default all_ones (add_features (map (λ a. a.candidate) l) F.empty))
        (select_anchors n chunks (replicate 9 all_ones) 0 [])

  -- "if (!g_hash_table_contains(features, &c->fp))"
  abbrev pub add_new : Fingerprint → F.Map → F.Map
  add_new f features =
      if is_some (F.lookup (key_of f) features) then features else F.insert (key_of f) tt features

  unfoldable pub random_features : Endian → ℕ → List Chunk → F.Map → F.Map
  random_features e k [] features = features
  random_features e k (c ∷ cs) features = random_features e k cs (
      if is_file_mark c
      then features
      else (if is_boundary e k c.fp then add_new c.fp features else features))

  unfoldable pub index_sampling_random : Endian → ℕ → List Chunk → Option F.Map
  unfolding random_features
  index_sampling_random e k chunks =
      if k == 0 then none else some (or_default 0 (random_features e k chunks F.empty))

  unfoldable pub uniform_features : ℕ → List Chunk → ℕ → F.Map → F.Map
  uniform_features k [] count features = features
  uniform_features k (c ∷ cs) count features =
      uniform_features k cs (count + 1) (if count % k == 0 then add_new c.fp features else features)

  unfoldable pub index_sampling_uniform : ℕ → List Chunk → ℕ → Option F.Map
  unfolding uniform_features
  index_sampling_uniform k chunks chunk_num =
      let features = uniform_features k chunks 0 F.empty in
      if k == 0
      then none
      else if (F.size features == 0) && not (chunk_num == 0)
      then none
      else some (or_default 0 features)

  -- `sampling`, as init_sampling_method sets it.
  unfoldable pub sampling : SamplingMethod → ℕ → List Chunk → ℕ → Option F.Map
  unfolding index_sampling_random index_sampling_optimized_min index_sampling_min
      index_sampling_uniform
  sampling (random e) k chunks chunk_num = index_sampling_random e k chunks
  sampling optimized_min k chunks chunk_num = index_sampling_optimized_min k chunks chunk_num
  sampling minimum k chunks chunk_num = some (index_sampling_min k chunks chunk_num)
  sampling uniform k chunks chunk_num = index_sampling_uniform k chunks chunk_num

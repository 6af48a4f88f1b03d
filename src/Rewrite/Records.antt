-- ===== src/Rewrite/Records.antt =====
-- The records of containers against the chunks of a queue.
use mathlib.Core.Option
use destor.Base.{
  refl, ap, is_some, ==_iff, ℕ, ◌+◌, ◌<◌, ◌≡◌, ◌∙◌, Bool, true, false, ◌&&◌, not, Option, none,
  some, List, [], ◌∷◌, ◌++◌, arith, if◌then◌else◌, ℤ, ◌==ℤ◌, ==ℤ_iff, find, put, delete, find-put,
  find-delete, All, Bool-cases, Option-cases, inl, inr,
}
use destor.Chunk.{Chunk, is_signal, has_id}
use destor.Serial.{to_word}
use destor.Rewrite.Defs.{same_record, find_record, add_record, take_record}

-- A chunk of which the buffer keeps a record.
abbrev pub recorded : Chunk → Bool
recorded c = not (is_signal c) && has_id c

-- What the dedup phase hands on: a chunk with a container is a duplicate, and is not empty.
abbrev pub Marked : Chunk → Type 0
Marked c = recorded c ≡ true → (c.flag.duplicate ≡ true) × (0 < c.size)

-- The bytes of one container among the chunks of a queue; `none` without any.
abbrev pub total : ℤ → List Chunk → Option ℕ
total id [] = none
total id (c ∷ queue) =
    let rest = total id queue in
    if recorded c && (c.id ==ℤ id)
    then elim rest [ none ↦ some c.size | some n ↦ some (c.size + n) ]
    else rest

pub total-append :
    (id : ℤ) (queue : List Chunk) (c : Chunk)
    → total id (queue ++ (c ∷ [])) ≡ (
        if recorded c && (c.id ==ℤ id)
        then elim (total id queue) [ none ↦ some c.size | some n ↦ some (n + c.size) ]
        else total id queue)
total-append id [] c = ground arith
total-append id (x ∷ queue) c = ground (arith, total-append id queue c)

total_pos :
    (id : ℤ) (queue : List Chunk) (n : ℕ) → All Marked queue → total id queue ≡ some n → 0 < n
total_pos id [] n h e = absurd (ground (arith, e))
total_pos id (c ∷ queue) n h e = elim (Bool-cases (recorded c && (c.id ==ℤ id))) [
  | inr other ↦ total_pos id queue n h.1 (ground (arith, e, other))
  | inl here ↦ elim (Option-cases (total id queue)) [
    | inl none_there ↦ ground (arith, e, here, none_there, h.0)
    | inr (k, there) ↦ ground (arith, e, here, there, h.0)
  ]
]

-- The comparison takes no two containers of a queue for one.
abbrev pub Exact : List Chunk → Type 0
Exact queue =
    (i j : ℤ)
    → is_some (total i queue) ≡ true
    → is_some (total j queue) ≡ true
    → same_record i j ≡ true
    → i ≡ j

same_record_self : (id : ℤ) → same_record id id ≡ true
unfolding same_record
same_record_self id = (==_iff (to_word 32 id) (to_word 32 id)).1 refl

find_record-find :
    (id : ℤ) (records : List (ℤ × ℕ))
    → ((j : ℤ) → is_some (find ◌==ℤ◌ j records) ≡ true → same_record j id ≡ true → j ≡ id)
    → find_record id records ≡ Option.map (λ size. (id, size)) (find ◌==ℤ◌ id records)
unfolding find_record
find_record-find id [] exact = refl
find_record-find id ((k, size) ∷ records) exact = elim (Bool-cases (same_record k id)) [
  | inl same ↦
      let here : k ≡ id = exact k (ground (arith, ==ℤ_iff k k)) same in
      let found : (k ==ℤ id) ≡ true = (==ℤ_iff k id).1 here in
      rw (same, found) (ap (λ j. some (j, size)) here)
  | inr other ↦
      let rest =
        find_record-find id records (λ j there same. exact j (ground (arith, there)) same) in
      let apart : (k ==ℤ id) ≡ false = ground (arith, other, ==ℤ_iff k id, same_record_self id) in
      rw (other, apart) rest
]

pub Exact-front : (c : Chunk) (queue : List Chunk) → Exact (c ∷ queue) → Exact queue
Exact-front c queue exact i j there there' same =
    exact i j (ground (arith, there)) (ground (arith, there')) same

pub add_record_lem :
    (c : Chunk) (queue : List Chunk) (records : List (ℤ × ℕ))
    → ((id : ℤ) → find ◌==ℤ◌ id records ≡ total id queue)
    → Marked c
    → Exact (queue ++ (c ∷ []))
    → is_signal c ≡ false
    → (records' : List (ℤ × ℕ)) × (add_record c records ≡ some records')
      × ((id : ℤ) → find ◌==ℤ◌ id records' ≡ total id (queue ++ (c ∷ [])))
unfolding add_record
add_record_lem c queue records same h exact s = elim (Bool-cases (has_id c)) [
  | inr no_id ↦ (
    records,
    ground (arith, no_id),
    λ id. ground (arith, no_id, total-append id queue c, same id),
  )
  | inl id_there ↦
      let (dup, some_byte) = h (ground (arith, s, id_there)) in
      let found = find_record-find c.id records (λ j there near.
        exact j c.id (ground (arith, there, same j, total-append j queue c))
          (ground (arith, s, id_there, total-append c.id queue c, ==ℤ_iff c.id c.id)) near) in
      elim (Option-cases (find ◌==ℤ◌ c.id records)) [
        | inl new ↦ (
          put ◌==ℤ◌ c.id c.size records,
          ground (arith, id_there, dup, new, found),
          λ id.
              find-put ◌==ℤ◌ ==ℤ_iff id c.id c.size records
              ∙ ground (
                arith,
                id_there,
                s,
                new,
                total-append id queue c,
                same id,
                same c.id,
                ==ℤ_iff c.id id,
              ),
        )
        | inr (n, old) ↦ (
          put ◌==ℤ◌ c.id (n + c.size) records,
          ground (arith, id_there, dup, old, found, ==ℤ_iff c.id c.id),
          λ id.
              find-put ◌==ℤ◌ ==ℤ_iff id c.id (n + c.size) records
              ∙ ground (
                arith,
                id_there,
                s,
                old,
                total-append id queue c,
                same id,
                same c.id,
                ==ℤ_iff c.id id,
              ),
        )
      ]
]

pub take_record_lem :
    (c : Chunk) (queue : List Chunk) (records : List (ℤ × ℕ))
    → ((id : ℤ) → find ◌==ℤ◌ id records ≡ total id (c ∷ queue))
    → Marked c
    → All Marked queue
    → Exact (c ∷ queue)
    → is_signal c ≡ false
    → (records' : List (ℤ × ℕ)) × (take_record c records ≡ some records')
      × ((id : ℤ) → find ◌==ℤ◌ id records' ≡ total id queue)
unfolding take_record
take_record_lem c queue records same h hs exact s = elim (Bool-cases (has_id c)) [
  | inr no_id ↦ (records, ground (arith, no_id), λ id. ground (arith, no_id, same id))
  | inl id_there ↦
      let (dup, some_byte) = h (ground (arith, s, id_there)) in
      let sought = find_record-find c.id records (λ j there near.
        exact j c.id (ground (arith, there, same j))
          (ground (arith, s, id_there, ==ℤ_iff c.id c.id)) near) in
      elim (Option-cases (total c.id queue)) [
        | inl last ↦
            let found : find ◌==ℤ◌ c.id records ≡ some c.size =
              ground (arith, s, id_there, last, same c.id, ==ℤ_iff c.id c.id) in
            (
              delete ◌==ℤ◌ c.id records,
              ground (arith, id_there, dup, found, sought),
              λ id.
                  find-delete ◌==ℤ◌ ==ℤ_iff id c.id records
                  ∙ ground (arith, id_there, s, last, same id, ==ℤ_iff c.id id),
            )
        | inr (n, more) ↦
            let found : find ◌==ℤ◌ c.id records ≡ some (c.size + n) =
              ground (arith, s, id_there, more, same c.id, ==ℤ_iff c.id c.id) in
            let n_pos = total_pos c.id queue n hs more in
            (
              put ◌==ℤ◌ c.id n records,
              ground (arith, id_there, dup, found, sought, n_pos),
              λ id.
                  find-put ◌==ℤ◌ ==ℤ_iff id c.id n records
                  ∙ ground (arith, id_there, s, more, same id, ==ℤ_iff c.id id),
            )
      ]
]

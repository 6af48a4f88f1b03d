-- ===== src/Assembly/Fill.antt =====
-- The middle loop of assemble_area: what it does to one chunk, and to the area.
use mathlib.Core.Option.{some_inj}
use destor.Base.{
  ℕ, zero, suc, length, ◌≡◌, refl, sym, ap, ◌∙◌, Bool, true, false, ◌||◌, Option, some, List, [],
  ◌∷◌, take, arith, ◌==◌, Bool-cases, Option-cases, inl, inr, ℤ, ◌==ℤ◌, ==ℤ_iff,
}
use destor.Chunk.{Chunk, is_file_mark}
use destor.Assembly.Defs.{Reader, set_ready, fill, fill_all, container_of}

take-take : (n : ℕ) (xs : List ℕ) → take n (take n xs) ≡ take n xs
take-take zero xs = refl
take-take (suc n) [] = refl
take-take (suc n) (x ∷ xs) = ap (◌∷◌ x) (take-take n xs)

-- What assemble_area passes on: a mark, or a chunk that is READY.
abbrev pub settled : Chunk → Bool
settled c = is_file_mark c || c.flag.ready

module _ (R : Reader) (level : ℕ) where
  -- A chunk filled on its own, from its own container.
  abbrev pub own : Chunk → Option Chunk
  own c = fill R level (container_of R level c.id) c.id c

  -- `a` lies in the area where `o` is to come out of it: filled already, or not yet.
  pub record Placed (a o : Chunk) : Type 0 where
    pub filled : own a ≡ some o
    pub done : settled a ≡ true → a ≡ o

  pub own_mark : (a : Chunk) → is_file_mark a ≡ true → own a ≡ some a
  unfolding fill
  own_mark a h = ground arith

  fill_mark :
      (id : ℤ) (a : Chunk)
      → is_file_mark a ≡ true
      → fill R level (container_of R level id) id a ≡ some a
  unfolding fill
  fill_mark id a h = ground arith

  fill_other :
      (id : ℤ) (a : Chunk)
      → id ==ℤ a.id ≡ false
      → fill R level (container_of R level id) id a ≡ some a
  unfolding fill
  fill_other id a h = elim (Bool-cases (is_file_mark a)) [
    | inl m ↦ rw m refl
    | inr m ↦ rw (m, h) refl
  ]

  own_level0 :
      (a : Chunk) (con : R.Con) (buf : Chunk)
      → is_file_mark a ≡ false
      → level == 0 ≡ true
      → R.retrieve a.id ≡ some con
      → R.chunk_of con a.fp ≡ some buf
      → a.size == buf.size ≡ true
      → own a ≡ some (set_ready (record a { data_bytes = take a.size buf.data_bytes }))
  unfolding fill container_of
  own_level0 a con buf m z r k s = rw (m, (==ℤ_iff a.id a.id).1 refl, z, r, k, s)

  own_simulated :
      (a : Chunk) → is_file_mark a ≡ false → level == 0 ≡ false → own a ≡ some (set_ready a)
  unfolding fill container_of
  own_simulated a m z = rw (m, (==ℤ_iff a.id a.id).1 refl, z)

  -- A chunk that was filled is READY, and filling it again changes nothing.
  own_again_level0 :
      (a o : Chunk) (con : R.Con) (buf : Chunk)
      → is_file_mark a ≡ false
      → level == 0 ≡ true
      → R.retrieve a.id ≡ some con
      → R.chunk_of con a.fp ≡ some buf
      → a.size == buf.size ≡ true
      → set_ready (record a { data_bytes = take a.size buf.data_bytes }) ≡ o
      → (own o ≡ some o) × (settled o ≡ true)
  own_again_level0 a o con buf m z r k s e =
      let o' = set_ready (record a { data_bytes = take a.size buf.data_bytes }) in
      rw (sym e) (own_level0 o' con buf m z r k s, rw m refl)

  own_again_simulated :
      (a o : Chunk)
      → is_file_mark a ≡ false
      → level == 0 ≡ false
      → set_ready a ≡ o
      → (own o ≡ some o) × (settled o ≡ true)
  own_again_simulated a o m z e = rw (sym e) (own_simulated (set_ready a) m z, rw m refl)

  -- A fill that succeeds, without simulation, found the container and the chunk of its size.
  own_finds :
      (a o : Chunk)
      → is_file_mark a ≡ false
      → level == 0 ≡ true
      → own a ≡ some o
      → (con : R.Con) × (buf : Chunk) × (R.retrieve a.id ≡ some con)
        × (R.chunk_of con a.fp ≡ some buf)
        × (a.size == buf.size ≡ true)
  unfolding fill container_of
  own_finds a o m z h = elim (Option-cases (R.retrieve a.id)) [
    | inl r ↦ absurd (ground (arith, h, ==ℤ_iff a.id a.id))
    | inr (con, r) ↦ elim (Option-cases (R.chunk_of con a.fp)) [
      | inl k ↦ absurd (ground (arith, h, ==ℤ_iff a.id a.id))
      | inr (buf, k) ↦ elim (Bool-cases (a.size == buf.size)) [
        | inl s ↦ (con, buf, r, k, s)
        | inr s ↦ absurd (ground (arith, h, ==ℤ_iff a.id a.id))
      ]
    ]
  ]

  own_again :
      (a o : Chunk)
      → is_file_mark a ≡ false
      → own a ≡ some o
      → (own o ≡ some o) × (settled o ≡ true)
  own_again a o m h = elim (Bool-cases (level == 0)) [
    | inl z ↦
        let (con, buf, r, k, s) = own_finds a o m z h in
        own_again_level0 a o con buf m z r k s
          (some_inj.0 (sym (own_level0 a con buf m z r k s) ∙ h))
    | inr z ↦ own_again_simulated a o m z (some_inj.0 (sym (own_simulated a m z) ∙ h))
  ]

  -- One step of the middle loop: a chunk of the container `id` is settled, and each stays in place.
  fill-Placed :
      (id : ℤ) (a o : Chunk)
      → Placed a o
      → (b : Chunk) × (fill R level (container_of R level id) id a ≡ some b)
        × Placed b o
        × (a.id ≡ id → settled b ≡ true)
  fill-Placed id a o p = elim (Bool-cases (is_file_mark a)) [
    | inl m ↦ (a, fill_mark id a m, p, λ _. rw m refl)
    | inr m ↦ elim (Bool-cases (id ==ℤ a.id)) [
      | inl same ↦
          let e : a.id ≡ id = sym ((==ℤ_iff id a.id).0 same) in
          let (again, ready) = own_again a o m p.filled in
          (
            o,
            ap (λ i. fill R level (container_of R level i) i a) (sym e) ∙ p.filled,
            record { filled = again; done = λ _. refl },
            λ _. ready,
          )
      | inr other ↦ (
        a,
        fill_other id a other,
        p,
        λ e. absurd (ground (arith, (==ℤ_iff id a.id).1 (sym e), other)),
      )
    ]
  ]

  -- The chunks of an area and what is to come out of it, one by one.
  abbrev pub AllPlaced : List Chunk → List Chunk → Type 0
  AllPlaced [] [] = Unit
  AllPlaced [] (o ∷ os) = ⊥
  AllPlaced (a ∷ cs) [] = ⊥
  AllPlaced (a ∷ cs) (o ∷ os) = Placed a o × AllPlaced cs os

  pub fill_all-AllPlaced :
      (id : ℤ) (cs os : List Chunk)
      → AllPlaced cs os
      → (bs : List Chunk) × (fill_all R level (container_of R level id) id cs ≡ some bs)
        × AllPlaced bs os
  unfolding fill_all
  fill_all-AllPlaced id [] [] h = ([], refl, tt)
  fill_all-AllPlaced id [] (o ∷ os) h = absurd h
  fill_all-AllPlaced id (a ∷ cs) [] h = absurd h
  fill_all-AllPlaced id (a ∷ cs) (o ∷ os) h =
      let (b, f, p, _) = fill-Placed id a o h.0 in
      let (bs, fs, ps) = fill_all-AllPlaced id cs os h.1 in
      (b ∷ bs, rw (fill_all, f, fs) refl, (p, ps))

  -- The first chunk, whose container it is, comes out settled.
  pub fill_all_first :
      (a : Chunk) (cs os : List Chunk)
      → AllPlaced (a ∷ cs) os
      → (b : Chunk) × (bs : List Chunk) × (fill_all R level
            (container_of R level a.id)
            a.id
            (a ∷ cs)
          ≡ some (b ∷ bs))
        × AllPlaced (b ∷ bs) os
        × (settled b ≡ true)
        × (length bs ≡ length cs)
  unfolding fill_all
  fill_all_first a cs [] h = absurd h
  fill_all_first a cs (o ∷ os) h =
      let (b, f, p, s) = fill-Placed a.id a o h.0 in
      let (bs, fs, ps) = fill_all-AllPlaced a.id cs os h.1 in
      (b, bs, rw (fill_all, f, fs) refl, (p, ps), s refl, same_length cs bs os h.1 ps)
    where
      same_length :
          (xs ys zs : List Chunk) → AllPlaced xs zs → AllPlaced ys zs → length ys ≡ length xs
      same_length [] [] zs h k = refl
      same_length [] (y ∷ ys) [] h k = absurd k
      same_length [] (y ∷ ys) (z ∷ zs) h k = absurd h
      same_length (x ∷ xs) [] [] h k = absurd h
      same_length (x ∷ xs) [] (z ∷ zs) h k = absurd k
      same_length (x ∷ xs) (y ∷ ys) [] h k = absurd h
      same_length (x ∷ xs) (y ∷ ys) (z ∷ zs) h k = ap suc (same_length xs ys zs h.1 k.1)

-- ===== src/Rewrite/Har/Trim.antt =====
-- The file of sparse containers that close_har leaves.
use destor.Base.{
  ℕ, zero, suc, ◌+◌, ◌-◌, ◌<◌, ◌≤◌, ◌==ℤ◌, ==ℤ_iff, ◌≡◌, ◌∙◌, ap, ap₂, sym, is_some, refl, leb,
  Bool, true, false, Option, none, some, List, [], ◌∷◌, ◌++◌, length, if◌then◌else◌, ℤ, find,
  Distinct, Bool-cases, inl, inr, arith, append_assoc, append-nil,
}
use destor.Rewrite.Har.Defs.{insert_record, collect_sparse, remove_last, trim}

abbrev pub sizes : List (ℤ × ℕ) → ℕ
sizes [] = 0
sizes (r ∷ seq) = r.1 + sizes seq

-- Records in ascending order of their sizes, all at least `low`.
abbrev pub Ascending : ℕ → List (ℤ × ℕ) → Type 0
Ascending low [] = Unit
Ascending low (r ∷ seq) = (low ≤ r.1) × Ascending (r.1) seq

-- What is found of a container among the records of sparse ones.
abbrev pub only_sparse : (ℕ → Bool) → Option ℕ → Option ℕ
only_sparse is_sparse none = none
only_sparse is_sparse (some size) = if is_sparse size then some size else none

sizes-append : (s t : List (ℤ × ℕ)) → sizes (s ++ t) ≡ sizes s + sizes t
sizes-append [] t = ground arith
sizes-append (r ∷ s) t = ground (arith, sizes-append s t)

insert_record-sizes :
    (r : ℤ × ℕ) (seq : List (ℤ × ℕ)) → sizes (insert_record r seq) ≡ r.1 + sizes seq
unfolding insert_record
insert_record-sizes r [] = refl
insert_record-sizes r (x ∷ seq) = ground (arith, insert_record-sizes r seq)

insert_record-Ascending :
    (low : ℕ) (r : ℤ × ℕ) (seq : List (ℤ × ℕ))
    → low ≤ r.1
    → Ascending low seq
    → Ascending low (insert_record r seq)
unfolding insert_record
insert_record-Ascending low r [] l h = (l, tt)
insert_record-Ascending low r (x ∷ seq) l h = elim (Bool-cases (leb x.1 r.1)) [
  | inl t ↦ rw t (h.0, insert_record-Ascending x.1 r seq (ground (arith, t)) h.1)
  | inr f ↦ rw f (l, (ground (arith, f), h.1))
]

insert_record-find :
    (j : ℤ) (r : ℤ × ℕ) (seq : List (ℤ × ℕ))
    → find ◌==ℤ◌ r.0 seq ≡ none
    → find ◌==ℤ◌ j (insert_record r seq) ≡ (if r.0 ==ℤ j then some (r.1) else find ◌==ℤ◌ j seq)
unfolding insert_record
insert_record-find j r [] n = refl
insert_record-find j r (x ∷ seq) n =
    ground (arith, insert_record-find j r seq, n, ==ℤ_iff r.0 j, ==ℤ_iff x.0 j, ==ℤ_iff x.0 r.0)

remove_last_lem :
    (x : ℤ × ℕ) (seq : List (ℤ × ℕ))
    → (r : ℤ × ℕ) × (rest : List (ℤ × ℕ)) × (remove_last (x ∷ seq) ≡ some (r, rest))
      × (x ∷ seq ≡ rest ++ (r ∷ []))
      × (length (x ∷ seq) ≡ suc (length rest))
unfolding remove_last
remove_last_lem x [] = (x, [], refl, refl, refl)
remove_last_lem x (y ∷ seq) =
    let (r, rest, e, split, l) = remove_last_lem y seq in
    (r, x ∷ rest, rw (e) refl, ap (λ t. x ∷ t) split, ground (arith, l))

-- What was cut first would have been too much.
abbrev pub TooMuch : (ℕ → ℕ → Bool) → ℕ → List (ℤ × ℕ) → List (ℤ × ℕ) → Type 0
TooMuch exceeds total out [] = Unit
TooMuch exceeds total out (r ∷ cut) = exceeds (sizes out + r.1) total ≡ true

remove_last-empty : remove_last [] ≡ none
unfolding remove_last
remove_last-empty = refl

much_more :
    (exceeds : ℕ → ℕ → Bool) (total : ℕ) (out cut : List (ℤ × ℕ)) (r : ℤ × ℕ) (rest : List (ℤ × ℕ))
    → out ++ cut ≡ rest
    → exceeds (sizes rest + (r.1 + 0)) total ≡ true
    → TooMuch exceeds total out cut
    → TooMuch exceeds total out (cut ++ (r ∷ []))
much_more exceeds total out [] r rest joined big much =
    ap (λ s. exceeds s total) (omega (arith, ap sizes (sym (append-nil out) ∙ joined))) ∙ big
much_more exceeds total out (x ∷ cut) r rest joined big much = much

pub trim_lem :
    (exceeds : ℕ → ℕ → Bool) (total fuel sparse_size : ℕ) (seq : List (ℤ × ℕ))
    → exceeds 0 total ≡ false
    → sparse_size ≡ sizes seq
    → length seq < fuel
    → (out cut : List (ℤ × ℕ)) × (trim exceeds fuel sparse_size total seq ≡ some out)
      × (out ++ cut ≡ seq)
      × (exceeds (sizes out) total ≡ false)
      × TooMuch exceeds total out cut
unfolding trim
trim_lem exceeds total zero sparse_size seq z e n = absurd (omega arith)
trim_lem exceeds total (suc fuel) sparse_size [] z e n =
    ([], [], rw (trim, remove_last-empty, ap (λ s. exceeds s total) e ∙ z) refl, refl, z, tt)
trim_lem exceeds total (suc fuel) sparse_size (x ∷ seq) z e n =
    let (r, rest, last, split, l) = remove_last_lem x seq in
    let sum = ap sizes split ∙ sizes-append rest (r ∷ []) in
    let (out, cut, t, joined, ok, much) =
      trim_lem exceeds total fuel (sparse_size - r.1) rest z (omega (arith, e, sum))
        (omega (arith, l)) in
    elim (Bool-cases (exceeds sparse_size total)) [
      | inr f ↦ (
        x ∷ seq,
        [],
        rw (trim, last, f) refl,
        append-nil (x ∷ seq),
        ap (λ s. exceeds s total) (sym e) ∙ f,
        tt,
      )
      | inl big ↦ (
        out,
        cut ++ (r ∷ []),
        rw (trim, last, big, t) refl,
        sym (append_assoc out cut (r ∷ [])) ∙ ap (λ q. q ++ (r ∷ [])) joined ∙ sym split,
        ok,
        much_more exceeds total out cut r rest joined
            (ap (λ s. exceeds s total) (sym sum ∙ sym e) ∙ big) much,
      )
    ]

pub collect_sparse_lem :
    (is_sparse : ℕ → Bool) (records seq : List (ℤ × ℕ)) (sparse_size total_size : ℕ)
    → Distinct ◌==ℤ◌ records
    → ((i : ℤ) → is_some (find ◌==ℤ◌ i records) ≡ true → find ◌==ℤ◌ i seq ≡ none)
    → sparse_size ≡ sizes seq
    → Ascending 0 seq
    → (seq' : List (ℤ × ℕ)) × (collect_sparse is_sparse records seq sparse_size total_size
        ≡ (seq', sizes seq', total_size + sizes records))
      × Ascending 0 seq'
      × ((j : ℤ)
          → find ◌==ℤ◌ j seq' ≡ elim (only_sparse is_sparse (find ◌==ℤ◌ j records)) [
            | none ↦ find ◌==ℤ◌ j seq
            | some size ↦ some size
          ])
unfolding collect_sparse
collect_sparse_lem is_sparse [] seq s t d apart e up =
    (seq, ap₂ (λ a b. (seq, a, b)) e (ground arith), up, λ j. refl)
collect_sparse_lem is_sparse (r ∷ records) seq s t d apart e up =
    elim (Bool-cases (is_sparse r.1)) [
      | inr f ↦
          let (seq', c, up', found) =
            collect_sparse_lem is_sparse records seq s (t + r.1) d.1
              (λ i h. apart i (ground (arith, h))) e up in
          (
            seq',
            rw (f, c) (ap (λ n. (seq', sizes seq', n)) (omega arith)),
            up',
            λ j. ground (arith, found j, f, ==ℤ_iff r.0 j, d.0),
          )
      | inl g ↦
          let none_yet = apart r.0 (ground (arith, ==ℤ_iff r.0 r.0)) in
          let (seq', c, up', found) =
            collect_sparse_lem is_sparse records (insert_record r seq) (s + r.1) (t + r.1) d.1
              (λ i h.
                insert_record-find i r seq none_yet
                ∙ ground (arith, h, apart i, ==ℤ_iff r.0 i, d.0))
              (omega (arith, e, insert_record-sizes r seq))
              (insert_record-Ascending 0 r seq (omega arith) up) in
          (
            seq',
            rw (g, c) (ap (λ n. (seq', sizes seq', n)) (omega arith)),
            up',
            λ j.
                ground (arith, found j, g, insert_record-find j r seq none_yet, ==ℤ_iff r.0 j, d.0),
          )
    ]

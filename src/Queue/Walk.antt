-- ===== src/Queue/Walk.antt =====
-- The loops of src/utils/queue.c over a queue that holds a sequence: they end, at no NULL.
use mathlib.Core.Option
use destor.Base.{
  ℕ, zero, suc, ◌≡◌, ◌<◌, ◌≤◌, inl, inr, refl, ap, ◌∙◌, Bool, Option, none, some, if◌then◌else◌,
  List, [], ◌∷◌, map, length, get_elem?, Bool-cases, arith, leb,
}
use destor.Queue.Defs.{
  Heap, Queue, queue_empty, foreach_items, queue_foreach, nth_item, queue_get_n, find_item,
  queue_find,
}
use destor.Queue.Refine.{Linked, Holds, queue_pop-Holds}

module _ {A : Type 0} where
  -- The first element that meets the test.
  abbrev pub first_hit : (A → Bool) → List A → Option A
  first_hit hit [] = none
  first_hit hit (x ∷ xs) = if hit x then some x else first_hit hit xs

  foreach_items-Linked :
      (fuel : ℕ) (h : Heap A) (p : ℕ) (ns : List (ℕ × A))
      → length ns < fuel
      → Linked h p ns
      → foreach_items fuel h p ≡ some (map (λ n. n.1) ns)
  unfolding foreach_items
  foreach_items-Linked zero h p ns lt l = absurd (omega arith)
  foreach_items-Linked (suc n) h p [] lt l = ground (arith, l)
  foreach_items-Linked (suc n) h p ((a, d) ∷ ns) lt (at, a≢0, new, (e, he, ed, l)) =
      ground (arith, at, a≢0, he, ed, foreach_items-Linked n h e.next ns (omega arith) l)

  nth_item-Linked :
      (i : ℕ) (h : Heap A) (p : ℕ) (ns : List (ℕ × A))
      → i < length ns
      → Linked h p ns
      → Option.map some (nth_item i h p) ≡ some (get_elem? (map (λ n. n.1) ns) i)
  unfolding nth_item
  nth_item-Linked i h p [] lt l = absurd (omega arith)
  nth_item-Linked zero h p ((a, d) ∷ ns) lt (at, a≢0, new, (e, he, ed, l)) =
      ground (arith, at, he, ed)
  nth_item-Linked (suc i) h p ((a, d) ∷ ns) lt (at, a≢0, new, (e, he, ed, l)) =
      ground (arith, at, he, nth_item-Linked i h e.next ns (omega arith) l)

  find_item-Linked :
      (hit : A → Bool) (fuel : ℕ) (h : Heap A) (p : ℕ) (n : ℕ × A) (ns : List (ℕ × A))
      → length (n ∷ ns) ≤ fuel
      → Linked h p (n ∷ ns)
      → find_item hit fuel h p ≡ some (first_hit hit (map (λ m. m.1) (n ∷ ns)))
  unfolding find_item
  find_item-Linked hit zero h p n ns le l = absurd (omega arith)
  find_item-Linked hit (suc k) h p (a, d) [] le (at, a≢0, new, (e, he, ed, l)) =
      ground (arith, at, he, ed, l)
  find_item-Linked hit (suc k) h p (a, d) (m ∷ ns) le (at, a≢0, new, (e, he, ed, l)) =
      ground (arith, at, he, ed, l.0, l.1, find_item-Linked hit k h e.next m ns (omega arith) l)

  get_elem?-none : (xs : List A) (i : ℕ) → length xs ≤ i → get_elem? xs i ≡ none
  get_elem?-none [] i le = refl
  get_elem?-none (x ∷ xs) zero le = absurd (omega arith)
  get_elem?-none (x ∷ xs) (suc i) le = get_elem?-none xs i (omega arith)

  length_map : (ns : List (ℕ × A)) → length (map (λ n. n.1) ns) ≡ length ns
  length_map [] = refl
  length_map (n ∷ ns) = ap suc (length_map ns)

  foreach-items :
      (fuel : ℕ) (h : Heap A) (q : Queue) (ns : List (ℕ × A))
      → length ns < fuel
      → Linked h q.first ns
      → q.elem_num ≡ length ns
      → queue_foreach fuel h q ≡ some (map (λ n. n.1) ns)
  unfolding queue_foreach
  foreach-items fuel h q [] lt l num = ground arith
  foreach-items fuel h q (n ∷ ns) lt l num =
      ground (arith, num, foreach_items-Linked fuel h q.first (n ∷ ns) lt l)

  find-items :
      (hit : A → Bool) (fuel : ℕ) (h : Heap A) (q : Queue) (ns : List (ℕ × A))
      → length ns ≤ fuel
      → Linked h q.first ns
      → q.elem_num ≡ length ns
      → queue_find hit fuel h q ≡ some (first_hit hit (map (λ n. n.1) ns))
  unfolding queue_find
  find-items hit fuel h q [] lt l num = ground arith
  find-items hit fuel h q (n ∷ ns) lt l num =
      ground (arith, num, find_item-Linked hit fuel h q.first n ns lt l)

  get_n-items :
      (h : Heap A) (q : Queue) (n : ℕ) (ns : List (ℕ × A))
      → Linked h q.first ns
      → q.elem_num ≡ length ns
      → queue_get_n h q n ≡ some (get_elem? (map (λ n. n.1) ns) n)
  unfolding queue_get_n
  get_n-items h q n ns l num = elim (Bool-cases (leb q.elem_num n)) [
    | inl out ↦ rw (out, get_elem?-none (map (λ n. n.1) ns) n (ground (arith, length_map ns))) refl
    | inr within ↦ rw within (nth_item-Linked n h q.first ns (ground arith) l)
  ]

  -- On a queue that holds `xs`, with more fuel than elements, the loops end with no read of NULL:
  -- queue_foreach gives func the elements in order, queue_find returns the first that meets the
  -- test or NULL, and queue_get_n the one at the index, NULL behind the end.
  pub queue_walks :
      (hit : A → Bool) (fuel n : ℕ) (h : Heap A) (q : Queue) (xs : List A)
      → Holds h q xs
      → length xs < fuel
      → (queue_foreach fuel h q ≡ some xs)
        × (queue_find hit fuel h q ≡ some (first_hit hit xs))
        × (queue_get_n h q n ≡ some (get_elem? xs n))
  queue_walks hit fuel n h q xs holds lt =
      let ns = holds.items in
      let l = holds.linked in
      let num = holds.num_eq in
      let el = holds.elements in
      let lt' : length ns < fuel = omega (arith, length_map ns, ap length el) in
      (
        foreach-items fuel h q ns lt' l num ∙ ap some el,
        find-items hit fuel h q ns (omega (arith, lt')) l num
            ∙ ap (λ ys. some (first_hit hit ys)) el,
        get_n-items h q n ns l num ∙ ap (λ ys. some (get_elem? ys n)) el,
      )

  -- With more fuel than elements queue_empty ends: free_data gets every element once, in order, and
  -- the queue is empty.
  pub queue_empty-Holds :
      (fuel : ℕ) (h : Heap A) (q : Queue) (xs : List A)
      → Holds h q xs
      → length xs < fuel
      → (h' : Heap A) × (q' : Queue) × (queue_empty fuel h q ≡ some (map some xs, h', q'))
        × Holds h' q' []
  unfolding queue_empty
  queue_empty-Holds zero h q xs holds lt = absurd (omega arith)
  queue_empty-Holds (suc n) h q [] holds lt =
      let (h', q', run, left, top, size) = queue_pop-Holds h q [] holds in
      (h, q, ground (arith, size), holds)
  queue_empty-Holds (suc n) h q (x ∷ xs) holds lt =
      let (h', q', run, left, top, size) = queue_pop-Holds h q (x ∷ xs) holds in
      let (h2, q2, rest, none_left) = queue_empty-Holds n h' q' xs left (omega arith) in
      (h2, q2, ground (arith, run, size, rest), none_left)

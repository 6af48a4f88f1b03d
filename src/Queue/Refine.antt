-- ===== src/Queue/Refine.antt =====
-- The linked queue of src/utils/queue.c implements a sequence: what it holds, and what each
-- operation does to it.
use destor.Base.{
  ℕ, suc, ◌+◌, ◌-◌, ◌==◌, ◌≡◌, ◌≢◌, inl, inr, refl, sym, ap, ◌∙◌, none, some, if◌then◌else◌, List,
  [], ◌∷◌, ◌++◌, map, length, length-append, All, All-append, drop, get_elem?, Bool-cases, arith,
}
use destor.Queue.Defs.{
  QueueEle, Heap, Queue, queue_init, queue_size, write, free, link, queue_push, queue_pop,
  queue_top,
}

module _ {A : Type 0} where
  -- The items from an address on, each with its own address, to the NULL behind the last.
  abbrev pub Linked : Heap A → ℕ → List (ℕ × A) → Type 0
  Linked h p [] = p ≡ 0
  Linked h p ((a, d) ∷ ns) =
      (p ≡ a)
      × (a ≢ 0)
      × (All (λ n. n.0 ≢ a) ns)
      × ((e : QueueEle A) × (h a ≡ some e) × (e.element ≡ d) × Linked h e.next ns)

  abbrev pub last_address : List (ℕ × A) → ℕ
  last_address [] = 0
  last_address (n ∷ []) = n.0
  last_address (n ∷ m ∷ ns) = last_address (m ∷ ns)

  -- The queue holds the elements of `xs`, in order.
  pub record Holds (h : Heap A) (q : Queue) (xs : List A) : Type 0 where
    pub items : List (ℕ × A)
    pub linked : Linked h q.first items
    pub last_eq : q.last ≡ last_address items
    pub num_eq : q.elem_num ≡ length items
    pub elements : map (λ n. n.1) items ≡ xs

  -- A change where no item is does not touch the chain.
  pub Linked-frame :
      (h h' : Heap A) (p a : ℕ) (ns : List (ℕ × A))
      → ((b : ℕ) → b ≢ a → h' b ≡ h b)
      → All (λ n. n.0 ≢ a) ns
      → Linked h p ns
      → Linked h' p ns
  Linked-frame h h' p a [] same out l = l
  Linked-frame h h' p a ((b, d) ∷ ns) same out (at, b≢0, new, (e, he, ed, l)) =
      (at, b≢0, new, (e, same b out.0 ∙ he, ed, Linked-frame h h' e.next a ns same out.1 l))

  -- An address with no item is none of the chain's.
  pub Linked-fresh :
      (h : Heap A) (p a : ℕ) (ns : List (ℕ × A))
      → h a ≡ none
      → Linked h p ns
      → All (λ n. n.0 ≢ a) ns
  Linked-fresh h p a [] gone l = tt
  Linked-fresh h p a ((b, d) ∷ ns) gone (at, b≢0, new, (e, he, ed, l)) =
      ((λ same. ground (arith, ap h same, gone, he)), Linked-fresh h e.next a ns gone l)

  last_address-All :
      (P : ℕ → Type 0) (n : ℕ × A) (ns : List (ℕ × A))
      → All (λ m. P m.0) (n ∷ ns)
      → P (last_address (n ∷ ns))
  last_address-All P n [] h = h.0
  last_address-All P n (m ∷ ns) h = last_address-All P m ns h.1

  -- An item linked in behind the last of a chain.
  pub Linked-append :
      (h : Heap A) (p item : ℕ) (x : A) (n : ℕ × A) (ns : List (ℕ × A)) (e : QueueEle A)
      → h (last_address (n ∷ ns)) ≡ some e
      → h item ≡ some (record { element = x; next = 0 })
      → item ≢ 0
      → All (λ m. m.0 ≢ item) (n ∷ ns)
      → Linked h p (n ∷ ns)
      → Linked
          (write h (last_address (n ∷ ns)) (record e { next = item }))
          p
          (n ∷ (ns ++ ((item, x) ∷ [])))
  Linked-append h p item x (a, d) [] e last hi nz out (at, a≢0, new, (e', he, ed, l)) = (
    at,
    a≢0,
    ((λ same. out.0 (sym same)), tt),
    (
      record e { next = item },
      ground arith,
      ground (arith, last, he, ed),
      (refl, nz, tt, (record { element = x; next = 0 }, ground (arith, hi, out.0), refl, refl)),
    ),
  )
  Linked-append h p item x (a, d) (m ∷ ns) e last hi nz out (at, a≢0, new, (e', he, ed, l)) = (
    at,
    a≢0,
    All-append (λ m. m.0 ≢ a) (m ∷ ns) ((item, x) ∷ []) new ((λ same. out.0 (sym same)), tt),
    (
      e',
      ground (arith, he, last_address-All (λ b. b ≢ a) m ns new),
      ed,
      Linked-append h e'.next item x m ns e last hi nz out.1 l,
    ),
  )

  -- The item at the end of a chain is there.
  pub Linked-last :
      (h : Heap A) (p : ℕ) (n : ℕ × A) (ns : List (ℕ × A))
      → Linked h p (n ∷ ns)
      → (e : QueueEle A) × (h (last_address (n ∷ ns)) ≡ some e)
  Linked-last h p (a, d) [] (at, a≢0, new, (e, he, ed, l)) = (e, he)
  Linked-last h p (a, d) (m ∷ ns) (at, a≢0, new, (e, he, ed, l)) = Linked-last h e.next m ns l

  map_snd-append :
      (ns : List (ℕ × A)) (a : ℕ) (x : A)
      → map (λ n. n.1) (ns ++ ((a, x) ∷ [])) ≡ map (λ n. n.1) ns ++ (x ∷ [])
  map_snd-append [] a x = refl
  map_snd-append (n ∷ ns) a x = ap (◌∷◌ n.1) (map_snd-append ns a x)

  last_address-append : (ns : List (ℕ × A)) (a : ℕ) (x : A) → last_address (ns ++ ((a, x) ∷ [])) ≡ a
  last_address-append [] a x = refl
  last_address-append (n ∷ []) a x = refl
  last_address-append (n ∷ m ∷ ns) a x = last_address-append (m ∷ ns) a x

  pub queue_init-Holds : (h : Heap A) → Holds h queue_init []
  unfolding queue_init
  queue_init-Holds h = record {
    items = [];
    linked = refl;
    last_eq = refl;
    num_eq = refl;
    elements = refl;
  }

  -- With memory for an item, link puts it behind the others.
  link-Holds :
      (h : Heap A) (q : Queue) (item : ℕ) (x : A) (ns : List (ℕ × A))
      → h item ≡ some (record { element = x; next = 0 })
      → item ≢ 0
      → All (λ n. n.0 ≢ item) ns
      → Linked h q.first ns
      → q.last ≡ last_address ns
      → q.elem_num ≡ length ns
      → (h' : Heap A) × (q' : Queue) × (link h q item ≡ some (h', q'))
        × Linked h' q'.first (ns ++ ((item, x) ∷ []))
        × (q'.last ≡ item)
        × (q'.elem_num ≡ suc q.elem_num)
  unfolding link
  link-Holds h q item x [] hi nz out l la num = (
    h,
    record { first = item; last = item; elem_num = q.elem_num + 1 },
    ground (arith, l),
    (refl, nz, tt, (record { element = x; next = 0 }, hi, refl, refl)),
    refl,
    omega arith,
  )
  link-Holds h q item x (n ∷ ns) hi nz out l la num =
      let (e, he) = Linked-last h q.first n ns l in
      (
        write h (last_address (n ∷ ns)) (record e { next = item }),
        record q { last = item; elem_num = q.elem_num + 1 },
        ground (arith, la, he, l.0, l.1),
        Linked-append h q.first item x n ns e he hi nz out l,
        refl,
        omega arith,
      )

  module _ (malloc : Heap A → ℕ) (h : Heap A) (q : Queue) (xs : List A) (holds : Holds h q xs) where
    open holds use {items, linked, last_eq, num_eq, elements}

    -- Where malloc gives a free address, queue_push fails at no pointer and puts the element at the
    -- end of the sequence; where malloc gives NULL the queue is as it was.
    pub queue_push-Holds :
        (x : A)
        → h (malloc h) ≡ none
        → (h' : Heap A) × (q' : Queue) × (queue_push malloc h q x ≡ some (h', q'))
          × Holds h' q' (if malloc h == 0 then xs else xs ++ (x ∷ []))
    unfolding queue_push
    queue_push-Holds x gone = elim (Bool-cases (malloc h == 0)) [
      | inl null ↦ rw null (h, q, refl, holds)
      | inr some_item ↦
          let item = malloc h in
          let e : QueueEle A = record { element = x; next = 0 } in
          let out = Linked-fresh h q.first item items gone linked in
          let kept =
            Linked-frame h (write h item e) q.first item items (λ b other. ground (arith, other))
              out linked in
          let (h', q', run, l, la, num) =
            link-Holds (write h item e) q item x items (ground arith) (ground (arith, some_item))
              out kept last_eq num_eq in
          rw some_item (
            h',
            q',
            run,
            record {
              items = items ++ ((item, x) ∷ []);
              linked = l;
              last_eq = la ∙ sym (last_address-append items item x);
              num_eq = omega (arith, num, num_eq, length-append items ((item, x) ∷ []));
              elements = map_snd-append items item x ∙ ap (λ ys. ys ++ (x ∷ [])) elements;
            },
          )
    ]

  pop_items :
      (h : Heap A) (q : Queue) (ns : List (ℕ × A))
      → Linked h q.first ns
      → q.last ≡ last_address ns
      → q.elem_num ≡ length ns
      → (h' : Heap A) × (q' : Queue) × (queue_pop h q
          ≡ some (get_elem? (map (λ n. n.1) ns) 0, h', q'))
        × Linked h' q'.first (drop 1 ns)
        × (q'.last ≡ last_address (drop 1 ns))
        × (q'.elem_num ≡ length (drop 1 ns))
        × (queue_top h q ≡ some (get_elem? (map (λ n. n.1) ns) 0))
  unfolding queue_pop queue_top
  pop_items h q [] l la num = (h, q, ground arith, l, la, num, ground arith)
  pop_items h q ((a, d) ∷ ns) (at, a≢0, new, (e, he, ed, l)) la num = (
    free h q.first,
    record {
      first = e.next;
      last = if q.last == q.first then 0 else q.last;
      elem_num = q.elem_num - 1;
    },
    ground (arith, at, he, ed),
    Linked-frame h (free h q.first) e.next a ns (λ b other. ground (arith, at, other)) new l,
    last_left ns new la,
    omega (arith, num),
    ground (arith, at, he, ed),
  )
    where
      last_left :
          (ns : List (ℕ × A))
          → All (λ n. n.0 ≢ a) ns
          → q.last ≡ last_address ((a, d) ∷ ns)
          → (if q.last == q.first then 0 else q.last) ≡ last_address ns
      last_left [] new la = ground (arith, at, la)
      last_left (n ∷ ns) new la = ground (arith, at, la, last_address-All (λ b. b ≢ a) n ns new)

  length_map : (ns : List (ℕ × A)) → length (map (λ n. n.1) ns) ≡ length ns
  length_map [] = refl
  length_map (n ∷ ns) = ap suc (length_map ns)

  map_drop : (ns : List (ℕ × A)) → map (λ n. n.1) (drop 1 ns) ≡ drop 1 (map (λ n. n.1) ns)
  map_drop [] = refl
  map_drop (n ∷ ns) = refl

  -- queue_pop fails at no pointer, returns the first element, or NULL of an empty queue, and leaves
  -- the others; queue_top returns the same and queue_size is how many they are.
  pub queue_pop-Holds :
      (h : Heap A) (q : Queue) (xs : List A)
      → Holds h q xs
      → (h' : Heap A) × (q' : Queue) × (queue_pop h q ≡ some (get_elem? xs 0, h', q'))
        × Holds h' q' (drop 1 xs)
        × (queue_top h q ≡ some (get_elem? xs 0))
        × (queue_size q ≡ length xs)
  unfolding queue_size
  queue_pop-Holds h q xs holds =
      let ns = holds.items in
      let (h', q', run, l, la, num, top) =
        pop_items h q ns holds.linked holds.last_eq holds.num_eq in
      (
        h',
        q',
        run ∙ ap (λ ys. some (get_elem? ys 0, h', q')) holds.elements,
        record {
          items = drop 1 ns;
          linked = l;
          last_eq = la;
          num_eq = num;
          elements = map_drop ns ∙ ap (drop 1) holds.elements;
        },
        top ∙ ap (λ ys. some (get_elem? ys 0)) holds.elements,
        holds.num_eq ∙ (sym (length_map ns) ∙ ap length holds.elements),
      )

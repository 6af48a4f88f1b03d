-- ===== src/SyncQueue/Safety.antt =====
-- What holds of the shared queue in every state that the threads can bring about.
use destor.Base.{
  ℕ, ◌≡◌, ◌<◌, ◌≤◌, ◌≢◌, refl, sym, ap, ◌∙◌, ◌⊎◌, inl, inr, true, false, ◌&&◌, some, if◌then◌else◌,
  List, [], ◌∷◌, ◌++◌, length, length-append, append_assoc, arith, Bool-cases,
}
use destor.SyncQueue.Defs.{
  Place, outside, push_wait, push_woken, pop_wait, pop_woken, top_wait, top_woken, System, at,
  wake_min, wake_max, waits_min, waits_max, is_full, sync_queue_new, push_loop, sync_queue_push,
  pop_loop, sync_queue_pop, top_loop, sync_queue_get_top, sync_queue_term, Step, Reach, start,
  later,
}

module _ {A : Type 0} where
  pub record Inv (size : ℕ) (t : System A) : Type 0 where
    pub same_size : t.shared.max_size ≡ size
    pub bound : 0 < size → length t.shared.queue ≤ size
    pub fifo : t.popped ++ t.shared.queue ≡ t.pushed
    pub consumers :
        (i : ℕ) → waits_min (t.place i) ≡ true → (t.shared.queue ≡ []) × (t.shared.term ≡ false)
    pub producers : (i : ℕ) → waits_max (t.place i) ≡ true → is_full t.shared ≡ true

  woken_min : (p : Place A) → waits_min (wake_min p) ≡ false
  woken_min outside = refl
  woken_min (push_wait x) = refl
  woken_min (push_woken x) = refl
  woken_min pop_wait = refl
  woken_min pop_woken = refl
  woken_min top_wait = refl
  woken_min top_woken = refl

  woken_max : (p : Place A) → waits_max (wake_max p) ≡ false
  woken_max outside = refl
  woken_max (push_wait x) = refl
  woken_max (push_woken x) = refl
  woken_max pop_wait = refl
  woken_max pop_woken = refl
  woken_max top_wait = refl
  woken_max top_woken = refl

  -- A broadcast on one condition leaves the threads that wait on the other.
  max_min : (p : Place A) → waits_max (wake_min p) ≡ waits_max p
  max_min outside = refl
  max_min (push_wait x) = refl
  max_min (push_woken x) = refl
  max_min pop_wait = refl
  max_min pop_woken = refl
  max_min top_wait = refl
  max_min top_woken = refl

  min_max : (p : Place A) → waits_min (wake_max p) ≡ waits_min p
  min_max outside = refl
  min_max (push_wait x) = refl
  min_max (push_woken x) = refl
  min_max pop_wait = refl
  min_max pop_woken = refl
  min_max top_wait = refl
  min_max top_woken = refl

  pub push_loop-Inv :
      (size : ℕ) (t : System A) (i : ℕ) (x : A) → Inv size t → Inv size (push_loop i x t)
  unfolding push_loop
  push_loop-Inv size t i x inv = elim (Bool-cases (is_full t.shared)) [
    | inl full ↦ rw full (record {
      same_size = inv.same_size;
      bound = inv.bound;
      fifo = inv.fifo;
      consumers = λ j w. inv.consumers j (ground (arith, w));
      producers = λ j w. full;
    })
    | inr room ↦ rw room (record {
      same_size = inv.same_size;
      bound = λ pos. ground (arith, inv.same_size, room, length-append t.shared.queue (x ∷ []));
      fifo = sym (append_assoc t.popped t.shared.queue (x ∷ [])) ∙ ap (λ l. l ++ (x ∷ [])) inv.fifo;
      consumers = λ j w. absurd (ground (arith, w, woken_min (t.place j)));
      producers = λ j w. absurd (ground (arith, w, max_min (t.place j), inv.producers j, room));
    })
  ]

  -- A change of places only.
  place-Inv :
      (size : ℕ) (t u : System A) (i : ℕ) (p : Place A)
      → u ≡ record t { place = at t.place i p }
      → (waits_min p ≡ true → (t.shared.queue ≡ []) × (t.shared.term ≡ false))
      → waits_max p ≡ false
      → Inv size t
      → Inv size u
  place-Inv size t u i p e mins maxs inv = rw e (record {
    same_size = inv.same_size;
    bound = inv.bound;
    fifo = inv.fifo;
    consumers = λ j w. ground (arith, w, mins, inv.consumers j);
    producers = λ j w. inv.producers j (ground (arith, w, maxs));
  })

  pop_queue :
      (size : ℕ) (t : System A) (i : ℕ) (q : List A)
      → t.shared.queue ≡ q
      → Inv size t
      → Inv size (pop_loop i t).1
  unfolding pop_loop
  pop_queue size t i [] e inv = elim (Bool-cases t.shared.term) [
    | inl over ↦
        place-Inv size t (pop_loop i t).1 i outside (rw (e, over) refl)
          (λ w. absurd (ground (arith, w))) refl inv
    | inr running ↦
        place-Inv size t (pop_loop i t).1 i pop_wait (rw (e, running) refl) (λ w. (e, running)) refl
          inv
  ]
  pop_queue size t i (x ∷ q) e inv = rw e (record {
    same_size = inv.same_size;
    bound = λ pos. ground (arith, inv.bound pos, e);
    fifo = append_assoc t.popped (x ∷ []) q ∙ (ap (λ l. t.popped ++ l) (sym e) ∙ inv.fifo);
    consumers = λ j w. absurd (ground (arith, w, min_max (t.place j), inv.consumers j, e));
    producers = λ j w. absurd (ground (arith, w, woken_max (t.place j)));
  })

  top_queue :
      (size : ℕ) (t : System A) (i : ℕ) (q : List A)
      → t.shared.queue ≡ q
      → Inv size t
      → Inv size (top_loop i t).1
  unfolding top_loop
  top_queue size t i [] e inv = elim (Bool-cases t.shared.term) [
    | inl over ↦
        place-Inv size t (top_loop i t).1 i outside (rw (e, over) refl)
          (λ w. absurd (ground (arith, w))) refl inv
    | inr running ↦
        place-Inv size t (top_loop i t).1 i top_wait (rw (e, running) refl) (λ w. (e, running)) refl
          inv
  ]
  top_queue size t i (x ∷ q) e inv =
      place-Inv size t (top_loop i t).1 i outside (rw e refl) (λ w. absurd (ground (arith, w))) refl
        inv

  same_Inv : {size : ℕ} {t u : System A} → u ≡ t → Inv size t → Inv size u
  same_Inv e inv = rw e inv

  -- Every step of every thread keeps the invariant.
  Step-Inv : (size : ℕ) (t u : System A) → Step t u → Inv size t → Inv size u
  unfolding sync_queue_push sync_queue_pop sync_queue_get_top sync_queue_term
  Step-Inv size t u (Step.push i x e) inv = elim (Bool-cases t.shared.term) [
    | inl over ↦ same_Inv (ap (λ b. if b then t else push_loop i x t) over) inv
    | inr running ↦
        same_Inv (ap (λ b. if b then t else push_loop i x t) running) (push_loop-Inv size t i x inv)
  ]
  Step-Inv size t u (Step.push_again i x e) inv = push_loop-Inv size t i x inv
  Step-Inv size t u (Step.pop i e) inv = pop_queue size t i t.shared.queue refl inv
  Step-Inv size t u (Step.pop_again i e) inv = pop_queue size t i t.shared.queue refl inv
  Step-Inv size t u (Step.get_top i e) inv = top_queue size t i t.shared.queue refl inv
  Step-Inv size t u (Step.top_again i e) inv = top_queue size t i t.shared.queue refl inv
  Step-Inv size t u Step.terminate inv = record {
    same_size = inv.same_size;
    bound = inv.bound;
    fifo = inv.fifo;
    consumers = λ j w. absurd (ground (arith, w, woken_min (t.place j)));
    producers = λ j w. inv.producers j (sym (max_min (t.place j)) ∙ w);
  }
  Step-Inv size t u (Step.spurious_min i) inv = record {
    same_size = inv.same_size;
    bound = inv.bound;
    fifo = inv.fifo;
    consumers = λ j w. inv.consumers j (ground (arith, w, woken_min (t.place i)));
    producers = λ j w. inv.producers j (ground (arith, w, max_min (t.place i)));
  }
  Step-Inv size t u (Step.spurious_max i) inv = record {
    same_size = inv.same_size;
    bound = inv.bound;
    fifo = inv.fifo;
    consumers = λ j w. inv.consumers j (ground (arith, w, min_max (t.place i)));
    producers = λ j w. inv.producers j (ground (arith, w, woken_max (t.place i)));
  }

  pub Reach-Inv : (size : ℕ) (t : System A) → Reach size t → Inv size t
  unfolding sync_queue_new
  Reach-Inv size t start = record {
    same_size = refl;
    bound = λ pos. omega arith;
    fifo = refl;
    consumers = λ j w. absurd (ground (arith, w));
    producers = λ j w. absurd (ground (arith, w));
  }
  Reach-Inv size t (later {t = s} r step) = Step-Inv size s t step (Reach-Inv size s r)

  -- In every reachable state the elements popped and those in the queue are, in order, those that
  -- were pushed, the queue is no longer than its size if that is positive, and no thread waits for
  -- an element while another waits for room.
  pub queue_safety :
      (size : ℕ) (t : System A)
      → Reach size t
      → (i j : ℕ)
      → (t.popped ++ t.shared.queue ≡ t.pushed)
        × (length t.shared.queue ≤ size ⊎ (size ≡ 0))
        × ((waits_min (t.place i) && waits_max (t.place j)) ≡ false)
  queue_safety size t r i j =
      let inv = Reach-Inv size t r in
      (
        inv.fifo,
        ground (arith, inv.bound),
        ground (arith, inv.consumers i, inv.producers j, inv.same_size),
      )

  -- In a reachable state where a thread waits for an element, the queue is empty and not
  -- terminated, and the next push of any other thread goes through and wakes it.
  pub push_wakes :
      (size : ℕ) (t : System A) (i k : ℕ) (x : A)
      → Reach size t
      → waits_min (t.place i) ≡ true
      → t.place k ≡ outside
      → (t.shared.queue ≡ [])
        × (t.shared.term ≡ false)
        × ((sync_queue_push k x t).shared.queue ≡ x ∷ [])
        × ((sync_queue_push k x t).place k ≡ outside)
        × (waits_min ((sync_queue_push k x t).place i) ≡ false)
  unfolding sync_queue_push push_loop
  push_wakes size t i k x r w out =
      let (e, running) = (Reach-Inv size t r).consumers i w in
      (
        e,
        running,
        ground (arith, e, running),
        ground (arith, e, running),
        ground (arith, e, running, woken_min (t.place i)),
      )

  pop_full :
      (t : System A) (k : ℕ) (q : List A) (i : ℕ)
      → length q ≢ 0
      → t.shared.queue ≡ q
      → (x : A) × ((sync_queue_pop k t).0 ≡ some (some x))
        × (x ∷ (sync_queue_pop k t).1.shared.queue ≡ t.shared.queue)
        × (waits_max ((sync_queue_pop k t).1.place i) ≡ false)
  unfolding sync_queue_pop pop_loop
  pop_full t k [] i some_in e = absurd (some_in refl)
  pop_full t k (x ∷ q) i some_in e =
      (x, ground (arith, e), ground (arith, e), ground (arith, e, woken_max (t.place i)))

  -- In a reachable state where a thread waits for room, the next pop of any other thread returns an
  -- element and wakes it.
  pop_wakes :
      (size : ℕ) (t : System A) (i k : ℕ)
      → Reach size t
      → waits_max (t.place i) ≡ true
      → t.place k ≡ outside
      → (x : A) × ((sync_queue_pop k t).0 ≡ some (some x))
        × (x ∷ (sync_queue_pop k t).1.shared.queue ≡ t.shared.queue)
        × (waits_max ((sync_queue_pop k t).1.place i) ≡ false)
  pop_wakes size t i k r w out =
      let inv = Reach-Inv size t r in
      pop_full t k t.shared.queue i (ground (arith, inv.producers i w)) refl

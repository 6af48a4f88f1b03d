-- ===== src/Tests/Queues.antt =====
-- src/utils/queue.c and src/utils/sync_queue.c at small inputs.
use destor.Base.{
  ℕ, ◌==◌, ◌≡◌, ◌≤◌, ◌⊎◌, refl, false, ◌&&◌, none, some, [], ◌∷◌, ◌++◌, length, if◌then◌else◌,
  arith, is_some, ltb,
}
use destor.Queue.{
  Heap, Queue, queue_size, queue_push, queue_pop, queue_top, queue_foreach, queue_find, queue_get_n,
}
use destor.Queue.Refine.{Holds, queue_push-Holds, queue_pop-Holds}
use destor.Queue.Walk.{queue_walks}
use destor.SyncQueue.{
  System, Reach, Step, start, later, sync_queue_new, sync_queue_push, sync_queue_pop, push_loop,
  pop_loop, waits_min, waits_max, outside,
}
use destor.SyncQueue.Safety.{queue_safety, push_wakes}

-- Two items, at addresses 4 and 2.
abbrev heap : Heap ℕ
heap a =
    if 4 == a
    then some (record { element = 7; next = 2 })
    else (if 2 == a then some (record { element = 8; next = 0 }) else none)

abbrev queue : Queue
queue = record { first = 4; last = 2; elem_num = 2 }

queue-Holds : Holds heap queue (7 ∷ 8 ∷ [])
queue-Holds = record {
  items = (4, 7) ∷ (2, 8) ∷ [];
  linked = (
    refl,
    (λ e. omega (arith, e)),
    ((λ e. omega (arith, e)), tt),
    (
      record { element = 7; next = 2 },
      refl,
      refl,
      (refl, (λ e. omega (arith, e)), tt, (record { element = 8; next = 0 }, refl, refl, refl)),
    ),
  );
  last_eq = refl;
  num_eq = refl;
  elements = refl;
}

-- The first free address from 1 on.
abbrev malloc : Heap ℕ → ℕ
malloc h = if is_some (h 1) then 3 else 1

queue_push-Holds_example :
    (h' : Heap ℕ) × (q' : Queue) × (queue_push malloc heap queue 9 ≡ some (h', q'))
    × Holds h' q' (7 ∷ 8 ∷ 9 ∷ [])
queue_push-Holds_example = queue_push-Holds malloc heap queue (7 ∷ 8 ∷ []) queue-Holds 9 refl

queue_pop-Holds_example :
    (h' : Heap ℕ) × (q' : Queue) × (queue_pop heap queue ≡ some (some 7, h', q'))
    × Holds h' q' (8 ∷ [])
    × (queue_top heap queue ≡ some (some 7))
    × (queue_size queue ≡ 2)
queue_pop-Holds_example = queue_pop-Holds heap queue (7 ∷ 8 ∷ []) queue-Holds

queue_walks_example :
    (queue_foreach 3 heap queue ≡ some (7 ∷ 8 ∷ []))
    × (queue_find (ltb 7) 3 heap queue ≡ some (some 8))
    × (queue_get_n heap queue 1 ≡ some (some 8))
queue_walks_example = queue_walks (ltb 7) 3 1 heap queue (7 ∷ 8 ∷ []) queue-Holds (omega arith)

-- A queue of size 1: thread 0 pushes 5, thread 1 pushes 6 and has to wait.
abbrev full_queue : System ℕ
full_queue = sync_queue_push 1 6 (sync_queue_push 0 5 (sync_queue_new 1))

full_queue-Reach : Reach 1 full_queue
unfolding sync_queue_new sync_queue_push sync_queue_pop push_loop pop_loop
full_queue-Reach = later (later start (Step.push 0 5 refl)) (Step.push 1 6 refl)

queue_safety_example :
    (full_queue.popped ++ full_queue.shared.queue ≡ full_queue.pushed)
    × (length full_queue.shared.queue ≤ 1 ⊎ ◌≡◌ {A = ℕ} 1 0)
    × ((waits_min (full_queue.place 0) && waits_max (full_queue.place 1)) ≡ false)
unfolding sync_queue_new sync_queue_push sync_queue_pop push_loop pop_loop
queue_safety_example = queue_safety 1 full_queue full_queue-Reach 0 1

-- Thread 2 waits for an element.
abbrev empty_queue : System ℕ
empty_queue = (sync_queue_pop 2 (sync_queue_new 1)).1

push_wakes_example :
    (empty_queue.shared.queue ≡ [])
    × (empty_queue.shared.term ≡ false)
    × ((sync_queue_push 0 5 empty_queue).shared.queue ≡ 5 ∷ [])
    × ((sync_queue_push 0 5 empty_queue).place 0 ≡ outside)
    × (waits_min ((sync_queue_push 0 5 empty_queue).place 2) ≡ false)
unfolding sync_queue_new sync_queue_push sync_queue_pop push_loop pop_loop
push_wakes_example = push_wakes 1 empty_queue 2 0 5 (later start (Step.pop 2 refl)) refl refl

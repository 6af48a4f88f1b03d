-- ===== src/SyncQueue/Defs.antt =====
-- The functions of src/utils/sync_queue.c with the threads that call them. A thread runs from the
-- lock of the mutex to its release or to a pthread_cond_wait in one step; a broadcast makes every
-- thread that waits on the condition test its loop again, and so does a spurious wakeup. `queue` is
-- the sequence that the linked queue holds; `pushed` and `popped` record the history.
use mathlib.Core.Option
use destor.Base.{
  ℕ, ◌==◌, ◌≡◌, ltb, leb, Bool, true, false, ◌&&◌, Option, none, some, if◌then◌else◌, List, [], ◌∷◌,
  ◌++◌, length,
}
use destor.Queue.Walk.{first_hit}

-- A max_size of 0 stands for one that is not positive: no bound.
pub record SyncQueue (A : Type 0) : Type 0 where
  pub queue : List A
  pub max_size : ℕ
  pub term : Bool

-- Where a thread is: outside, in pthread_cond_wait, or woken and about to test its loop again.
pub data Place (A : Type 0) : Type 0 where
  outside : Place A
  push_wait : A → Place A
  push_woken : A → Place A
  pop_wait : Place A
  pop_woken : Place A
  top_wait : Place A
  top_woken : Place A

pub record System (A : Type 0) : Type 0 where
  pub shared : SyncQueue A
  pub place : ℕ → Place A
  pub pushed : List A
  pub popped : List A

module _ {A : Type 0} where
  abbrev pub at : (ℕ → Place A) → ℕ → Place A → ℕ → Place A
  at place i p j = if i == j then p else place j

  -- pthread_cond_broadcast(&s_queue->min_work) and that of max_work.
  abbrev pub wake_min : Place A → Place A
  wake_min pop_wait = pop_woken
  wake_min top_wait = top_woken
  wake_min p = p

  abbrev pub wake_max : Place A → Place A
  wake_max (push_wait x) = push_woken x
  wake_max p = p

  -- A thread in pthread_cond_wait on min_work, and on max_work.
  abbrev pub waits_min : Place A → Bool
  waits_min pop_wait = true
  waits_min top_wait = true
  waits_min p = false

  abbrev pub waits_max : Place A → Bool
  waits_max (push_wait x) = true
  waits_max p = false

  unfoldable pub sync_queue_new : ℕ → System A
  sync_queue_new size = record {
    shared = record { queue = []; max_size = size; term = false };
    place = λ i. outside;
    pushed = [];
    popped = [];
  }

  -- The test of the loop of sync_queue_push.
  abbrev pub is_full : SyncQueue A → Bool
  is_full s = ltb 0 s.max_size && leb s.max_size (length s.queue)

  unfoldable pub push_loop : ℕ → A → System A → System A
  push_loop i x t =
      if is_full t.shared then record t { place = at t.place i (push_wait x) } else record t {
        shared = record (t.shared) { queue = t.shared.queue ++ (x ∷ []) };
        place = at (λ j. wake_min (t.place j)) i outside;
        pushed = t.pushed ++ (x ∷ []);
      }

  unfoldable pub sync_queue_push : ℕ → A → System A → System A
  unfolding push_loop
  sync_queue_push i x t = if t.shared.term then t else push_loop i x t

  -- The loop of sync_queue_pop and what follows it; NULL, which is `none`, is returned at the end.
  unfoldable pub pop_loop : ℕ → System A → Option (Option A) × System A
  pop_loop i t = elim (t.shared.queue) [
    | [] ↦
        if t.shared.term
        then (some none, record t { place = at t.place i outside })
        else (none, record t { place = at t.place i pop_wait })
    | x ∷ queue ↦ (
      some (some x),
      record t {
        shared = record (t.shared) { queue = queue };
        place = at (λ j. wake_max (t.place j)) i outside;
        popped = t.popped ++ (x ∷ []);
      },
    )
  ]

  unfoldable pub sync_queue_pop : ℕ → System A → Option (Option A) × System A
  unfolding pop_loop
  sync_queue_pop i t = pop_loop i t

  unfoldable pub top_loop : ℕ → System A → Option (Option A) × System A
  top_loop i t = elim (t.shared.queue) [
    | [] ↦
        if t.shared.term
        then (some none, record t { place = at t.place i outside })
        else (none, record t { place = at t.place i top_wait })
    | x ∷ queue ↦ (some (some x), record t { place = at t.place i outside })
  ]

  unfoldable pub sync_queue_get_top : ℕ → System A → Option (Option A) × System A
  unfolding top_loop
  sync_queue_get_top i t = top_loop i t

  unfoldable pub sync_queue_term : System A → System A
  sync_queue_term t = record t {
    shared = record (t.shared) { term = true };
    place = λ j. wake_min (t.place j);
  }

  unfoldable pub sync_queue_size : SyncQueue A → ℕ
  sync_queue_size s = length s.queue

  -- `dup` is NULL or a function.
  unfoldable pub sync_queue_find : (A → Bool) → Option (A → A) → SyncQueue A → Option A
  sync_queue_find hit dup s = elim dup [
    | none ↦ first_hit hit s.queue
    | some f ↦ Option.map f (first_hit hit s.queue)
  ]

  -- One step of one thread.
  pub data Step : System A → System A → Type 0 where
    push : {t : System A} (i : ℕ) (x : A) → t.place i ≡ outside → Step t (sync_queue_push i x t)
    push_again :
        {t : System A} (i : ℕ) (x : A) → t.place i ≡ push_woken x → Step t (push_loop i x t)
    pop : {t : System A} (i : ℕ) → t.place i ≡ outside → Step t (sync_queue_pop i t).1
    pop_again : {t : System A} (i : ℕ) → t.place i ≡ pop_woken → Step t (pop_loop i t).1
    get_top : {t : System A} (i : ℕ) → t.place i ≡ outside → Step t (sync_queue_get_top i t).1
    top_again : {t : System A} (i : ℕ) → t.place i ≡ top_woken → Step t (top_loop i t).1
    terminate : {t : System A} → Step t (sync_queue_term t)
    spurious_min :
        {t : System A} (i : ℕ) → Step t (record t { place = at t.place i (wake_min (t.place i)) })
    spurious_max :
        {t : System A} (i : ℕ) → Step t (record t { place = at t.place i (wake_max (t.place i)) })

  -- The states that the threads can bring about from a new queue of a size.
  pub data Reach : ℕ → System A → Type 0 where
    start : {size : ℕ} → Reach size (sync_queue_new size)
    later : {size : ℕ} {t u : System A} → Reach size t → Step t u → Reach size u

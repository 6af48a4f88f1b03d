-- ===== src/Queue/Defs.antt =====
-- The functions of src/utils/queue.c on a heap of list items. An address is a number and NULL is 0.
-- malloc is a parameter, which says where the next item goes, 0 where memory is short; a read or
-- write at an address with no item is a fault, the result `none`. free_data and func act on the
-- data only, so the functions that call them are modelled by the data they are called with.
use mathlib.Core.Option
use destor.Base.{
  ℕ, zero, suc, ◌+◌, ◌-◌, ◌==◌, leb, Bool, Option, none, some, if◌then◌else◌, List, [], ◌∷◌,
}

-- queue_ele_t
pub record QueueEle (A : Type 0) : Type 0 where
  pub element : A
  pub next : ℕ

abbrev pub Heap : Type 0 → Type 0
Heap A = ℕ → Option (QueueEle A)

pub record Queue : Type 0 where
  pub first : ℕ
  pub last : ℕ
  pub elem_num : ℕ

-- queue_new and queue_init
unfoldable pub queue_init : Queue
queue_init = record { first = 0; last = 0; elem_num = 0 }

unfoldable pub queue_size : Queue → ℕ
queue_size q = q.elem_num

module _ {A : Type 0} where
  -- A store to an item.
  abbrev pub write : Heap A → ℕ → QueueEle A → Heap A
  write h a e b = if a == b then some e else h b

  abbrev pub free : Heap A → ℕ → Heap A
  free h a b = if a == b then none else h b

  -- Where the new item goes behind the last one.
  unfoldable pub link : Heap A → Queue → ℕ → Option (Heap A × Queue)
  link h q item =
      if q.first == 0
      then some (h, record { first = item; last = item; elem_num = q.elem_num + 1 })
      else Option.map
          (λ e. (
            write h q.last (record e { next = item }),
            record q { last = item; elem_num = q.elem_num + 1 },
          ))
          (h q.last)

  unfoldable pub queue_push : (Heap A → ℕ) → Heap A → Queue → A → Option (Heap A × Queue)
  unfolding link
  queue_push malloc h q element =
      let item = malloc h in
      if item == 0
      then some (h, q)
      else link (write h item (record { element = element; next = 0 })) q item

  -- The data returned, NULL being `none`, with the new state.
  unfoldable pub queue_pop : Heap A → Queue → Option (Option A × Heap A × Queue)
  queue_pop h q =
      if q.elem_num == 0
      then some (none, h, q)
      else Option.map
          (λ e. (
            some e.element,
            free h q.first,
            record {
              first = e.next;
              last = if q.last == q.first then 0 else q.last;
              elem_num = q.elem_num - 1;
            },
          ))
          (h q.first)

  unfoldable pub queue_top : Heap A → Queue → Option (Option A)
  queue_top h q =
      if q.elem_num == 0 then some none else Option.map (λ e. some e.element) (h q.first)

  -- The loop of queue_empty: what free_data gets, with fuel for the rounds.
  unfoldable pub queue_empty : ℕ → Heap A → Queue → Option (List (Option A) × Heap A × Queue)
  unfolding queue_pop
  queue_empty zero h q = none
  queue_empty (suc n) h q = if q.elem_num == 0 then some ([], h, q) else elim (queue_pop h q) [
    | none ↦ none
    | some (d, h', q') ↦ Option.map (λ r. (d ∷ r.0, r.1, r.2)) (queue_empty n h' q')
  ]

  -- The loop of queue_foreach: the data that func gets, in order.
  unfoldable pub foreach_items : ℕ → Heap A → ℕ → Option (List A)
  foreach_items zero h item = none
  foreach_items (suc n) h item = if item == 0 then some [] else elim (h item) [
    | none ↦ none
    | some e ↦ Option.map (◌∷◌ e.element) (foreach_items n h e.next)
  ]

  unfoldable pub queue_foreach : ℕ → Heap A → Queue → Option (List A)
  unfolding foreach_items
  queue_foreach fuel h q = if q.elem_num == 0 then some [] else foreach_items fuel h q.first

  -- The loop of queue_get_n, and the read behind it.
  unfoldable pub nth_item : ℕ → Heap A → ℕ → Option A
  nth_item zero h item = Option.map (λ e. e.element) (h item)
  nth_item (suc i) h item = elim (h item) [ none ↦ none | some e ↦ nth_item i h e.next ]

  unfoldable pub queue_get_n : Heap A → Queue → ℕ → Option (Option A)
  unfolding nth_item
  queue_get_n h q n = if leb q.elem_num n then some none else Option.map some (nth_item n h q.first)

  -- The do-while loop of queue_find, at an item that is not NULL.
  unfoldable pub find_item : (A → Bool) → ℕ → Heap A → ℕ → Option (Option A)
  find_item hit zero h item = none
  find_item hit (suc n) h item = elim (h item) [
    | none ↦ none
    | some e ↦
        let rest = find_item hit n h e.next in
        if hit e.element then some (some e.element) else if e.next == 0 then some none else rest
  ]

  unfoldable pub queue_find : (A → Bool) → ℕ → Heap A → Queue → Option (Option A)
  unfolding find_item
  queue_find hit fuel h q = if q.elem_num == 0 then some none else find_item hit fuel h q.first

-- ===== src/ConnQueue/Tests.antt =====
-- A queue of two items, and the free list before and after its first block.
use alarm.Base.{ℕ, ◌≡◌, refl, arith, [], ◌∷◌, none, some, ◌==◌, if◌then◌else◌}
use alarm.ConnQueue.{Items, ConnQueue, FreeItems, conn_queue_push, conn_queue_item_new}
use alarm.ConnQueue.Chain.{NotIn}
use alarm.ConnQueue.Fifo.{IsQueue, Pushed, conn_queue_push_lem}
use alarm.ConnQueue.Free.{IsFree, Untouched, conn_queue_item_new_lem}

-- Item 3 points to item 5; no other item points anywhere.
abbrev items : Items
items x = record { sfd = x; id = x; next = if x == 3 then some 5 else none }

abbrev two : ConnQueue
two = record { head = some 3; tail = some 5 }

two-IsQueue : IsQueue items two (3 ∷ 5 ∷ [])
two-IsQueue = record {
  chain = (refl, (refl, refl));
  ends = refl;
  distinct = (((λ e. omega arith), tt), (tt, tt));
}

conn_queue_push_lem_example : Pushed 7 (3 ∷ 5 ∷ []) items (conn_queue_push 7 two items)
conn_queue_push_lem_example =
    conn_queue_push_lem 7 two items (3 ∷ 5 ∷ []) two-IsQueue
      ((λ e. omega arith), ((λ e. omega arith), tt))

-- Items 3 and 5 are free, and 64 are allocated.
abbrev free_items : FreeItems
free_items = record { allocated = 64; cqi_freelist = some 3 }

free_items-IsFree : IsFree items free_items (3 ∷ 5 ∷ [])
free_items-IsFree = record {
  chain = (refl, (refl, refl));
  distinct = (((λ e. omega arith), tt), (tt, tt));
  below = (omega arith, (omega arith, tt));
}

conn_queue_item_new_lem_example :
    (x : ℕ) × (f' : FreeItems) × (h' : Items) × (conn_queue_item_new free_items items ≡ (x, f', h'))
    × IsFree h' f' (5 ∷ [])
    × NotIn x (5 ∷ [])
    × Untouched free_items (3 ∷ 5 ∷ []) items x (5 ∷ []) h'
conn_queue_item_new_lem_example =
    conn_queue_item_new_lem free_items items (3 ∷ 5 ∷ []) free_items-IsFree

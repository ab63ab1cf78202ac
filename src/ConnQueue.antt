-- ===== src/ConnQueue.antt =====
-- deviceOnline/src/worker_threads.cc and defines.h (userOnline/src has the same code): the queues by
-- which the main thread hands connections to the worker threads, linked lists in the C manner, and the
-- list of free items. An item's address is its number, NULL is `none`; `allocated` is the next number,
-- and the items of one `new` are numbered in their order. Each mutex makes each function one step;
-- `ConnQueueItemNew` locks twice, and is one step here where no thread comes between.
pub mod Chain
pub mod Fifo
pub mod Free
mod Tests
use alarm.Base.{
  ℕ, zero, suc, ◌+◌, ◌-◌, Bool, List, [], ◌∷◌, Option, none, some, ◌==◌, if◌then◌else◌,
}

pub record CqItem : Type 0 where
  pub sfd : ℕ
  pub id : ℕ
  pub next : Option ℕ

abbrev pub Items : Type 0
Items = ℕ → CqItem

-- `p->next = q`
abbrev pub set_next : ℕ → Option ℕ → Items → Items
set_next p q h x = if x == p then record (h x) { next = q } else h x

pub record ConnQueue : Type 0 where
  pub head : Option ℕ
  pub tail : Option ℕ

pub record FreeItems : Type 0 where
  pub allocated : ℕ
  pub cqi_freelist : Option ℕ

abbrev pub items_per_alloc : ℕ
items_per_alloc = 64

abbrev pub conn_queue_init : ConnQueue
conn_queue_init = record { head = none; tail = none }

unfoldable pub conn_queue_push : ℕ → ConnQueue → Items → ConnQueue × Items
conn_queue_push item cq h = elim cq.tail [
  | none ↦ (record { head = some item; tail = some item }, set_next item none h)
  | some last ↦ (
    record { head = cq.head; tail = some item },
    set_next last (some item) (set_next item none h),
  )
]

unfoldable pub conn_queue_pop : ConnQueue → Items → Option ℕ × ConnQueue
conn_queue_pop cq h = elim cq.head [
  | none ↦ (none, cq)
  | some item ↦ elim (h item).next [
    | none ↦ (some item, record { head = none; tail = none })
    | some second ↦ (some item, record { head = some second; tail = cq.tail })
  ]
]

unfoldable pub conn_queue_item_free : ℕ → FreeItems → Items → FreeItems × Items
conn_queue_item_free item f h =
    (record f { cqi_freelist = some item }, set_next item f.cqi_freelist h)

-- `item[i - 1].next = &item[i]` for so many items from `first` on.
unfoldable pub link : ℕ → ℕ → Items → Items
link zero first h = h
link (suc n) first h = link n (suc first) (set_next first (some (suc first)) h)

unfoldable pub conn_queue_item_new : FreeItems → Items → ℕ × FreeItems × Items
unfolding link
conn_queue_item_new f h = elim f.cqi_freelist [
  | some item ↦ (item, record f { cqi_freelist = (h item).next }, h)
  | none ↦
      let first = f.allocated in
      let linked = link (items_per_alloc - 2) (suc first) h in
      (
        first,
        record { allocated = first + items_per_alloc; cqi_freelist = some (suc first) },
        set_next (first + (items_per_alloc - 1)) none linked,
      )
]

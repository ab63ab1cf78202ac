-- ===== src/Handover.antt =====
-- deviceOnline/src/worker_threads.cc (userOnline/src has the same code): `DispatchSfdToWorker`, by which
-- the main thread hands a connection to the worker threads in turn, and `ThreadLibeventProcess`, by which
-- a worker takes it. A worker is its index in `vec_libevent_thread_`; its pipe is the number of bytes in it.
-- Each call is one step: the queue of a worker and the lists of free items and connections have their locks.
pub mod Frame
pub mod Turn
pub mod Delivery
pub mod Taking
mod Tests
use alarm.Base.{
  ℕ, zero, suc, ◌+◌, ◌-◌, ◌%◌, Bool, List, [], ◌∷◌, Option, none, some, ◌==◌, if◌then◌else◌,
}
use alarm.ConnPool.{Pool, conn_new}
use alarm.ConnQueue.{
  CqItem, Items, ConnQueue, FreeItems, conn_queue_push, conn_queue_pop, conn_queue_item_new,
  conn_queue_item_free,
}

-- `last_thread` is `none` for -1; `closed` has the sockets that a worker had to close, newest first.
pub record Workers : Type 0 where
  pub items : Items
  pub free : FreeItems
  pub queues : ℕ → ConnQueue
  pub pipes : ℕ → ℕ
  pub last_thread : Option ℕ
  pub pool : Pool
  pub closed : List ℕ

-- `vec_libevent_thread_.at(tid)->... = v`
abbrev pub set_at : {A : Type 0} → ℕ → A → (ℕ → A) → ℕ → A
set_at tid v f x = if x == tid then v else f x

-- `item->sfd = sfd; item->id = id`
abbrev pub set_load : ℕ → ℕ → ℕ → Items → Items
set_load item sfd id h x = if x == item then record (h x) { sfd = sfd; id = id } else h x

unfoldable pub next_thread : ℕ → Option ℕ → ℕ
next_thread thread_num none = 0 % thread_num
next_thread thread_num (some t) = suc t % thread_num

-- The part behind the choice of the worker. `wrote`: the write to the pipe succeeded.
unfoldable pub hand_to : Bool → ℕ → ℕ → ℕ → ℕ → Items → FreeItems → Workers → Workers
unfolding conn_queue_push
hand_to wrote tid item sfd id h f w =
    let (queue, items) = conn_queue_push item (w.queues tid) (set_load item sfd id h) in
    record w {
      items = items;
      free = f;
      queues = set_at tid queue w.queues;
      pipes = if wrote then set_at tid (suc (w.pipes tid)) w.pipes else w.pipes;
      last_thread = some tid;
    }

-- With no worker the remainder is undefined: `none`.
unfoldable pub dispatch_sfd_to_worker : ℕ → Bool → ℕ → ℕ → Workers → Option Workers
unfolding next_thread hand_to conn_queue_item_new
dispatch_sfd_to_worker thread_num wrote sfd id w =
    let (item, f, h) = conn_queue_item_new w.free w.items in
    if thread_num == 0
    then none
    else some (hand_to wrote (next_thread thread_num w.last_thread) item sfd id h f w)

-- `conn_new` for the item that was taken, then the item goes back on its list. `made` as in `conn_new`.
unfoldable pub take_item : Bool → ℕ → ℕ → Workers → Option Workers
unfolding conn_new conn_queue_item_free
take_item made tid item w = elim (conn_new made (w.items item).sfd (w.items item).id tid w.pool) [
  | none ↦ none
  | some (c, pool) ↦
      let (f, h) = conn_queue_item_free item w.free w.items in
      some (record w {
        items = h;
        free = f;
        pool = pool;
        closed = elim c [ none ↦ (w.items item).sfd ∷ w.closed | some x ↦ w.closed ];
      })
]

-- Where nothing can be read from the pipe the function returns.
unfoldable pub thread_libevent_process : Bool → ℕ → Workers → Option Workers
unfolding conn_queue_pop take_item
thread_libevent_process made tid w = elim (w.pipes tid) [
  | zero ↦ some w
  | suc n ↦
      let (item, queue) = conn_queue_pop (w.queues tid) w.items in
      let w' = record w { queues = set_at tid queue w.queues; pipes = set_at tid n w.pipes } in
      elim item [ none ↦ some w' | some x ↦ take_item made tid x w' ]
]

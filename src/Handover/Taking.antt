-- ===== src/Handover/Taking.antt =====
-- A worker that is woken takes the connection that has waited longest for it.
use alarm.Base.{
  ℕ, suc, ◌<◌, ◌≡◌, ◌≢◌, refl, sym, ap, ◌∙◌, Bool, true, false, List, [], ◌∷◌, Option, none, some,
  arith, All, All-both, All-map, Bool-cases, inl, inr, ◌==◌,
}
use alarm.ConnPool.{Pool, conn_new}
use alarm.ConnPool.Obtaining.{IsPool}
use alarm.ConnPool.Ownership.{opening, OnlyOpened, conn_new_lem}
use alarm.ConnQueue.{CqItem, Items, ConnQueue, FreeItems, conn_queue_pop, conn_queue_item_free}
use alarm.ConnQueue.Chain.{NotIn}
use alarm.ConnQueue.Fifo.{IsQueue, conn_queue_pop_lem}
use alarm.ConnQueue.Free.{IsFree, conn_queue_item_free_lem}
use alarm.Handover.{Workers, set_at, take_item, thread_libevent_process}
use alarm.Handover.Delivery.{IsHanded, waiting}
use alarm.Handover.Frame.{SameOn, IsQueue-frame, loads, loads-frame, by_worker}

free-frame : (x z : ℕ) (f : FreeItems) (h : Items) → z ≢ x → (conn_queue_item_free x f h).1 z ≡ h z
unfolding conn_queue_item_free
free-frame x z f h n = ground arith

-- The free list, its items and the queue of the worker `tid`, when item `x` was taken from it.
module _ (w : Workers) (fs : List ℕ) (qs : ℕ → List ℕ) (v : IsHanded w fs qs) (tid x : ℕ)
    (rest : List ℕ) (front : qs tid ≡ x ∷ rest) where
  abbrev pub freed : FreeItems × Items
  freed = conn_queue_item_free x w.free w.items

  abbrev pub left : ℕ → List ℕ
  left = set_at tid rest qs

  own : (x < w.free.allocated) × NotIn x fs
  own = (rw front at (v.owned tid)).0

  tail_owned : All (λ z. (z < w.free.allocated) × NotIn z fs) rest
  tail_owned = (rw front at (v.owned tid)).1

  tail_distinct : NotIn x rest
  tail_distinct = (rw front at (v.queues tid)).distinct.0

  others_apart : (t : ℕ) → t ≢ tid → NotIn x (qs t)
  others_apart t n = All-map _ _ (qs t) (λ z a. λ e. (rw front at a).0 (sym e)) (v.apart t tid n)

  touched : (xs : List ℕ) → NotIn x xs → SameOn xs w.items freed.1
  touched xs n = All-map (λ z. z ≢ x) _ xs (λ z a. free-frame x z w.free w.items a) n

  left_owned : (t : ℕ) → All (λ z. (z < freed.0.allocated) × NotIn z (x ∷ fs)) (left t)
  unfolding conn_queue_item_free
  left_owned =
      by_worker tid
        (λ (xs : List ℕ) (u : Unit {0}). All (λ z. (z < freed.0.allocated) × NotIn z (x ∷ fs)) xs)
        rest tt qs (λ t. tt) (add rest tail_distinct tail_owned)
        (λ t n. add (qs t) (others_apart t n) (v.owned t))
    where
      add :
          (xs : List ℕ)
          → NotIn x xs
          → All (λ z. (z < w.free.allocated) × NotIn z fs) xs
          → All (λ z. (z < freed.0.allocated) × NotIn z (x ∷ fs)) xs
      add xs n o =
          All-map (λ z. (z ≢ x) × ((z < w.free.allocated) × NotIn z fs)) _ xs
            (λ z a. (a.1.0, ((λ e. a.0 (sym e)), a.1.1))) (All-both _ _ xs n o)

  left_apart : (t u : ℕ) → t ≢ u → All (λ z. NotIn z (left u)) (left t)
  left_apart t u n = elim (Bool-cases (t == tid)) [
    | inl a ↦ elim (Bool-cases (u == tid)) [
      | inl b ↦ absurd (n (ground arith))
      | inr b ↦ rw (a, b) (rw front at (v.apart tid u (λ e. ground arith))).1
    ]
    | inr a ↦ elim (Bool-cases (u == tid)) [
      | inl b ↦
          rw (a, b)
            (All-map (λ z. NotIn z (x ∷ rest)) _ (qs t) (λ z o. o.1)
              (rw front at (v.apart t tid (λ e. ground arith))))
      | inr b ↦ rw (a, b) (v.apart t u n)
    ]
  ]

  left_queues :
      (cq : ConnQueue)
      → IsQueue w.items cq rest
      → (t : ℕ) → IsQueue freed.1 (set_at tid cq w.queues t) (left t)
  left_queues cq q =
      by_worker tid (IsQueue freed.1) cq rest w.queues qs
        (IsQueue-frame w.items freed.1 cq rest (touched rest tail_distinct) q)
        (λ t n.
          IsQueue-frame w.items freed.1 (w.queues t) (qs t) (touched (qs t) (others_apart t n))
            (v.queues t))

  loads-left : (t : ℕ) → loads freed.1 (left t) ≡ set_at tid (loads w.items rest) (waiting w qs) t
  loads-left =
      by_worker tid (λ (xs : List ℕ) (l : List (ℕ × ℕ)). loads freed.1 xs ≡ l) rest
        (loads w.items rest) qs (waiting w qs) (same rest (touched rest tail_distinct))
        (λ t n. same (qs t) (touched (qs t) (others_apart t n)))
    where
      same : (xs : List ℕ) → SameOn xs w.items freed.1 → loads freed.1 xs ≡ loads w.items xs
      same xs s =
          loads-frame w.items freed.1 xs
            (All-map _ _ xs (λ z o. (ap (λ (i : CqItem). i.sfd) o, ap (λ (i : CqItem). i.id) o)) s)

  IsFree-freed : IsFree freed.1 freed.0 (x ∷ fs)
  IsFree-freed = conn_queue_item_free_lem x w.free w.items fs v.free own.0 own.1

  -- What the worker is left with, once it has the connection.
  abbrev taken : ConnQueue → ℕ → Pool → Workers
  taken cq n pool = record w {
    items = freed.1;
    free = freed.0;
    queues = set_at tid cq w.queues;
    pipes = set_at tid n w.pipes;
    pool = pool;
  }

  taken-IsHanded :
      (cq : ConnQueue) (n : ℕ) (pool : Pool)
      → IsQueue w.items cq rest
      → IsHanded (taken cq n pool) (x ∷ fs) left
  taken-IsHanded cq n pool q = record {
    free = IsFree-freed;
    queues = left_queues cq q;
    owned = left_owned;
    apart = left_apart;
  }

  abbrev popped : ConnQueue → ℕ → Workers
  popped cq n = record w { queues = set_at tid cq w.queues; pipes = set_at tid n w.pipes }

  take_run :
      (n c : ℕ) (cq : ConnQueue) (pool : Pool)
      → conn_new true (w.items x).sfd (w.items x).id tid w.pool ≡ some (some c, pool)
      → take_item true tid x (popped cq n) ≡ some (taken cq n pool)
  unfolding take_item
  take_run n c cq pool made = rw (made, take_item) refl

  process_run :
      (n : ℕ) (cq : ConnQueue)
      → w.pipes tid ≡ suc n
      → conn_queue_pop (w.queues tid) w.items ≡ (some x, cq)
      → thread_libevent_process true tid w ≡ take_item true tid x (popped cq n)
  unfolding thread_libevent_process
  process_run n cq e p =
      rw (e, thread_libevent_process)
        (ap
          (λ (r : Option ℕ × ConnQueue). elim r.0 [
            | none ↦ some (popped (r.1) n)
            | some y ↦ take_item true tid y (popped (r.1) n)
          ])
          p)

  process_from :
      (n : ℕ) (cs : List ℕ) (is_open : ℕ → Bool)
      → w.pipes tid ≡ suc n
      → IsPool w.pool cs is_open
      → (c : ℕ) × (w' : Workers) × (ds : List ℕ) × (thread_libevent_process true tid w ≡ some w')
        × (is_open c ≡ false)
        × IsPool w'.pool ds (opening c is_open)
        × OnlyOpened c (w.items x).sfd (w.items x).id tid w.pool w'.pool
        × IsHanded w' (x ∷ fs) left
        × ((t : ℕ) → waiting w' left t ≡ set_at tid (loads w.items rest) (waiting w qs) t)
  process_from n cs is_open e pool =
      let (cq, pop, q) =
        conn_queue_pop_lem (w.queues tid) w.items (x ∷ rest) (rw front at (v.queues tid)) in
      let (c, p', ds, made, idle, is, only) =
        conn_new_lem w.pool cs is_open (w.items x).sfd (w.items x).id tid pool in
      (
        c,
        taken cq n p',
        ds,
        process_run n cq e pop ∙ take_run n c cq p' made,
        idle,
        is,
        only,
        taken-IsHanded cq n p' q,
        loads-left,
      )

-- What the worker does with the connection `(sfd, id)`, where `l` waits behind it.
abbrev pub Takes : ℕ → ℕ → ℕ → List (ℕ × ℕ) → Workers → (ℕ → List (ℕ × ℕ)) → (ℕ → Bool) → Type 0
Takes tid sfd id l w waits is_open =
    (c : ℕ) × (w' : Workers) × (gs ds : List ℕ) × (ps : ℕ → List ℕ) × (thread_libevent_process true
        tid w
      ≡ some w')
    × (is_open c ≡ false)
    × IsPool w'.pool ds (opening c is_open)
    × OnlyOpened c sfd id tid w.pool w'.pool
    × IsHanded w' gs ps
    × ((t : ℕ) → waiting w' ps t ≡ set_at tid l waits t)

-- Where a byte is in the worker's pipe and a connection waits for it, and libevent makes a
-- bufferevent, the connection that has waited longest is opened with its socket and id; it was not
-- open, no other is touched, and what else waits, for this worker or another, waits on in its order.
pub process_lem :
    (w : Workers) (fs : List ℕ) (qs : ℕ → List ℕ) (tid n sfd id : ℕ) (l : List (ℕ × ℕ))
    (cs : List ℕ) (is_open : ℕ → Bool)
    → IsHanded w fs qs
    → IsPool w.pool cs is_open
    → w.pipes tid ≡ suc n
    → waiting w qs tid ≡ (sfd, id) ∷ l
    → Takes tid sfd id l w (waiting w qs) is_open
process_lem w fs qs tid n sfd id l cs is_open v pool e wait = by_list (qs tid) refl
  where
    by_list : (xs : List ℕ) → qs tid ≡ xs → Takes tid sfd id l w (waiting w qs) is_open
    by_list [] h = absurd (ground (arith, h))
    by_list (x ∷ rest) h =
        let (c, w', ds, run, idle, is, only, handed, wait') =
          process_from w fs qs v tid x rest h n cs is_open e pool in
        let here : loads w.items (x ∷ rest) ≡ (sfd, id) ∷ l = ap (loads w.items) (sym h) ∙ wait in
        let its_sfd : (w.items x).sfd ≡ sfd = cc here in
        let its_id : (w.items x).id ≡ id = cc here in
        let others : loads w.items rest ≡ l = cc here in
        (
          c,
          w',
          x ∷ fs,
          ds,
          left w fs qs v tid x rest h,
          run,
          idle,
          is,
          rw (its_sfd, its_id) at only,
          handed,
          λ t. wait' t ∙ ap (λ (m : List (ℕ × ℕ)). set_at tid m (waiting w qs) t) others,
        )

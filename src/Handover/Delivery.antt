-- ===== src/Handover/Delivery.antt =====
-- Each connection is handed to one worker, in turn, and a worker takes its connections in their order.
use alarm.Base.{
  ℕ, ◌<◌, ◌≤◌, ◌≡◌, ◌≢◌, refl, sym, ap, ◌∙◌, Bool, false, List, [], ◌∷◌, ◌++◌, some, arith, All,
  All-append, All-both, All-map, Bool-cases, inl, inr, ◌==◌,
}
use alarm.ConnQueue.{CqItem, Items, ConnQueue, FreeItems, conn_queue_push, conn_queue_item_new}
use alarm.ConnQueue.Chain.{NotIn}
use alarm.ConnQueue.Fifo.{IsQueue, NotIn-snoc, conn_queue_push_lem}
use alarm.ConnQueue.Free.{IsFree, conn_queue_item_new_lem, item_new_allocated}
use alarm.Handover.{Workers, set_at, set_load, next_thread, hand_to, dispatch_sfd_to_worker}
use alarm.Handover.Turn.{IsTurn, next_thread-IsTurn}
use alarm.Handover.Frame.{
  SameOn, IsQueue-frame, IsFree-frame, loads, loads-frame, loads-snoc, push-frame, NotIn_sym,
  by_worker,
}

-- The free items, and those in the queue of each worker: no item is in two places.
pub record IsHanded (w : Workers) (fs : List ℕ) (qs : ℕ → List ℕ) : Type 0 where
  pub free : IsFree w.items w.free fs
  pub queues : (t : ℕ) → IsQueue w.items (w.queues t) (qs t)
  pub owned : (t : ℕ) → All (λ x. (x < w.free.allocated) × NotIn x fs) (qs t)
  pub apart : (t u : ℕ) → t ≢ u → All (λ x. NotIn x (qs u)) (qs t)

-- The connections that wait for a worker, the oldest first.
abbrev pub waiting : Workers → (ℕ → List ℕ) → ℕ → List (ℕ × ℕ)
waiting w qs t = loads w.items (qs t)

-- One worker's list with something behind it.
abbrev pub behind : {A : Type 0} → ℕ → A → (ℕ → List A) → ℕ → List A
behind tid x qs = set_at tid (qs tid ++ (x ∷ [])) qs

-- What follows from an item that was got for a connection.
module _ (w : Workers) (fs : List ℕ) (qs : ℕ → List ℕ) (v : IsHanded w fs qs) (x : ℕ)
    (f : FreeItems) (h : Items) (ys : List ℕ) (free : IsFree h f ys) (apart : NotIn x ys)
    (untouched : (z : ℕ)
      → z < w.free.allocated
      → NotIn z fs
      → (z ≢ x) × NotIn z ys × (h z ≡ w.items z))
    (more : w.free.allocated ≤ f.allocated) (here : x < f.allocated) (tid sfd id : ℕ) where
  loaded : Items
  loaded = set_load x sfd id h

  old : (t : ℕ) → All (λ z. (z ≢ x) × NotIn z ys × (loaded z ≡ w.items z)) (qs t)
  unfolding loaded
  old t =
      All-map _ _ (qs t) (λ z o. let (a, b, e) = untouched z o.0 o.1 in (a, b, ground (arith, e)))
        (v.owned t)

  same : (t : ℕ) → SameOn (qs t) w.items loaded
  same t = All-map _ _ (qs t) (λ z o. o.2) (old t)

  before : (t : ℕ) → IsQueue loaded (w.queues t) (qs t)
  before t = IsQueue-frame w.items loaded (w.queues t) (qs t) (same t) (v.queues t)

  not_in : (t : ℕ) → NotIn x (qs t)
  not_in t = All-map _ _ (qs t) (λ z o. o.0) (old t)

  pushed : ConnQueue × Items
  pushed = conn_queue_push x (w.queues tid) loaded

  pushed_lem :
      IsQueue pushed.1 pushed.0 (qs tid ++ (x ∷ []))
      × ((y : ℕ) → ((pushed.1 y).sfd ≡ (loaded y).sfd) × ((pushed.1 y).id ≡ (loaded y).id))
  unfolding pushed
  pushed_lem = conn_queue_push_lem x (w.queues tid) loaded (qs tid) (before tid) (not_in tid)

  others : (t : ℕ) → t ≢ tid → SameOn (qs t) loaded pushed.1
  unfolding pushed
  others t n =
      All-map (λ z. (z ≢ x) × NotIn z (qs tid)) _ (qs t)
        (λ z o. push-frame x z (w.queues tid) loaded (qs tid) (before tid) o.0 o.1)
        (All-both _ _ (qs t) (not_in t) (v.apart t tid n))

  free_items : SameOn ys h pushed.1
  unfolding pushed loaded
  free_items =
      All-map (λ z. (z ≢ x) × NotIn z (qs tid)) _ ys
        (λ z o.
          push-frame x z (w.queues tid) loaded (qs tid) (before tid) o.0 o.1 ∙ ground (arith, o.0))
        (All-both _ _ ys apart
          (NotIn_sym (qs tid) ys (All-map _ _ (qs tid) (λ z o. o.1) (old tid))))

  abbrev lists : ℕ → List ℕ
  lists = behind tid x qs

  owned_after : (t : ℕ) → All (λ z. (z < f.allocated) × NotIn z ys) (lists t)
  owned_after =
      by_worker tid (λ (xs : List ℕ) (u : Unit {0}). All (λ z. (z < f.allocated) × NotIn z ys) xs)
        (qs tid ++ (x ∷ [])) tt qs (λ t. tt)
        (All-append _ (qs tid) (x ∷ []) (still tid) ((here, apart), tt)) (λ t n. still t)
    where
      still : (t : ℕ) → All (λ z. (z < f.allocated) × NotIn z ys) (qs t)
      still t =
          All-map (λ z. (z < w.free.allocated) × NotIn z ys) _ (qs t)
            (λ z o. (omega (arith, o.0), o.1))
            (All-both _ _ (qs t) (All-map _ _ (qs t) (λ z o. o.0) (v.owned t))
              (All-map _ _ (qs t) (λ z o. o.1) (old t)))

  queues_after : (t : ℕ) → IsQueue pushed.1 (set_at tid pushed.0 w.queues t) (lists t)
  queues_after =
      by_worker tid (IsQueue pushed.1) pushed.0 (qs tid ++ (x ∷ [])) w.queues qs pushed_lem.0
        (λ t n. IsQueue-frame loaded pushed.1 (w.queues t) (qs t) (others t n) (before t))

  apart_after : (t u : ℕ) → t ≢ u → All (λ z. NotIn z (lists u)) (lists t)
  apart_after t u n = elim (Bool-cases (t == tid)) [
    | inl a ↦ elim (Bool-cases (u == tid)) [
      | inl b ↦ absurd (n (ground arith))
      | inr b ↦
          rw (a, b)
            (All-append _ (qs tid) (x ∷ []) (v.apart tid u (λ e. ground arith)) (not_in u, tt))
    ]
    | inr a ↦ elim (Bool-cases (u == tid)) [
      | inl b ↦
          rw (a, b)
            (All-map (λ z. (z ≢ x) × NotIn z (qs tid)) _ (qs t)
              (λ z o. NotIn-snoc x z (qs tid) o.1 (λ e. o.0 (sym e)))
              (All-both _ _ (qs t) (not_in t) (v.apart t tid (λ e. ground arith))))
      | inr b ↦ rw (a, b) (v.apart t u n)
    ]
  ]

  same_loads : (t : ℕ) → loads pushed.1 (qs t) ≡ waiting w qs t
  same_loads t = loads-frame w.items pushed.1 (qs t) (
      All-map _ _ (qs t)
        (λ z o. (
          (pushed_lem.1 z).0 ∙ ap (λ (i : CqItem). i.sfd) o,
          (pushed_lem.1 z).1 ∙ ap (λ (i : CqItem). i.id) o,
        ))
        (same t))

  loads_after : (t : ℕ) → loads pushed.1 (lists t) ≡ behind tid (sfd, id) (waiting w qs) t
  unfolding loaded
  loads_after =
      by_worker tid (λ (xs : List ℕ) (l : List (ℕ × ℕ)). loads pushed.1 xs ≡ l) (qs tid ++ (x ∷ []))
        (waiting w qs tid ++ ((sfd, id) ∷ [])) qs (waiting w qs)
        (loads-snoc pushed.1 (qs tid) x ∙ front) (λ t n. same_loads t)
    where
      carried : (pushed.1 x).sfd ≡ sfd
      carried = (pushed_lem.1 x).0 ∙ ground arith

      carried_id : (pushed.1 x).id ≡ id
      carried_id = (pushed_lem.1 x).1 ∙ ground arith

      front :
          loads pushed.1 (qs tid) ++ (((pushed.1 x).sfd, (pushed.1 x).id) ∷ [])
          ≡ waiting w qs tid ++ ((sfd, id) ∷ [])
      front = cc (same_loads tid, carried, carried_id)

  handed :
      (wrote : Bool)
      → IsHanded (hand_to wrote tid x sfd id h f w) ys lists
        × ((t : ℕ)
            → waiting (hand_to wrote tid x sfd id h f w) lists t
              ≡ behind tid (sfd, id) (waiting w qs) t)
  unfolding hand_to pushed loaded
  handed wrote = (
    record {
      free = IsFree-frame h pushed.1 f ys free_items free;
      queues = queues_after;
      owned = owned_after;
      apart = apart_after;
    },
    loads_after,
  )

dispatch_run :
    (thread_num : ℕ) (wrote : Bool) (sfd id x : ℕ) (f : FreeItems) (h : Items) (w : Workers)
    → conn_queue_item_new w.free w.items ≡ (x, f, h)
    → 0 < thread_num
    → dispatch_sfd_to_worker thread_num wrote sfd id w
      ≡ some (hand_to wrote (next_thread thread_num w.last_thread) x sfd id h f w)
unfolding dispatch_sfd_to_worker
dispatch_run thread_num wrote sfd id x f h w e n =
    let there : (thread_num == 0) ≡ false = ground arith in
    rw there (
      ap
        (λ (r : ℕ × FreeItems × Items).
          some (hand_to wrote (next_thread thread_num w.last_thread) r.0 sfd id r.2 r.1 w))
        e)

hand_to-turn :
    (wrote : Bool) (tid x sfd id : ℕ) (h : Items) (f : FreeItems) (w : Workers)
    → (hand_to wrote tid x sfd id h f w).last_thread ≡ some tid
unfolding hand_to
hand_to-turn wrote tid x sfd id h f w = refl

-- With at least one worker, a connection is put behind those that wait for the worker whose turn it is,
-- by the workers' number and the last that had one: the first one's at the start, then the next one's, and
-- after the last one the first one's again. What waits for the others is as it was, and no item is in two
-- places, nor free while it waits; the worker is remembered as the last.
pub dispatch_lem :
    (thread_num : ℕ) (wrote : Bool) (sfd id : ℕ) (w : Workers) (fs : List ℕ) (qs : ℕ → List ℕ)
    → IsHanded w fs qs
    → 0 < thread_num
    → (tid : ℕ) × (w' : Workers) × (ys : List ℕ) × (ps : ℕ → List ℕ) × (dispatch_sfd_to_worker
          thread_num wrote sfd id w
        ≡ some w')
      × IsTurn thread_num w.last_thread tid
      × IsHanded w' ys ps
      × ((t : ℕ) → waiting w' ps t ≡ behind tid (sfd, id) (waiting w qs) t)
      × (w'.last_thread ≡ some tid)
dispatch_lem thread_num wrote sfd id w fs qs v n =
    let (x, f, h, e, free, apart, untouched) = conn_queue_item_new_lem w.free w.items fs v.free in
    let (more, here) = item_new_allocated w.free w.items fs v.free in
    let tid = next_thread thread_num w.last_thread in
    let (is, loads_are) =
      handed w fs qs v x f h _ free apart untouched (rw e at more) (rw e at here) tid sfd id
        wrote in
    (
      tid,
      hand_to wrote tid x sfd id h f w,
      _,
      _,
      dispatch_run thread_num wrote sfd id x f h w e n,
      next_thread-IsTurn thread_num w.last_thread n,
      is,
      loads_are,
      hand_to-turn wrote tid x sfd id h f w,
    )

-- ===== src/Timers/Cancel.antt =====
-- `CancelEvent` and `GetAndCancelEvent`: on a valid queue no iterator dangles, and what is cancelled
-- waits no longer.
use alarm.Base.{ℕ, ◌<◌, ◌≡◌, refl, Option, none, some, arith, ◌==◌, if◌then◌else◌, ap, ◌∙◌}
use alarm.Base.Maps.{nat_eq, lookup, erase, lookup-erase}
use alarm.Timers.{
  Node, PushMsgTimerQueue, find_node, erase_node, info_of, cancel_event_unlocked, cancel_event,
  get_and_cancel_event,
}
use alarm.Timers.Schedule.{
  number, All-erase_node, erase_node-IsSorted, erase_node-NodesDiffer, erase_node-MidsDiffer,
}
use alarm.Timers.Lookup.{find_node-find_mid, find_mid-erase_node}
use alarm.Timers.Valid.{IsValid, pending}

module _ (mid : ℕ) (q : PushMsgTimerQueue) (n : Node) (v : IsValid q)
    (h : pending mid q ≡ some n) where
  abbrev cancelled : PushMsgTimerQueue
  cancelled = record q { schedule = erase_node n.node q.schedule; events = erase mid q.events }

  event : lookup mid q.events ≡ some n.node
  event = v.indexed mid ∙ ap number h

  there : find_node n.node q.schedule ≡ some n
  there = find_node-find_mid mid q.schedule n v.nodes_differ h

  cancel-cancelled : cancel_event_unlocked mid q ≡ some cancelled
  unfolding cancel_event_unlocked
  cancel-cancelled = ground (arith, event, there)

  pending-cancelled : (k : ℕ) → pending k cancelled ≡ (if mid == k then none else pending k q)
  pending-cancelled k = find_mid-erase_node mid k q.schedule n v.nodes_differ v.mids_differ h

  cancelled-IsValid : IsValid cancelled
  cancelled-IsValid = record {
    sorted = erase_node-IsSorted n.node q.schedule v.sorted;
    below = All-erase_node (λ x. x.node < q.next_node) n.node q.schedule v.below;
    nodes_differ = erase_node-NodesDiffer n.node q.schedule v.nodes_differ;
    mids_differ = erase_node-MidsDiffer n.node q.schedule v.mids_differ;
    indexed = λ k. ground (arith, v.indexed k, lookup-erase mid k q.events, pending-cancelled k);
  }

  got : get_and_cancel_event mid q ≡ some (some (info_of n.ct), cancelled)
  unfolding get_and_cancel_event
  got = ground (arith, event, there, cancel-cancelled)

-- From a valid queue, a message id that waits is taken out with the four fields of its context; the invariant is kept,
-- the id waits no longer, and every other id waits as before.
pub get_and_cancel_event_waiting :
    (mid : ℕ) (q : PushMsgTimerQueue) (n : Node)
    → IsValid q
    → pending mid q ≡ some n
    → (q' : PushMsgTimerQueue) × (get_and_cancel_event mid q ≡ some (some (info_of n.ct), q'))
      × IsValid q'
      × ((k : ℕ) → pending k q' ≡ (if mid == k then none else pending k q))
get_and_cancel_event_waiting mid q n v h = (
  cancelled mid q n v h,
  got mid q n v h,
  cancelled-IsValid mid q n v h,
  pending-cancelled mid q n v h,
)

-- One that does not wait is answered with -ERROR_ITEM_NOT_EXIST, and nothing changes.
pub get_and_cancel_event_absent :
    (mid : ℕ) (q : PushMsgTimerQueue)
    → IsValid q
    → pending mid q ≡ none
    → get_and_cancel_event mid q ≡ some (none, q)
unfolding get_and_cancel_event
get_and_cancel_event_absent mid q v h = ground (arith, v.indexed mid)

-- `CancelEvent` on a valid queue: no fault, the invariant is kept, the id waits no longer if it did,
-- and every other id waits as before.
pub cancel_event_lem :
    (mid : ℕ) (q : PushMsgTimerQueue)
    → IsValid q
    → (q' : PushMsgTimerQueue) × (cancel_event mid q ≡ some q')
      × IsValid q'
      × ((k : ℕ) → pending k q' ≡ (if mid == k then none else pending k q))
unfolding cancel_event
cancel_event_lem mid q v = by_pending (pending mid q) refl
  where
    by_pending :
        (o : Option Node)
        → pending mid q ≡ o
        → (q' : PushMsgTimerQueue) × (cancel_event mid q ≡ some q')
          × IsValid q'
          × ((k : ℕ) → pending k q' ≡ (if mid == k then none else pending k q))
    by_pending none h = (q, ground (arith, v.indexed mid), v, λ k. ground arith)
    by_pending (some n) h = (
      cancelled mid q n v h,
      cancel-cancelled mid q n v h,
      cancelled-IsValid mid q n v h,
      pending-cancelled mid q n v h,
    )

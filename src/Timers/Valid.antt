-- ===== src/Timers/Valid.antt =====
-- The invariant of the timer queue, and that adding an event keeps it: `events_` finds exactly the
-- nodes of `schedule_`, which is in order of time.
use alarm.Base.{
  ℕ, suc, ◌<◌, ◌≡◌, ◌⊎◌, refl, List, [], ◌∷◌, Option, none, some, arith, ◌==◌, if◌then◌else◌, All,
  Bool-cases, inl, inr, ap, ◌∙◌,
}
use alarm.Base.Maps.{nat_eq, lookup, insert, lookup-insert}
use alarm.Time.{UTime, lt}
use alarm.Timers.{
  Node, PushMsgContext, PushMsgTimerQueue, empty, insert_node, add_event_at, is_begin,
}
use alarm.Timers.Schedule.{
  find_mid, number, NoNode, MidsDiffer, NodesDiffer, IsSorted, All-insert_node, All-map,
  insert_node-IsSorted, insert_node-NodesDiffer, insert_node-MidsDiffer,
}
use alarm.Timers.Lookup.{NoMid-find_mid, find_mid-insert_node}

pub record IsValid (q : PushMsgTimerQueue) : Type 0 where
  pub sorted : IsSorted q.schedule
  pub below : All (λ x. x.node < q.next_node) q.schedule
  pub nodes_differ : NodesDiffer q.schedule
  pub mids_differ : MidsDiffer q.schedule
  pub indexed : (mid : ℕ) → lookup mid q.events ≡ number (find_mid mid q.schedule)

-- The node that waits for the answer to a message id.
abbrev pub pending : ℕ → PushMsgTimerQueue → Option Node
pending mid q = find_mid mid q.schedule

pub empty-IsValid : IsValid empty
unfolding find_mid lookup
empty-IsValid = record {
  sorted = tt;
  below = tt;
  nodes_differ = tt;
  mids_differ = tt;
  indexed = λ mid. refl;
}

abbrev pub new_node : UTime → PushMsgContext → PushMsgTimerQueue → Node
new_node when ct q = record { node = q.next_node; when = when; ct = ct }

-- The queue after an event was added.
abbrev pub added : UTime → ℕ → PushMsgContext → PushMsgTimerQueue → PushMsgTimerQueue
unfolding insert_node is_begin
added when mid ct q = record q {
  schedule = insert_node (new_node when ct q) q.schedule;
  events = insert mid q.next_node q.events;
  next_node = suc q.next_node;
  signals =
      if is_begin q.next_node (insert_node (new_node when ct q) q.schedule)
      then suc q.signals
      else q.signals;
}

lookup-none :
    (mid : ℕ) (q : PushMsgTimerQueue)
    → IsValid q
    → pending mid q ≡ none
    → lookup mid q.events ≡ none
lookup-none mid q v h = v.indexed mid ∙ ap number h

add_event_at-added :
    (when : UTime) (mid : ℕ) (ct : PushMsgContext) (q : PushMsgTimerQueue)
    → IsValid q
    → pending mid q ≡ none
    → add_event_at when mid ct q ≡ some (added when mid ct q)
unfolding add_event_at insert_node is_begin
add_event_at-added when mid ct q v h = rw (lookup-none mid q v h, add_event_at)

fresh_node : (k : ℕ) (xs : List Node) → All (λ x. x.node < k) xs → NoNode k xs
fresh_node k xs h = All-map xs (λ x p. λ e. omega arith) h

added-IsValid :
    (when : UTime) (ct : PushMsgContext) (q : PushMsgTimerQueue)
    → IsValid q
    → pending ct.push_mid q ≡ none
    → IsValid (added when ct.push_mid ct q)
unfolding insert_node is_begin
added-IsValid when ct q v h = record {
  sorted = insert_node-IsSorted (new_node when ct q) q.schedule v.sorted;
  below =
      All-insert_node (λ x. x.node < suc q.next_node) (new_node when ct q) q.schedule (omega arith)
        (All-map q.schedule (λ x p. omega arith) v.below);
  nodes_differ =
      insert_node-NodesDiffer (new_node when ct q) q.schedule
        (fresh_node q.next_node q.schedule v.below) v.nodes_differ;
  mids_differ =
      insert_node-MidsDiffer (new_node when ct q) q.schedule
        (NoMid-find_mid ct.push_mid q.schedule h) v.mids_differ;
  indexed = λ mid. ground (
    arith,
    v.indexed mid,
    lookup-none ct.push_mid q v h,
    lookup-insert ct.push_mid mid q.next_node q.events,
    find_mid-insert_node mid (new_node when ct q) q.schedule
        (NoMid-find_mid ct.push_mid q.schedule h),
  );
}

-- On a valid queue, adding an event under the context's message id succeeds if the id does not wait already, keeps
-- the invariant, and makes the id wait until `when`; no other id is touched.
pub add_event_at_lem :
    (when : UTime) (ct : PushMsgContext) (q : PushMsgTimerQueue)
    → IsValid q
    → pending ct.push_mid q ≡ none
    → (q' : PushMsgTimerQueue) × (add_event_at when ct.push_mid ct q ≡ some q')
      × IsValid q'
      × ((mid : ℕ)
          → pending mid q'
            ≡ (if ct.push_mid == mid then some (new_node when ct q) else pending mid q))
unfolding added insert_node
add_event_at_lem when ct q v h = (
  added when ct.push_mid ct q,
  add_event_at-added when ct.push_mid ct q v h,
  added-IsValid when ct q v h,
  λ mid.
      find_mid-insert_node mid (new_node when ct q) q.schedule
        (NoMid-find_mid ct.push_mid q.schedule h),
)

-- Under a message id that waits already the assertion in `AddEventAt` fails.
pub add_event_at_twice :
    (when : UTime) (mid : ℕ) (ct : PushMsgContext) (q : PushMsgTimerQueue) (n : Node)
    → IsValid q
    → pending mid q ≡ some n
    → add_event_at when mid ct q ≡ none
unfolding add_event_at
add_event_at_twice when mid ct q n v h = ground (arith, v.indexed mid)

-- The time for which the thread waits.
abbrev pub earliest : List Node → Option UTime
earliest [] = none
earliest (x ∷ xs) = some x.when

wakes :
    (when : UTime) (ct : PushMsgContext) (q : PushMsgTimerQueue) (xs : List Node)
    → q.schedule ≡ xs
    → All (λ x. x.node < q.next_node) xs
    → ((earliest (added when ct.push_mid ct q).schedule ≡ earliest q.schedule)
        × ((added when ct.push_mid ct q).signals ≡ q.signals))
      ⊎ ((earliest (added when ct.push_mid ct q).schedule ≡ some when)
          × ((added when ct.push_mid ct q).signals ≡ suc q.signals))
unfolding added insert_node is_begin
wakes when ct q [] e b = inr (ground arith, ground arith)
wakes when ct q (x ∷ xs) e (b, bs) = elim (Bool-cases (lt when x.when)) [
  | inl l ↦ inr (ground arith, ground arith)
  | inr l ↦ inl (ground arith, ground arith)
]

-- On a valid queue no wake-up is lost: where adding an event changes the time that the thread has to wake at, the
-- thread is signalled, and that time is the event's.
pub add_event_at_wakes :
    (when : UTime) (ct : PushMsgContext) (q q' : PushMsgTimerQueue)
    → IsValid q
    → pending ct.push_mid q ≡ none
    → add_event_at when ct.push_mid ct q ≡ some q'
    → ((earliest q'.schedule ≡ earliest q.schedule) × (q'.signals ≡ q.signals))
      ⊎ ((earliest q'.schedule ≡ some when) × (q'.signals ≡ suc q.signals))
add_event_at_wakes when ct q q' v h e =
    let same : q' ≡ added when ct.push_mid ct q =
      cc (add_event_at-added when ct.push_mid ct q v h) in
    rw same (wakes when ct q q.schedule refl v.below)

-- ===== src/Timers/Expire.antt =====
-- The thread's inner loop: what it completes is due, in order of time, and what it leaves is not.
use alarm.Base.{
  ℕ, ◌≡◌, refl, true, false, List, [], ◌∷◌, none, some, arith, ◌==◌, if◌then◌else◌, All, Bool-cases,
  inl, inr,
}
use alarm.Base.Maps.{nat_eq, erase, lookup-erase}
use alarm.Time.{UTime, gt}
use alarm.Time.Order.{gt-lt, lt-false_trans}
use alarm.Timers.{Node, PushMsgContext, PushMsgTimerQueue, pop_due}
use alarm.Timers.Schedule.{find_mid, NotBefore, All-map, NoMid}
use alarm.Timers.Lookup.{find_mid-NoMid}
use alarm.Timers.Valid.{IsValid, pending}

-- The queue without its first node.
module _ (q : PushMsgTimerQueue) (n : Node) (rest : List Node) (v : IsValid q)
    (e : q.schedule ≡ n ∷ rest) where
  abbrev popped : PushMsgTimerQueue
  popped = record q { schedule = rest; events = erase n.ct.push_mid q.events }

  rest_without : NoMid n.ct.push_mid rest
  rest_without = (rw e at v.mids_differ).0

  pending-popped : (k : ℕ) → pending k popped ≡ (if n.ct.push_mid == k then none else pending k q)
  unfolding find_mid
  pending-popped k = ground (arith, find_mid-NoMid n.ct.push_mid rest rest_without)

  first_pending : pending n.ct.push_mid q ≡ some n
  unfolding find_mid
  first_pending = ground arith

  popped-IsValid : IsValid popped
  popped-IsValid = record {
    sorted = (rw e at v.sorted).1;
    below = (rw e at v.below).1;
    nodes_differ = (rw e at v.nodes_differ).1;
    mids_differ = (rw e at v.mids_differ).1;
    indexed =
        λ k. ground (arith, v.indexed k, lookup-erase n.ct.push_mid k q.events, pending-popped k);
  }

  after_first : All (NotBefore n) rest
  after_first = (rw e at v.sorted).0

-- What one turn of the loop at `now` finds on a valid queue.
abbrev pub Due : UTime → PushMsgTimerQueue → PushMsgContext → PushMsgTimerQueue → Type 0
Due now q ct q' =
    (n : Node) × (n.ct ≡ ct)
    × (pending ct.push_mid q ≡ some n)
    × (gt n.when now ≡ false)
    × All (NotBefore n) q'.schedule
    × IsValid q'
    × ((k : ℕ) → pending k q' ≡ (if ct.push_mid == k then none else pending k q))

first-Due :
    (now : UTime) (q q' : PushMsgTimerQueue) (ct : PushMsgContext) (xs : List Node)
    → IsValid q
    → q.schedule ≡ xs
    → pop_due now q ≡ some (ct, q')
    → Due now q ct q'
unfolding pop_due
first-Due now q q' ct [] v s e = cc
first-Due now q q' ct (n ∷ rest) v s e = elim (Bool-cases (gt n.when now)) [
  | inl late ↦ absurd (ground arith)
  | inr due ↦
      let same : q' ≡ popped q n rest v s = ground arith in
      let ctx : n.ct ≡ ct = ground arith in
      (
        n,
        ctx,
        rw (← ctx) (first_pending q n rest v s),
        due,
        rw same (after_first q n rest v s),
        rw same (popped-IsValid q n rest v s),
        rw (same, ← ctx) (pending-popped q n rest v s),
      )
]

-- On a valid queue, the context that one turn of the loop completes waited under its message id, was due, and was the
-- earliest; the invariant is kept, the id waits no longer, and every other id waits as before.
pub pop_due_lem :
    (now : UTime) (q q' : PushMsgTimerQueue) (ct : PushMsgContext)
    → IsValid q
    → pop_due now q ≡ some (ct, q')
    → Due now q ct q'
pop_due_lem now q q' ct v e = first-Due now q q' ct q.schedule v refl e

All-late :
    (now : UTime) (q : PushMsgTimerQueue) (xs : List Node)
    → IsValid q
    → q.schedule ≡ xs
    → pop_due now q ≡ none
    → All (λ x. gt x.when now ≡ true) xs
unfolding pop_due
All-late now q [] v s e = tt
All-late now q (n ∷ rest) v s e =
    let late : gt n.when now ≡ true = ground arith in
    (late, All-map rest (λ x p. later x p late) (after_first q n rest v s))
  where
    later : (x : Node) → NotBefore n x → gt n.when now ≡ true → gt x.when now ≡ true
    later x p l =
        ground (arith, gt-lt n.when now, gt-lt x.when now, lt-false_trans n.when x.when now p)

-- Where the loop breaks, every message that waits has its time still to come.
pub pop_due_break :
    (now : UTime) (q : PushMsgTimerQueue)
    → IsValid q
    → pop_due now q ≡ none
    → All (λ x. gt x.when now ≡ true) q.schedule
pop_due_break now q v e = All-late now q q.schedule v refl e

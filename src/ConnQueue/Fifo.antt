-- ===== src/ConnQueue/Fifo.antt =====
-- A connection queue is a first-in first-out queue.
use alarm.Base.{ℕ, ◌≡◌, ◌≢◌, refl, sym, List, [], ◌∷◌, ◌++◌, none, some, arith}
use alarm.ConnQueue.{Items, set_next, ConnQueue, conn_queue_push, conn_queue_pop}
use alarm.ConnQueue.Chain.{IsChain, NotIn, Distinct, last, set_next-IsChain, append-IsChain}

-- The items in the queue, the oldest first.
pub record IsQueue (h : Items) (cq : ConnQueue) (xs : List ℕ) : Type 0 where
  pub chain : IsChain h cq.head xs
  pub ends : cq.tail ≡ last xs
  pub distinct : Distinct xs

-- Only `next` pointers change, never what an item carries.
abbrev pub SameLoad : Items → Items → Type 0
SameLoad h h' = (y : ℕ) → ((h' y).sfd ≡ (h y).sfd) × ((h' y).id ≡ (h y).id)

last-snoc : (x : ℕ) (xs : List ℕ) → last (xs ++ (x ∷ [])) ≡ some x
last-snoc x [] = refl
last-snoc x (y ∷ []) = refl
last-snoc x (y ∷ z ∷ zs) = last-snoc x (z ∷ zs)

pub NotIn-snoc : (x y : ℕ) (xs : List ℕ) → NotIn y xs → x ≢ y → NotIn y (xs ++ (x ∷ []))
NotIn-snoc x y [] n e = (e, tt)
NotIn-snoc x y (z ∷ zs) (n, ns) e = (n, NotIn-snoc x y zs ns e)

pub Distinct-snoc : (x : ℕ) (xs : List ℕ) → Distinct xs → NotIn x xs → Distinct (xs ++ (x ∷ []))
Distinct-snoc x [] d n = (tt, tt)
Distinct-snoc x (y ∷ ys) d n =
    (NotIn-snoc x y ys d.0 (λ e. n.0 (sym e)), Distinct-snoc x ys d.1 n.1)

last_exists : (x : ℕ) (xs : List ℕ) → (l : ℕ) × (last (x ∷ xs) ≡ some l)
last_exists x [] = (x, refl)
last_exists x (y ∷ ys) = last_exists y ys

-- What a push gives.
abbrev pub Pushed : ℕ → List ℕ → Items → ConnQueue × Items → Type 0
Pushed x xs h r = IsQueue r.1 r.0 (xs ++ (x ∷ [])) × SameLoad h r.1

push-last :
    (x l : ℕ) (cq : ConnQueue) (h : Items) (xs : List ℕ)
    → IsQueue h cq xs
    → NotIn x xs
    → last xs ≡ some l
    → Pushed x xs h
        (record { head = cq.head; tail = some x }, set_next l (some x) (set_next x none h))
push-last x l cq h xs q n e = (
  record {
    chain =
        append-IsChain x l cq.head (set_next x none h) xs q.distinct n e (ground arith)
          (set_next-IsChain x none cq.head h xs n q.chain);
    ends = sym (last-snoc x xs);
    distinct = Distinct-snoc x xs q.distinct n;
  },
  λ y. (ground arith, ground arith),
)

-- An item that is not in a queue is behind all others once it is pushed; its load and all others' are as
-- they were.
pub conn_queue_push_lem :
    (x : ℕ) (cq : ConnQueue) (h : Items) (xs : List ℕ)
    → IsQueue h cq xs
    → NotIn x xs
    → Pushed x xs h (conn_queue_push x cq h)
unfolding conn_queue_push
conn_queue_push_lem x cq h [] q n = rw (q.ends) (
  record { chain = (refl, ground arith); ends = refl; distinct = (tt, tt) },
  λ y. (ground arith, ground arith),
)
conn_queue_push_lem x cq h (y ∷ ys) q n =
    let (l, e) = last_exists y ys in rw (q.ends, e) (push-last x l cq h (y ∷ ys) q n e)

-- A pop of a queue that is not empty gives the oldest item, and leaves the others in order; a pop of an
-- empty one gives NULL and leaves it empty.
pub conn_queue_pop_lem :
    (cq : ConnQueue) (h : Items) (xs : List ℕ)
    → IsQueue h cq xs
    → (cq' : ConnQueue) × (conn_queue_pop cq h ≡ (elim xs [ [] ↦ none | x ∷ ys ↦ some x ], cq'))
      × IsQueue h cq' (elim xs [ [] ↦ [] | x ∷ ys ↦ ys ])
unfolding conn_queue_pop
conn_queue_pop_lem cq h [] q = (cq, rw (q.chain) refl, q)
conn_queue_pop_lem cq h (x ∷ []) q = (
  record { head = none; tail = none },
  ground (arith, q.chain),
  record { chain = refl; ends = refl; distinct = tt },
)
conn_queue_pop_lem cq h (x ∷ y ∷ ys) q = (
  record { head = some y; tail = cq.tail },
  ground (arith, q.chain),
  record { chain = (refl, q.chain.1.1); ends = q.ends; distinct = q.distinct.1 },
)

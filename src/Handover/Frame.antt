-- ===== src/Handover/Frame.antt =====
-- The items of other queues are not touched by what is done to one.
use alarm.Base.{
  ℕ, ◌≡◌, ◌≢◌, refl, sym, ap, List, [], ◌∷◌, ◌++◌, Option, none, some, arith, All, Bool-cases, inl,
  inr, ◌==◌,
}
use alarm.ConnQueue.{Items, ConnQueue, conn_queue_push}
use alarm.ConnQueue.Chain.{IsChain, NotIn, last, last_in}
use alarm.ConnQueue.Fifo.{IsQueue}
use alarm.ConnQueue.Free.{IsFree}
use alarm.ConnQueue.{FreeItems}
use alarm.Handover.{set_at}

-- The items of a list are the same in both.
abbrev pub SameOn : List ℕ → Items → Items → Type 0
SameOn xs h h' = All (λ x. h' x ≡ h x) xs

IsChain-frame :
    (h h' : Items) (p : Option ℕ) (xs : List ℕ) → SameOn xs h h' → IsChain h p xs → IsChain h' p xs
IsChain-frame h h' p [] s c = c
IsChain-frame h h' p (x ∷ xs) s c = (c.0, rw (s.0) (IsChain-frame h h' (h x).next xs s.1 c.1))

pub IsQueue-frame :
    (h h' : Items) (cq : ConnQueue) (xs : List ℕ)
    → SameOn xs h h'
    → IsQueue h cq xs
    → IsQueue h' cq xs
IsQueue-frame h h' cq xs s q = record {
  chain = IsChain-frame h h' cq.head xs s q.chain;
  ends = q.ends;
  distinct = q.distinct;
}

pub IsFree-frame :
    (h h' : Items) (f : FreeItems) (xs : List ℕ) → SameOn xs h h' → IsFree h f xs → IsFree h' f xs
IsFree-frame h h' f xs s v = record {
  chain = IsChain-frame h h' f.cqi_freelist xs s v.chain;
  distinct = v.distinct;
  below = v.below;
}

-- What a queue's items carry.
abbrev pub loads : Items → List ℕ → List (ℕ × ℕ)
loads h [] = []
loads h (x ∷ xs) = ((h x).sfd, (h x).id) ∷ loads h xs

pub loads-frame :
    (h h' : Items) (xs : List ℕ)
    → All (λ y. ((h' y).sfd ≡ (h y).sfd) × ((h' y).id ≡ (h y).id)) xs
    → loads h' xs ≡ loads h xs
loads-frame h h' [] s = refl
loads-frame h h' (x ∷ xs) s = cc (s.0.0, s.0.1, loads-frame h h' xs s.1)

pub loads-snoc :
    (h : Items) (xs : List ℕ) (x : ℕ)
    → loads h (xs ++ (x ∷ [])) ≡ loads h xs ++ (((h x).sfd, (h x).id) ∷ [])
loads-snoc h [] x = refl
loads-snoc h (y ∷ xs) x = ap (◌∷◌ ((h y).sfd, (h y).id)) (loads-snoc h xs x)

-- A push writes to the item and to the last one of its queue only.
pub push-frame :
    (x z : ℕ) (cq : ConnQueue) (h : Items) (xs : List ℕ)
    → IsQueue h cq xs
    → z ≢ x
    → NotIn z xs
    → (conn_queue_push x cq h).1 z ≡ h z
unfolding conn_queue_push
push-frame x z cq h xs q n m = by_last (last xs) refl
  where
    by_last : (l : Option ℕ) → last xs ≡ l → (conn_queue_push x cq h).1 z ≡ h z
    by_last none e = ground (arith, q.ends, e)
    by_last (some l) e = ground (arith, q.ends, e, last_in z l xs m e)

-- Two lists have no item in common, seen from either.
pub NotIn_sym : (xs ys : List ℕ) → All (λ x. NotIn x ys) xs → All (λ y. NotIn y xs) ys
NotIn_sym [] ys h = All_tt ys
  where
    All_tt : (ys : List ℕ) → All (λ y. Unit {0}) ys
    All_tt [] = tt
    All_tt (y ∷ ys) = (tt, All_tt ys)
NotIn_sym (x ∷ xs) ys h = both ys h.0 (NotIn_sym xs ys h.1)
  where
    both : (zs : List ℕ) → NotIn x zs → All (λ y. NotIn y xs) zs → All (λ y. NotIn y (x ∷ xs)) zs
    both [] a b = tt
    both (z ∷ zs) a b = (((λ e. a.0 (sym e)), b.0), both zs a.1 b.1)

-- A property of each worker's queue: to be shown for the one that changes, and for the others.
pub by_worker :
    {A B : Type 0} (tid : ℕ) (P : A → B → Type 0) (a : A) (b : B) (f : ℕ → A) (g : ℕ → B)
    → P a b
    → ((t : ℕ) → t ≢ tid → P (f t) (g t))
    → (t : ℕ) → P (set_at tid a f t) (set_at tid b g t)
by_worker tid P a b f g p q t = elim (Bool-cases (t == tid)) [
  | inl e ↦ rw e p
  | inr e ↦ rw e (q t (ground arith))
]

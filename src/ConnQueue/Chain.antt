-- ===== src/ConnQueue/Chain.antt =====
-- Linked lists of items: the items that are reached from a pointer, and what a write to one `next` does.
use alarm.Base.{ℕ, ◌≡◌, ◌≢◌, List, [], ◌∷◌, ◌++◌, Option, none, some, arith, All}
use alarm.ConnQueue.{Items, set_next}

-- From the pointer `p` exactly the items `xs` are reached, in order.
abbrev pub IsChain : Items → Option ℕ → List ℕ → Type 0
IsChain h p [] = p ≡ none
IsChain h p (x ∷ xs) = (p ≡ some x) × IsChain h (h x).next xs

abbrev pub NotIn : ℕ → List ℕ → Type 0
NotIn x xs = All (λ y. y ≢ x) xs

abbrev pub Distinct : List ℕ → Type 0
Distinct [] = Unit {0}
Distinct (x ∷ xs) = NotIn x xs × Distinct xs

abbrev pub last : List ℕ → Option ℕ
last [] = none
last (x ∷ []) = some x
last (x ∷ y ∷ xs) = last (y ∷ xs)

-- A write to an item that is not in a list leaves the list alone.
pub set_next-IsChain :
    (x : ℕ) (q p : Option ℕ) (h : Items) (xs : List ℕ)
    → NotIn x xs
    → IsChain h p xs
    → IsChain (set_next x q h) p xs
set_next-IsChain x q p h [] n c = c
set_next-IsChain x q p h (y ∷ ys) (n, ns) (e, c) =
    let kept : (set_next x q h y).next ≡ (h y).next = ground arith in
    (e, rw kept (set_next-IsChain x q (h y).next h ys ns c))

pub last_in : (x l : ℕ) (xs : List ℕ) → NotIn x xs → last xs ≡ some l → l ≢ x
last_in x l [] n e = cc
last_in x l (y ∷ []) n e = λ f. ground (arith, n.0)
last_in x l (y ∷ z ∷ zs) n e = last_in x l (z ∷ zs) n.1 e

-- An item without a successor that the last one of a list is made to point to is its end.
pub append-IsChain :
    (x l : ℕ) (p : Option ℕ) (h : Items) (xs : List ℕ)
    → Distinct xs
    → NotIn x xs
    → last xs ≡ some l
    → (h x).next ≡ none
    → IsChain h p xs
    → IsChain (set_next l (some x) h) p (xs ++ (x ∷ []))
append-IsChain x l p h [] d n e end c = cc
append-IsChain x l p h (y ∷ []) d n e end c = (c.0, (ground arith, ground (arith, n.0)))
append-IsChain x l p h (y ∷ z ∷ zs) d n e end c =
    let apart : l ≢ y = last_in y l (z ∷ zs) d.0 e in
    let kept : (set_next l (some x) h y).next ≡ (h y).next = ground arith in
    (c.0, rw kept (append-IsChain x l (h y).next h (z ∷ zs) d.1 n.1 e end c.1))

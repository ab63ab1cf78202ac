-- ===== src/Timers/Schedule.antt =====
-- The list of nodes behind `schedule_`: what insertion and removal do to its order and its keys.
use alarm.Base.{
  ℕ, ◌≡◌, ◌≢◌, sym, false, List, [], ◌∷◌, Option, none, some, ◌==◌, if◌then◌else◌, All, Bool-cases,
  inl, inr,
}
use alarm.Time.{lt}
use alarm.Time.Order.{lt_asymm, lt-false_trans}
use alarm.Timers.{Node, insert_node, erase_node}

-- The node of a message id.
unfoldable pub find_mid : ℕ → List Node → Option Node
find_mid mid [] = none
find_mid mid (x ∷ xs) = if x.ct.push_mid == mid then some x else find_mid mid xs

abbrev pub number : Option Node → Option ℕ
number none = none
number (some n) = some n.node

-- No node of the list has the number, and no node has the message id.
abbrev pub NoNode : ℕ → List Node → Type 0
NoNode i = All (λ x. x.node ≢ i)

abbrev pub NoMid : ℕ → List Node → Type 0
NoMid mid = All (λ x. x.ct.push_mid ≢ mid)

abbrev pub NodesDiffer : List Node → Type 0
NodesDiffer [] = Unit
NodesDiffer (x ∷ xs) = NoNode x.node xs × NodesDiffer xs

abbrev pub MidsDiffer : List Node → Type 0
MidsDiffer [] = Unit
MidsDiffer (x ∷ xs) = NoMid x.ct.push_mid xs × MidsDiffer xs

abbrev pub NotBefore : Node → Node → Type 0
NotBefore x y = lt y.when x.when ≡ false

-- Every node is followed by nodes that are not earlier.
abbrev pub IsSorted : List Node → Type 0
IsSorted [] = Unit
IsSorted (x ∷ xs) = All (NotBefore x) xs × IsSorted xs

pub All-insert_node {κ} :
    (P : Node → Type κ) (n : Node) (xs : List Node) → P n → All P xs → All P (insert_node n xs)
unfolding insert_node
All-insert_node P n [] h hs = (h, tt)
All-insert_node P n (x ∷ xs) h (hx, hs) = elim (Bool-cases (lt n.when x.when)) [
  | inl e ↦ rw e (h, (hx, hs))
  | inr e ↦ rw e (hx, All-insert_node P n xs h hs)
]

pub All-erase_node {κ} :
    (P : Node → Type κ) (i : ℕ) (xs : List Node) → All P xs → All P (erase_node i xs)
unfolding erase_node
All-erase_node P i [] hs = tt
All-erase_node P i (x ∷ xs) (hx, hs) = elim (Bool-cases (x.node == i)) [
  | inl e ↦ rw e hs
  | inr e ↦ rw e (hx, All-erase_node P i xs hs)
]

pub All-map {κ μ} :
    {P : Node → Type κ} {Q : Node → Type μ} (xs : List Node)
    → ((x : Node) → P x → Q x)
    → All P xs
    → All Q xs
All-map [] f hs = tt
All-map (x ∷ xs) f (h, hs) = (f x h, All-map xs f hs)

pub insert_node-IsSorted : (n : Node) (xs : List Node) → IsSorted xs → IsSorted (insert_node n xs)
unfolding insert_node
insert_node-IsSorted n [] s = (tt, tt)
insert_node-IsSorted n (x ∷ xs) (h, s) = elim (Bool-cases (lt n.when x.when)) [
  | inl e ↦ rw e (
    (
      lt_asymm n.when x.when e,
      All-map {P = NotBefore x} {Q = NotBefore n} xs
          (λ y p. lt-false_trans n.when x.when y.when (lt_asymm n.when x.when e) p) h,
    ),
    (h, s),
  )
  | inr e ↦ rw e (All-insert_node (NotBefore x) n xs e h, insert_node-IsSorted n xs s)
]

pub erase_node-IsSorted : (i : ℕ) (xs : List Node) → IsSorted xs → IsSorted (erase_node i xs)
unfolding erase_node
erase_node-IsSorted i [] s = tt
erase_node-IsSorted i (x ∷ xs) (h, s) = elim (Bool-cases (x.node == i)) [
  | inl e ↦ rw e s
  | inr e ↦ rw e (All-erase_node (NotBefore x) i xs h, erase_node-IsSorted i xs s)
]

pub insert_node-NodesDiffer :
    (n : Node) (xs : List Node) → NoNode n.node xs → NodesDiffer xs → NodesDiffer (insert_node n xs)
unfolding insert_node
insert_node-NodesDiffer n [] f d = (tt, tt)
insert_node-NodesDiffer n (x ∷ xs) (ne, f) (g, d) = elim (Bool-cases (lt n.when x.when)) [
  | inl e ↦ rw e ((ne, f), (g, d))
  | inr e ↦ rw e (
    All-insert_node (λ y. y.node ≢ x.node) n xs (λ p. ne (sym p)) g,
    insert_node-NodesDiffer n xs f d,
  )
]

pub insert_node-MidsDiffer :
    (n : Node) (xs : List Node)
    → NoMid n.ct.push_mid xs
    → MidsDiffer xs
    → MidsDiffer (insert_node n xs)
unfolding insert_node
insert_node-MidsDiffer n [] f d = (tt, tt)
insert_node-MidsDiffer n (x ∷ xs) (ne, f) (g, d) = elim (Bool-cases (lt n.when x.when)) [
  | inl e ↦ rw e ((ne, f), (g, d))
  | inr e ↦ rw e (
    All-insert_node (λ y. y.ct.push_mid ≢ x.ct.push_mid) n xs (λ p. ne (sym p)) g,
    insert_node-MidsDiffer n xs f d,
  )
]

pub erase_node-NodesDiffer :
    (i : ℕ) (xs : List Node) → NodesDiffer xs → NodesDiffer (erase_node i xs)
unfolding erase_node
erase_node-NodesDiffer i [] d = tt
erase_node-NodesDiffer i (x ∷ xs) (g, d) = elim (Bool-cases (x.node == i)) [
  | inl e ↦ rw e d
  | inr e ↦ rw e (All-erase_node (λ y. y.node ≢ x.node) i xs g, erase_node-NodesDiffer i xs d)
]

pub erase_node-MidsDiffer : (i : ℕ) (xs : List Node) → MidsDiffer xs → MidsDiffer (erase_node i xs)
unfolding erase_node
erase_node-MidsDiffer i [] d = tt
erase_node-MidsDiffer i (x ∷ xs) (g, d) = elim (Bool-cases (x.node == i)) [
  | inl e ↦ rw e d
  | inr e ↦
      rw e
        (All-erase_node (λ y. y.ct.push_mid ≢ x.ct.push_mid) i xs g, erase_node-MidsDiffer i xs d)
]

-- ===== src/Timers/Lookup.antt =====
-- Looking a message id up in the list of nodes, after insertion and removal.
use alarm.Base.{
  ℕ, ◌≡◌, refl, List, [], ◌∷◌, none, some, arith, ◌==◌, if◌then◌else◌, Bool-cases, inl, inr,
}
use alarm.Timers.{Node, insert_node, find_node, erase_node}
use alarm.Timers.Schedule.{find_mid, NoMid, NoNode, MidsDiffer, NodesDiffer}

pub find_mid-NoMid : (mid : ℕ) (xs : List Node) → NoMid mid xs → find_mid mid xs ≡ none
unfolding find_mid
find_mid-NoMid mid [] h = refl
find_mid-NoMid mid (x ∷ xs) (h, hs) = ground (arith, find_mid-NoMid mid xs hs)

pub NoMid-find_mid : (mid : ℕ) (xs : List Node) → find_mid mid xs ≡ none → NoMid mid xs
unfolding find_mid
NoMid-find_mid mid [] h = tt
NoMid-find_mid mid (x ∷ xs) h = elim (Bool-cases (x.ct.push_mid == mid)) [
  | inl e ↦ absurd (ground arith)
  | inr e ↦ (ground arith, NoMid-find_mid mid xs (ground arith))
]

-- Insertion adds the node under its message id, if that is new.
pub find_mid-insert_node :
    (mid : ℕ) (n : Node) (xs : List Node)
    → NoMid n.ct.push_mid xs
    → find_mid mid (insert_node n xs) ≡ (if n.ct.push_mid == mid then some n else find_mid mid xs)
unfolding find_mid insert_node
find_mid-insert_node mid n [] h = refl
find_mid-insert_node mid n (x ∷ xs) (h, hs) = ground (arith, find_mid-insert_node mid n xs hs)

find_node_later : (i : ℕ) (xs : List Node) → NoNode i xs → find_node i xs ≡ none
unfolding find_node
find_node_later i [] h = refl
find_node_later i (x ∷ xs) (h, hs) = ground (arith, find_node_later i xs hs)

pub find_mid_mid :
    (mid : ℕ) (xs : List Node) (n : Node) → find_mid mid xs ≡ some n → n.ct.push_mid ≡ mid
unfolding find_mid
find_mid_mid mid [] n e = cc
find_mid_mid mid (x ∷ xs) n e = ground (arith, find_mid_mid mid xs n)

-- The iterator that a node's number stands for leads back to the node.
pub find_node-find_mid :
    (mid : ℕ) (xs : List Node) (n : Node)
    → NodesDiffer xs
    → find_mid mid xs ≡ some n
    → find_node n.node xs ≡ some n
unfolding find_mid find_node
find_node-find_mid mid [] n d e = cc
find_node-find_mid mid (x ∷ xs) n (g, d) e =
    ground (arith, find_node-find_mid mid xs n d, find_node_later x.node xs g)

-- Removal through that iterator removes the message id, and no other.
pub find_mid-erase_node :
    (mid k : ℕ) (xs : List Node) (n : Node)
    → NodesDiffer xs
    → MidsDiffer xs
    → find_mid mid xs ≡ some n
    → find_mid k (erase_node n.node xs) ≡ (if mid == k then none else find_mid k xs)
unfolding find_mid erase_node
find_mid-erase_node mid k [] n d b e = cc
find_mid-erase_node mid k (x ∷ xs) n (g, d) (c, b) e = ground (
  arith,
  find_mid-erase_node mid k xs n d b,
  find_node-find_mid mid xs n d,
  find_node_later x.node xs g,
  find_mid-NoMid x.ct.push_mid xs c,
)

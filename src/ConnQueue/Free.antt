-- ===== src/ConnQueue/Free.antt =====
-- The list of free items: what is got from it is in no one's hands, and is not free any longer.
use alarm.Base.{
  ℕ, zero, suc, ◌+◌, ◌<◌, ◌≤◌, ◌≡◌, ◌≢◌, refl, sym, List, [], ◌∷◌, none, some, arith, All, ltb, leb,
  ◌&&◌, if◌then◌else◌,
}
use alarm.ConnQueue.{Items, set_next, FreeItems, link, conn_queue_item_new, conn_queue_item_free}
use alarm.ConnQueue.Chain.{IsChain, NotIn, Distinct, set_next-IsChain}

pub record IsFree (h : Items) (f : FreeItems) (xs : List ℕ) : Type 0 where
  pub chain : IsChain h f.cqi_freelist xs
  pub distinct : Distinct xs
  pub below : All (λ y. y < f.allocated) xs

abbrev pub range : ℕ → ℕ → List ℕ
range b zero = []
range b (suc n) = b ∷ range (suc b) n

range-NotIn : (y b n : ℕ) → y < b → NotIn y (range b n)
range-NotIn y b zero h = tt
range-NotIn y b (suc n) h = ((λ e. omega arith), range-NotIn y (suc b) n (omega arith))

range-Distinct : (b n : ℕ) → Distinct (range b n)
range-Distinct b zero = tt
range-Distinct b (suc n) = (range-NotIn b (suc b) n (omega arith), range-Distinct (suc b) n)

range-All : (b n m : ℕ) → b + n ≤ m → All (λ y. y < m) (range b n)
range-All b zero m h = tt
range-All b (suc n) m h = (omega arith, range-All (suc b) n m (omega arith))

link-set_next :
    (n b z : ℕ) (h : Items)
    → link n b h z
      ≡ (if leb b z && ltb z (b + n) then record (h z) { next = some (suc z) } else h z)
unfolding link
link-set_next zero b z h = ground arith
link-set_next (suc n) b z h =
    ground (arith, link-set_next n (suc b) z (set_next b (some (suc b)) h))

range-IsChain :
    (n b : ℕ) (h : Items)
    → ((z : ℕ) → b ≤ z → z < b + n → (h z).next ≡ some (suc z))
    → (h (b + n)).next ≡ none
    → IsChain h (some b) (range b (suc n))
range-IsChain zero b h f e = let here : b + 0 ≡ b = omega arith in (refl, rw here at e)
range-IsChain (suc n) b h f e =
    let there : b + suc n ≡ suc b + n = omega arith in
    (
      refl,
      rw (f b (omega arith) (omega arith))
          (range-IsChain n (suc b) h (λ z l m. f z (omega arith) (omega arith)) (rw there at e)),
    )

-- What was not free before and is allocated is neither got nor free now, and is as it was.
abbrev pub Untouched : FreeItems → List ℕ → Items → ℕ → List ℕ → Items → Type 0
Untouched f xs h x ys h' =
    (z : ℕ) → z < f.allocated → NotIn z xs → (z ≢ x) × NotIn z ys × (h' z ≡ h z)

-- The items that are free after an item was got.
abbrev pub free_after : FreeItems → List ℕ → List ℕ
free_after f [] = range (suc f.allocated) 63
free_after f (x ∷ xs) = xs

below_block : (n b c z : ℕ) (h : Items) → z < b → z < c → set_next c none (link n b h) z ≡ h z
below_block n b c z h l m = ground (arith, link-set_next n b z h)

fresh_block :
    (f : FreeItems) (h : Items)
    → IsChain
        (set_next (f.allocated + 63) none (link 62 (suc f.allocated) h))
        (some (suc f.allocated))
        (range (suc f.allocated) 63)
fresh_block f h =
    range-IsChain 62 (suc f.allocated)
      (set_next (f.allocated + 63) none (link 62 (suc f.allocated) h))
      (λ z l m. ground (arith, link-set_next 62 (suc f.allocated) z h)) (ground arith)

-- An item is got that was not in use: it was free, or it is new; what was allocated and not free is not
-- touched, and the free list is a list of free items again. A block of 64 is allocated where it is empty.
pub conn_queue_item_new_lem :
    (f : FreeItems) (h : Items) (xs : List ℕ)
    → IsFree h f xs
    → (x : ℕ) × (f' : FreeItems) × (h' : Items) × (conn_queue_item_new f h ≡ (x, f', h'))
      × IsFree h' f' (free_after f xs)
      × NotIn x (free_after f xs)
      × Untouched f xs h x (free_after f xs) h'
unfolding conn_queue_item_new
conn_queue_item_new_lem f h (x ∷ xs) v = (
  x,
  record f { cqi_freelist = (h x).next },
  h,
  ground (arith, v.chain),
  record { chain = v.chain.1; distinct = v.distinct.1; below = v.below.1 },
  v.distinct.0,
  λ z l n. ((λ e. n.0 (sym e)), n.1, refl),
)
conn_queue_item_new_lem f h [] v = (
  f.allocated,
  record { allocated = f.allocated + 64; cqi_freelist = some (suc f.allocated) },
  set_next (f.allocated + 63) none (link 62 (suc f.allocated) h),
  ground (arith, v.chain),
  record {
    chain = fresh_block f h;
    distinct = range-Distinct (suc f.allocated) 63;
    below = range-All (suc f.allocated) 63 (f.allocated + 64) (omega arith);
  },
  range-NotIn f.allocated (suc f.allocated) 63 (omega arith),
  λ z l n. (
    (λ e. omega arith),
    range-NotIn z (suc f.allocated) 63 (omega arith),
    below_block 62 (suc f.allocated) (f.allocated + 63) z h (omega arith) (omega arith),
  ),
)

-- The item that is got is allocated, and no item is deleted.
pub item_new_allocated :
    (f : FreeItems) (h : Items) (xs : List ℕ)
    → IsFree h f xs
    → (f.allocated ≤ (conn_queue_item_new f h).1.allocated)
      × ((conn_queue_item_new f h).0 < (conn_queue_item_new f h).1.allocated)
unfolding conn_queue_item_new
item_new_allocated f h (x ∷ xs) v = (ground (arith, v.chain), ground (arith, v.chain.0, v.below.0))
item_new_allocated f h [] v = (ground (arith, v.chain), ground (arith, v.chain))

-- An item that is allocated and not free is free once it is given back, in front of the others.
pub conn_queue_item_free_lem :
    (x : ℕ) (f : FreeItems) (h : Items) (xs : List ℕ)
    → IsFree h f xs
    → x < f.allocated
    → NotIn x xs
    → IsFree (conn_queue_item_free x f h).1 (conn_queue_item_free x f h).0 (x ∷ xs)
unfolding conn_queue_item_free
conn_queue_item_free_lem x f h xs v l n = record {
  chain = (refl, front);
  distinct = (n, v.distinct);
  below = (l, v.below);
}
  where
    kept : (set_next x f.cqi_freelist h x).next ≡ f.cqi_freelist
    kept = ground arith

    front : IsChain (set_next x f.cqi_freelist h) (set_next x f.cqi_freelist h x).next xs
    front = rw kept (set_next-IsChain x f.cqi_freelist f.cqi_freelist h xs n v.chain)

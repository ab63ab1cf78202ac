-- ===== src/ConnPool/Obtaining.antt =====
-- The connection that `conn_new` gets hold of, and the way back to the free ones.
use alarm.Base.{
  ℕ, suc, ◌≤◌, ◌<◌, ◌≡◌, ◌≢◌, refl, sym, ap, Bool, true, false, List, [], ◌∷◌, ◌++◌, some, arith,
  All, All-map, Bool-cases, ◌⊎◌, inl, inr,
}
use alarm.ConnPool.{FreeConns, Pool, obtain, give_back}
use alarm.ConnPool.Stack.{
  IsStack, conn_add_to_freelist_lem, conn_from_freelist_lem, conn_from_freelist_empty,
}
use alarm.ConnQueue.Chain.{NotIn, Distinct}

-- The free connections, and those that are open: these are not among the free ones.
pub record IsPool (p : Pool) (xs : List ℕ) (is_open : ℕ → Bool) : Type 0 where
  pub stack : IsStack p.free xs
  pub distinct : Distinct xs
  pub idle : All (λ x. (is_open x ≡ false) × (x < p.allocated)) xs
  pub below : (c : ℕ) → is_open c ≡ true → c < p.allocated

snoc_cases : (xs : List ℕ) → (xs ≡ []) ⊎ ((ys : List ℕ) × (c : ℕ) × (xs ≡ ys ++ (c ∷ [])))
snoc_cases [] = inl refl
snoc_cases (x ∷ xs) = elim (snoc_cases xs) [
  | inl e ↦ inr ([], x, ap (◌∷◌ x) e)
  | inr (ys, c, e) ↦ inr (x ∷ ys, c, ap (◌∷◌ x) e)
]

All-snoc : (P : ℕ → Type 0) (ys : List ℕ) (c : ℕ) → All P (ys ++ (c ∷ [])) → All P ys × P c
All-snoc P [] c h = (tt, h.0)
All-snoc P (y ∷ ys) c h = let (a, b) = All-snoc P ys c h.1 in ((h.0, a), b)

Distinct-unsnoc : (ys : List ℕ) (c : ℕ) → Distinct (ys ++ (c ∷ [])) → Distinct ys × NotIn c ys
Distinct-unsnoc [] c h = (tt, tt)
Distinct-unsnoc (y ∷ ys) c h =
    let (d, n) = Distinct-unsnoc ys c h.1 in
    let (a, b) = All-snoc (λ z. z ≢ y) ys c h.0 in ((a, d), ((λ e. b (sym e)), n))

pub All-with-NotIn :
    (P Q : ℕ → Type 0) (c : ℕ) (xs : List ℕ)
    → ((x : ℕ) → x ≢ c → P x → Q x)
    → NotIn c xs
    → All P xs
    → All Q xs
All-with-NotIn P Q c [] f n h = tt
All-with-NotIn P Q c (x ∷ xs) f n h = (f x n.0 h.0, All-with-NotIn P Q c xs f n.1 h.1)

pub NotIn_of_All :
    (P : ℕ → Type 0) (c : ℕ) (xs : List ℕ) → ((x : ℕ) → P x → x ≢ c) → All P xs → NotIn c xs
NotIn_of_All P c xs f h = All-map P (λ x. x ≢ c) xs f h

-- A connection that is neither open nor free any more, and nothing else changed.
pub record Obtained (p : Pool) (is_open : ℕ → Bool) (c : ℕ) (p' : Pool) (ys : List ℕ) : Type 0 where
  pub run : obtain p ≡ some (c, p')
  pub stack : IsStack p'.free ys
  pub distinct : Distinct ys
  pub idle : All (λ x. (is_open x ≡ false) × (x < p'.allocated)) ys
  pub apart : NotIn c ys
  pub not_open : is_open c ≡ false
  pub here : c < p'.allocated
  pub more : p.allocated ≤ p'.allocated
  pub conns : p'.conns ≡ p.conns
  pub freed : p'.freed ≡ p.freed

pub obtain_lem :
    (p : Pool) (xs : List ℕ) (is_open : ℕ → Bool)
    → IsPool p xs is_open
    → (c : ℕ) × (p' : Pool) × (ys : List ℕ) × Obtained p is_open c p' ys
unfolding obtain
obtain_lem p xs is_open v = elim (snoc_cases xs) [
  | inl e ↦
      let empty = conn_from_freelist_empty p.free (rw e at (v.stack)) in
      let closed : is_open p.allocated ≡ false = elim (Bool-cases (is_open p.allocated)) [
        | inl t ↦ absurd (omega (arith, v.below p.allocated t))
        | inr n ↦ n
      ] in
      (
        p.allocated,
        record p { allocated = suc p.allocated },
        [],
        record {
          run = ground (arith, empty);
          stack = rw e at (v.stack);
          distinct = tt;
          idle = tt;
          apart = tt;
          not_open = closed;
          here = omega arith;
          more = omega arith;
          conns = refl;
          freed = refl;
        },
      )
  | inr (ys, c, e) ↦
      let (f', run, st) = conn_from_freelist_lem p.free ys c (rw e at (v.stack)) in
      let (d, n) = Distinct-unsnoc ys c (rw e at (v.distinct)) in
      let (i, own) =
        All-snoc (λ x. (is_open x ≡ false) × (x < p.allocated)) ys c (rw e at (v.idle)) in
      (
        c,
        record p { free = f' },
        ys,
        record {
          run = ground (arith, run);
          stack = st;
          distinct = d;
          idle = i;
          apart = n;
          not_open = own.0;
          here = own.1;
          more = omega arith;
          conns = refl;
          freed = refl;
        },
      )
]

pub give_back_lem :
    (p : Pool) (c : ℕ) (ys : List ℕ)
    → IsStack p.free ys
    → (f : FreeConns) × (give_back c p ≡ some (tt, record p { free = f }))
      × IsStack f (ys ++ (c ∷ []))
unfolding give_back
give_back_lem p c ys v =
    let (f, run, st) = conn_add_to_freelist_lem c p.free ys v in (f, ground (arith, run), st)

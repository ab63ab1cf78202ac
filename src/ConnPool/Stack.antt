-- ===== src/ConnPool/Stack.antt =====
-- The vector with its counter is a stack.
use alarm.Base.{
  ℕ, zero, suc, ◌-◌, ◌*◌, ◌≤◌, ◌<◌, ◌≡◌, refl, sym, ap, ◌∙◌, true, List, [], ◌∷◌, ◌++◌, map, Option,
  none, some, arith, take, length, get_elem?, ltb, Bool-cases, inl, inr, length-append,
}
use alarm.ConnPool.{
  FreeConns, resize, put_at, put_free, conn_init, conn_from_freelist, conn_add_to_freelist,
}

-- The connections in it, the one that came last at the end.
pub record IsStack (f : FreeConns) (xs : List ℕ) : Type 0 where
  pub size : length f.vec_freeconn ≡ f.freetotal
  pub some_place : 0 < f.freetotal
  pub count : f.freecurr ≡ length xs
  pub fits : f.freecurr ≤ f.freetotal
  pub content : take f.freecurr f.vec_freeconn ≡ map some xs

length-resize : (n : ℕ) (vec : List (Option ℕ)) → length (resize n vec) ≡ n
unfolding resize
length-resize zero vec = refl
length-resize (suc n) [] = omega (arith, length-resize n [])
length-resize (suc n) (x ∷ vec) = omega (arith, length-resize n vec)

take-resize :
    (k n : ℕ) (vec : List (Option ℕ)) → k ≤ n → k ≤ length vec → take k (resize n vec) ≡ take k vec
unfolding resize
take-resize zero n vec a b = refl
take-resize (suc k) zero vec a b = absurd (omega arith)
take-resize (suc k) (suc n) [] a b = absurd (omega arith)
take-resize (suc k) (suc n) (x ∷ vec) a b =
    ap (◌∷◌ x) (take-resize k n vec (omega arith) (omega arith))

put_at_lem :
    (i : ℕ) (c : Option ℕ) (vec : List (Option ℕ))
    → i < length vec
    → (vec' : List (Option ℕ)) × (put_at i c vec ≡ some vec')
      × (length vec' ≡ length vec)
      × (take (suc i) vec' ≡ take i vec ++ (c ∷ []))
unfolding put_at
put_at_lem i c [] h = absurd (omega arith)
put_at_lem zero c (x ∷ vec) h = (c ∷ vec, refl, refl, refl)
put_at_lem (suc i) c (x ∷ vec) h =
    let (vec', e, l, t) = put_at_lem i c vec (omega arith) in
    (x ∷ vec', ground (arith, e), omega (arith, l), ap (◌∷◌ x) t)

map-snoc : (xs : List ℕ) (c : ℕ) → map some xs ++ (some c ∷ []) ≡ map some (xs ++ (c ∷ []))
map-snoc [] c = refl
map-snoc (x ∷ xs) c = ap (◌∷◌ (some x)) (map-snoc xs c)

put_free_lem :
    (c : ℕ) (f : FreeConns) (xs : List ℕ)
    → IsStack f xs
    → f.freecurr < f.freetotal
    → (f' : FreeConns) × (put_free c f ≡ some (true, f')) × IsStack f' (xs ++ (c ∷ []))
unfolding put_free
put_free_lem c f xs v h =
    let (vec, e, l, t) = put_at_lem f.freecurr (some c) f.vec_freeconn (omega (arith, v.size)) in
    (
      record f { vec_freeconn = vec; freecurr = suc f.freecurr },
      ground (arith, e),
      record {
        size = l ∙ v.size;
        some_place = v.some_place;
        count = omega (arith, v.count, length-append xs (c ∷ []));
        fits = omega arith;
        content = t ∙ ap (λ (y : List (Option ℕ)). y ++ (some c ∷ [])) v.content ∙ map-snoc xs c;
      },
    )

abbrev bigger : FreeConns → FreeConns
bigger f = record f {
  vec_freeconn = resize (f.freetotal * 2) f.vec_freeconn;
  freetotal = f.freetotal * 2;
}

bigger-IsStack : (f : FreeConns) (xs : List ℕ) → IsStack f xs → IsStack (bigger f) xs
bigger-IsStack f xs v = record {
  size = length-resize (f.freetotal * 2) f.vec_freeconn;
  some_place = omega (arith, v.some_place);
  count = v.count;
  fits = omega (arith, v.fits);
  content =
      take-resize f.freecurr (f.freetotal * 2) f.vec_freeconn (omega (arith, v.fits))
        (omega (arith, v.fits, v.size))
      ∙ v.content;
}

-- A connection that is given back is on top, whether there was room or not, and `at` does not throw.
pub conn_add_to_freelist_lem :
    (c : ℕ) (f : FreeConns) (xs : List ℕ)
    → IsStack f xs
    → (f' : FreeConns) × (conn_add_to_freelist c f ≡ some (true, f')) × IsStack f' (xs ++ (c ∷ []))
unfolding conn_add_to_freelist
conn_add_to_freelist_lem c f xs v = elim (Bool-cases (ltb f.freecurr f.freetotal)) [
  | inl r ↦
      let (f', e, v') = put_free_lem c f xs v (ground arith) in
      (f', rw (r, conn_add_to_freelist) e, v')
  | inr r ↦
      let room : f.freecurr < f.freetotal * 2 = omega (arith, v.some_place, v.fits) in
      let (f', e, v') = put_free_lem c (bigger f) xs (bigger-IsStack f xs v) room in
      (f', rw (r, conn_add_to_freelist) e, v')
]

take-snoc :
    (vec : List (Option ℕ)) (ys : List ℕ) (c : ℕ)
    → take (suc (length ys)) vec ≡ map some (ys ++ (c ∷ []))
    → (get_elem? vec (length ys) ≡ some (some c)) × (take (length ys) vec ≡ map some ys)
take-snoc [] [] c e = cc
take-snoc (x ∷ vec) [] c e = (ground (arith, e), refl)
take-snoc [] (y ∷ ys) c e = cc
take-snoc (x ∷ vec) (y ∷ ys) c e =
    let (a, b) = take-snoc vec ys c (ground (arith, e)) in (a, ground (arith, e, b))

-- The connection on top is got and taken off; of an empty list none is got.
pub conn_from_freelist_lem :
    (f : FreeConns) (ys : List ℕ) (c : ℕ)
    → IsStack f (ys ++ (c ∷ []))
    → (f' : FreeConns) × (conn_from_freelist f ≡ some (some c, f')) × IsStack f' ys
unfolding conn_from_freelist
conn_from_freelist_lem f ys c v =
    let count : f.freecurr ≡ suc (length ys) = omega (arith, v.count, length-append ys (c ∷ [])) in
    let one_less : f.freecurr - 1 ≡ length ys = omega arith in
    let some_there : ltb 0 f.freecurr ≡ true = ground arith in
    let (top, below) =
      take-snoc f.vec_freeconn ys c
        (ap (λ (n : ℕ). take n f.vec_freeconn) (sym count) ∙ v.content) in
    (
      record f { freecurr = f.freecurr - 1 },
      ground (arith, some_there, one_less, top),
      record {
        size = v.size;
        some_place = v.some_place;
        count = one_less;
        fits = omega (arith, v.fits);
        content = ap (λ (n : ℕ). take n f.vec_freeconn) one_less ∙ below;
      },
    )

pub conn_from_freelist_empty :
    (f : FreeConns) → IsStack f [] → conn_from_freelist f ≡ some (none, f)
unfolding conn_from_freelist
conn_from_freelist_empty f v = ground (arith, v.count)

pub conn_init_lem : IsStack conn_init []
unfolding conn_init
conn_init_lem = record {
  size = length-resize 200 [];
  some_place = omega arith;
  count = refl;
  fits = omega arith;
  content = refl;
}

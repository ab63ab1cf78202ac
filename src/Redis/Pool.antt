-- ===== src/Redis/Pool.antt =====
-- `GetRedisContext` and `ReleaseRedisContext`: no context is held twice, or held and in the pool.
use alarm.Base.{
  ℕ, suc, ◌+◌, ◌≤◌, ◌<◌, ◌≡◌, refl, Bool, true, false, List, [], ◌∷◌, ◌++◌, some, arith, ◌==◌,
  if◌then◌else◌, Bool-cases, inl, inr,
}
use alarm.Redis.{Redis, found, release_redis_context, create_new_redis_context, get_redis_context}

abbrev pub times : ℕ → List ℕ → ℕ
times c [] = 0
times c (x ∷ xs) = if x == c then suc (times c xs) else times c xs

times-append : (c : ℕ) (xs ys : List ℕ) → times c (xs ++ ys) ≡ times c xs + times c ys
times-append c [] ys = omega arith
times-append c (x ∷ xs) ys = ground (arith, times-append c xs ys)

found-times : (c : ℕ) (xs : List ℕ) → (found c xs ≡ false) → times c xs ≡ 0
unfolding found
found-times c [] h = refl
found-times c (x ∷ xs) h = ground (arith, found-times c xs)

pub found_here : (c : ℕ) (xs : List ℕ) → found c (xs ++ (c ∷ [])) ≡ true
unfolding found
found_here c [] = ground arith
found_here c (x ∷ xs) = ground (arith, found_here c xs)

found_counted : (c : ℕ) (xs : List ℕ) → found c xs ≡ true → 0 < times c xs
unfolding found
found_counted c [] h = cc
found_counted c (x ∷ xs) h = ground (arith, found_counted c xs)

-- The contexts `held` were got and not released: each context is held or in the queue, once, and none
-- is that was not opened.
pub record Leased {S : Type 0} (held : List ℕ) (r : Redis S) : Type 0 where
  pub once : (c : ℕ) → times c held + times c r.queue_redis_context ≤ 1
  pub known : (c : ℕ) → r.opened ≤ c → times c held + times c r.queue_redis_context ≡ 0

module _ {S : Type 0} (connects : ℕ → S → Bool) where
  -- Where contexts are leased properly, the context that is got was not held by anyone before, and is
  -- leased properly now.
  pub get_redis_context_lem :
      (held : List ℕ) (r r' : Redis S) (c : ℕ)
      → Leased held r
      → get_redis_context connects r ≡ some (c, r')
      → Leased (c ∷ held) r' × (times c held ≡ 0)
  unfolding get_redis_context create_new_redis_context
  get_redis_context_lem held r r' c v e = by_queue r.queue_redis_context refl
    where
      by_queue :
          (q : List ℕ) → r.queue_redis_context ≡ q → Leased (c ∷ held) r' × (times c held ≡ 0)
      by_queue [] h =
          let conn : c ≡ r.opened = ground arith in
          let same : r' ≡ record r { opened = suc r.opened } = ground arith in
          (
            rw same (record {
              once = λ k. ground (arith, v.once k, v.known k, h);
              known = λ k l. ground (arith, v.known k (omega arith), h);
            }),
            ground (arith, v.known c, h),
          )
      by_queue (x ∷ q) h =
          let conn : c ≡ x = ground arith in
          let same : r' ≡ record r { queue_redis_context = q } = ground arith in
          (
            rw same (record {
              once = λ k. ground (arith, v.once k, h);
              known = λ k l. ground (arith, v.known k l, h);
            }),
            ground (arith, v.once c, h),
          )

-- Where contexts are leased properly and one that is held is released, it goes behind the queue and is
-- leased properly there.
pub release_redis_context_lem :
    {S : Type 0} (held : List ℕ) (r : Redis S) (c : ℕ)
    → Leased (c ∷ held) r
    → Leased held (release_redis_context c r)
      × ((release_redis_context c r).queue_redis_context ≡ r.queue_redis_context ++ (c ∷ []))
unfolding release_redis_context
release_redis_context_lem held r c v = elim (Bool-cases (found c r.queue_redis_context)) [
  | inl h ↦ absurd (ground (arith, v.once c, found_counted c r.queue_redis_context h))
  | inr h ↦ rw h (
    record {
      once = λ k. ground (arith, v.once k, times-append k r.queue_redis_context (c ∷ []));
      known = λ k l. ground (arith, v.known k l, times-append k r.queue_redis_context (c ∷ []));
    },
    refl,
  )
]

-- Releasing a context a second time changes nothing.
pub release_twice :
    {S : Type 0} (c : ℕ) (r : Redis S)
    → release_redis_context c (release_redis_context c r) ≡ release_redis_context c r
unfolding release_redis_context
release_twice c r = elim (Bool-cases (found c r.queue_redis_context)) [
  | inl h ↦ rw (h, h)
  | inr h ↦ rw (h, found_here c r.queue_redis_context)
]

-- ===== src/Redis/Broken.antt =====
-- A command that gets no reply: `SafeFreeRedisContext` frees the context, but sets only its own copy of
-- the pointer to NULL.
use alarm.Base.{
  ℕ, ◌≡◌, refl, Bool, true, false, List, ◌∷◌, Option, none, some, arith, Bool-cases, inl, inr,
}
use alarm.Base.Bytes.{Bytes}
use alarm.Base.Int.{neg}
use alarm.Base.Run.{Run, >>=-none}
use alarm.Errors.{error_set_device_fd_cache}
use alarm.Redis.{
  Redis, Field, field_fd, field_public_addr, Command, select, hset_int, Reply, found,
  get_redis_context, release_redis_context, send_command, select_db, hset_number, hset, hget, hdel,
  del,
}
use alarm.Redis.Cache.{
  redis_device_info, Addresses, with_context, set_device_fd_cache, get_device_fd_from_cache,
  remove_device_fd_from_cache, set_device_addr_cache, get_device_addr_from_cache,
  remove_device_addr_from_cache, remove_device_from_cache,
}
use alarm.Redis.Pool.{found_here}

found_released :
    {S : Type 0} (c : ℕ) (r : Redis S)
    → found c (release_redis_context c r).queue_redis_context ≡ true
unfolding release_redis_context
found_released c r = elim (Bool-cases (found c r.queue_redis_context)) [
  | inl h ↦ rw h h
  | inr h ↦ rw h (found_here c r.queue_redis_context)
]

released_freed : {S : Type 0} (c : ℕ) (r : Redis S) → (release_redis_context c r).freed ≡ r.freed
unfolding release_redis_context
released_freed c r = elim (Bool-cases (found c r.queue_redis_context)) [
  | inl h ↦ rw h refl
  | inr h ↦ rw h refl
]

module _ {S : Type 0} (connects : ℕ → S → Bool) (redis_command : ℕ → Command → S → Option Reply × S)
    (conn : ℕ) (rest : List ℕ) (r : Redis S) (e : r.queue_redis_context ≡ conn ∷ rest)
    (usable : found conn r.freed ≡ false) where
  abbrev got : Redis S
  got = record r { queue_redis_context = rest }

  get-got : get_redis_context connects r ≡ some (conn, got)
  unfolding get_redis_context
  get-got = ground arith

  -- Where the pool's first context gets a reply to SELECT that is no error, but none to HSET, storing
  -- the file descriptor fails with its error code, and the context is in the pool and freed.
  broken_context_pooled :
      (dev_id : Bytes) (fd : ℕ) (x : Bytes) (s1 s2 : S)
      → redis_command conn (select redis_device_info) r.server ≡ (some (Reply.reply_status x), s1)
      → redis_command conn (hset_int dev_id field_fd fd) s1 ≡ (none, s2)
      → (r' : Redis S) × (set_device_fd_cache connects redis_command dev_id fd r
          ≡ some (neg error_set_device_fd_cache, r'))
        × (found conn r'.queue_redis_context ≡ true)
        × (found conn r'.freed ≡ true)
  unfolding set_device_fd_cache with_context select_db hset_number send_command found
  broken_context_pooled dev_id fd x s1 s2 a b =
      let broken : Redis S = record got { server = s2; freed = conn ∷ r.freed } in
      (
        release_redis_context conn broken,
        ground (arith, get-got, a, b, usable),
        found_released conn broken,
        rw (released_freed conn broken) (ground arith),
      )

  abbrev broken_by : S → Redis S
  broken_by s = record got { server = s; freed = conn ∷ r.freed }

  with_context_faults :
      {A : Type 0} (s : S)
      → redis_command conn (select redis_device_info) r.server ≡ (none, s)
      → (f : ℕ → Run (Redis S) A) → f conn (broken_by s) ≡ none
      → with_context connects redis_command f r ≡ none
  unfolding with_context select_db send_command
  with_context_faults s h f b = ground (arith, get-got, h, b, usable)

  -- What each command does on the freed context.
  module _ (s : S) (d : Bytes) (f : Field) where
    hset_number_broken : (n : ℕ) → hset_number redis_command conn d f n (broken_by s) ≡ none
    unfolding hset_number send_command found
    hset_number_broken n = ground arith

    hset_broken : (v : Bytes) → hset redis_command conn d f v (broken_by s) ≡ none
    unfolding hset send_command found
    hset_broken v = ground arith

    hget_broken : hget redis_command conn d f (broken_by s) ≡ none
    unfolding hget send_command found
    hget_broken = ground arith

    hdel_broken : hdel redis_command conn d f (broken_by s) ≡ none
    unfolding hdel send_command found
    hdel_broken = ground arith

    del_broken : del redis_command conn d (broken_by s) ≡ none
    unfolding del send_command found
    del_broken = ground arith

  -- Where the pool's first context gets no reply to SELECT, each of the seven functions of the cache goes
  -- on to use it after it was freed.
  pub broken_select_faults :
      (dev_id : Bytes) (fd : ℕ) (a : Addresses) (s : S)
      → redis_command conn (select redis_device_info) r.server ≡ (none, s)
      → (set_device_fd_cache connects redis_command dev_id fd r ≡ none)
        × (get_device_fd_from_cache connects redis_command dev_id r ≡ none)
        × (remove_device_fd_from_cache connects redis_command dev_id r ≡ none)
        × (set_device_addr_cache connects redis_command dev_id a r ≡ none)
        × (get_device_addr_from_cache connects redis_command dev_id r ≡ none)
        × (remove_device_addr_from_cache connects redis_command dev_id r ≡ none)
        × (remove_device_from_cache connects redis_command dev_id r ≡ none)
  unfolding set_device_fd_cache get_device_fd_from_cache remove_device_fd_from_cache
      set_device_addr_cache get_device_addr_from_cache remove_device_addr_from_cache
      remove_device_from_cache
  broken_select_faults dev_id fd a s h = (
    with_context_faults s h _ (
        >>=-none (hset_number redis_command conn dev_id field_fd fd) _ (broken_by s)
          (hset_number_broken s dev_id field_fd fd)),
    with_context_faults s h _ (
        >>=-none (hget redis_command conn dev_id field_fd) _ (broken_by s)
          (hget_broken s dev_id field_fd)),
    with_context_faults s h _ (
        >>=-none (hdel redis_command conn dev_id field_fd) _ (broken_by s)
          (hdel_broken s dev_id field_fd)),
    with_context_faults s h _ (
        >>=-none (hset redis_command conn dev_id field_public_addr a.public_addr) _ (broken_by s)
          (hset_broken s dev_id field_public_addr a.public_addr)),
    with_context_faults s h _ (
        >>=-none (hget redis_command conn dev_id field_public_addr) _ (broken_by s)
          (hget_broken s dev_id field_public_addr)),
    with_context_faults s h _ (
        >>=-none (hdel redis_command conn dev_id field_public_addr) _ (broken_by s)
          (hdel_broken s dev_id field_public_addr)),
    with_context_faults s h _
        (>>=-none (del redis_command conn dev_id) _ (broken_by s) (del_broken s dev_id field_fd)),
  )

-- ===== src/Redis/Cache.antt =====
-- deviceOnline/src/logic_opt.cc: what `CLogicOpt` keeps of a device in redis, its file descriptor and its
-- addresses. Each function gets a context from the pool, and releases it whatever happened.
use alarm.Base.{
  ℕ, ◌+◌, ◌*◌, ◌-◌, Bool, not, [], ◌∷◌, Option, none, some, ltb, leb, ◌&&◌, ◌||◌, ◌==◌,
  if◌then◌else◌,
}
use alarm.Base.Bytes.{Bytes}
use alarm.Base.Int.{ℤ, pos, neg}
use alarm.Base.Run.{Run, ◌>>=◌, ◌>>◌, pure}
use alarm.Errors.{error_set_device_fd_cache, error_set_device_addr_cache}
use alarm.Redis.{
  Redis, Command, Reply, field_fd, field_public_addr, field_private_addr, field_dev_ip,
  get_redis_context, release_redis_context, select_db, hset_number, hset, hget, hdel, del,
}

-- `REDIS_DEVICE_INFO`
abbrev pub redis_device_info : ℕ
redis_device_info = 6

-- `atoi`: white space and a sign are passed over, and the first byte that is no digit ends the number.
unfoldable pub atoi_from : ℕ → Bytes → ℕ
atoi_from n [] = n
atoi_from n (b ∷ bs) =
    let rest = atoi_from (n * 10 + (b - 48)) bs in if leb 48 b && ltb b 58 then rest else n

unfoldable pub atoi_sign : Bytes → ℤ
unfolding atoi_from
atoi_sign [] = pos 0
atoi_sign (b ∷ bs) =
    if b == 45
    then neg (atoi_from 0 bs)
    else if b == 43
    then pos (atoi_from 0 bs)
    else pos (atoi_from 0 (b ∷ bs))

unfoldable pub atoi : Bytes → ℤ
unfolding atoi_sign
atoi [] = pos 0
atoi (b ∷ bs) =
    let rest = atoi bs in if (b == 32) || (leb 9 b && ltb b 14) then rest else atoi_sign (b ∷ bs)

pub record Addresses : Type 0 where
  pub public_addr : Bytes
  pub private_addr : Bytes
  pub dev_ip : Bytes

module _ {S : Type 0} (connects : ℕ → S → Bool)
    (redis_command : ℕ → Command → S → Option Reply × S) where
  abbrev pub release : ℕ → Run (Redis S) (Unit {0})
  release conn r = some (tt, release_redis_context conn r)

  -- The frame of the six functions: the result of `SelectDB` is not looked at.
  unfoldable pub with_context : {A : Type 0} → (ℕ → Run (Redis S) A) → Run (Redis S) A
  with_context f = do
    conn ← get_redis_context connects
    selected ← select_db redis_command conn redis_device_info
    a ← f conn
    release conn
    pure a

  unfoldable pub set_device_fd_cache : Bytes → ℕ → Run (Redis S) ℤ
  unfolding with_context
  set_device_fd_cache dev_id fd = with_context (λ conn. do
    ok ← hset_number redis_command conn dev_id field_fd fd
    pure (if ok then pos 0 else neg error_set_device_fd_cache))

  -- The file descriptor, or the error code.
  unfoldable pub get_device_fd_from_cache : Bytes → Run (Redis S) (Option ℤ)
  unfolding with_context atoi
  get_device_fd_from_cache dev_id = with_context (λ conn. do
    fd_str ← hget redis_command conn dev_id field_fd
    elim fd_str [ none ↦ pure none | some s ↦ pure (some (atoi s)) ])

  unfoldable pub remove_device_fd_from_cache : Bytes → Run (Redis S) ℤ
  unfolding with_context
  remove_device_fd_from_cache dev_id =
      with_context (λ conn. do ok ← hdel redis_command conn dev_id field_fd; pure (pos 0))

  unfoldable pub set_device_addr_cache : Bytes → Addresses → Run (Redis S) ℤ
  unfolding with_context
  set_device_addr_cache dev_id a = with_context (λ conn. do
    public ← hset redis_command conn dev_id field_public_addr a.public_addr
    if not public then pure (neg error_set_device_addr_cache) else (do
      private ← hset redis_command conn dev_id field_private_addr a.private_addr
      if not private
          then (do
            undone ← hdel redis_command conn dev_id field_public_addr
            pure (neg error_set_device_addr_cache))
          else (do
            ip ← hset redis_command conn dev_id field_dev_ip a.dev_ip
            if not ip
                then (do
                  undone ← hdel redis_command conn dev_id field_public_addr
                  undone ← hdel redis_command conn dev_id field_private_addr
                  pure (neg error_set_device_addr_cache))
                else pure (pos 0))))

  -- The addresses, or `none` for -ERROR_GET_DEVICE_ADDR_FROM_CACHE.
  unfoldable pub get_device_addr_from_cache : Bytes → Run (Redis S) (Option Addresses)
  unfolding with_context
  get_device_addr_from_cache dev_id = with_context (λ conn. do
    public ← hget redis_command conn dev_id field_public_addr
    elim public [
      | none ↦ pure none
      | some p ↦ do
        private ← hget redis_command conn dev_id field_private_addr
        elim private [
          | none ↦ pure none
          | some q ↦ do
            ip ← hget redis_command conn dev_id field_dev_ip
            elim ip [
              | none ↦ pure none
              | some i ↦ pure (some (record { public_addr = p; private_addr = q; dev_ip = i }))
            ]
        ]
    ])

  unfoldable pub remove_device_addr_from_cache : Bytes → Run (Redis S) ℤ
  unfolding with_context
  remove_device_addr_from_cache dev_id = with_context (λ conn. do
    public ← hdel redis_command conn dev_id field_public_addr
    private ← hdel redis_command conn dev_id field_private_addr
    ip ← hdel redis_command conn dev_id field_dev_ip
    pure (pos 0))

  unfoldable pub remove_device_from_cache : Bytes → Run (Redis S) ℤ
  unfolding with_context
  remove_device_from_cache dev_id =
      with_context (λ conn. do ok ← del redis_command conn dev_id; pure (pos 0))

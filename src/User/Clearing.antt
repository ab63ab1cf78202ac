-- ===== src/User/Clearing.antt =====
-- userOnline/src/user_alive.cc: `ClearGuidFdCache`, which deletes all keys of the database of clients when
-- the program starts (deviceOnline/src/device_alive.cc has the same code for its database).
pub mod Emptied
mod Tests
use alarm.Base.{ℕ, zero, suc, Bool, true, false, List, [], ◌∷◌, Option, none, some, if◌then◌else◌}
use alarm.Base.Bytes.{Bytes}
use alarm.Base.Int.{ℤ, pos, is_zero}
use alarm.Base.Run.{Run, ◌>>=◌, ◌>>◌, pure}
use alarm.Redis.{Redis, Command, Reply, del}
use alarm.Redis.Opt.{scan}
use alarm.Redis.Scanning.{Scanned}
use alarm.User.Cache.{with_database, redis_client_info}

module _ {S : Type 0} (connects : ℕ → S → Bool)
    (redis_command : ℕ → Command → S → Option Reply × S) where
  -- The loop over `vec_keys`.
  unfoldable pub del_keys : ℕ → List Bytes → Run (Redis S) (Unit {0})
  unfolding del
  del_keys conn [] = pure tt
  del_keys conn (key ∷ keys) = do deleted ← del redis_command conn key; del_keys conn keys

  -- The loop over the pages; `false` is the end of the fuel.
  unfoldable pub clear_from : ℕ → ℕ → ℤ → ℤ → Run (Redis S) Bool
  unfolding scan del_keys
  clear_from zero conn cursor next_cursor = pure false
  clear_from (suc fuel) conn cursor next_cursor = do
    scanned ← scan redis_command conn cursor [] next_cursor
    (let next = scanned.next_cursor in
        let again = clear_from fuel conn next next in
        if scanned.success
        then (do
          deleted ← del_keys conn scanned.vec_keys
          (if is_zero next then pure true else again))
        else pure true)

  unfoldable pub clear_guid_fd_cache : ℕ → Run (Redis S) Bool
  unfolding with_database clear_from
  clear_guid_fd_cache fuel =
      with_database connects redis_command redis_client_info
        (λ conn. clear_from fuel conn (pos 0) (pos 0))

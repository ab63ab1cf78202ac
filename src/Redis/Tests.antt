-- ===== src/Redis/Tests.antt =====
-- A redis server that is a function, the pool and the cache.
use alarm.Base.{ℕ, ◌≡◌, refl, arith, true, List, [], ◌∷◌, Option, none, some}
use alarm.Base.Bytes.{Bytes}
use alarm.Base.Run.{◌>>=◌}
use alarm.Base.Int.{pos}
use alarm.Redis.{Redis, Command, select, Reply, reply_status, found}
use alarm.Redis.Opt.{scan}
use alarm.Redis.Scanning.{Scanned, strtoll}
use alarm.Redis.Replies.{scan_lem}
use alarm.Redis.Answers.{scan_answer}
use alarm.Redis.Addresses.{Holds, addresses_kept}
use alarm.Redis.Broken.{broken_select_faults}
use alarm.Redis.Cache.{
  Addresses, set_device_fd_cache, get_device_fd_from_cache, remove_device_fd_from_cache,
  set_device_addr_cache, get_device_addr_from_cache, remove_device_addr_from_cache,
  remove_device_from_cache,
}
use alarm.Redis.Example.{Store, empty_store, always, serve, serves}
use alarm.Redis.Pool.{Leased}
use alarm.Redis.Store.{Ends}

abbrev start : Redis Store
start = record { queue_redis_context = 0 ∷ 1 ∷ []; opened = 3; freed = []; server = empty_store }

abbrev camera : Bytes
camera = 99 ∷ 49 ∷ []

abbrev addresses : Addresses
addresses = record { public_addr = 1 ∷ []; private_addr = 2 ∷ []; dev_ip = 3 ∷ [] }

-- Context 2 is held.
start-Leased : Leased (2 ∷ []) start
start-Leased = record { once = λ c. ground arith; known = λ c h. ground arith }

abbrev got : Redis Store
got = record start { queue_redis_context = 1 ∷ [] }

addresses_kept_example :
    Ends
      (set_device_addr_cache always serve camera addresses >>= λ ret.
        get_device_addr_from_cache always serve camera)
      start
      (some addresses)
      (Holds always serve serves camera addresses)
addresses_kept_example = addresses_kept always serve serves camera addresses start refl

-- A connection that breaks after SELECT, and one that is broken already.
abbrev breaks : ℕ → Command → Store → Option Reply × Store
breaks c (select n) s = (some (reply_status []), s)
breaks c _ s = (none, s)

abbrev dead : ℕ → Command → Store → Option Reply × Store
dead c k s = (none, s)

broken_select_faults_example :
    (set_device_fd_cache always dead camera 17 start ≡ none)
    × (get_device_fd_from_cache always dead camera start ≡ none)
    × (remove_device_fd_from_cache always dead camera start ≡ none)
    × (set_device_addr_cache always dead camera addresses start ≡ none)
    × (get_device_addr_from_cache always dead camera start ≡ none)
    × (remove_device_addr_from_cache always dead camera start ≡ none)
    × (remove_device_from_cache always dead camera start ≡ none)
unfolding found
broken_select_faults_example =
    broken_select_faults always dead 0 (1 ∷ []) start refl refl camera 17 addresses start.server
      refl

-- A server that gives one reply to everything.
abbrev says : Reply → ℕ → Command → Store → Option Reply × Store
says x c k s = (some x, s)

abbrev two_keys : Reply
two_keys = scan_answer (55 ∷ []) ((97 ∷ []) ∷ (98 ∷ []) ∷ [])

scan_lem_example :
    (sc : Scanned) × (scan (says two_keys) 5 (pos 0) [] (pos 0) start ≡ some (sc, start))
    × ((c : Bytes) (keys : List Bytes)
        → some two_keys ≡ some (scan_answer c keys)
        → sc ≡ record { success = true; vec_keys = keys; next_cursor = strtoll c })
    × (sc.success ≡ true
        → (c : Bytes) × (keys : List Bytes) × (some two_keys ≡ some (scan_answer c keys)))
unfolding found
scan_lem_example =
    scan_lem (says two_keys) start 5 refl (pos 0) [] (pos 0) (some two_keys) start.server refl

-- ===== src/User/Tests.antt =====
-- A redis server that is a function, and a user's connection with its beacons.
use alarm.Base.{
  ℕ, ◌≡◌, refl, arith, Bool, true, false, [], ◌∷◌, Option, none, some, ◌==◌, if◌then◌else◌,
}
use alarm.Base.Bytes.{Bytes, bytes_eq}
use alarm.Base.Int.{ℤ, pos, neg}
use alarm.Errors.{error_session_id_not_exist}
use alarm.Redis.{
  Redis, Command, select, set_int, hexists_field, del_key, Reply, reply_integer, reply_status,
  reply_error,
}
use alarm.Redis.Commands.{print_int}
use alarm.User.{UserEnv, UserServer, user_beacon}
use alarm.User.Cache.{session_key}
use alarm.User.Serving.{UserServes}
use alarm.User.Sessions.{seen, first_beacon, session_change_lost}

record Store : Type 0 where
  fds : Bytes → Option Bytes
  sessions : Bytes → Bool
  database : ℕ → ℕ

abbrev number : ℤ → ℕ
number (pos n) = n
number _ = 0

abbrev serve : ℕ → Command → Store → Option Reply × Store
serve c (select n) s =
    (some (reply_status []), record s { database = λ d. if d == c then n else s.database d })
serve c (set_int g n) s = (
  some (reply_status (79 ∷ 75 ∷ [])),
  record s { fds = λ h. if bytes_eq g h then some (print_int (number n)) else s.fds h },
)
serve c (hexists_field g f) s = (some (reply_integer (if s.sessions g then pos 1 else pos 0)), s)
serve c (del_key g) s =
    (some (reply_integer (pos 1)), record s { fds = λ h. if bytes_eq g h then none else s.fds h })
serve c k s = (some (reply_error []), s)

abbrev always : ℕ → Store → Bool
always n s = true

abbrev serves : UserServes always serve
serves = record {
  fd_of = λ g s. s.fds g;
  is_session = λ g s. s.sessions g;
  selected = λ c s. s.database c;
  connects_lem = λ n s. refl;
  select_lem = λ c n s. ([], _, refl, ground arith, λ g. (refl, refl));
  set_lem = λ c g fd s e. (_, refl, λ h. (refl, refl));
  hexists_lem = λ c g s e. (s, refl, λ h. (refl, refl));
  del_lem = λ c g s e. (pos 1, _, refl, λ h. (refl, refl));
}

abbrev env : UserEnv Store
env = record {
  connects = always;
  redis_command = serve;
  json_parse = λ m. none;
  json_join_beacon_res = λ n. [];
  escape = λ s. s;
  replies = λ wire fd msg. [];
}

abbrev one_session : Store
one_session = record {
  fds = λ g. none;
  sessions = λ g. bytes_eq g (session_key (97 ∷ []));
  database = λ c. 0;
}

abbrev user : Bool → UserServer Store
user is_online = record {
  conn = record { sfd = 9; is_online = is_online; guid = 98 ∷ [] };
  csfd_ids = [];
  redis = record { queue_redis_context = 0 ∷ []; opened = 1; freed = []; server = one_session };
  queues = record {
    push_msg_queue = [];
    wait_finish_msg_queue = [];
    completed = [];
    signals = 0;
    stop = false;
  };
  logouts = [];
  wire = [];
  closed = false;
}

first_beacon_example :
    (r : Redis Store) × (user_beacon env (pos 0) (97 ∷ []) (user false) ≡ (
      if bytes_eq (session_key (97 ∷ [])) (session_key (97 ∷ []))
      then some (pos 0, seen true (97 ∷ []) r (user false))
      else some (neg error_session_id_not_exist, seen false (97 ∷ []) r (user false))))
    × ((h : Bytes)
        → r.server.fds h ≡ (
            if bytes_eq (97 ∷ []) h
            then (if bytes_eq (session_key (97 ∷ [])) (session_key (97 ∷ []))
                then some (print_int 9)
                else none)
            else none))
first_beacon_example = first_beacon env serves (97 ∷ []) (user false) refl refl

session_change_lost_example :
    (r : Redis Store) × (user_beacon env (pos 0) (97 ∷ []) (user true)
      ≡ some (pos 0, seen true (97 ∷ []) r (user true)))
    × ((h : Bytes) → r.server.fds h ≡ none)
unfolding bytes_eq
session_change_lost_example = session_change_lost env serves (97 ∷ []) (user true) refl refl refl

-- ===== src/Redis/Opt.antt =====
-- deviceOnline/src/redis_opt.cc (userOnline/src has the same code, without `Hscan`, and `Hexists`, which only
-- it has): the commands of `CRedisOpt` on strings, lists and sets, and the scans. A function that fills a vector takes what is in it and gives what
-- is in it then. A `char *` that is NULL has no `std::string`: that is `none`, undefined behaviour.
use alarm.Base.{ℕ, Bool, true, false, List, [], ◌∷◌, ◌++◌, Option, none, some, ◌==◌, if◌then◌else◌}
use alarm.Base.Bytes.{Bytes, bytes_eq}
use alarm.Base.Int.{ℤ, pos}
use alarm.Base.Run.{Run, ◌>>=◌, pure, fault}
use alarm.Redis.{
  Redis, Command, set_string, set_int, set_long, get_key, incr_key, lpush_key, rpush_key, lpop_key,
  llen_key, lrange_key, sadd_key, smembers_key, hvals_key, hlen_key, hexists_field, expire_key,
  exists_key, scan_from, hscan_from, text, Reply, Elements, reply_integer, reply_status,
  reply_string, reply_nil, reply_error, reply_array, no_elements, element, null_element, found,
  send_command, is_integer,
}
use alarm.Redis.Scanning.{Scanned, scan_reply}
use alarm.Text.{join_list_by_delimiter, join_set_by_delimiter}

-- `reply->str`; NULL where the reply has none.
abbrev pub str : Reply → Option Bytes
str (reply_integer n) = none
str (reply_status s) = some s
str (reply_string s) = some s
str reply_nil = none
str (reply_error s) = some s
str (reply_array es) = none

-- `REDIS_REPLY_STATUS == type && strcmp(str, OK) == 0`
abbrev pub is_ok : Option Reply → Bool
is_ok (some (reply_status s)) = bytes_eq s (79 ∷ 75 ∷ [])
is_ok _ = false

-- An integer that is 1.
abbrev pub is_one : Option Reply → Bool
is_one (some (reply_integer (pos n))) = n == 1
is_one _ = false

-- `REDIS_REPLY_INTEGER`
abbrev pub redis_reply_integer : ℕ
redis_reply_integer = 3

-- `vec_value.push_back(reply_->element[i]->str)`, one after the other.
unfoldable pub push_elements : Elements → List Bytes → Option (List Bytes)
push_elements no_elements vec = some vec
push_elements (null_element es) vec = none
push_elements (element r es) vec = elim (str r) [
  | none ↦ none
  | some s ↦ push_elements es (vec ++ (s ∷ []))
]

-- The loop of `MGet`: CH_OFFLINE, "0", for NULL.
unfoldable pub push_or_offline : Elements → List Bytes → Option (List Bytes)
push_or_offline no_elements vec = some vec
push_or_offline (null_element es) vec = none
push_or_offline (element r es) vec =
    push_or_offline es (vec ++ (elim (str r) [ none ↦ 48 ∷ [] | some s ↦ s ] ∷ []))

module _ {S : Type 0} (redis_command : ℕ → Command → S → Option Reply × S) where
  -- The commands that ask whether the reply is an integer, and no more.
  unfoldable pub integer_command : ℕ → Command → Run (Redis S) Bool
  unfolding send_command
  integer_command conn c = do reply ← send_command redis_command conn c; pure (is_integer reply)

  unfoldable pub ok_command : ℕ → Command → Run (Redis S) Bool
  unfolding send_command
  ok_command conn c = do reply ← send_command redis_command conn c; pure (is_ok reply)

  unfoldable pub set : ℕ → Bytes → Bytes → Run (Redis S) Bool
  unfolding ok_command
  set conn key value = ok_command conn (set_string key value)

  unfoldable pub set_number : ℕ → Bytes → ℤ → Run (Redis S) Bool
  unfolding ok_command
  set_number conn key value = ok_command conn (set_int key value)

  unfoldable pub set_long_number : ℕ → Bytes → ℤ → Run (Redis S) Bool
  unfolding ok_command
  set_long_number conn key value = ok_command conn (set_long key value)

  -- The value, or `none` where the function returns false.
  unfoldable pub get_value : ℕ → Bytes → Run (Redis S) (Option Bytes)
  unfolding send_command
  get_value conn key = do
    reply ← send_command redis_command conn (get_key key)
    elim reply [ some (reply_string value) ↦ pure (some value) | _ ↦ pure none ]

  unfoldable pub mget : ℕ → List Bytes → Bytes → List Bytes → Run (Redis S) (Bool × List Bytes)
  unfolding send_command push_or_offline join_list_by_delimiter
  mget conn [] extend_keyname vec_value = pure (false, vec_value)
  mget conn (key ∷ keys) extend_keyname vec_value = do
    reply ← send_command redis_command conn (
        text (
          (77 ∷ 71 ∷ 69 ∷ 84 ∷ 32 ∷ [])
          ++ join_list_by_delimiter (key ∷ keys) (extend_keyname ++ (32 ∷ []))))
    elim reply [
      | some (reply_array es) ↦ elim (push_or_offline es vec_value) [
        | none ↦ fault
        | some vec ↦ pure (true, vec)
      ]
      | _ ↦ pure (false, vec_value)
    ]

  unfoldable pub incr : ℕ → Bytes → Run (Redis S) Bool
  unfolding integer_command
  incr conn key = integer_command conn (incr_key key)

  -- A command with a key and the values behind it, as one text.
  abbrev pub values_text : Bytes → Bytes → List Bytes → Command
  values_text name key values =
      text (name ++ (key ++ ((32 ∷ []) ++ join_list_by_delimiter values (32 ∷ []))))

  unfoldable pub lpush_all : ℕ → Bytes → List Bytes → Run (Redis S) Bool
  unfolding integer_command join_list_by_delimiter
  lpush_all conn key [] = pure false
  lpush_all conn key (v ∷ vs) =
      integer_command conn (values_text (76 ∷ 80 ∷ 85 ∷ 83 ∷ 72 ∷ 32 ∷ []) key (v ∷ vs))

  unfoldable pub lpush : ℕ → Bytes → Bytes → Run (Redis S) Bool
  unfolding integer_command
  lpush conn key value = integer_command conn (lpush_key key value)

  unfoldable pub rpush : ℕ → Bytes → Bytes → Run (Redis S) Bool
  unfolding integer_command
  rpush conn key value = integer_command conn (rpush_key key value)

  unfoldable pub lpop : ℕ → Bytes → Run (Redis S) Bool
  unfolding send_command
  lpop conn key = do
    reply ← send_command redis_command conn (lpop_key key)
    elim reply [ none ↦ pure false | some (reply_error s) ↦ pure false | some _ ↦ pure true ]

  -- `len`, where the function returns true: it is the reply's type.
  abbrev pub length_command : ℕ → Command → Run (Redis S) (Option ℕ)
  length_command conn c = do
    reply ← send_command redis_command conn c
    pure (if is_integer reply then some redis_reply_integer else none)

  unfoldable pub llen : ℕ → Bytes → Run (Redis S) (Option ℕ)
  unfolding send_command
  llen conn key = length_command conn (llen_key key)

  unfoldable pub hlen : ℕ → Bytes → Run (Redis S) (Option ℕ)
  unfolding send_command
  hlen conn key = length_command conn (hlen_key key)

  -- Where the reply is no array it is freed, and its text is read for the log.
  unfoldable pub array_command : ℕ → Command → List Bytes → Run (Redis S) (Bool × List Bytes)
  unfolding send_command push_elements
  array_command conn c vec_value = do
    reply ← send_command redis_command conn c
    elim reply [
      | none ↦ pure (false, vec_value)
      | some (reply_array es) ↦ elim (push_elements es vec_value) [
        | none ↦ fault
        | some vec ↦ pure (true, vec)
      ]
      | some _ ↦ fault
    ]

  unfoldable pub lrange : ℕ → Bytes → List Bytes → Run (Redis S) (Bool × List Bytes)
  unfolding array_command
  lrange conn key vec_value = array_command conn (lrange_key key) vec_value

  unfoldable pub smembers : ℕ → Bytes → List Bytes → Run (Redis S) (Bool × List Bytes)
  unfolding array_command
  smembers conn key vec_value = array_command conn (smembers_key key) vec_value

  unfoldable pub hvals : ℕ → Bytes → List Bytes → Run (Redis S) (Bool × List Bytes)
  unfolding array_command
  hvals conn key vec_value = array_command conn (hvals_key key) vec_value

  unfoldable pub sadd_all : ℕ → Bytes → List Bytes → Run (Redis S) Bool
  unfolding integer_command join_list_by_delimiter
  sadd_all conn key [] = pure false
  sadd_all conn key (v ∷ vs) =
      integer_command conn (values_text (83 ∷ 65 ∷ 68 ∷ 68 ∷ 32 ∷ []) key (v ∷ vs))

  unfoldable pub sadd : ℕ → Bytes → Bytes → Run (Redis S) Bool
  unfolding integer_command
  sadd conn key value = integer_command conn (sadd_key key value)

  unfoldable pub sadd_set : ℕ → Bytes → List Bytes → Run (Redis S) Bool
  unfolding integer_command join_set_by_delimiter
  sadd_set conn key [] = pure false
  sadd_set conn key (v ∷ vs) = integer_command conn (
      text (
        (83 ∷ 65 ∷ 68 ∷ 68 ∷ 32 ∷ [])
        ++ (key ++ ((32 ∷ []) ++ join_set_by_delimiter (v ∷ vs) (32 ∷ [])))))

  unfoldable pub one_command : ℕ → Command → Run (Redis S) Bool
  unfolding send_command
  one_command conn c = do reply ← send_command redis_command conn c; pure (is_one reply)

  -- userOnline's.
  unfoldable pub hexists : ℕ → Bytes → Bytes → Run (Redis S) Bool
  unfolding one_command
  hexists conn key field = one_command conn (hexists_field key field)

  unfoldable pub expire : ℕ → Bytes → ℤ → Run (Redis S) Bool
  unfolding one_command
  expire conn key sec = one_command conn (expire_key key sec)

  unfoldable pub exists : ℕ → Bytes → Run (Redis S) Bool
  unfolding one_command
  exists conn key = one_command conn (exists_key key)

  -- The scans do not free the context where the reply is NULL.
  unfoldable pub raw_command : ℕ → Command → Run (Redis S) (Option Reply)
  unfolding found
  raw_command conn c r =
      let (reply, server) = redis_command conn c r.server in
      if found conn r.freed then none else some (reply, record r { server = server })

  unfoldable pub scan : ℕ → ℤ → List Bytes → ℤ → Run (Redis S) Scanned
  unfolding raw_command scan_reply
  scan conn cursor vec_keys next_cursor = do
    reply ← raw_command conn (scan_from cursor)
    pure (scan_reply reply vec_keys next_cursor)

  unfoldable pub hscan : ℕ → ℤ → List Bytes → ℤ → Run (Redis S) Scanned
  unfolding raw_command scan_reply
  hscan conn cursor vec_keys next_cursor = do
    reply ← raw_command conn (hscan_from cursor)
    pure (scan_reply reply vec_keys next_cursor)

-- ===== src/Redis/Example.antt =====
-- A redis server that is a function, which serves: for the tests.
use alarm.Base.{ℕ, refl, Bool, true, [], Option, none, some, if◌then◌else◌, ◌==◌, ◌&&◌}
use alarm.Base.Bytes.{Bytes, bytes_eq}
use alarm.Base.Int.{pos}
use alarm.Redis.{
  Field, Command, select, hset_int, hset_str, hget_field, hdel_field, del_key, Reply, reply_integer,
  reply_status, reply_error,
}
use alarm.Redis.Commands.{Serves, key_eq, print_int, reply_of_value}

-- What each database has, and the database of each context.
pub record Store : Type 0 where
  pub values : ℕ → Bytes → Field → Option Bytes
  pub database : ℕ → ℕ

-- Nothing is stored, and every context is on the database 0.
abbrev pub empty_store : Store
empty_store = record { values = λ m d f. none; database = λ c. 0 }

abbrev pub always : ℕ → Store → Bool
always n s = true

-- The fields that `hit` selects, of the context's database, get the value `v`.
abbrev pub write : ℕ → (Bytes → Field → Bool) → Option Bytes → Store → Store
write c hit v s = record s {
  values = λ m d f. if (m == s.database c) && hit d f then v else s.values m d f;
}

abbrev pub serve : ℕ → Command → Store → Option Reply × Store
serve c (select n) s =
    (some (reply_status []), record s { database = λ e. if e == c then n else s.database e })
serve c (hset_int d f n) s =
    (some (reply_integer (pos 1)), write c (key_eq d f) (some (print_int n)) s)
serve c (hset_str d f v) s = (some (reply_integer (pos 1)), write c (key_eq d f) (some v) s)
serve c (hget_field d f) s = (some (reply_of_value (s.values (s.database c) d f)), s)
serve c (hdel_field d f) s = (some (reply_integer (pos 1)), write c (key_eq d f) none s)
serve c (del_key d) s = (some (reply_integer (pos 1)), write c (λ d' f. bytes_eq d d') none s)
serve c k s = (some (reply_error []), s)

abbrev pub serves : Serves always serve
serves = record {
  value = λ m d f s. s.values m d f;
  selected = λ c s. s.database c;
  connects_lem = λ n s. refl;
  select_lem = λ c n s. ([], _, refl, λ e. refl, λ m d f. refl);
  hset_lem = λ c d f v s. (pos 1, _, refl, λ e. refl, λ m d' f'. refl);
  hset_int_lem = λ c d f n s. (pos 1, _, refl, λ e. refl, λ m d' f'. refl);
  hget_lem = λ c d f s. (s, refl, λ e. refl, λ m d' f'. refl);
  del_lem = λ c d s. (pos 1, _, refl, λ e. refl, λ m d' f'. refl);
}

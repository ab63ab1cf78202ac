-- ===== src/Redis/Commands.antt =====
-- A redis server as the cache relies on it, and what the commands do with it: each is answered, HGET
-- gives what HSET stored in the database that the context has selected.
use alarm.Base.{
  ℕ, zero, suc, ◌+◌, ◌*◌, ◌-◌, ◌/◌, ◌%◌, ◌^◌, ◌≤◌, ◌<◌, ◌≡◌, refl, ap, ◌∙◌, Bool, true, false, List,
  [], ◌∷◌, ◌++◌, Option, none, some, arith, ltb, ◌&&◌, ◌==◌, if◌then◌else◌, All, All-append,
  Bool-cases, inl, inr,
}
use alarm.Base.Bytes.{Bytes, bytes_eq}
use alarm.Base.Int.{ℤ, pos}
use alarm.Redis.{
  Redis, Field, field_fd, field_public_addr, field_private_addr, field_dev_ip, Command, select,
  hset_int, hset_str, hget_field, del_key, Reply, reply_integer, reply_status, reply_string,
  reply_nil, found, create_new_redis_context, get_redis_context, release_redis_context,
  send_command,
}
use alarm.Redis.Cache.{atoi_from, atoi_sign, atoi}

abbrev pub field_eq : Field → Field → Bool
field_eq field_fd field_fd = true
field_eq field_public_addr field_public_addr = true
field_eq field_private_addr field_private_addr = true
field_eq field_dev_ip field_dev_ip = true
field_eq _ _ = false

-- `%d`: the decimal digits, on fuel; a number below 10 ^ fuel needs no more.
pub decimal : ℕ → ℕ → Bytes
decimal zero n = []
decimal (suc fuel) n =
    let front = decimal fuel (n / 10) in
    if ltb n 10 then (48 + n) ∷ [] else front ++ ((48 + n % 10) ∷ [])

-- An `int` has at most ten digits.
abbrev pub print_int : ℕ → Bytes
print_int n = decimal 10 n

IsDigit : ℕ → Type 0
IsDigit b = (48 ≤ b) × (b < 58)

decimal-All : (fuel n : ℕ) → All IsDigit (decimal fuel n)
unfolding decimal IsDigit
decimal-All zero n = tt
decimal-All (suc fuel) n = elim (Bool-cases (ltb n 10)) [
  | inl l ↦ rw l ((omega arith, ground arith), tt)
  | inr l ↦ rw l (
      All-append IsDigit (decimal fuel (n / 10)) ((48 + n % 10) ∷ []) (decimal-All fuel (n / 10))
        (omega arith))
]

atoi-snoc :
    (n d : ℕ) (s : Bytes)
    → d < 10
    → All IsDigit s
    → atoi_from n (s ++ ((48 + d) ∷ [])) ≡ atoi_from n s * 10 + d
unfolding atoi_from IsDigit
atoi-snoc n d [] h a = ground arith
atoi-snoc n d (b ∷ bs) h a = ground (arith, atoi-snoc (n * 10 + (b - 48)) d bs h a.1)

abbrev power : ℕ → ℕ
power zero = 1
power (suc fuel) = power fuel * 10

digits-decimal : (fuel n : ℕ) → n < power fuel → atoi_from 0 (decimal fuel n) ≡ n
unfolding decimal atoi_from
digits-decimal zero n h = omega arith
digits-decimal (suc fuel) n h = elim (Bool-cases (ltb n 10)) [
  | inl l ↦ ground arith
  | inr l ↦ rw l (
      atoi-snoc 0 (n % 10) (decimal fuel (n / 10)) (omega arith) (decimal-All fuel (n / 10))
      ∙ omega (arith, digits-decimal fuel (n / 10) (omega arith)))
]

atoi-digits : (s : Bytes) → All IsDigit s → atoi s ≡ pos (atoi_from 0 s)
unfolding atoi atoi_sign atoi_from IsDigit
atoi-digits [] a = refl
atoi-digits (b ∷ bs) a = ground arith

-- `atoi` reads back what `%d` has printed of an `int`.
pub atoi-print_int : (n : ℕ) → n < 2 ^ 31 → atoi (print_int n) ≡ pos n
atoi-print_int n h =
    atoi-digits (print_int n) (decimal-All 10 n) ∙ ap pos (digits-decimal 10 n (omega arith))

abbrev pub reply_of_value : Option Bytes → Reply
reply_of_value none = reply_nil
reply_of_value (some v) = reply_string v

abbrev pub key_eq : Bytes → Field → Bytes → Field → Bool
key_eq d f d' f' = bytes_eq d d' && field_eq f f'

-- `value n d f` is a field of the hash under the key `d` in the database `n`, and `selected c` the database of
-- a context: SELECT chooses it, and the other commands act on it and on no other.
pub record Serves {S : Type 0} (connects : ℕ → S → Bool)
    (redis_command : ℕ → Command → S → Option Reply × S) : Type 0 where
  pub value : ℕ → Bytes → Field → S → Option Bytes
  pub selected : ℕ → S → ℕ
  pub connects_lem : (n : ℕ) (s : S) → connects n s ≡ true
  pub select_lem :
      (c n : ℕ) (s : S)
      → (ok : Bytes) × (s' : S) × (redis_command c (select n) s ≡ (some (reply_status ok), s'))
        × ((e : ℕ) → selected e s' ≡ (if e == c then n else selected e s))
        × ((m : ℕ) (d : Bytes) (f : Field) → value m d f s' ≡ value m d f s)
  pub hset_lem :
      (c : ℕ) (d : Bytes) (f : Field) (v : Bytes) (s : S)
      → (k : ℤ) × (s' : S) × (redis_command c (hset_str d f v) s ≡ (some (reply_integer k), s'))
        × ((e : ℕ) → selected e s' ≡ selected e s)
        × ((m : ℕ) (d' : Bytes) (f' : Field)
            → value m d' f' s'
              ≡ (if (m == selected c s) && key_eq d f d' f' then some v else value m d' f' s))
  pub hset_int_lem :
      (c : ℕ) (d : Bytes) (f : Field) (n : ℕ) (s : S)
      → (k : ℤ) × (s' : S) × (redis_command c (hset_int d f n) s ≡ (some (reply_integer k), s'))
        × ((e : ℕ) → selected e s' ≡ selected e s)
        × ((m : ℕ) (d' : Bytes) (f' : Field)
            → value m d' f' s' ≡ (
                if (m == selected c s) && key_eq d f d' f'
                then some (print_int n)
                else value m d' f' s))
  pub hget_lem :
      (c : ℕ) (d : Bytes) (f : Field) (s : S)
      → (s' : S) × (redis_command c (hget_field d f) s
          ≡ (some (reply_of_value (value (selected c s) d f s)), s'))
        × ((e : ℕ) → selected e s' ≡ selected e s)
        × ((m : ℕ) (d' : Bytes) (f' : Field) → value m d' f' s' ≡ value m d' f' s)
  pub del_lem :
      (c : ℕ) (d : Bytes) (s : S)
      → (k : ℤ) × (s' : S) × (redis_command c (del_key d) s ≡ (some (reply_integer k), s'))
        × ((e : ℕ) → selected e s' ≡ selected e s)
        × ((m : ℕ) (d' : Bytes) (f' : Field)
            → value m d' f' s'
              ≡ (if (m == selected c s) && bytes_eq d d' then none else value m d' f' s))

-- The queue's contexts can be used, and it is opened or a context stands in it.
abbrev pub Unbroken : {S : Type 0} → Redis S → Type 0
Unbroken r = r.freed ≡ []

-- Only the server changed.
abbrev pub with_server : {S : Type 0} → S → Redis S → Redis S
with_server s r = record r { server = s }

module _ {S : Type 0} (connects : ℕ → S → Bool) (redis_command : ℕ → Command → S → Option Reply × S)
    (serves : Serves connects redis_command) where
  -- What a hash of the devices, which are in the database 6, has.
  abbrev pub value : Bytes → Field → S → Option Bytes
  value = serves.value 6

  abbrev pub OnDevices : ℕ → S → Type 0
  OnDevices c s = serves.selected c s ≡ 6

  -- The commands on a context with that database selected.
  pub hset_devices :
      (c : ℕ) (d : Bytes) (f : Field) (v : Bytes) (s : S)
      → OnDevices c s
      → (k : ℤ) × (s' : S) × (redis_command c (hset_str d f v) s ≡ (some (reply_integer k), s'))
        × OnDevices c s'
        × ((d' : Bytes) (f' : Field)
            → value d' f' s' ≡ (if key_eq d f d' f' then some v else value d' f' s))
  hset_devices c d f v s sel =
      let (k, s', e, keeps, changes) = serves.hset_lem c d f v s in
      (k, s', e, keeps c ∙ sel, λ d' f'. rw sel at (changes 6 d' f'))

  pub hset_int_devices :
      (c : ℕ) (d : Bytes) (f : Field) (n : ℕ) (s : S)
      → OnDevices c s
      → (k : ℤ) × (s' : S) × (redis_command c (hset_int d f n) s ≡ (some (reply_integer k), s'))
        × OnDevices c s'
        × ((d' : Bytes) (f' : Field)
            → value d' f' s' ≡ (if key_eq d f d' f' then some (print_int n) else value d' f' s))
  hset_int_devices c d f n s sel =
      let (k, s', e, keeps, changes) = serves.hset_int_lem c d f n s in
      (k, s', e, keeps c ∙ sel, λ d' f'. rw sel at (changes 6 d' f'))

  pub hget_devices :
      (c : ℕ) (d : Bytes) (f : Field) (s : S)
      → OnDevices c s
      → (s' : S) × (redis_command c (hget_field d f) s ≡ (some (reply_of_value (value d f s)), s'))
        × OnDevices c s'
        × ((m : ℕ) (d' : Bytes) (f' : Field) → serves.value m d' f' s' ≡ serves.value m d' f' s)
  hget_devices c d f s sel =
      let (s', e, keeps, same) = serves.hget_lem c d f s in (s', rw sel at e, keeps c ∙ sel, same)

  pub get_context :
      (r : Redis S)
      → Unbroken r
      → (c : ℕ) × (r' : Redis S) × (get_redis_context connects r ≡ some (c, r'))
        × (r'.server ≡ r.server)
        × Unbroken r'
  unfolding get_redis_context create_new_redis_context
  get_context r u = by_queue r.queue_redis_context refl
    where
      by_queue :
          (q : List ℕ)
          → r.queue_redis_context ≡ q
          → (c : ℕ) × (r' : Redis S) × (get_redis_context connects r ≡ some (c, r'))
            × (r'.server ≡ r.server)
            × Unbroken r'
      by_queue [] h = (
        r.opened,
        record r { opened = suc r.opened },
        ground (arith, serves.connects_lem r.opened r.server),
        refl,
        u,
      )
      by_queue (x ∷ q) h = (x, record r { queue_redis_context = q }, ground arith, refl, u)

  pub send_command_lem :
      (c : ℕ) (k : Command) (x : Reply) (s' : S) (r : Redis S)
      → Unbroken r
      → redis_command c k r.server ≡ (some x, s')
      → send_command redis_command c k r ≡ some (some x, with_server s' r)
  unfolding send_command found
  send_command_lem c k x s' r u e = ground (arith, e, u)

  pub release_keeps :
      (c : ℕ) (r : Redis S)
      → ((release_redis_context c r).server ≡ r.server)
        × ((release_redis_context c r).freed ≡ r.freed)
  unfolding release_redis_context
  release_keeps c r = elim (Bool-cases (found c r.queue_redis_context)) [
    | inl h ↦ rw h (refl, refl)
    | inr h ↦ rw h (refl, refl)
  ]

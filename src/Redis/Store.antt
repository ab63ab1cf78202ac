-- ===== src/Redis/Store.antt =====
-- What the device cache stores is what it gives back; and what becomes of a context on which a command
-- got no reply.
use alarm.Base.{ℕ, ◌^◌, ◌<◌, ◌≡◌, ap, ◌∙◌, Bool, true, Option, none, some, arith, if_true, ==_refl}
use alarm.Base.Bytes.{Bytes, bytes_eq_iff}
use alarm.Base.Int.{ℤ, pos}
use alarm.Base.Run.{Run, ◌>>=◌, >>=-some}
use alarm.Redis.{
  Redis, Field, field_fd, Command, select, hset_int, hset_str, hget_field, Reply, reply_integer,
  reply_status, release_redis_context, send_command, select_db, hset_number, hset, hget,
}
use alarm.Redis.Cache.{
  redis_device_info, with_context, set_device_fd_cache, get_device_fd_from_cache,
}
use alarm.Redis.Commands.{
  print_int, atoi-print_int, reply_of_value, Serves, Unbroken, with_server, get_context,
  send_command_lem, release_keeps, value, OnDevices, hset_int_devices, hget_devices,
}

-- A run that ends in `b` leaves the contexts usable, and the server related to the one before.
abbrev pub Ends : {S A : Type 0} → Run (Redis S) A → Redis S → A → (S → Type 0) → Type 0
Ends {S = S} f r a P = (r' : Redis S) × (f r ≡ some (a, r')) × Unbroken r' × P r'.server

module _ {S : Type 0} (connects : ℕ → S → Bool) (redis_command : ℕ → Command → S → Option Reply × S)
    (serves : Serves connects redis_command) where
  abbrev pub Same : S → S → Type 0
  Same s s' = (m : ℕ) (d : Bytes) (f : Field) → serves.value m d f s' ≡ serves.value m d f s

  pub with_context_lem :
      {A : Type 0} (f : ℕ → Run (Redis S) A) (r : Redis S) (a : A) (P : S → Type 0)
      → Unbroken r
      → ((c : ℕ) (r' : Redis S)
          → Unbroken r'
          → OnDevices connects redis_command serves c r'.server
          → Same r.server r'.server
          → Ends (f c) r' a P)
      → Ends (with_context connects redis_command f) r a P
  unfolding with_context select_db
  with_context_lem f r a P u body =
      let (c, r1, e1, s1, u1) = get_context connects redis_command serves r u in
      let (ok, s2, e2, chosen, v2) = serves.select_lem c redis_device_info r1.server in
      let e3 =
        send_command_lem connects redis_command serves c (select redis_device_info)
          (reply_status ok) s2 r1 u1 e2 in
      let (r3, e4, u3, p) =
        body c (with_server s2 r1) u1 (chosen c ∙ if_true _ _ (==_refl c))
          (λ m d f. v2 m d f ∙ ap (serves.value m d f) s1) in
      (
        release_redis_context c r3,
        ground (arith, e1, e3, e4),
        (release_keeps connects redis_command serves c r3).1 ∙ u3,
        rw (release_keeps connects redis_command serves c r3).0 p,
      )

  hset_number_lem :
      (c : ℕ) (d : Bytes) (f : Field) (n : ℕ) (k : ℤ) (s' : S) (r : Redis S)
      → Unbroken r
      → redis_command c (hset_int d f n) r.server ≡ (some (reply_integer k), s')
      → hset_number redis_command c d f n r ≡ some (true, with_server s' r)
  unfolding hset_number
  hset_number_lem c d f n k s' r u e =
      >>=-some (send_command redis_command c (hset_int d f n)) _ r (with_server s' r)
        (some (reply_integer k))
        (send_command_lem connects redis_command serves c (hset_int d f n) (reply_integer k) s' r u
          e)

  pub hset_lem :
      (c : ℕ) (d : Bytes) (f : Field) (v : Bytes) (k : ℤ) (s' : S) (r : Redis S)
      → Unbroken r
      → redis_command c (hset_str d f v) r.server ≡ (some (reply_integer k), s')
      → hset redis_command c d f v r ≡ some (true, with_server s' r)
  unfolding hset
  hset_lem c d f v k s' r u e =
      >>=-some (send_command redis_command c (hset_str d f v)) _ r (with_server s' r)
        (some (reply_integer k))
        (send_command_lem connects redis_command serves c (hset_str d f v) (reply_integer k) s' r u
          e)

  pub hget_lem :
      (c : ℕ) (d : Bytes) (f : Field) (v : Option Bytes) (s' : S) (r : Redis S)
      → Unbroken r
      → redis_command c (hget_field d f) r.server ≡ (some (reply_of_value v), s')
      → hget redis_command c d f r ≡ some (v, with_server s' r)
  unfolding hget
  hget_lem c d f none s' r u e =
      >>=-some (send_command redis_command c (hget_field d f)) _ r (with_server s' r)
        (some (reply_of_value none))
        (send_command_lem connects redis_command serves c (hget_field d f) (reply_of_value none) s'
          r u e)
  hget_lem c d f (some v) s' r u e =
      >>=-some (send_command redis_command c (hget_field d f)) _ r (with_server s' r)
        (some (reply_of_value (some v)))
        (send_command_lem connects redis_command serves c (hget_field d f) (reply_of_value (some v))
          s' r u e)

  pub set_fd_lem :
      (dev_id : Bytes) (fd : ℕ) (r : Redis S)
      → Unbroken r
      → Ends
          (set_device_fd_cache connects redis_command dev_id fd)
          r
          (pos 0)
          (λ s. value connects redis_command serves dev_id field_fd s ≡ some (print_int fd))
  unfolding set_device_fd_cache
  set_fd_lem dev_id fd r u =
      with_context_lem _ r (pos 0)
        (λ s. value connects redis_command serves dev_id field_fd s ≡ some (print_int fd)) u
        (λ c r' u' sel same.
          let (k, s, e, on, v) =
            hset_int_devices connects redis_command serves c dev_id field_fd fd r'.server sel in
          (
            with_server s r',
            >>=-some (hset_number redis_command c dev_id field_fd fd) _ r' (with_server s r') true
                (hset_number_lem c dev_id field_fd fd k s r' u' e),
            u',
            ground (arith, v dev_id field_fd, bytes_eq_iff dev_id dev_id),
          ))

  pub get_fd_lem :
      (dev_id : Bytes) (fd : ℕ) (r : Redis S)
      → Unbroken r
      → fd < 2 ^ 31
      → value connects redis_command serves dev_id field_fd r.server ≡ some (print_int fd)
      → Ends
          (get_device_fd_from_cache connects redis_command dev_id)
          r
          (some (pos fd))
          (Same r.server)
  unfolding get_device_fd_from_cache
  get_fd_lem dev_id fd r u small stored =
      with_context_lem _ r (some (pos fd)) (Same r.server) u (λ c r' u' sel same.
        let (s, e, on, v) =
          hget_devices connects redis_command serves c dev_id field_fd r'.server sel in
        let there : value connects redis_command serves dev_id field_fd r'.server
            ≡ some (print_int fd) =
          same 6 dev_id field_fd ∙ stored in
        (
          with_server s r',
          >>=-some (hget redis_command c dev_id field_fd) _ r' (with_server s r')
                (some (print_int fd))
                (hget_lem c dev_id field_fd (some (print_int fd)) s r' u' (rw there at e))
              ∙ ap (λ (n : ℤ). some (some n, with_server s r')) (atoi-print_int fd small),
          u',
          λ m d f. v m d f ∙ same m d f,
        ))

  -- With a server that serves, the file descriptor that is stored for a device is read back, as a decimal
  -- string, from the same hash.
  pub fd_kept :
      (dev_id : Bytes) (fd : ℕ) (r : Redis S)
      → Unbroken r
      → fd < 2 ^ 31
      → Ends
          (set_device_fd_cache connects redis_command dev_id fd >>= λ ret.
            get_device_fd_from_cache connects redis_command dev_id)
          r
          (some (pos fd))
          (λ s. value connects redis_command serves dev_id field_fd s ≡ some (print_int fd))
  fd_kept dev_id fd r u small =
      let (r1, e1, u1, v1) = set_fd_lem dev_id fd r u in
      let (r2, e2, u2, v2) = get_fd_lem dev_id fd r1 u1 small v1 in
      (r2, ground (arith, e1, e2), u2, v2 6 dev_id field_fd ∙ v1)

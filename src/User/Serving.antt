-- ===== src/User/Serving.antt =====
-- A redis server as userOnline relies on it, and the cache's functions on one that serves.
use alarm.Base.{
  ℕ, suc, ◌≡◌, refl, ap, ◌∙◌, Bool, true, false, List, [], ◌∷◌, Option, none, some, arith,
  if◌then◌else◌, Bool-cases, inl, inr,
}
use alarm.Base.Bytes.{Bytes, bytes_eq}
use alarm.Base.Int.{ℤ, pos, neg}
use alarm.Base.Run.{Run, >>=-some}
use alarm.Errors.{error_session_id_not_exist}
use alarm.Redis.{
  Redis, Command, select, set_int, hexists_field, del_key, Reply, reply_integer, reply_status,
  found, create_new_redis_context, get_redis_context, release_redis_context, send_command,
  select_db, del,
}
use alarm.Redis.Commands.{print_int, Unbroken, with_server}
use alarm.Redis.Opt.{set_number, hexists, ok_command, one_command}
use alarm.Redis.Store.{Ends}
use alarm.User.Cache.{
  session, redis_client_info, session_key, username, with_database, set_guid_fd_cache,
  remove_guid_fd_from_cache, check_session_id,
}

-- `fd_of` is what is stored under a key in the database of clients, `is_session` whether a hash of the
-- database of sessions has a user's name, and `selected` the database of a context. The clients are in the
-- database 7 and the sessions in the database 0.
pub record UserServes {S : Type 0} (connects : ℕ → S → Bool)
    (redis_command : ℕ → Command → S → Option Reply × S) : Type 0 where
  pub fd_of : Bytes → S → Option Bytes
  pub is_session : Bytes → S → Bool
  pub selected : ℕ → S → ℕ
  pub connects_lem : (n : ℕ) (s : S) → connects n s ≡ true
  pub select_lem :
      (c n : ℕ) (s : S)
      → (ok : Bytes) × (s' : S) × (redis_command c (select n) s ≡ (some (reply_status ok), s'))
        × (selected c s' ≡ n)
        × ((g : Bytes) → (fd_of g s' ≡ fd_of g s) × (is_session g s' ≡ is_session g s))
  pub set_lem :
      (c : ℕ) (g : Bytes) (fd : ℕ) (s : S)
      → selected c s ≡ 7
      → (s' : S) × (redis_command c (set_int g (pos fd)) s
          ≡ (some (reply_status (79 ∷ 75 ∷ [])), s'))
        × ((h : Bytes)
            → (fd_of h s' ≡ (if bytes_eq g h then some (print_int fd) else fd_of h s))
              × (is_session h s' ≡ is_session h s))
  pub hexists_lem :
      (c : ℕ) (g : Bytes) (s : S)
      → selected c s ≡ 0
      → (s' : S) × (redis_command c (hexists_field g username) s
          ≡ (some (reply_integer (if is_session g s then pos 1 else pos 0)), s'))
        × ((h : Bytes) → (fd_of h s' ≡ fd_of h s) × (is_session h s' ≡ is_session h s))
  pub del_lem :
      (c : ℕ) (g : Bytes) (s : S)
      → selected c s ≡ 7
      → (k : ℤ) × (s' : S) × (redis_command c (del_key g) s ≡ (some (reply_integer k), s'))
        × ((h : Bytes)
            → (fd_of h s' ≡ (if bytes_eq g h then none else fd_of h s))
              × (is_session h s' ≡ is_session h s))

module _ {S : Type 0} (connects : ℕ → S → Bool) (redis_command : ℕ → Command → S → Option Reply × S)
    (serves : UserServes connects redis_command) where
  -- Two states of the server that a user cannot tell apart.
  abbrev pub Same : S → S → Type 0
  Same s s' =
      (g : Bytes)
      → (serves.fd_of g s' ≡ serves.fd_of g s) × (serves.is_session g s' ≡ serves.is_session g s)

  pub sent :
      (c : ℕ) (k : Command) (x : Reply) (s' : S) (r : Redis S)
      → Unbroken r
      → redis_command c k r.server ≡ (some x, s')
      → send_command redis_command c k r ≡ some (some x, with_server s' r)
  unfolding send_command found
  sent c k x s' r u e = ground (arith, e, u)

  got_context :
      (r : Redis S)
      → Unbroken r
      → (c : ℕ) × (r' : Redis S) × (get_redis_context connects r ≡ some (c, r'))
        × (r'.server ≡ r.server)
        × Unbroken r'
  unfolding get_redis_context create_new_redis_context
  got_context r u = by_queue r.queue_redis_context refl
    where
      by_queue :
          (q : List ℕ)
          → r.queue_redis_context ≡ q
          → (c : ℕ) × (r' : Redis S) × (get_redis_context connects r ≡ some (c, r'))
            × (r'.server ≡ r.server)
            × Unbroken r'
      by_queue [] h = (
        r.opened,
        record r { opened = suc r.opened },
        ground (arith, serves.connects_lem r.opened r.server),
        refl,
        u,
      )
      by_queue (x ∷ q) h = (x, record r { queue_redis_context = q }, ground arith, refl, u)

  released :
      (c : ℕ) (r : Redis S)
      → ((release_redis_context c r).server ≡ r.server)
        × ((release_redis_context c r).freed ≡ r.freed)
  unfolding release_redis_context
  released c r = elim (Bool-cases (found c r.queue_redis_context)) [
    | inl h ↦ rw h (refl, refl)
    | inr h ↦ rw h (refl, refl)
  ]

  -- A function runs on a context with the database selected, and the context goes back.
  pub with_database_lem :
      {A : Type 0} (db : ℕ) (f : ℕ → Run (Redis S) A) (r : Redis S) (a : A) (P : S → Type 0)
      → Unbroken r
      → ((c : ℕ) (r' : Redis S)
          → Unbroken r'
          → serves.selected c r'.server ≡ db
          → Same r.server r'.server
          → Ends (f c) r' a P)
      → Ends (with_database connects redis_command db f) r a P
  unfolding with_database select_db
  with_database_lem db f r a P u body =
      let (c, r1, e1, s1, u1) = got_context r u in
      let (ok, s2, e2, sel, v2) = serves.select_lem c db r1.server in
      let e3 = sent c (select db) (reply_status ok) s2 r1 u1 e2 in
      let same : Same r.server s2 =
        λ g. ((v2 g).0 ∙ ap (serves.fd_of g) s1, (v2 g).1 ∙ ap (serves.is_session g) s1) in
      let (r3, e4, u3, p) = body c (with_server s2 r1) u1 sel same in
      (
        release_redis_context c r3,
        ground (arith, e1, e3, e4),
        (released c r3).1 ∙ u3,
        rw (released c r3).0 p,
      )

  stored :
      (c : ℕ) (g : Bytes) (fd : ℕ) (s : S) (r : Redis S)
      → send_command redis_command c (set_int g (pos fd)) r
        ≡ some (some (reply_status (79 ∷ 75 ∷ [])), with_server s r)
      → set_number redis_command c g (pos fd) r ≡ some (true, with_server s r)
  unfolding set_number ok_command bytes_eq
  stored c g fd s r e =
      >>=-some (send_command redis_command c (set_int g (pos fd))) _ r (with_server s r)
        (some (reply_status (79 ∷ 75 ∷ []))) e

  looked_up :
      (c : ℕ) (g : Bytes) (b : Bool) (s : S) (r : Redis S)
      → send_command redis_command c (hexists_field g username) r
        ≡ some (some (reply_integer (if b then pos 1 else pos 0)), with_server s r)
      → hexists redis_command c g username r ≡ some (b, with_server s r)
  unfolding hexists one_command
  looked_up c g true s r e =
      >>=-some (send_command redis_command c (hexists_field g username)) _ r (with_server s r)
        (some (reply_integer (pos 1))) e
  looked_up c g false s r e =
      >>=-some (send_command redis_command c (hexists_field g username)) _ r (with_server s r)
        (some (reply_integer (pos 0))) e

  pub deleted :
      (c : ℕ) (g : Bytes) (k : ℤ) (s : S) (r : Redis S)
      → send_command redis_command c (del_key g) r ≡ some (some (reply_integer k), with_server s r)
      → del redis_command c g r ≡ some (true, with_server s r)
  unfolding del
  deleted c g k s r e =
      >>=-some (send_command redis_command c (del_key g)) _ r (with_server s r)
        (some (reply_integer k)) e

  -- Storing a socket.
  pub set_lem :
      (g : Bytes) (fd : ℕ) (r : Redis S)
      → Unbroken r
      → Ends (set_guid_fd_cache connects redis_command g fd) r (pos 0) (λ s.
        (h : Bytes)
        → (serves.fd_of h s
            ≡ (if bytes_eq g h then some (print_int fd) else serves.fd_of h r.server))
          × (serves.is_session h s ≡ serves.is_session h r.server))
  unfolding set_guid_fd_cache
  set_lem g fd r u = with_database_lem redis_client_info _ r (pos 0) _ u (λ c r' u' sel same.
      let (s, e, v) = serves.set_lem c g fd r'.server sel in
      (
        with_server s r',
        >>=-some (set_number redis_command c g (pos fd)) _ r' (with_server s r') true
            (stored c g fd s r' (sent c (set_int g (pos fd)) _ s r' u' e)),
        u',
        λ h. (rw ((v h).0, (same h).0), (v h).1 ∙ (same h).1),
      ))

  -- Removing a session's socket.
  pub remove_lem :
      (g : Bytes) (r : Redis S)
      → Unbroken r
      → Ends (remove_guid_fd_from_cache connects redis_command g) r (pos 0) (λ s.
        (h : Bytes)
        → (serves.fd_of h s ≡ (if bytes_eq g h then none else serves.fd_of h r.server))
          × (serves.is_session h s ≡ serves.is_session h r.server))
  unfolding remove_guid_fd_from_cache
  remove_lem g r u = with_database_lem redis_client_info _ r (pos 0) _ u (λ c r' u' sel same.
      let (k, s, e, v) = serves.del_lem c g r'.server sel in
      (
        with_server s r',
        >>=-some (del redis_command c g) _ r' (with_server s r') true
            (deleted c g k s r' (sent c (del_key g) _ s r' u' e)),
        u',
        λ h. (rw ((v h).0, (same h).0), (v h).1 ∙ (same h).1),
      ))

  -- What the check of a session answers.
  abbrev pub check_answer : Bool → ℤ
  check_answer there = if there then pos 0 else neg error_session_id_not_exist

  -- The check of a session changes nothing.
  pub check_lem :
      (g : Bytes) (r : Redis S)
      → Unbroken r
      → Ends
          (check_session_id connects redis_command g)
          r
          (check_answer (serves.is_session (session_key g) r.server))
          (Same r.server)
  unfolding check_session_id
  check_lem g r u =
      with_database_lem session _ r (check_answer (serves.is_session (session_key g) r.server))
        (Same r.server) u
        (λ c r' u' sel same.
          let (s, e, v) = serves.hexists_lem c (session_key g) r'.server sel in
          let there =
            looked_up c (session_key g) (serves.is_session (session_key g) r'.server) s r'
              (sent c (hexists_field (session_key g) username) _ s r' u' e) in
          (
            with_server s r',
            >>=-some (hexists redis_command c (session_key g) username) _ r' (with_server s r')
                  (serves.is_session (session_key g) r'.server) there
                ∙ ap (λ (b : Bool). some (check_answer b, with_server s r'))
                    ((same (session_key g)).1),
            u',
            λ h. ((v h).0 ∙ (same h).0, (v h).1 ∙ (same h).1),
          ))

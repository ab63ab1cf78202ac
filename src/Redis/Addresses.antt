-- ===== src/Redis/Addresses.antt =====
-- The addresses of a device in the cache: what is stored is given back, and a device that is removed is
-- found no more.
use alarm.Base.{ℕ, ◌≡◌, ◌∙◌, Bool, true, Option, none, some, arith, ◌&&◌, ◌==◌, if◌then◌else◌}
use alarm.Base.Bytes.{Bytes, bytes_eq, bytes_eq_iff}
use alarm.Base.Int.{pos}
use alarm.Base.Run.{◌>>=◌, >>=-some}
use alarm.Redis.{
  Redis, Field, field_fd, field_public_addr, field_private_addr, field_dev_ip, Command, del_key,
  Reply, reply_integer, send_command, hset, hget, del,
}
use alarm.Redis.Cache.{
  Addresses, set_device_addr_cache, get_device_addr_from_cache, remove_device_from_cache,
}
use alarm.Redis.Commands.{
  Serves, Unbroken, with_server, send_command_lem, value, hset_devices, hget_devices,
}
use alarm.Redis.Store.{Ends, with_context_lem, hset_lem, hget_lem}

module _ {S : Type 0} (connects : ℕ → S → Bool) (redis_command : ℕ → Command → S → Option Reply × S)
    (serves : Serves connects redis_command) where
  abbrev pub Holds : Bytes → Addresses → S → Type 0
  Holds dev_id a s =
      (value connects redis_command serves dev_id field_public_addr s ≡ some a.public_addr)
      × (value connects redis_command serves dev_id field_private_addr s ≡ some a.private_addr)
      × (value connects redis_command serves dev_id field_dev_ip s ≡ some a.dev_ip)

  -- The addresses are stored, and no device's file descriptor is changed.
  abbrev pub Stores : Bytes → Addresses → S → S → Type 0
  Stores dev_id a before s =
      Holds dev_id a s
      × ((d : Bytes)
          → value connects redis_command serves d field_fd s
            ≡ value connects redis_command serves d field_fd before)

  pub set_addr_lem :
      (dev_id : Bytes) (a : Addresses) (r : Redis S)
      → Unbroken r
      → Ends
          (set_device_addr_cache connects redis_command dev_id a)
          r
          (pos 0)
          (Stores dev_id a r.server)
  unfolding set_device_addr_cache
  set_addr_lem dev_id a r u =
      with_context_lem connects redis_command serves _ r (pos 0) (Stores dev_id a r.server) u
        (λ c r' u' sel same.
          let (k1, s1, e1, on1, v1) =
            hset_devices connects redis_command serves c dev_id field_public_addr a.public_addr
              r'.server sel in
          let (k2, s2, e2, on2, v2) =
            hset_devices connects redis_command serves c dev_id field_private_addr a.private_addr s1
              on1 in
          let (k3, s3, e3, on3, v3) =
            hset_devices connects redis_command serves c dev_id field_dev_ip a.dev_ip s2 on2 in
          let itself = bytes_eq_iff dev_id dev_id in
          (
            with_server s3 r',
            >>=-some (hset redis_command c dev_id field_public_addr a.public_addr) _ r'
                  (with_server s1 r') true
                  (hset_lem connects redis_command serves c dev_id field_public_addr a.public_addr
                    k1 s1 r' u' e1)
                ∙ >>=-some (hset redis_command c dev_id field_private_addr a.private_addr) _
                    (with_server s1 r') (with_server s2 r') true
                    (hset_lem connects redis_command serves c dev_id field_private_addr
                      a.private_addr k2 s2 (with_server s1 r') u' e2)
                ∙ >>=-some (hset redis_command c dev_id field_dev_ip a.dev_ip) _ (with_server s2 r')
                    (with_server s3 r') true
                    (hset_lem connects redis_command serves c dev_id field_dev_ip a.dev_ip k3 s3
                      (with_server s2 r') u' e3),
            u',
            (
              (
                ground (
                  arith,
                  itself,
                  v3 dev_id field_public_addr,
                  v2 dev_id field_public_addr,
                  v1 dev_id field_public_addr,
                ),
                ground (arith, itself, v3 dev_id field_private_addr, v2 dev_id field_private_addr),
                ground (arith, itself, v3 dev_id field_dev_ip),
              ),
              λ d. ground (arith, v3 d field_fd, v2 d field_fd, v1 d field_fd, same 6 d field_fd),
            ),
          ))

  pub get_addr_lem :
      (dev_id : Bytes) (a : Addresses) (r : Redis S)
      → Unbroken r
      → Holds dev_id a r.server
      → Ends (get_device_addr_from_cache connects redis_command dev_id) r (some a) (Holds dev_id a)
  unfolding get_device_addr_from_cache
  get_addr_lem dev_id a r u (hp, hq, hi) =
      with_context_lem connects redis_command serves _ r (some a) (Holds dev_id a) u
        (λ c r' u' sel same.
          let (s1, e1, on1, v1) =
            hget_devices connects redis_command serves c dev_id field_public_addr r'.server sel in
          let (s2, e2, on2, v2) =
            hget_devices connects redis_command serves c dev_id field_private_addr s1 on1 in
          let (s3, e3, on3, v3) =
            hget_devices connects redis_command serves c dev_id field_dev_ip s2 on2 in
          let p = same 6 dev_id field_public_addr ∙ hp in
          let q = v1 6 dev_id field_private_addr ∙ same 6 dev_id field_private_addr ∙ hq in
          let i =
            v2 6 dev_id field_dev_ip ∙ v1 6 dev_id field_dev_ip ∙ same 6 dev_id field_dev_ip ∙ hi in
          (
            with_server s3 r',
            >>=-some (hget redis_command c dev_id field_public_addr) _ r' (with_server s1 r')
                  (some a.public_addr)
                  (hget_lem connects redis_command serves c dev_id field_public_addr
                    (some a.public_addr) s1 r' u' (rw p at e1))
                ∙ >>=-some (hget redis_command c dev_id field_private_addr) _ (with_server s1 r')
                    (with_server s2 r') (some a.private_addr)
                    (hget_lem connects redis_command serves c dev_id field_private_addr
                      (some a.private_addr) s2 (with_server s1 r') u' (rw q at e2))
                ∙ >>=-some (hget redis_command c dev_id field_dev_ip) _ (with_server s2 r')
                    (with_server s3 r') (some a.dev_ip)
                    (hget_lem connects redis_command serves c dev_id field_dev_ip (some a.dev_ip) s3
                      (with_server s2 r') u' (rw i at e3)),
            u',
            (
              v3 6 dev_id field_public_addr
                  ∙ v2 6 dev_id field_public_addr
                  ∙ v1 6 dev_id field_public_addr
                  ∙ p,
              v3 6 dev_id field_private_addr ∙ v2 6 dev_id field_private_addr ∙ q,
              v3 6 dev_id field_dev_ip ∙ i,
            ),
          ))

  -- With a server that serves, whatever databases its contexts have selected, and no freed context, the three addresses that are stored for a device
  -- are given back; no error is returned, and no context is freed.
  pub addresses_kept :
      (dev_id : Bytes) (a : Addresses) (r : Redis S)
      → Unbroken r
      → Ends
          (set_device_addr_cache connects redis_command dev_id a >>= λ ret.
            get_device_addr_from_cache connects redis_command dev_id)
          r
          (some a)
          (Holds dev_id a)
  addresses_kept dev_id a r u =
      let (r1, e1, u1, h1) = set_addr_lem dev_id a r u in
      let (r2, e2, u2, h2) = get_addr_lem dev_id a r1 u1 h1.0 in
      (
        r2,
        >>=-some (set_device_addr_cache connects redis_command dev_id a) _ r r1 (pos 0) e1 ∙ e2,
        u2,
        h2,
      )

  pub remove_device_lem :
      (dev_id : Bytes) (r : Redis S)
      → Unbroken r
      → Ends (remove_device_from_cache connects redis_command dev_id) r (pos 0) (λ s.
        (m : ℕ) (d : Bytes) (f : Field)
        → serves.value m d f s
          ≡ (if (m == 6) && bytes_eq dev_id d then none else serves.value m d f r.server))
  unfolding remove_device_from_cache del
  remove_device_lem dev_id r u =
      with_context_lem connects redis_command serves _ r (pos 0) _ u (λ c r' u' sel same.
        let (k, s, e, keeps, v) = serves.del_lem c dev_id r'.server in
        (
          with_server s r',
          >>=-some (del redis_command c dev_id) _ r' (with_server s r') true (
              >>=-some (send_command redis_command c (del_key dev_id)) _ r' (with_server s r')
                (some (reply_integer k))
                (send_command_lem connects redis_command serves c (del_key dev_id) (reply_integer k)
                  s r' u' e)),
          u',
          λ m d f. rw (v m d f, sel, same m d f),
        ))

-- ===== src/Redis/Replies.antt =====
-- What the scans accept, and what the lengths and the vectors of other commands come to.
use alarm.Base.{ℕ, ◌≡◌, ap, Bool, true, false, List, ◌∷◌, ◌++◌, Option, none, some}
use alarm.Base.Bytes.{Bytes}
use alarm.Base.Int.{ℤ}
use alarm.Base.Run.{Run, fault, pure, >>=-some}
use alarm.Redis.{
  Redis, Command, llen_key, hlen_key, lrange_key, smembers_key, hvals_key, scan_from, Reply,
  reply_integer, reply_status, reply_string, reply_nil, reply_error, reply_array, found,
  send_command,
}
use alarm.Redis.Scanning.{as_array, Scanned, scan_reply, strtoll}
use alarm.Redis.Answers.{scan_answer, Answered, scan_reply-true, scan_reply-answer}
use alarm.Redis.Opt.{
  raw_command, scan, llen, hlen, array_command, lrange, smembers, hvals, push_elements,
}

abbrev got_array : {S : Type 0} → List Bytes → Option Reply → Run (Redis S) (Bool × List Bytes)
got_array vec reply = elim reply [
  | none ↦ pure (false, vec)
  | some (reply_array es) ↦ elim (push_elements es vec) [ none ↦ fault | some w ↦ pure (true, w) ]
  | some _ ↦ fault
]

module _ {S : Type 0} (redis_command : ℕ → Command → S → Option Reply × S) (r : Redis S) (conn : ℕ)
    (usable : found conn r.freed ≡ false) where
  abbrev after : S → Redis S
  after s = record r { server = s }

  raw_run :
      (c : Command) (reply : Option Reply) (s : S)
      → redis_command conn c r.server ≡ (reply, s)
      → raw_command redis_command conn c r ≡ some (reply, after s)
  unfolding raw_command
  raw_run c reply s e = rw usable (ap (λ (p : Option Reply × S). some (p.0, after (p.1))) e)

  sent_run :
      (c : Command) (reply : Reply) (s : S)
      → redis_command conn c r.server ≡ (some reply, s)
      → send_command redis_command conn c r ≡ some (some reply, after s)
  unfolding send_command
  sent_run c reply s e = rw usable (
      ap
        (λ (p : Option Reply × S). elim p.0 [
          | none ↦ some (none, record r { server = p.1; freed = conn ∷ r.freed })
          | some x ↦ some (some x, after (p.1))
        ])
        e)

  -- On a context that is not freed, a scan succeeds exactly if the reply is an array of a string and an
  -- array of strings; then these are put behind the keys that are in the vector, and the cursor is
  -- the number that the first string is read as.
  pub scan_lem :
      (cursor : ℤ) (vec : List Bytes) (next : ℤ) (reply : Option Reply) (s : S)
      → redis_command conn (scan_from cursor) r.server ≡ (reply, s)
      → (sc : Scanned) × (scan redis_command conn cursor vec next r
          ≡ some (sc, record r { server = s }))
        × ((c : Bytes) (keys : List Bytes)
            → reply ≡ some (scan_answer c keys)
            → sc ≡ record { success = true; vec_keys = vec ++ keys; next_cursor = strtoll c })
        × (sc.success ≡ true → Answered reply)
  unfolding scan
  scan_lem cursor vec next reply s e = (
    scan_reply reply vec next,
    >>=-some (raw_command redis_command conn (scan_from cursor)) _ r (after s) reply
        (raw_run (scan_from cursor) reply s e),
    λ c keys h. rw h (scan_reply-answer c keys vec next),
    scan_reply-true reply vec next,
  )

  -- On a context that is not freed, whatever lengths the server says, 3 is what `LLen` and `HLen` store.
  pub lengths_lost :
      (key : Bytes) (n m : ℤ) (s t : S)
      → redis_command conn (llen_key key) r.server ≡ (some (reply_integer n), s)
      → redis_command conn (hlen_key key) r.server ≡ (some (reply_integer m), t)
      → (llen redis_command conn key r ≡ some (some 3, record r { server = s }))
        × (hlen redis_command conn key r ≡ some (some 3, record r { server = t }))
  unfolding llen hlen
  lengths_lost key n m s t a b = (
    >>=-some (send_command redis_command conn (llen_key key)) _ r (after s) (some (reply_integer n))
        (sent_run (llen_key key) (reply_integer n) s a),
    >>=-some (send_command redis_command conn (hlen_key key)) _ r (after t) (some (reply_integer m))
        (sent_run (hlen_key key) (reply_integer m) t b),
  )

  array_faults :
      (c : Command) (vec : List Bytes) (reply : Reply) (s : S)
      → redis_command conn c r.server ≡ (some reply, s)
      → as_array (some reply) ≡ none
      → array_command redis_command conn c vec r ≡ none
  unfolding array_command
  array_faults c vec reply s e h = by_reply reply h (sent_run c reply s e)
    where
      by_reply :
          (x : Reply)
          → as_array (some x) ≡ none
          → send_command redis_command conn c r ≡ some (some x, after s)
          → array_command redis_command conn c vec r ≡ none
      by_reply (reply_array es) h e = cc
      by_reply (reply_integer n) h e =
          >>=-some (send_command redis_command conn c) (got_array vec) r (after s)
            (some (reply_integer n)) e
      by_reply (reply_status x) h e =
          >>=-some (send_command redis_command conn c) (got_array vec) r (after s)
            (some (reply_status x)) e
      by_reply (reply_string x) h e =
          >>=-some (send_command redis_command conn c) (got_array vec) r (after s)
            (some (reply_string x)) e
      by_reply reply_nil h e =
          >>=-some (send_command redis_command conn c) (got_array vec) r (after s) (some reply_nil)
            e
      by_reply (reply_error x) h e =
          >>=-some (send_command redis_command conn c) (got_array vec) r (after s)
            (some (reply_error x)) e

  -- On a context that is not freed, a reply that is no array, such as an error, makes `LRange`,
  -- `SMembers` and `Hvals` read a reply that is freed.
  pub array_readers_fault :
      (key : Bytes) (vec : List Bytes) (a b c : Reply) (s t u : S)
      → redis_command conn (lrange_key key) r.server ≡ (some a, s)
      → redis_command conn (smembers_key key) r.server ≡ (some b, t)
      → redis_command conn (hvals_key key) r.server ≡ (some c, u)
      → as_array (some a) ≡ none
      → as_array (some b) ≡ none
      → as_array (some c) ≡ none
      → (lrange redis_command conn key vec r ≡ none)
        × (smembers redis_command conn key vec r ≡ none)
        × (hvals redis_command conn key vec r ≡ none)
  unfolding lrange smembers hvals
  array_readers_fault key vec a b c s t u ea eb ec ha hb hc = (
    array_faults (lrange_key key) vec a s ea ha,
    array_faults (smembers_key key) vec b t eb hb,
    array_faults (hvals_key key) vec c u ec hc,
  )

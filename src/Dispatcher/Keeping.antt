-- ===== src/Dispatcher/Keeping.antt =====
-- Forwarding a message and taking its answer keep the timer queue valid.
use alarm.Base.{ℕ, ◌≡◌, ◌⊎◌, refl, true, Option, none, some, arith, ◌==◌, Bool-cases, inl, inr}
use alarm.Base.Bytes.{Bytes}
use alarm.Base.Int.{ℤ}
use alarm.Base.Run.{>>=-split}
use alarm.Coding.{decode_fixed32}
use alarm.Connection.{World, Env}
use alarm.Dispatcher.Handler.{
  M, ◌>>=◌, pure, lift, Slice, assign, send_msg, increment_and_get, forward_msg_to_dev, sending,
}
use alarm.Dispatcher.Push.{
  route_of_conn, context, reply_of, forward_start_send, handle_on_push_start_send,
  forward_send_voice, handle_on_push_client_voice,
}
use alarm.Dispatcher.Forwarding.{next_mid, answer_replies, late_answer_ignored}
use alarm.Time.{add_seconds}
use alarm.Timers.{Node, PushMsgContext, add_event_after}
use alarm.Tlv.{
  type_on_client_start_send, type_on_client_send_voice_data, pack_start_send_push_msg,
  pack_send_voice_push_msg,
}
use alarm.VoiceChannel.{Route, routed, failed}
use alarm.Timers.Valid.{IsValid, pending, add_event_at_lem}
use alarm.Dispatcher.Quiet.{lift-Quiet, Keeps}

module _ (env : Env) where
  forward-IsValid :
      (fd push_mid : ℕ) (msg : Bytes) (ct : PushMsgContext) (w w' : World) (r : ℤ)
      → IsValid w.push_msg_timer_queue
      → pending ct.push_mid w.push_msg_timer_queue ≡ none
      → forward_msg_to_dev env fd ct.push_mid msg ct w ≡ some (r, w')
      → IsValid w'.push_msg_timer_queue
  unfolding forward_msg_to_dev send_msg add_event_after
  forward-IsValid fd push_mid msg ct w w' r v fresh e =
      let (q, a, x, _) =
        add_event_at_lem (add_seconds env.now env.push_timeout) ct w.push_msg_timer_queue v fresh in
      elim (Bool-cases (sending env w fd msg).success) [
        | inl ok ↦ let queue : w'.push_msg_timer_queue ≡ q = ground (arith, a) in rw queue x
        | inr failed_send ↦
            let queue : w'.push_msg_timer_queue ≡ w.push_msg_timer_queue = ground arith in
            rw queue v
      ]

  module _ (mid : ℕ) (c : Slice) (w w' : World) (r : ℤ) (v : IsValid w.push_msg_timer_queue) where
    -- What either handler of a device's answer may end in.
    abbrev Ends : Type 0
    Ends =
        (handle_on_push_start_send env mid c w ≡ some (r, w'))
        ⊎ (handle_on_push_client_voice env mid c w ≡ some (r, w'))

    by_pending :
        (x : ℕ) (o : Option Node)
        → decode_fixed32 c.here ≡ some x
        → pending mid w.push_msg_timer_queue ≡ o
        → Ends
        → IsValid w'.push_msg_timer_queue
    by_pending x none d p e =
        let (a, b) = late_answer_ignored env mid x c w d v p in
        let same : w' ≡ w = elim e [ inl h ↦ ground (arith, a) | inr h ↦ ground (arith, b) ] in
        rw same v
    by_pending x (some n) d p e =
        let (q, a, b, u, _) = answer_replies env mid x c n w d v p in
        let same : w'.push_msg_timer_queue ≡ q = elim e [
          | inl h ↦ ground (arith, a)
          | inr h ↦ ground (arith, b)
        ] in
        rw same u

    by_code : (o : Option ℕ) → decode_fixed32 c.here ≡ o → Ends → IsValid w'.push_msg_timer_queue
    unfolding handle_on_push_start_send handle_on_push_client_voice
    by_code none d (inl e) = absurd (ground (arith, d, e))
    by_code none d (inr e) = absurd (ground (arith, d, e))
    by_code (some x) d e = by_pending x (pending mid w.push_msg_timer_queue) d refl e

  pub start_answer-Keeps : (mid : ℕ) (c : Slice) → Keeps (handle_on_push_start_send env mid c)
  start_answer-Keeps mid c w w' r v fresh e =
      by_code mid c w w' r v (decode_fixed32 c.here) refl (inl e)

  pub voice_answer-Keeps : (mid : ℕ) (c : Slice) → Keeps (handle_on_push_client_voice env mid c)
  voice_answer-Keeps mid c w w' r v fresh e =
      by_code mid c w w' r v (decode_fixed32 c.here) refl (inr e)

  -- The counter of messages, which both forwarding handlers advance first.
  counted :
      (w w' : World) (push_mid : ℕ)
      → increment_and_get w ≡ some (push_mid, w')
      → (push_mid ≡ next_mid w) × (w'.push_msg_timer_queue ≡ w.push_msg_timer_queue)
  unfolding increment_and_get
  counted w w' push_mid e = (ground arith, ground arith)

  abbrev pushed : ℕ → Bytes → PushMsgContext → M (Option ℤ)
  pushed dev_fd msg ct =
      forward_msg_to_dev env dev_fd ct.push_mid msg ct >>= λ ret. pure (reply_of ret)

  pushed-IsValid :
      (fd : ℕ) (msg : Bytes) (ct : PushMsgContext) (w w' : World) (r : Option ℤ)
      → IsValid w.push_msg_timer_queue
      → pending ct.push_mid w.push_msg_timer_queue ≡ none
      → pushed fd msg ct w ≡ some (r, w')
      → IsValid w'.push_msg_timer_queue
  pushed-IsValid fd msg ct w w' r v fresh e =
      let (ret, w2, e1, e2) =
        >>=-split (forward_msg_to_dev env fd ct.push_mid msg ct) (λ ret. pure (reply_of ret)) w w' r
          e in
      let same : w' ≡ w2 = cc in rw same (forward-IsValid fd ct.push_mid msg ct w w2 ret v fresh e1)

  pub forward_start-Keeps : (mid : ℕ) (c : Slice) → Keeps (forward_start_send env mid c)
  unfolding forward_start_send
  forward_start-Keeps mid c w w' r v fresh e = elim (Bool-cases (c.size == 0)) [
    | inl sized ↦ by_route sized (route_of_conn w) refl
    | inr sized ↦ let same : w' ≡ w = ground (arith, e) in rw same v
  ]
    where
      by_route :
          (c.size == 0) ≡ true
          → (route : Route) → route_of_conn w ≡ route
          → IsValid w'.push_msg_timer_queue
      by_route sized (failed ret) h = let same : w' ≡ w = ground (arith, e) in rw same v
      by_route sized (routed dev_fd) h =
          let (push_mid, w1, e1, e2) =
            >>=-split increment_and_get
              (λ push_mid.
                pushed dev_fd (pack_start_send_push_msg push_mid)
                  (context mid w.conn.cfd push_mid type_on_client_start_send))
              w w' r (ground (arith, e)) in
          let (number, queue) = counted w w1 push_mid e1 in
          pushed-IsValid dev_fd (pack_start_send_push_msg push_mid)
            (context mid w.conn.cfd push_mid type_on_client_start_send) w1 w' r (rw queue v)
            (rw (queue, number) fresh) e2

  pub forward_voice-Keeps : (mid : ℕ) (c : Slice) → Keeps (forward_send_voice env mid c)
  unfolding forward_send_voice
  forward_voice-Keeps mid c w w' r v fresh e = by_route (route_of_conn w) refl
    where
      by_route : (route : Route) → route_of_conn w ≡ route → IsValid w'.push_msg_timer_queue
      by_route (failed ret) h = let same : w' ≡ w = ground (arith, e) in rw same v
      by_route (routed dev_fd) h =
          let (push_mid, w1, e1, e2) =
            >>=-split increment_and_get
              (λ push_mid. lift (assign c.here c.size) >>= λ voice.
                pushed dev_fd (pack_send_voice_push_msg push_mid voice)
                  (context mid w.conn.cfd push_mid type_on_client_send_voice_data))
              w w' r (ground (arith, e)) in
          let (voice, w2, e3, e4) =
            >>=-split (lift (assign c.here c.size))
              (λ voice.
                pushed dev_fd (pack_send_voice_push_msg push_mid voice)
                  (context mid w.conn.cfd push_mid type_on_client_send_voice_data))
              w1 w' r e2 in
          let (number, queue) = counted w w1 push_mid e1 in
          let (queue', _) = lift-Quiet (assign c.here c.size) w1 w2 voice e3 in
          pushed-IsValid dev_fd (pack_send_voice_push_msg push_mid voice)
            (context mid w.conn.cfd push_mid type_on_client_send_voice_data) w2 w' r
            (rw (queue', queue) v) (rw (queue', queue, number) fresh) e4

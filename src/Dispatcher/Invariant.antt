-- ===== src/Dispatcher/Invariant.antt =====
-- What every handler keeps: the timer queue stays valid, whatever the message.
use alarm.Base.{ℕ, ◌≡◌, Bool, Option, none, some, arith, if◌then◌else◌, if_cases}
use alarm.Base.Bytes.{Bytes}
use alarm.Base.Int.{ℤ, pos}
use alarm.Base.Run.{>>=-split}
use alarm.Connection.{World, Env}
use alarm.Dispatcher.Handler.{M, ◌>>=◌, pure, fault, Slice, send_response}
use alarm.Dispatcher.Push.{
  forward_start_send, handle_client_start_send, forward_send_voice, handle_client_send_voice,
}
use alarm.Dispatcher.Forwarding.{next_mid}
use alarm.Dispatcher.{Command, Parsed, refused, command, parse_msg, dispatch, handle_msg}
use alarm.Tlv.{pack_start_send_resp_msg, pack_client_send_voice_resp_msg}
use alarm.Timers.Valid.{IsValid, pending}
use alarm.Dispatcher.Quiet.{
  Quiet, pure-Quiet, send_response-Quiet, heartbeat-Quiet, Keeps, Quiet-Keeps, client_build-Quiet,
  dev_build-Quiet, client_free-Quiet, dev_free-Quiet,
}
use alarm.Dispatcher.Keeping.{
  start_answer-Keeps, voice_answer-Keeps, forward_start-Keeps, forward_voice-Keeps,
}

module _ (env : Env) where
  then-Keeps :
      {A B : Type 0} (m : M A) (k : A → M B) → Keeps m → ((a : A) → Quiet (k a)) → Keeps (m >>= k)
  then-Keeps m k p q w w' b v fresh e =
      let (a, w1, e1, e2) = >>=-split m k w w' b e in rw ((q a w1 w' b e2).0) (p w w1 a v fresh e1)

  start_reply-Quiet :
      (mid : ℕ) (reply : Option ℤ)
      → Quiet (elim reply [
        | none ↦ pure (pos 0)
        | some ret ↦ send_response env (pack_start_send_resp_msg mid ret) (pos 0)
      ])
  start_reply-Quiet mid none = pure-Quiet (pos 0)
  start_reply-Quiet mid (some ret) = send_response-Quiet env _ (pos 0)

  voice_reply-Quiet :
      (mid : ℕ) (reply : Option ℤ)
      → Quiet (elim reply [
        | none ↦ pure (pos 0)
        | some ret ↦ send_response env (pack_client_send_voice_resp_msg mid ret) (pos 0)
      ])
  voice_reply-Quiet mid none = pure-Quiet (pos 0)
  voice_reply-Quiet mid (some ret) = send_response-Quiet env _ (pos 0)

  start_send-Keeps : (mid : ℕ) (c : Slice) → Keeps (handle_client_start_send env mid c)
  unfolding handle_client_start_send
  start_send-Keeps mid c =
      then-Keeps (forward_start_send env mid c) _ (forward_start-Keeps env mid c)
        (start_reply-Quiet mid)

  send_voice-Keeps : (mid : ℕ) (c : Slice) → Keeps (handle_client_send_voice env mid c)
  unfolding handle_client_send_voice
  send_voice-Keeps mid c =
      then-Keeps (forward_send_voice env mid c) _ (forward_voice-Keeps env mid c)
        (voice_reply-Quiet mid)

  either-Keeps : (b : Bool) (x y : M ℤ) → Keeps x → Keeps y → Keeps (if b then x else y)
  either-Keeps b x y p q = if_cases Keeps b x y p q

  fault-Keeps : Keeps (fault {S = World} {A = ℤ})
  fault-Keeps w w' a v fresh e = cc

  dispatch-Keeps : (c : Command) → Keeps (dispatch env c)
  unfolding dispatch
  dispatch-Keeps c = either-Keeps _ _ _ (Quiet-Keeps _ (heartbeat-Quiet env c.mid c.value)) (
      either-Keeps _ _ _ (Quiet-Keeps _ (client_build-Quiet env c.mid c.value)) (
        either-Keeps _ _ _ (start_send-Keeps c.mid c.value) (
          either-Keeps _ _ _ (start_answer-Keeps env c.mid c.value) (
            either-Keeps _ _ _ (send_voice-Keeps c.mid c.value) (
              either-Keeps _ _ _ (voice_answer-Keeps env c.mid c.value) (
                either-Keeps _ _ _ (Quiet-Keeps _ (client_free-Quiet env c.mid c.value)) (
                  either-Keeps _ _ _ (Quiet-Keeps _ (dev_build-Quiet env c.mid c.value)) (
                    either-Keeps _ _ _ (Quiet-Keeps _ (dev_free-Quiet env c.mid c.value))
                      fault-Keeps))))))))

  parse_msg-same :
      (tlv_data : Bytes) (w w' : World) (p : Parsed) → parse_msg tlv_data w ≡ some (p, w') → w' ≡ w
  unfolding parse_msg
  parse_msg-same tlv_data w w' p e = ground arith

  after_parse-Keeps :
      (p : Parsed) → Keeps (elim p [ refused ret ↦ pure ret | command c ↦ dispatch env c ])
  after_parse-Keeps (refused ret) = Quiet-Keeps (pure ret) (pure-Quiet ret)
  after_parse-Keeps (command c) = dispatch-Keeps c

  -- Whatever message arrives, handling it keeps the timer queue valid, if it does not break down: the
  -- condition is that the next number of the message counter does not wait in the queue already.
  pub handle_msg_keeps :
      (tlv_data : Bytes) (w w' : World) (ret : ℤ)
      → IsValid w.push_msg_timer_queue
      → pending (next_mid w) w.push_msg_timer_queue ≡ none
      → handle_msg env tlv_data w ≡ some (ret, w')
      → IsValid w'.push_msg_timer_queue
  unfolding handle_msg
  handle_msg_keeps tlv_data w w' ret v fresh e =
      let (p, w1, e1, e2) =
        >>=-split (parse_msg tlv_data)
          (λ (p : Parsed). elim p [ refused code ↦ pure code | command c ↦ dispatch env c ]) w w'
          ret e in
      let same = parse_msg-same tlv_data w w1 p e1 in
      after_parse-Keeps p w1 w' ret (rw same v) (rw same fresh) e2

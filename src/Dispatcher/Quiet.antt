-- ===== src/Dispatcher/Quiet.antt =====
-- The steps of the handlers that leave the timers alone: all but those that forward a message or take
-- a device's answer.
use alarm.Base.{ℕ, ◌≡◌, ◌∙◌, Option, none, some, arith}
use alarm.Base.Bytes.{Bytes}
use alarm.Base.Int.{ℤ, pos, neg}
use alarm.Base.Run.{>>=-split}
use alarm.Coding.{decode_fixed32}
use alarm.Connection.{World, Env}
use alarm.Dispatcher.Channels.{
  heartbeat_ret, with_ids, build_client, build_dev, free_client, free_dev, handle_heartbeat,
  handle_client_build_vc, handle_client_free_vc, handle_dev_build_vc, handle_dev_free_vc,
}
use alarm.Dispatcher.Handler.{
  M, ◌>>=◌, pure, lift, get, Slice, read_id, read32, send_msg, send_response,
}
use alarm.Dispatcher.Forwarding.{next_mid}
use alarm.Errors.{
  error_tlv_parse_client_id, error_tlv_parse_dev_id, error_client_vc_invalid, error_dev_vc_invalid,
}
use alarm.Timers.Valid.{IsValid, pending}

-- A step that leaves the timers and the counter of messages alone.
abbrev pub Quiet : {A : Type 0} → M A → Type 0
Quiet {A = A} m =
    (w w' : World) (a : A)
    → m w ≡ some (a, w')
    → (w'.push_msg_timer_queue ≡ w.push_msg_timer_queue) × (w'.push_msg_mid ≡ w.push_msg_mid)

pub bind-Quiet :
    {A B : Type 0} (m : M A) (k : A → M B) → Quiet m → ((a : A) → Quiet (k a)) → Quiet (m >>= k)
bind-Quiet m k q r w w' b e =
    let (a, v, e1, e2) = >>=-split m k w w' b e in
    let (t1, c1) = q w v a e1 in let (t2, c2) = r a v w' b e2 in (t2 ∙ t1, c2 ∙ c1)

pub pure-Quiet : {A : Type 0} (a : A) → Quiet (pure {S = World} a)
pure-Quiet a w w' b e = (cc, cc)

pub lift-Quiet : {A : Type 0} (o : Option A) → Quiet (lift {S = World} o)
lift-Quiet none w w' b e = cc
lift-Quiet (some a) w w' b e = (cc, cc)

pub get-Quiet : Quiet (get {S = World})
get-Quiet w w' b e = (cc, cc)

module _ (env : Env) where
  pub send_msg-Quiet : (fd : ℕ) (msg : Bytes) → Quiet (send_msg env fd msg)
  unfolding send_msg
  send_msg-Quiet fd msg w w' b e = (ground arith, ground arith)

  pub send_response-Quiet : (msg : Bytes) (ret : ℤ) → Quiet (send_response env msg ret)
  unfolding send_response send_msg
  send_response-Quiet msg ret w w' b e = (ground arith, ground arith)

  pub heartbeat-Quiet : (mid : ℕ) (v : Slice) → Quiet (handle_heartbeat env mid v)
  unfolding handle_heartbeat
  heartbeat-Quiet mid v = bind-Quiet (read32 v.here) _ (lift-Quiet (decode_fixed32 v.here)) (λ type.
      bind-Quiet (lift (heartbeat_ret type v.here)) _ (lift-Quiet (heartbeat_ret type v.here))
        (λ ret. send_response-Quiet _ (pos 0)))

pub build_client-Quiet : (c d : Bytes) → Quiet (build_client c d)
unfolding build_client
build_client-Quiet c d w w' b e = (ground arith, ground arith)

pub build_dev-Quiet : (c d : Bytes) → Quiet (build_dev c d)
unfolding build_dev
build_dev-Quiet c d w w' b e = (ground arith, ground arith)

pub free_client-Quiet : (c d : Bytes) → Quiet (free_client c d)
unfolding free_client
free_client-Quiet c d w w' b e = (ground arith, ground arith)

pub free_dev-Quiet : (c d : Bytes) → Quiet (free_dev c d)
unfolding free_dev
free_dev-Quiet c d w w' b e = (ground arith, ground arith)

pub with_ids-Quiet :
    (here : Bytes) (act : Bytes → Bytes → M ℤ)
    → ((c d : Bytes) → Quiet (act c d))
    → Quiet (with_ids here act)
unfolding with_ids
with_ids-Quiet here act q = bind-Quiet (lift (read_id here)) _ (lift-Quiet (read_id here)) by_client
  where
    after_dev : Bytes → Option (Bytes × Bytes) → M ℤ
    after_dev c d = elim d [
      | none ↦ pure (neg error_tlv_parse_dev_id)
      | some (dev_id, end) ↦ act c dev_id
    ]

    by_dev : (c : Bytes) (d : Option (Bytes × Bytes)) → Quiet (after_dev c d)
    by_dev c none = pure-Quiet (neg error_tlv_parse_dev_id)
    by_dev c (some (d, rest)) = q c d

    by_client :
        (c : Option (Bytes × Bytes))
        → Quiet (elim c [
          | none ↦ pure (neg error_tlv_parse_client_id)
          | some (client_id, rest) ↦ lift (read_id rest) >>= after_dev client_id
        ])
    by_client none = pure-Quiet (neg error_tlv_parse_client_id)
    by_client (some (c, rest)) =
        bind-Quiet (lift (read_id rest)) (after_dev c) (lift-Quiet (read_id rest)) (by_dev c)

-- A step that keeps the timer queue valid, if the next id of the counter does not wait.
abbrev pub Keeps : {A : Type 0} → M A → Type 0
Keeps {A = A} m =
    (w w' : World) (a : A)
    → IsValid w.push_msg_timer_queue
    → pending (next_mid w) w.push_msg_timer_queue ≡ none
    → m w ≡ some (a, w')
    → IsValid w'.push_msg_timer_queue

pub Quiet-Keeps : {A : Type 0} (m : M A) → Quiet m → Keeps m
Quiet-Keeps m q w w' a v fresh e = rw ((q w w' a e).0) v

module _ (env : Env) where
  pub client_build-Quiet : (mid : ℕ) (v : Slice) → Quiet (handle_client_build_vc env mid v)
  unfolding handle_client_build_vc
  client_build-Quiet mid v =
      bind-Quiet (with_ids v.here build_client) _
        (with_ids-Quiet v.here build_client build_client-Quiet)
        (λ ret. send_response-Quiet env _ (pos 0))

  pub dev_build-Quiet : (mid : ℕ) (v : Slice) → Quiet (handle_dev_build_vc env mid v)
  unfolding handle_dev_build_vc
  dev_build-Quiet mid v =
      bind-Quiet (with_ids v.here build_dev) _ (with_ids-Quiet v.here build_dev build_dev-Quiet)
        (λ ret. send_response-Quiet env _ (pos 0))

  pub client_free-Quiet : (mid : ℕ) (v : Slice) → Quiet (handle_client_free_vc env mid v)
  unfolding handle_client_free_vc
  client_free-Quiet mid v =
      bind-Quiet (with_ids v.here free_client) _
        (with_ids-Quiet v.here free_client free_client-Quiet)
        (λ ret. send_response-Quiet env _ (neg error_client_vc_invalid))

  pub dev_free-Quiet : (mid : ℕ) (v : Slice) → Quiet (handle_dev_free_vc env mid v)
  unfolding handle_dev_free_vc
  dev_free-Quiet mid v =
      bind-Quiet (with_ids v.here free_dev) _ (with_ids-Quiet v.here free_dev free_dev-Quiet)
        (λ ret. send_response-Quiet env _ (neg error_dev_vc_invalid))

-- ===== src/Intake/Tests.antt =====
-- Two workers: three connections come, and one byte gets lost.
use alarm.Base.{◌≡◌, refl, arith, Bool, true, false, [], ◌∷◌, Option, none, some, length}
use alarm.Intake.{
  Intake, Reach, starts, accepts, notifies, master_init, accept_cb, write_byte, recv_notified_cb,
  hand_over, put_conn_info, pick_one_worker, take_conn,
}
use alarm.Intake.Share.{share, sent}
use alarm.Intake.Draining.{recv_all, recv_all_lem, missed_stuck}

-- The state after `accept_cb`, where it does not fail.
abbrev after : Option Intake → Intake
after none = master_init 2
after (some w) = w

abbrev first : Intake
unfolding accept_cb master_init
first = after (accept_cb (some 7) (master_init 2))

first-Reach : Reach 2 (7 ∷ []) first
unfolding accept_cb hand_over master_init pick_one_worker put_conn_info
first-Reach = accepts 7 starts refl refl refl

abbrev told : Intake
unfolding write_byte
told = write_byte true first

told-Reach : Reach 2 (7 ∷ []) told
unfolding write_byte
told-Reach = notifies true first-Reach

abbrev second : Intake
unfolding accept_cb
second = after (accept_cb (some 8) told)

abbrev lost : Intake
unfolding write_byte
lost = write_byte false first

lost-Reach : Reach 2 (7 ∷ []) lost
unfolding write_byte
lost-Reach = notifies false first-Reach

-- The socket 0 is accepted, and fails the worker's assertion.
abbrev zero_accepted : Intake
unfolding accept_cb master_init write_byte
zero_accepted = write_byte true (after (accept_cb (some 0) (master_init 2)))

zero_asserts : recv_notified_cb true 0 zero_accepted ≡ none
unfolding accept_cb hand_over master_init pick_one_worker put_conn_info write_byte recv_notified_cb
zero_asserts = refl

-- Worker 0 takes the first connection before the master has written the byte for the second.
worker_between :
    recv_all (true ∷ []) 0 second
    ≡ some (
        take_conn true 0 0
          (record { conn_id = 1; cfd = 7; worker = 0; buffer_event = false })
          []
          second)
unfolding recv_all accept_cb hand_over master_init pick_one_worker put_conn_info write_byte
    recv_notified_cb take_conn
worker_between = refl

shares : share 2 0 0 (7 ∷ 8 ∷ 9 ∷ []) ≡ (1, 7) ∷ (3, 9) ∷ []
unfolding share
shares = refl

recv_all_lem_example :
    (w' : Intake) × (recv_all (true ∷ []) 0 told ≡ some w')
    × (w'.conn_info_queue 0 ≡ [])
    × (sent (w'.taken 0) ≡ share 2 0 0 (7 ∷ []))
unfolding accept_cb hand_over master_init pick_one_worker put_conn_info write_byte
recv_all_lem_example =
    recv_all_lem 2 0 (7 ∷ []) (true ∷ []) told told-Reach (omega arith, tt) refl refl refl

missed_stuck_example :
    (length (lost.conn_info_queue 0) ≡ lost.missed 0)
    × ((made : Bool) → recv_notified_cb made 0 lost ≡ some lost)
unfolding accept_cb hand_over master_init pick_one_worker put_conn_info write_byte
missed_stuck_example = missed_stuck 2 0 (7 ∷ []) lost lost-Reach refl refl

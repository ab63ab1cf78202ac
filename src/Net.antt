-- ===== src/Net.antt =====
-- voice_server/include/socket_wrapper.h: `WriteSfd`, which writes a message to a non-blocking socket.
-- The kernel's `send` and `time` are the list of the replies that the calls get: what `send` takes is
-- up to the kernel. After the last reply `send` fails for good, so every list stands for a run that ends.
pub mod Write
mod Tests
use alarm.Base.{
  ℕ, suc, ◌-◌, Bool, true, false, List, [], ◌∷◌, ◌++◌, length, take, drop, ltb, leb, ◌==◌,
  if◌then◌else◌,
}
use alarm.Base.Bytes.{Bytes}

-- `sent k`: `send` returns k + 1. `again now`: it returns 0 or -1 with EINTR or EAGAIN, and `time(NULL)`
-- is `now`. `broken`: it returns 0 or -1 with another error.
pub data SendReply : Type 0 where
  sent : ℕ → SendReply
  again : ℕ → SendReply
  broken : SendReply

-- What `WriteSfd` returns, and the bytes that the kernel took.
pub record Written : Type 0 where
  pub success : Bool
  pub taken : Bytes

abbrev after_part : Bytes → Written → Written
after_part part w = record { success = w.success; taken = part ++ w.taken }

-- The loop on the replies, with what is left of the message and `first_time`.
unfoldable pub write_loop : List SendReply → Bytes → ℕ → Written
write_loop [] [] first_time = record { success = true; taken = [] }
write_loop [] (b ∷ msg) first_time = record { success = false; taken = [] }
write_loop (r ∷ replies) [] first_time = record { success = true; taken = [] }
write_loop (sent k ∷ replies) (b ∷ msg) first_time =
    let rest = write_loop replies (drop (suc k) (b ∷ msg)) first_time in
    if leb (length (b ∷ msg)) (suc k)
    then record { success = true; taken = b ∷ msg }
    else after_part (take (suc k) (b ∷ msg)) rest
write_loop (again now ∷ replies) (b ∷ msg) first_time =
    let waiting = write_loop replies (b ∷ msg) (if first_time == 0 then now else first_time) in
    if first_time == 0
    then waiting
    else if ltb 3 (now - first_time)
    then record { success = false; taken = [] }
    else waiting
write_loop (broken ∷ replies) (b ∷ msg) first_time = record { success = false; taken = [] }

unfoldable pub write_sfd : List SendReply → Bytes → Written
unfolding write_loop
write_sfd replies msg = write_loop replies msg 0

-- ===== src/Net/Tests.antt =====
-- `WriteSfd` against concrete replies of the kernel.
use alarm.Base.{◌≡◌, refl, true, false, [], ◌∷◌, List}
use alarm.Base.Bytes.{Bytes}
use alarm.Net.{SendReply, sent, again, broken, write_sfd}
use alarm.Net.Write.{Outcome, write_sfd_lem}

abbrev message : Bytes
message = 10 ∷ 20 ∷ 30 ∷ []

-- One byte, a full buffer twice, and then the rest.
abbrev in_parts : List SendReply
in_parts = sent 0 ∷ again 100 ∷ again 103 ∷ sent 1 ∷ []

write_sfd_lem_example : Outcome message (write_sfd in_parts message)
write_sfd_lem_example = write_sfd_lem in_parts message

whole : write_sfd in_parts message ≡ record { success = true; taken = message }
unfolding write_sfd
whole = refl

-- More than three seconds after the first failure it gives up.
gives_up :
    write_sfd (sent 0 ∷ again 100 ∷ again 104 ∷ sent 1 ∷ []) message
    ≡ record { success = false; taken = 10 ∷ [] }
unfolding write_sfd
gives_up = refl

breaks : write_sfd (broken ∷ []) message ≡ record { success = false; taken = [] }
unfolding write_sfd
breaks = refl

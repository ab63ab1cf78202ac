-- ===== src/Worker/Tests.antt =====
-- Concrete buffers through `ClientTcpReadCb`, with a `HandleMsg` that counts the messages.
use alarm.Base.{
  Bool, ℕ, zero, suc, ◌≤◌, ◌≡◌, refl, arith, [], ◌∷◌, ◌++◌, List, some, Option, length, take, drop,
  length-append,
}
use alarm.Base.Bytes.{Bytes}
use alarm.Base.Int.{ℤ, pos, neg}
use alarm.Coding.{encode_fixed32, decode_fixed32}
use alarm.Worker.{InBuffer, running, Header, read_header, is_invalid, process, conn_buffer_len}
use alarm.Worker.Framing.{frame, frames, partial_message_spins}
use alarm.Worker.Delivery.{all_handled, ended, deliver, process-deliver}
use alarm.Worker.Reading.{Fills, fill_lem, IsWithin, arrived}
use alarm.Worker.Json.{process_json, Given, outcome, process_json_lem, begun_line_spins}
use alarm.Text.{find, is_prefix}

-- It refuses the empty message.
abbrev count : Bytes → ℕ → Option (ℤ × ℕ)
count [] n = some (neg 13005, n)
count (b ∷ bs) n = some (pos 0, suc n)

abbrev two_messages : List Bytes
two_messages = (1 ∷ 2 ∷ []) ∷ (3 ∷ []) ∷ []

abbrev two_arrived : InBuffer
unfolding frame encode_fixed32
two_arrived = record {
  in_buffer = (frames two_messages ++ (0 ∷ 0 ∷ [])) ++ (9 ∷ 9 ∷ 9 ∷ []);
  in_buffer_len = 29;
}

process-deliver_example :
    ended (process count 3 100 two_arrived 0) ≡ some (deliver count two_messages (0 ∷ 0 ∷ []) 0)
unfolding frame encode_fixed32 two_arrived
process-deliver_example =
    process-deliver count 3 100 two_messages (0 ∷ 0 ∷ []) (9 ∷ 9 ∷ 9 ∷ []) two_arrived 0 refl refl
      (omega arith) (omega arith) (omega arith)

delivered : deliver count two_messages (0 ∷ 0 ∷ []) 0 ≡ all_handled (0 ∷ 0 ∷ []) 2
unfolding deliver
delivered = refl

-- Sixteen bytes of a message of 20.
abbrev part : InBuffer
part = record {
  in_buffer = 0 ∷ 0 ∷ 0 ∷ 0 ∷ 4 ∷ 0 ∷ 0 ∷ 0 ∷ 20 ∷ 0 ∷ 0 ∷ 0 ∷ 1 ∷ 2 ∷ 3 ∷ 4 ∷ [];
  in_buffer_len = 16;
}

abbrev part_header : Header
part_header = record { type = 0; length = 4; msg_length = 20 }

partial_message_spins_example : process count 1000 100 part 0 ≡ running
unfolding read_header decode_fixed32 is_invalid
partial_message_spins_example =
    partial_message_spins count 1000 100 part part_header 0 refl refl (omega arith) (omega arith)
      (λ e. absurd (omega arith))

abbrev short : InBuffer
short = record {
  in_buffer = 0 ∷ 0 ∷ 0 ∷ 0 ∷ 4 ∷ 0 ∷ 0 ∷ 0 ∷ 8 ∷ 0 ∷ 0 ∷ 0 ∷ [];
  in_buffer_len = 12;
}

abbrev short_header : Header
short_header = record { type = 0; length = 4; msg_length = 8 }

-- A peer that has sent these bytes, all of which a read gets that has room for them.
abbrev read_bytes : ℕ → Bytes → Bytes × Bytes
read_bytes n input = (take n input, drop n input)

length-take_le : (n : ℕ) (input : Bytes) → length (take n input) ≤ n
length-take_le zero input = omega arith
length-take_le (suc n) [] = omega arith
length-take_le (suc n) (b ∷ bs) = omega (arith, length-take_le n bs)

zeros : ℕ → Bytes
zeros zero = []
zeros (suc n) = 0 ∷ zeros n

length-zeros : (n : ℕ) → length (zeros n) ≡ n
unfolding zeros
length-zeros zero = refl
length-zeros (suc n) = omega (arith, length-zeros n)

abbrev fresh : InBuffer
fresh = record { in_buffer = zeros conn_buffer_len; in_buffer_len = 0 }

fill_lem_example : Fills read_bytes length-take_le 10241 fresh (1 ∷ 2 ∷ 3 ∷ [])
fill_lem_example =
    fill_lem read_bytes length-take_le 10241 fresh (1 ∷ 2 ∷ 3 ∷ [])
      (record { full = length-zeros conn_buffer_len; within = omega arith }) (omega arith)

-- "a", "bc" and the beginning of a third message.
abbrev lines : Bytes
lines = 97 ∷ 13 ∷ 10 ∷ 98 ∷ 99 ∷ 13 ∷ 10 ∷ 100 ∷ []

abbrev json_arrived : InBuffer
json_arrived = record { in_buffer = lines ++ zeros 10232; in_buffer_len = 8 }

json_arrived-IsWithin : IsWithin json_arrived
json_arrived-IsWithin = record {
  full = omega (arith, length-append lines (zeros 10232), length-zeros 10232);
  within = omega arith;
}

process_json_lem_example :
    (b : InBuffer) × (result : Option (Bool × ℕ)) × (process_json count 1 100 json_arrived 0
      ≡ outcome count 100 b result)
    × Given count ((97 ∷ []) ∷ (98 ∷ 99 ∷ []) ∷ []) 0 result
    × IsWithin b
    × (arrived b ≡ 100 ∷ [])
unfolding find is_prefix
process_json_lem_example =
    process_json_lem count (97 ∷ []) ((98 ∷ 99 ∷ []) ∷ []) (100 ∷ []) 0 100 json_arrived 0
      json_arrived-IsWithin (refl, (refl, tt)) (((λ e. omega arith), (λ e. omega arith)), tt) refl

-- The first bytes of a message.
abbrev begun : InBuffer
begun = record { in_buffer = 97 ∷ 98 ∷ 13 ∷ zeros 10237; in_buffer_len = 3 }

begun_line_spins_example : process_json count 1000 10237 begun 0 ≡ running
unfolding find is_prefix
begun_line_spins_example = begun_line_spins count 1000 10237 begun 0 refl

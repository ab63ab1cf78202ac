-- ===== src/Dispatcher/Parse.antt =====
-- `HandleMsg` takes apart exactly the messages that are laid out as the protocol has them.
use alarm.Base.{ℕ, ◌+◌, ◌%◌, ◌^◌, ◌<◌, ◌≡◌, refl, ◌++◌, some, arith, length, drop}
use alarm.Base.Bytes.{Bytes}
use alarm.Base.Int.{IsU32}
use alarm.Coding.{encode_fixed32, decode_fixed32}
use alarm.Connection.{World}
use alarm.Dispatcher.{Command, command, parse_msg, c_str}
use alarm.Tlv.{type_mid}

-- A message as the protocol lays it out, without the block of its length: the message id, then the
-- command with its value.
unfoldable pub request : ℕ → ℕ → Bytes → Bytes
request mid cmd value =
    encode_fixed32 type_mid
    ++ (encode_fixed32 4
        ++ (encode_fixed32 mid ++ (encode_fixed32 cmd ++ (encode_fixed32 (length value) ++ value))))

-- The command that it stands for: the value's slice points at the value and the terminator.
abbrev pub requested : ℕ → ℕ → Bytes → Command
requested mid cmd value = record {
  mid = mid;
  cmd = cmd;
  value = record { here = c_str value; size = length value };
}

drop-encode : (v : ℕ) (rest : Bytes) → drop 4 (encode_fixed32 v ++ rest) ≡ rest
unfolding encode_fixed32
drop-encode v rest = refl

-- A message of the protocol is read as its id, command and value, and the state is not touched.
pub parse_msg-request :
    (mid cmd : ℕ) (value : Bytes) (w : World)
    → IsU32 mid
    → IsU32 cmd
    → 20 + length value < 2 ^ 32
    → parse_msg (request mid cmd value) w ≡ some (command (requested mid cmd value), w)
unfolding parse_msg request encode_fixed32 decode_fixed32
parse_msg-request mid cmd value w hm hc hv = ground arith

-- What `HandleMsg` has read where it goes on to the command.
pub record Accepted (tlv_data : Bytes) (c : Command) (w w' : World) : Type 0 where
  pub read_type : decode_fixed32 (c_str tlv_data) ≡ some type_mid
  pub read_len : decode_fixed32 (drop 4 (c_str tlv_data)) ≡ some 4
  pub read_mid : decode_fixed32 (drop 8 (c_str tlv_data)) ≡ some c.mid
  pub read_cmd : decode_fixed32 (drop 12 (c_str tlv_data)) ≡ some c.cmd
  pub read_size : decode_fixed32 (drop 4 (drop 12 (c_str tlv_data))) ≡ some c.value.size
  pub size : length tlv_data ≡ (20 + c.value.size) % 2 ^ 32
  pub here : c.value.here ≡ drop 8 (drop 12 (c_str tlv_data))
  pub same : w' ≡ w

pub parse_msg-Accepted :
    (tlv_data : Bytes) (c : Command) (w w' : World)
    → parse_msg tlv_data w ≡ some (command c, w')
    → Accepted tlv_data c w w'
unfolding parse_msg
parse_msg-Accepted tlv_data c w w' e = record {
  read_type = ground arith;
  read_len = ground arith;
  read_mid = ground arith;
  read_cmd = ground arith;
  read_size = ground arith;
  size = ground arith;
  here = ground arith;
  same = ground arith;
}

-- ===== src/Worker.antt =====
-- voice_server/src/worker.cc: `ClientTcpReadCb`, which collects the bytes of a connection and cuts them
-- into messages of the tlv protocol (in Worker/Json of the JSON protocol), which `Dispatcher::HandleMsg`
-- then handles: a parameter here.
pub mod Framing
pub mod Delivery
pub mod Reading
pub mod Json
mod Tests
use alarm.Base.{
  ℕ, zero, suc, ◌+◌, ◌-◌, ◌*◌, ◌%◌, ◌^◌, Bool, not, ◌||◌, List, [], ◌∷◌, ◌++◌, Option, none, some,
  length, take, drop, ltb, ◌==◌, if◌then◌else◌,
}
use alarm.Base.Bytes.{Bytes}
use alarm.Base.Int.{ℤ, is_zero}
use alarm.Coding.{decode_fixed32}
use alarm.Tlv.{type_length, msg_header_size}

-- `CONN_BUFFER_LEN`
abbrev pub conn_buffer_len : ℕ
conn_buffer_len = 10 * 1024

-- `in_buffer`, all of it, and `in_buffer_len`: behind that lies what was there before.
pub record InBuffer : Type 0 where
  pub in_buffer : Bytes
  pub in_buffer_len : ℕ

-- `bufferevent_read` stores what it gets behind the bytes that are there.
unfoldable pub store : Bytes → InBuffer → InBuffer
store part b = record {
  in_buffer =
      take b.in_buffer_len b.in_buffer
      ++ (part ++ drop (b.in_buffer_len + length part) b.in_buffer);
  in_buffer_len = (b.in_buffer_len + length part) % 2 ^ 16;
}

-- `in_buffer_len -= msg_length; memmove(in_buffer, in_buffer + msg_length, in_buffer_len)`
unfoldable pub consume : ℕ → InBuffer → InBuffer
consume msg_length b =
    let left = b.in_buffer_len - msg_length in
    record {
      in_buffer = take left (drop msg_length b.in_buffer) ++ drop left b.in_buffer;
      in_buffer_len = left;
    }

-- The result of the inner read loop: the buffer, `left_size`, and what the bufferevent still has.
pub record Filled (Input : Type 0) : Type 0 where
  pub buffer : InBuffer
  pub left_size : ℕ
  pub input : Input

-- libevent: the bytes that a read of at most so many bytes gets (none: it returned 0 or less).
module _ {Input : Type 0} (bufferevent_read : ℕ → Input → Bytes × Input) where
  -- "read util no data or full buffer"; `none` is the end of the fuel.
  unfoldable pub fill : ℕ → InBuffer → Input → Option (Filled Input)
  fill zero b input = none
  fill (suc fuel) b input =
      let left_size = conn_buffer_len - b.in_buffer_len in
      let (part, rest) = bufferevent_read left_size input in
      let more = fill fuel (store part b) rest in
      if left_size == 0
      then some (record { buffer = b; left_size = 0; input = input })
      else if length part == 0
      then some (record { buffer = b; left_size = left_size; input = rest })
      else more

-- How the loop over the messages ends: it breaks, to read on; it returns; it closes the connection;
-- undefined behaviour; or it is still running when the fuel is spent.
pub data Outcome (S : Type 0) : Type 0 where
  reread : InBuffer → S → Outcome S
  returned : InBuffer → S → Outcome S
  closed : S → Outcome S
  faulted : Outcome S
  running : Outcome S

pub record Header : Type 0 where
  pub type : ℕ
  pub length : ℕ
  pub msg_length : ℕ

-- The twelve bytes at the front of `in_buffer`, however many of them have arrived.
unfoldable pub read_header : Bytes → Option Header
read_header p = elim (decode_fixed32 p) [
  | none ↦ none
  | some type ↦ elim (decode_fixed32 (drop 4 p)) [
    | none ↦ none
    | some length ↦ elim (decode_fixed32 (drop 8 p)) [
      | none ↦ none
      | some msg_length ↦ some (record { type = type; length = length; msg_length = msg_length })
    ]
  ]
]

unfoldable pub is_invalid : Header → Bool
is_invalid h =
    not (h.type == type_length)
    || (not (h.length == 4)
        || (ltb conn_buffer_len h.msg_length || ltb h.msg_length msg_header_size))

-- `break` to read on where the buffer was full, or `return`.
abbrev pub leave : {S : Type 0} → ℕ → InBuffer → S → Outcome S
leave left_size b s = if left_size == 0 then reread b s else returned b s

module _ {S : Type 0} (handle_msg : Bytes → S → Option (ℤ × S)) where
  -- The loop over the messages. Where less than a message is there and the buffer was not full, the
  -- `continue` goes on with this same loop. `string(in_buffer + 12, msg_length - 12)` wraps below 12.
  unfoldable pub process : ℕ → ℕ → InBuffer → S → Outcome S
  process zero left_size b s = running
  process (suc fuel) left_size b s =
      let again = process fuel left_size b s in
      if ltb b.in_buffer_len msg_header_size
      then leave left_size b s
      else elim (read_header b.in_buffer) [
        | none ↦ faulted
        | some h ↦
            let next = λ (s' : S). process fuel left_size (consume h.msg_length b) s' in
            if is_invalid h
            then closed s
            else if ltb b.in_buffer_len h.msg_length
            then (if left_size == 0 then reread b s else again)
            else if ltb h.msg_length 12
            then faulted
            else elim (handle_msg (take (h.msg_length - 12) (drop 12 b.in_buffer)) s) [
              | none ↦ faulted
              | some (ret, s') ↦ if is_zero ret then next s' else closed s'
            ]
      ]

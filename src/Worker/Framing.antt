-- ===== src/Worker/Framing.antt =====
-- The loop over the messages of `ClientTcpReadCb`: messages that are there whole are handled in order,
-- and one that is not makes the loop run for ever.
use alarm.Base.{
  ℕ, zero, suc, ◌+◌, ◌<◌, ◌≤◌, ◌≡◌, ◌≢◌, refl, false, List, [], ◌∷◌, ◌++◌, Option, some, arith,
  length, take, drop, take-append, drop-append,
}
use alarm.Base.Bytes.{Bytes}
use alarm.Base.Int.{ℤ}
use alarm.Coding.{encode_fixed32, decode_fixed32}
use alarm.Tlv.{type_length}
use alarm.Worker.{
  InBuffer, faulted, running, Header, read_header, is_invalid, process, conn_buffer_len,
}

-- A message as a peer sends it: the block of its length, and what `HandleMsg` gets.
unfoldable pub frame : Bytes → Bytes
frame payload =
    encode_fixed32 type_length
    ++ (encode_fixed32 4 ++ (encode_fixed32 (12 + length payload) ++ payload))

abbrev pub frames : List Bytes → Bytes
frames [] = []
frames (p ∷ ps) = frame p ++ frames ps

pub length-frame : (p : Bytes) → length (frame p) ≡ 12 + length p
unfolding frame encode_fixed32
length-frame p = omega arith

pub header-frame :
    (p rest : Bytes)
    → 12 + length p ≤ conn_buffer_len
    → read_header (frame p ++ rest)
      ≡ some (record { type = type_length; length = 4; msg_length = 12 + length p })
unfolding frame encode_fixed32 read_header decode_fixed32
header-frame p rest h = ground arith

pub payload-frame : (p rest : Bytes) → take (length p) (drop 12 (frame p ++ rest)) ≡ p
unfolding frame encode_fixed32
payload-frame p rest = take-append p rest

pub behind-frame : (p rest : Bytes) → drop (12 + length p) (frame p ++ rest) ≡ rest
behind-frame p rest = rw (← length-frame p) (drop-append (frame p) rest)

module _ {S : Type 0} (handle_msg : Bytes → S → Option (ℤ × S)) where
  -- Where a valid header stands in the buffer, at least 8 bytes have arrived but not the whole message,
  -- and the buffer was not full, the loop never ends: it is running after any number of rounds.
  pub partial_message_spins :
      (fuel left_size : ℕ) (b : InBuffer) (h : Header) (s : S)
      → read_header b.in_buffer ≡ some h
      → is_invalid h ≡ false
      → 8 ≤ b.in_buffer_len
      → b.in_buffer_len < h.msg_length
      → left_size ≢ 0
      → process handle_msg fuel left_size b s ≡ running
  unfolding process
  partial_message_spins zero left_size b h s r v enough part left = refl
  partial_message_spins (suc fuel) left_size b h s r v enough part left =
      ground (arith, partial_message_spins fuel left_size b h s r v enough part left)

  -- A header that declares 8 to 11 bytes passes the check, and once so many bytes have arrived the length
  -- of the string handed to `HandleMsg` wraps: undefined behaviour.
  pub short_message_faults :
      (fuel left_size : ℕ) (b : InBuffer) (h : Header) (s : S)
      → read_header b.in_buffer ≡ some h
      → is_invalid h ≡ false
      → h.msg_length < 12
      → h.msg_length ≤ b.in_buffer_len
      → process handle_msg (suc fuel) left_size b s ≡ faulted
  unfolding process is_invalid
  short_message_faults fuel left_size b h s r v short there = ground arith

-- ===== src/Lines.antt =====
-- deviceOnline/src/worker_threads.cc (userOnline/src has the same code): `ClientTcpReadCb`, which
-- collects the bytes of a connection and hands each line to `CLogicOpt::StartLogicOpt`, a parameter
-- here, as is libevent.
pub mod Buffer
pub mod Bounds
pub mod Joined
pub mod InOrder
pub mod Framing
mod Tests
use alarm.Base.{
  ℕ, suc, ◌+◌, ◌-◌, ◌*◌, Bool, true, not, ◌&&◌, List, [], ◌∷◌, ◌++◌, Option, none, some, length,
  take, drop, leb, ◌==◌, if◌then◌else◌,
}
use alarm.Base.Bytes.{Bytes, bytes_eq}
use alarm.Base.Run.{Run, ◌>>=◌, ◌>>◌, pure}
use alarm.Text.{crlf, find_crlf, find_last_of, split_data}

-- `DATA_BUFFER_SIZE`
abbrev pub data_buffer_size : ℕ
data_buffer_size = 30 * 1024

-- `TOKEN_STR`, of `TOKEN_LENGTH` bytes
abbrev pub token_str : Bytes
token_str = 64 ∷ 35 ∷ 49 ∷ 36 ∷ 54 ∷ []

abbrev pub token_length : ℕ
token_length = 5

-- `conn`, the fields that reading uses; `r_buf` is all of the buffer.
pub record ReadBuffer : Type 0 where
  pub r_buf : Bytes
  pub rlen : ℕ
  pub is_verify : Bool

-- `memmove(rBuf, rBuf + from, count)`
unfoldable pub memmove : ℕ → ℕ → Bytes → Bytes
memmove from count buf = take count (drop from buf) ++ drop count buf

-- `bufferevent_read` stores what it gets behind the bytes that are there.
unfoldable pub receive : Bytes → ReadBuffer → ReadBuffer
receive part c = record c {
  r_buf = take c.rlen c.r_buf ++ (part ++ drop (c.rlen + length part) c.r_buf);
  rlen = c.rlen + length part;
}

-- The check of the token; `none`: the connection is closed.
unfoldable pub verify : ReadBuffer → Option ReadBuffer
unfolding memmove
verify c =
    if leb token_length c.rlen && not c.is_verify
    then (if not (bytes_eq (take token_length c.r_buf) token_str)
        then none
        else some (record {
          r_buf = memmove token_length (c.rlen - token_length) c.r_buf;
          rlen = c.rlen - token_length;
          is_verify = true;
        }))
    else some c

-- `str_recv`
abbrev pub str_recv : ReadBuffer → Bytes
str_recv c = take c.rlen c.r_buf

-- `find_last_of(CRLF) + 1`; npos, an `int`, is -1.
unfoldable pub line_end : Bytes → ℕ
unfolding find_last_of
line_end s = elim (find_last_of crlf s) [ none ↦ 0 | some i ↦ suc i ]

unfoldable pub discard : ℕ → ReadBuffer → ReadBuffer
unfolding memmove
discard len c = record c {
  r_buf = memmove len (data_buffer_size - len) c.r_buf;
  rlen = c.rlen - len;
}

-- How the callback ends: the connection stays, it was closed, or undefined behaviour of the logic.
pub data Outcome (S : Type 0) : Type 0 where
  stays : ReadBuffer → S → Outcome S
  closed : S → Outcome S
  faulted : Outcome S

abbrev pub after_lines : {S : Type 0} → ReadBuffer → Option (Unit {0} × S) → Outcome S
after_lines c none = faulted
after_lines c (some (_, s)) = stays c s

module _ {S : Type 0} (start_logic_opt : Bytes → Run S (Unit {0})) where
  unfoldable pub handle_lines : List Bytes → Run S (Unit {0})
  handle_lines [] = pure tt
  handle_lines (line ∷ rest) = do start_logic_opt line; handle_lines rest

  -- What follows the read. The fuel is enough for any text (Text/Splitting).
  unfoldable pub take_lines : ReadBuffer → S → Outcome S
  unfolding find_crlf split_data line_end discard handle_lines
  take_lines c s =
      if find_crlf (str_recv c)
      then elim (split_data (suc (length (str_recv c))) crlf (str_recv c) []) [
        | none ↦ faulted
        | some lines ↦ after_lines (discard (line_end (str_recv c)) c) (handle_lines lines s)
      ]
      else stays c s

  -- libevent: the bytes that a read of at most so many bytes gets (none: it returned 0 or less).
  module _ {Input : Type 0} (bufferevent_read : ℕ → Input → Bytes × Input) where
    unfoldable pub client_tcp_read_cb : ReadBuffer → Input → S → Outcome S
    unfolding receive verify take_lines
    client_tcp_read_cb c input s =
        let part = (bufferevent_read (data_buffer_size - c.rlen) input).0 in
        if length part == 0
        then take_lines c s
        else elim (verify (receive part c)) [ none ↦ closed s | some c' ↦ take_lines c' s ]

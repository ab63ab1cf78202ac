-- ===== src/Worker/Json.antt =====
-- The JSON branch of `ClientTcpReadCb` (voice_server/src/worker.cc): the messages of the buffer end with
-- CRLF, and `JsonDispatcher::HandleMsg` handles each; it calls libjson, and is a parameter here. The
-- string functions are those of voice_server/include/utils.h.
use alarm.Base.{
  Option-cases, inl, inr, ◌≢◌, ℕ, zero, suc, ◌-◌, ◌≡◌, refl, sym, ap, ◌∙◌, Bool, true, false, List,
  [], ◌∷◌, ◌++◌, Option, none, some, arith, All, length, take, if◌then◌else◌,
}
use mathlib.Core.List.{append_assoc}
use alarm.Base.Bytes.{Bytes}
use alarm.Base.Int.{ℤ, pos, negsuc, is_zero}
use alarm.Lines.{memmove, line_end}
use alarm.Lines.Buffer.{NoBreaks, memmove_lem, length-memmove, line_end-joined}
use alarm.Lines.Joined.{NoBreaks-Clean, joined_end, find_crlf-joined}
use alarm.Text.{crlf, find_crlf, split_data}
use alarm.Text.Splitting.{Clean, joined, split_joined, length-joined}
use alarm.Worker.{
  InBuffer, Outcome, running, faulted, reread, returned, closed, leave, conn_buffer_len,
}
use alarm.Worker.Reading.{IsWithin, arrived}

-- `memmove(in_buffer, in_buffer + len, CONN_BUFFER_LEN - len); in_buffer_len -= len`
unfoldable pub discard_lines : ℕ → InBuffer → InBuffer
unfolding memmove
discard_lines len b = record {
  in_buffer = memmove len (conn_buffer_len - len) b.in_buffer;
  in_buffer_len = b.in_buffer_len - len;
}

discard_lines_lem :
    (p tail : Bytes) (b : InBuffer)
    → IsWithin b
    → arrived b ≡ p ++ tail
    → IsWithin (discard_lines (length p) b) × (arrived (discard_lines (length p) b) ≡ tail)
unfolding discard_lines
discard_lines_lem p tail b v e =
    let (h, moved) =
      memmove_lem conn_buffer_len b.in_buffer_len p tail b.in_buffer v.full v.within e in
    (
      record {
        full =
            length-memmove (length p) (conn_buffer_len - length p) b.in_buffer
              (omega (arith, v.full, v.within, h))
            ∙ v.full;
        within = omega (arith, v.within);
      },
      moved,
    )

module _ {S : Type 0} (handle_msg : Bytes → S → Option (ℤ × S)) where
  -- The loop over `json_data_vec`; `false`: a message was answered with an error, and the rest is left.
  unfoldable pub handle_json : List Bytes → S → Option (Bool × S)
  handle_json [] s = some (true, s)
  handle_json (msg ∷ msgs) s = elim (handle_msg msg s) [
    | none ↦ none
    | some (ret, s') ↦
        let rest = λ (s : S). handle_json msgs s in
        if is_zero ret then rest s' else some (false, s')
  ]

  -- What follows that loop: `CloseErrorConn`; or `break` where the buffer was full, and `return`.
  abbrev pub after_json : ℕ → InBuffer → Option (Bool × S) → Outcome S
  after_json left_size b none = faulted
  after_json left_size b (some (false, s)) = closed s
  after_json left_size b (some (true, s)) = leave left_size b s

  -- The loop over the messages; where no CRLF is in the buffer, it starts again. The fuel of `SplitData`
  -- is enough for any text (Text/Splitting).
  unfoldable pub process_json : ℕ → ℕ → InBuffer → S → Outcome S
  unfolding find_crlf split_data line_end discard_lines handle_json
  process_json zero left_size b s = running
  process_json (suc fuel) left_size b s =
      let recv_str = take b.in_buffer_len b.in_buffer in
      let again = process_json fuel left_size b s in
      if find_crlf recv_str
      then elim (split_data (suc (length recv_str)) crlf recv_str []) [
        | none ↦ faulted
        | some json_data_vec ↦
            after_json left_size (discard_lines (line_end recv_str) b) (handle_json json_data_vec s)
      ]
      else again

  process_json-some :
      (lines : List Bytes) (fuel left_size : ℕ) (b : InBuffer) (s : S)
      → find_crlf (arrived b) ≡ true
      → split_data (suc (length (arrived b))) crlf (arrived b) [] ≡ some lines
      → process_json (suc fuel) left_size b s
        ≡ after_json left_size (discard_lines (line_end (arrived b)) b) (handle_json lines s)
  unfolding process_json
  process_json-some lines fuel left_size b s y e = ground (arith, y, e)

  -- What it is to hand over messages: in their order, each once, up to the first that is answered with an
  -- error. The result has the dispatcher's state, and whether there was none such; `none`: it broke down.
  pub data Given : List Bytes → S → Option (Bool × S) → Type 0 where
    all_given : {s : S} → Given [] s (some (true, s))
    answered :
        {msg : Bytes} {msgs : List Bytes} {s t : S} {result : Option (Bool × S)}
        → handle_msg msg s ≡ some (pos 0, t)
        → Given msgs t result
        → Given (msg ∷ msgs) s result
    refused :
        {msg : Bytes} {msgs : List Bytes} {s t : S} (ret : ℤ)
        → handle_msg msg s ≡ some (ret, t)
        → ret ≢ pos 0
        → Given (msg ∷ msgs) s (some (false, t))
    breaks :
        {msg : Bytes} {msgs : List Bytes} {s : S}
        → handle_msg msg s ≡ none
        → Given (msg ∷ msgs) s none

  -- What the callback does then: it closes the connection after an error; else it reads on where the buffer
  -- was full, and returns where it was not.
  abbrev pub outcome : ℕ → InBuffer → Option (Bool × S) → Outcome S
  outcome left_size b none = faulted
  outcome left_size b (some (false, s)) = closed s
  outcome zero b (some (true, s)) = reread b s
  outcome (suc left) b (some (true, s)) = returned b s

  after-outcome :
      (left_size : ℕ) (b : InBuffer) (result : Option (Bool × S))
      → after_json left_size b result ≡ outcome left_size b result
  after-outcome left_size b none = refl
  after-outcome left_size b (some (false, s)) = refl
  after-outcome zero b (some (true, s)) = refl
  after-outcome (suc left) b (some (true, s)) = ground arith

  handle_json-Given : (msgs : List Bytes) (s : S) → Given msgs s (handle_json msgs s)
  unfolding handle_json
  handle_json-Given [] s = all_given
  handle_json-Given (msg ∷ msgs) s = elim (Option-cases (handle_msg msg s)) [
    | inl e ↦ rw (handle_json, e) (breaks e)
    | inr ((ret, t), e) ↦ by_ret ret t e (handle_json-Given msgs t)
  ]
    where
      fails :
          (ret : ℤ) (t : S)
          → handle_msg msg s ≡ some (ret, t)
          → is_zero ret ≡ false
          → handle_json (msg ∷ msgs) s ≡ some (false, t)
      fails ret t e n = ground (arith, e, n)

      by_ret :
          (ret : ℤ) (t : S)
          → handle_msg msg s ≡ some (ret, t)
          → Given msgs t (handle_json msgs t)
          → Given (msg ∷ msgs) s (handle_json (msg ∷ msgs) s)
      by_ret (pos zero) t e later = rw (handle_json, e) (answered e later)
      by_ret (pos (suc n)) t e later =
          rw (fails (pos (suc n)) t e (ground arith))
            (refused (pos (suc n)) e (λ z. ground (arith, z)))
      by_ret (negsuc n) t e later =
          rw (fails (negsuc n) t e refl) (refused (negsuc n) e (λ z. ground (arith, z)))

  -- Where the buffer has one or more messages without a CRLF in them, each with CRLF behind it, and then
  -- bytes without line breaks, one round of the loop hands the messages to the dispatcher in order, each
  -- once, up to the first that it answers with an error, and then closes the connection; with no error it
  -- leaves the bytes behind the messages, and nothing else, in the buffer, and reads on where the buffer was
  -- full, or returns.
  pub process_json_lem :
      (v : Bytes) (vs : List Bytes) (tail : Bytes) (fuel left_size : ℕ) (b : InBuffer) (s : S)
      → IsWithin b
      → All Clean (v ∷ vs)
      → NoBreaks tail
      → arrived b ≡ joined (v ∷ vs) crlf tail
      → (b' : InBuffer) × (result : Option (Bool × S)) × (process_json (suc fuel) left_size b s
          ≡ outcome left_size b' result)
        × Given (v ∷ vs) s result
        × IsWithin b'
        × (arrived b' ≡ tail)
  process_json_lem v vs tail fuel left_size b s h cl nb e =
      let whole = joined (v ∷ vs) crlf tail in
      let (p, cut) = joined_end v vs tail in
      let (w, left) =
        discard_lines_lem (p ++ crlf) tail b h (e ∙ cut tail ∙ sym (append_assoc p crlf tail)) in
      let split =
        split_joined (v ∷ vs) (suc (length whole)) tail [] cl (NoBreaks-Clean tail nb)
          (omega (arith, length-joined (v ∷ vs) tail)) in
      (
        discard_lines (length (p ++ crlf)) b,
        handle_json (v ∷ vs) s,
        process_json-some (v ∷ vs) fuel left_size b s (rw e (find_crlf-joined v vs tail cl.0))
              (rw e split)
            ∙ ap (λ (n : ℕ). after_json left_size (discard_lines n b) (handle_json (v ∷ vs) s))
                (ap line_end (e ∙ cut tail) ∙ line_end-joined p tail nb)
            ∙ after-outcome left_size (discard_lines (length (p ++ crlf)) b)
                (handle_json (v ∷ vs) s),
        handle_json-Given (v ∷ vs) s,
        w,
        left,
      )

  -- Where the bytes in the buffer have no CRLF among them, the loop over the messages never ends, whether
  -- the buffer is full or not: nothing is read any more.
  pub begun_line_spins :
      (fuel left_size : ℕ) (b : InBuffer) (s : S)
      → Clean (arrived b)
      → process_json fuel left_size b s ≡ running
  unfolding process_json find_crlf
  begun_line_spins zero left_size b s h = refl
  begun_line_spins (suc fuel) left_size b s h =
      ground (arith, h, begun_line_spins fuel left_size b s h)

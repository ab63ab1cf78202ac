-- ===== src/Worker/Delivery.antt =====
-- Messages that are there whole are handled in order, each once, and what follows them stays.
use alarm.Base.{
  ℕ, zero, suc, ◌+◌, ◌-◌, ◌<◌, ◌≤◌, ◌≡◌, refl, ap, ◌∙◌, true, List, [], ◌∷◌, ◌++◌, Option, none,
  some, arith, length, take, drop, ltb, if◌then◌else◌, length-append, take-append,
}
use mathlib.Core.List.{append_assoc}
use alarm.Base.Bytes.{Bytes}
use alarm.Base.Int.{ℤ, is_zero}
use alarm.Worker.{
  InBuffer, consume, Outcome, reread, returned, closed, faulted, running, is_invalid, leave,
  process, conn_buffer_len,
}
use alarm.Worker.Framing.{frame, frames, length-frame, header-frame, payload-frame, behind-frame}

-- What the peers of the loop see of its end: all messages were handled, and these bytes are left; a
-- handler refused one, and the connection is closed; or a handler broke down.
pub data Ended (S : Type 0) : Type 0 where
  all_handled : Bytes → S → Ended S
  refused : S → Ended S
  broke_down : Ended S

abbrev pub ended : {S : Type 0} → Outcome S → Option (Ended S)
ended (reread b s) = some (all_handled (take b.in_buffer_len b.in_buffer) s)
ended (returned b s) = some (all_handled (take b.in_buffer_len b.in_buffer) s)
ended (closed s) = some (refused s)
ended faulted = some broke_down
ended running = none

consumed :
    (p : Bytes) (rest junk : Bytes) (b : InBuffer)
    → b.in_buffer ≡ frame p ++ (rest ++ junk)
    → b.in_buffer_len ≡ 12 + length p + length rest
    → ((consume (12 + length p) b).in_buffer ≡ rest ++ drop (length rest) b.in_buffer)
      × ((consume (12 + length p) b).in_buffer_len ≡ length rest)
unfolding consume
consumed p rest junk b e h =
    let left : b.in_buffer_len - (12 + length p) ≡ length rest = omega arith in
    (ground (arith, left, behind-frame p (rest ++ junk), take-append rest junk), left)

module _ {S : Type 0} (handle_msg : Bytes → S → Option (ℤ × S)) where
  -- The messages handed to `HandleMsg` one after the other, up to the first that it refuses.
  unfoldable pub deliver : List Bytes → Bytes → S → Ended S
  deliver [] tail s = all_handled tail s
  deliver (p ∷ ps) tail s = elim (handle_msg p s) [
    | none ↦ broke_down
    | some (ret, s') ↦ let rest = deliver ps tail s' in if is_zero ret then rest else refused s'
  ]

  leave_ends :
      (left_size : ℕ) (b : InBuffer) (s : S)
      → ended (leave left_size b s) ≡ some (all_handled (take b.in_buffer_len b.in_buffer) s)
  leave_ends left_size b s = ground arith

  process_first :
      (fuel left_size : ℕ) (p rest : Bytes) (b : InBuffer) (s : S)
      → b.in_buffer ≡ frame p ++ rest
      → 12 + length p ≤ b.in_buffer_len
      → 12 + length p ≤ conn_buffer_len
      → process handle_msg (suc fuel) left_size b s ≡ elim (handle_msg p s) [
        | none ↦ faulted
        | some (ret, s') ↦
            let next = process handle_msg fuel left_size (consume (12 + length p) b) s' in
            if is_zero ret then next else closed s'
      ]
  unfolding process is_invalid
  process_first fuel left_size p rest b s e here fits =
      let size : 12 + length p - 12 ≡ length p = omega arith in
      ground (arith, header-frame p rest fits, payload-frame p rest, size)

  deliver-cons :
      (p : Bytes) (ps : List Bytes) (tail : Bytes) (s : S)
      → deliver (p ∷ ps) tail s ≡ elim (handle_msg p s) [
        | none ↦ broke_down
        | some (ret, s') ↦ if is_zero ret then deliver ps tail s' else refused s'
      ]
  unfolding deliver
  deliver-cons p ps tail s = refl

  deliver_step :
      (o : Option (ℤ × S)) (next : S → Outcome S) (rest : S → Ended S)
      → ((s' : S) → ended (next s') ≡ some (rest s'))
      → ended
          (elim o [ none ↦ faulted | some (ret, s') ↦ if is_zero ret then next s' else closed s' ])
        ≡ some (elim o [
          | none ↦ broke_down
          | some (ret, s') ↦ if is_zero ret then rest s' else refused s'
        ])
  deliver_step none next rest ih = refl
  deliver_step (some (ret, s')) next rest ih = ground (arith, ih s')

  -- Whole messages of at most the buffer's size, with less than a header behind them, are handled in
  -- order, up to the first that is refused; where all are handled the loop ends with what is behind
  -- them at the front of the buffer. One round more than there are messages is enough.
  pub process-deliver :
      (fuel left_size : ℕ) (ps : List Bytes) (tail junk : Bytes) (b : InBuffer) (s : S)
      → b.in_buffer ≡ (frames ps ++ tail) ++ junk
      → b.in_buffer_len ≡ length (frames ps ++ tail)
      → length tail < 8
      → b.in_buffer_len ≤ conn_buffer_len
      → length ps < fuel
      → ended (process handle_msg fuel left_size b s) ≡ some (deliver ps tail s)
  process-deliver zero left_size ps tail junk b s e h short fits enough = absurd (omega arith)
  process-deliver (suc fuel) left_size [] tail junk b s e h short fits enough =
      let few : ltb b.in_buffer_len 8 ≡ true = ground arith in
      unfold process deliver in ground (arith, few, leave_ends left_size b s, take-append tail junk)
  process-deliver (suc fuel) left_size (p ∷ ps) tail junk b s e h short fits enough =
      let rest = frames ps ++ tail in
      let front : b.in_buffer ≡ frame p ++ (rest ++ junk) =
        e
        ∙ ap (λ (t : Bytes). t ++ junk) (append_assoc (frame p) (frames ps) tail)
        ∙ append_assoc (frame p) rest junk in
      let size : b.in_buffer_len ≡ 12 + length p + length rest =
        h
        ∙ ap length (append_assoc (frame p) (frames ps) tail)
        ∙ length-append (frame p) rest
        ∙ ap (λ (k : ℕ). k + length rest) (length-frame p) in
      let (bytes, len) = consumed p rest junk b front size in
      let first =
        process_first fuel left_size p (rest ++ junk) b s front (omega arith) (omega arith) in
      rw (first, deliver-cons p ps tail s)
        (deliver_step (handle_msg p s) _ _ (λ s'.
          process-deliver fuel left_size ps tail (drop (length rest) b.in_buffer)
            (consume (12 + length p) b) s' bytes len short (omega arith) (omega arith)))

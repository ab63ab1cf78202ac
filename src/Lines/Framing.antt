-- ===== src/Lines/Framing.antt =====
-- The lines of a stream of bytes reach the logic in order; and where they do not.
use alarm.Base.{
  ℕ, suc, ◌-◌, ◌≤◌, ◌≡◌, refl, sym, ap, ◌∙◌, Bool, true, false, List, [], ◌∷◌, ◌++◌, Option, some,
  arith, All, length, ◌==◌,
}
use mathlib.Core.List.{append_assoc, append-nil}
use alarm.Base.Bytes.{Bytes}
use alarm.Base.Run.{Run}
use alarm.Lines.{
  ReadBuffer, Outcome, stays, data_buffer_size, receive, verify, str_recv, line_end, discard,
  handle_lines, after_lines, take_lines, client_tcp_read_cb,
}
use alarm.Lines.Buffer.{IsBuffer, NoBreaks, discard_lem, receive_lem, line_end-joined}
use alarm.Lines.InOrder.{InOrder, all_given, ended, handle_lines-InOrder}
use alarm.Lines.Joined.{NoBreaks-Clean, joined_end, Clean-snoc, line_end-cr, find_crlf-joined}
use alarm.Lines.Bounds.{ReadsAtMost}
use alarm.Text.{crlf, find_crlf, split_data}
use alarm.Text.Splitting.{Clean, joined, split_joined, length-joined}

discard-is_verify : (len : ℕ) (c : ReadBuffer) → (discard len c).is_verify ≡ c.is_verify
unfolding discard
discard-is_verify len c = refl

verify_done : (c : ReadBuffer) → c.is_verify ≡ true → verify c ≡ some c
unfolding verify
verify_done c h = ground (arith, h)

receive-is_verify : (part : Bytes) (c : ReadBuffer) → (receive part c).is_verify ≡ c.is_verify
unfolding receive
receive-is_verify part c = refl

module _ {S : Type 0} (start_logic_opt : Bytes → Run S (Unit {0})) where
  -- What the connection and the logic are left with: the logic was given the lines in order, and the
  -- bytes in the buffer are those of `tail`.
  abbrev pub Handled : List Bytes → Bytes → Bool → S → Outcome S → Type 0
  Handled lines tail verified s o =
      (c : ReadBuffer) × (result : Option S) × (o ≡ ended c result)
      × InOrder start_logic_opt lines s result
      × IsBuffer c
      × (c.is_verify ≡ verified)
      × (str_recv c ≡ tail)

  take_lines-some :
      (lines : List Bytes) (c : ReadBuffer) (s : S)
      → find_crlf (str_recv c) ≡ true
      → split_data (suc (length (str_recv c))) crlf (str_recv c) [] ≡ some lines
      → take_lines start_logic_opt c s
        ≡ after_lines (discard (line_end (str_recv c)) c) (handle_lines start_logic_opt lines s)
  unfolding take_lines
  take_lines-some lines c s y e = ground (arith, y, e)

  take_some :
      (v : Bytes) (vs : List Bytes) (tail rest : Bytes) (c : ReadBuffer) (s : S)
      → IsBuffer c
      → All Clean (v ∷ vs)
      → Clean tail
      → str_recv c ≡ joined (v ∷ vs) crlf tail
      → (p : Bytes) → (joined (v ∷ vs) crlf tail ≡ p ++ rest)
      → (line_end (joined (v ∷ vs) crlf tail) ≡ length p)
      → Handled (v ∷ vs) rest c.is_verify s (take_lines start_logic_opt c s)
  take_some v vs tail rest c s h cl ct e p cut ends =
      let whole = joined (v ∷ vs) crlf tail in
      let (b, left) = discard_lem p rest c h (e ∙ cut) in
      let split =
        split_joined (v ∷ vs) (suc (length whole)) tail [] cl ct
          (omega (arith, length-joined (v ∷ vs) tail)) in
      let (result, order, same) = handle_lines-InOrder start_logic_opt (v ∷ vs) s in
      (
        discard (length p) c,
        result,
        take_lines-some (v ∷ vs) c s (rw e (find_crlf-joined v vs tail cl.0)) (rw e split)
            ∙ ap (λ (n : ℕ). after_lines (discard n c) (handle_lines start_logic_opt (v ∷ vs) s))
                (ap line_end e ∙ ends)
            ∙ same (discard (length p) c),
        order,
        b,
        discard-is_verify (length p) c,
        left,
      )

  take_lines-none :
      (c : ReadBuffer) (s : S) → Clean (str_recv c) → take_lines start_logic_opt c s ≡ stays c s
  unfolding take_lines find_crlf
  take_lines-none c s h = ground (arith, h)

  take_lines_lem :
      (vs : List Bytes) (tail : Bytes) (c : ReadBuffer) (s : S)
      → IsBuffer c
      → All Clean vs
      → NoBreaks tail
      → str_recv c ≡ joined vs crlf tail
      → Handled vs tail c.is_verify s (take_lines start_logic_opt c s)
  unfolding handle_lines
  take_lines_lem [] tail c s h cl nb e =
      (c, some s, take_lines-none c s (rw e (NoBreaks-Clean tail nb)), all_given, h, refl, e)
  take_lines_lem (v ∷ vs) tail c s h cl nb e =
      let (p, cut) = joined_end v vs tail in
      take_some v vs tail tail c s h cl (NoBreaks-Clean tail nb) e (p ++ crlf)
        (cut tail ∙ sym (append_assoc p crlf tail))
        (ap line_end (cut tail) ∙ line_end-joined p tail nb)

  module _ {Input : Type 0} (read : ℕ → Input → Bytes × Input) (most : ReadsAtMost read) where
    -- What the read has got.
    abbrev pub part : ReadBuffer → Input → Bytes
    part c input = (read (data_buffer_size - c.rlen) input).0

    read_nothing :
        (c : ReadBuffer) (input : Input) (s : S)
        → part c input ≡ []
        → client_tcp_read_cb start_logic_opt read c input s ≡ take_lines start_logic_opt c s
    unfolding client_tcp_read_cb
    read_nothing c input s e = rw (e, client_tcp_read_cb) refl

    reads_on :
        (c c' : ReadBuffer) (input : Input) (s : S)
        → (length (part c input) == 0) ≡ false
        → verify (receive (part c input) c) ≡ some c'
        → client_tcp_read_cb start_logic_opt read c input s ≡ take_lines start_logic_opt c' s
    unfolding client_tcp_read_cb
    reads_on c c' input s n e = rw (n, client_tcp_read_cb) (rw e refl)

    -- The buffer with what was got behind its bytes.
    Received : ReadBuffer → Input → S → Type 0
    Received c input s =
        (c' : ReadBuffer) × (client_tcp_read_cb start_logic_opt read c input s
          ≡ take_lines start_logic_opt c' s)
        × IsBuffer c'
        × (c'.is_verify ≡ true)
        × (str_recv c' ≡ str_recv c ++ part c input)

    received :
        (c : ReadBuffer) (input : Input) (s : S)
        → IsBuffer c
        → c.is_verify ≡ true
        → Received c input s
    unfolding Received
    received c input s h ok = by_part (part c input) refl
      where
        by_part : (p : Bytes) → part c input ≡ p → Received c input s
        by_part [] e = (c, read_nothing c input s e, h, ok, rw e (sym (append-nil (str_recv c))))
        by_part (x ∷ p) e =
            let (b, bytes) =
              receive_lem (part c input) c h
                (omega (arith, most (data_buffer_size - c.rlen) input, h.fits)) in
            let done = receive-is_verify (part c input) c ∙ ok in
            (
              receive (part c input) c,
              reads_on c (receive (part c input) c) input s (rw e (ground arith))
                  (verify_done (receive (part c input) c) done),
              b,
              done,
              bytes,
            )

    -- Where the bytes in the buffer and those that come are lines without a CRLF in them, each with CRLF
    -- behind it, and a rest without line breaks, the logic is given the lines in order, each once and whole, up
    -- to one at which it breaks down, and the rest stays for the next read. The connection is verified, and libevent reads what it is asked for.
    pub read_cb_lem :
        (vs : List Bytes) (tail : Bytes) (c : ReadBuffer) (input : Input) (s : S)
        → IsBuffer c
        → c.is_verify ≡ true
        → All Clean vs
        → NoBreaks tail
        → str_recv c ++ part c input ≡ joined vs crlf tail
        → Handled vs tail true s (client_tcp_read_cb start_logic_opt read c input s)
    unfolding Received
    read_cb_lem vs tail c input s h ok cl nb e =
        let (c', run, b, done, bytes) = received c input s h ok in
        rw (run, ← done) (take_lines_lem vs tail c' s b cl nb (bytes ∙ e))

    -- Where a line whose CR has come but not yet its LF stands behind a whole line, the logic is given the
    -- whole lines in order, up to one at which it breaks down, and the begun line is lost: nothing of it stays in the buffer.
    pub begun_line_lost :
        (v : Bytes) (vs : List Bytes) (begun : Bytes) (c : ReadBuffer) (input : Input) (s : S)
        → IsBuffer c
        → c.is_verify ≡ true
        → All Clean (v ∷ vs)
        → NoBreaks begun
        → str_recv c ++ part c input ≡ joined (v ∷ vs) crlf (begun ++ (13 ∷ []))
        → Handled (v ∷ vs) [] true s (client_tcp_read_cb start_logic_opt read c input s)
    unfolding Received
    begun_line_lost v vs begun c input s h ok cl nb e =
        let (c', run, b, done, bytes) = received c input s h ok in
        let tail = begun ++ (13 ∷ []) in
        let (p, cut) = joined_end v vs tail in
        let whole = (p ++ crlf) ++ tail in
        let cut_up : joined (v ∷ vs) crlf tail ≡ whole =
          cut tail ∙ sym (append_assoc p crlf tail) in
        rw (run, ← done)
          (take_some v vs tail [] c' s b cl (Clean-snoc begun nb) (bytes ∙ e) whole
            (cut_up ∙ sym (append-nil whole))
            (ap line_end cut_up ∙ line_end-cr (p ++ crlf) begun nb))

    -- Where the buffer is full and no CRLF is in it, the callback leaves the connection and the logic as
    -- they are, whatever has come: nothing is read any more. libevent reads what it is asked for.
    pub full_buffer_stuck :
        (c : ReadBuffer) (input : Input) (s : S)
        → c.rlen ≡ data_buffer_size
        → Clean (str_recv c)
        → client_tcp_read_cb start_logic_opt read c input s ≡ stays c s
    full_buffer_stuck c input s full cl =
        read_nothing c input s
          (nothing (part c input) (omega (arith, most (data_buffer_size - c.rlen) input)))
        ∙ take_lines-none c s cl
      where
        nothing : (p : Bytes) → length p ≤ 0 → p ≡ []
        nothing [] h = refl
        nothing (x ∷ p) h = absurd (omega arith)

-- ===== src/Lines/Bounds.antt =====
-- Reading never writes outside the buffer and never breaks down by itself.
use alarm.Base.{
  ℕ, suc, ◌-◌, ◌≤◌, ◌≡◌, ◌∙◌, not, true, ◌&&◌, refl, List, [], ◌∷◌, some, arith, length, take, leb,
  ◌==◌, Bool-cases, Option-cases, inl, inr,
}
use alarm.Base.Bytes.{Bytes, bytes_eq}
use alarm.Base.Run.{Run}
use alarm.Lines.{
  ReadBuffer, Outcome, stays, closed, faulted, data_buffer_size, token_length, token_str, memmove,
  receive, verify, str_recv, line_end, handle_lines, take_lines, client_tcp_read_cb,
}
use alarm.Lines.Buffer.{
  IsBuffer, length-take, length-memmove, discard-IsBuffer, find_last_of_bound, receive_lem,
}
use alarm.Text.{crlf, find_crlf, find_last_of}
use alarm.Text.Splitting.{split_data_lem}

-- What the connection is left with: a buffer of the same size with its bytes in it, and no breakdown.
abbrev pub Safe : {S : Type 0} → Outcome S → Type 0
Safe (stays c s) = IsBuffer c
Safe (closed s) = Unit
Safe faulted = ⊥

abbrev pub ReadsAtMost : {Input : Type 0} → (ℕ → Input → Bytes × Input) → Type 0
ReadsAtMost {Input = Input} read = (n : ℕ) (input : Input) → length (read n input).0 ≤ n

-- The logic handles whatever line comes.
abbrev pub Handles : {S : Type 0} → (Bytes → Run S (Unit {0})) → Type 0
Handles {S = S} logic = (line : Bytes) (s : S) → (s' : S) × (logic line s ≡ some (tt, s'))

line_end_bound : (c : ReadBuffer) → IsBuffer c → line_end (str_recv c) ≤ c.rlen
unfolding line_end
line_end_bound c v =
    let len = length-take c.rlen c.r_buf (omega (arith, v.size, v.fits)) in
    elim (Option-cases (find_last_of crlf (str_recv c))) [
      | inl e ↦ ground (arith, e)
      | inr (i, e) ↦ ground (arith, e, find_last_of_bound crlf (str_recv c) i e, len)
    ]

abbrev without_token : ReadBuffer → ReadBuffer
without_token c = record {
  r_buf = memmove token_length (c.rlen - token_length) c.r_buf;
  rlen = c.rlen - token_length;
  is_verify = true;
}

without_token-IsBuffer :
    (c : ReadBuffer) → IsBuffer c → token_length ≤ c.rlen → IsBuffer (without_token c)
without_token-IsBuffer c v h = record {
  size =
      length-memmove token_length (c.rlen - token_length) c.r_buf (omega (arith, v.size, v.fits))
      ∙ v.size;
  fits = omega (arith, v.fits);
}

verify-IsBuffer : (c c' : ReadBuffer) → IsBuffer c → verify c ≡ some c' → IsBuffer c'
unfolding verify
verify-IsBuffer c c' v e = elim (Bool-cases (leb token_length c.rlen && not c.is_verify)) [
  | inl t ↦ elim (Bool-cases (bytes_eq (take token_length c.r_buf) token_str)) [
    | inl ok ↦
        let cut : c' ≡ without_token c = ground (arith, t, ok, e) in
        rw cut (without_token-IsBuffer c v (ground arith))
    | inr ok ↦ absurd (ground (arith, t, ok, e))
  ]
  | inr t ↦ let same : c' ≡ c = ground (arith, t, e) in rw same v
]

module _ {S : Type 0} (start_logic_opt : Bytes → Run S (Unit {0}))
    (handles : Handles start_logic_opt) where
  handle_lines_ends :
      (lines : List Bytes) (s : S)
      → (s' : S) × (handle_lines start_logic_opt lines s ≡ some (tt, s'))
  unfolding handle_lines
  handle_lines_ends [] s = (s, refl)
  handle_lines_ends (line ∷ lines) s =
      let (s1, e1) = handles line s in
      let (s2, e2) = handle_lines_ends lines s1 in (s2, ground (arith, e1, e2))

  take_lines-Safe : (c : ReadBuffer) (s : S) → IsBuffer c → Safe (take_lines start_logic_opt c s)
  unfolding take_lines
  take_lines-Safe c s v = elim (Bool-cases (find_crlf (str_recv c))) [
    | inr n ↦ rw n v
    | inl y ↦
        let (lines, e, _) =
          split_data_lem (suc (length (str_recv c))) crlf (str_recv c) [] (omega arith)
            (omega arith) in
        let (s', h) = handle_lines_ends lines s in
        rw (y, e, h) (discard-IsBuffer (line_end (str_recv c)) c v (line_end_bound c v))
  ]

  -- Where libevent reads no more than it is asked for and the logic handles every line, the callback
  -- does not break down, and the buffer keeps its size and its bytes stay within it.
  pub read_cb_bounds :
      {Input : Type 0} (read : ℕ → Input → Bytes × Input) (c : ReadBuffer) (input : Input) (s : S)
      → ReadsAtMost read
      → IsBuffer c
      → Safe (client_tcp_read_cb start_logic_opt read c input s)
  unfolding client_tcp_read_cb
  read_cb_bounds read c input s most v =
      let part = (read (data_buffer_size - c.rlen) input).0 in
      elim (Bool-cases (length part == 0)) [
        | inl n ↦ rw n (take_lines-Safe c s v)
        | inr n ↦
            let (v1, _) =
              receive_lem part c v
                (omega (arith, most (data_buffer_size - c.rlen) input, v.fits)) in
            elim (Option-cases (verify (receive part c))) [
              | inl e ↦ rw (n, e) tt
              | inr (c', e) ↦
                  rw (n, e) (take_lines-Safe c' s (verify-IsBuffer (receive part c) c' v1 e))
            ]
      ]

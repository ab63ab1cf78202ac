-- ===== src/Worker/Reading.antt =====
-- The inner read loop of `ClientTcpReadCb`: it ends, and it stays inside `in_buffer`.
use alarm.Base.{
  ℕ, zero, suc, ◌+◌, ◌-◌, ◌%◌, ◌^◌, ◌<◌, ◌≤◌, ◌≡◌, refl, sym, ap, ◌∙◌, [], ◌∷◌, ◌++◌, some, arith,
  length, take, drop, ◌==◌, length-append, length-drop, take-append, Bool-cases, inl, inr,
}
use mathlib.Core.List.{append_assoc, append-nil}
use alarm.Base.Bytes.{Bytes}
use alarm.Worker.{InBuffer, store, Filled, fill, conn_buffer_len}

pub length-take : (n : ℕ) (xs : Bytes) → n ≤ length xs → length (take n xs) ≡ n
length-take zero xs h = refl
length-take (suc n) [] h = absurd (omega arith)
length-take (suc n) (x ∷ xs) h = omega (arith, length-take n xs)

-- The array has its size, and the bytes that have arrived are inside it.
pub record IsWithin (b : InBuffer) : Type 0 where
  pub full : length b.in_buffer ≡ conn_buffer_len
  pub within : b.in_buffer_len ≤ conn_buffer_len

-- The bytes that have arrived.
abbrev pub arrived : InBuffer → Bytes
arrived b = take b.in_buffer_len b.in_buffer

store-IsWithin :
    (part : Bytes) (b : InBuffer)
    → IsWithin b
    → b.in_buffer_len + length part ≤ conn_buffer_len
    → IsWithin (store part b)
unfolding store
store-IsWithin part b v h = record {
  full = omega (
    arith,
    v.full,
    length-append (take b.in_buffer_len b.in_buffer)
        (part ++ drop (b.in_buffer_len + length part) b.in_buffer),
    length-append part (drop (b.in_buffer_len + length part) b.in_buffer),
    length-drop (b.in_buffer_len + length part) b.in_buffer,
    length-take b.in_buffer_len b.in_buffer (omega (arith, v.full, v.within)),
  );
  within = omega (arith, h);
}

take-append_more :
    (front part rest : Bytes)
    → take (length front + length part) (front ++ (part ++ rest)) ≡ front ++ part
take-append_more front part rest =
    rw (← length-append front part, ← append_assoc front part rest)
      (take-append (front ++ part) rest)

-- What is read goes behind what has arrived, and changes none of it.
arrived-store :
    (part : Bytes) (b : InBuffer)
    → IsWithin b
    → b.in_buffer_len + length part ≤ conn_buffer_len
    → arrived (store part b) ≡ arrived b ++ part
unfolding store
arrived-store part b v h =
    let front : length (arrived b) ≡ b.in_buffer_len =
      length-take b.in_buffer_len b.in_buffer (omega (arith, v.full, v.within)) in
    let size : (b.in_buffer_len + length part) % 2 ^ 16 ≡ length (arrived b) + length part =
      omega (arith, h, front) in
    rw size (take-append_more (arrived b) part (drop (b.in_buffer_len + length part) b.in_buffer))

module _ {Input : Type 0} (bufferevent_read : ℕ → Input → Bytes × Input)
    (read_le : (n : ℕ) (input : Input) → length (bufferevent_read n input).0 ≤ n) where
  -- What the loop leaves behind: the buffer is within its bounds, what had arrived is still there in
  -- front, and either the buffer is full or a read has just got nothing.
  abbrev pub Read : InBuffer → Filled Input → Type 0
  Read b r =
      IsWithin r.buffer
      × ((more : Bytes) × (arrived r.buffer ≡ arrived b ++ more))
      × (r.left_size ≡ conn_buffer_len - r.buffer.in_buffer_len)

  abbrev pub Fills : ℕ → InBuffer → Input → Type 0
  Fills fuel b input = (r : Filled Input) × (fill bufferevent_read fuel b input ≡ some r) × Read b r

  fill_round :
      (fuel : ℕ) (b : InBuffer) (input : Input)
      → IsWithin b
      → ((b' : InBuffer) (input' : Input)
          → IsWithin b'
          → conn_buffer_len - b'.in_buffer_len < fuel
          → Fills fuel b' input')
      → conn_buffer_len - b.in_buffer_len < suc fuel
      → Fills (suc fuel) b input
  unfolding fill
  fill_round fuel b input v rec enough =
      let left = conn_buffer_len - b.in_buffer_len in
      let part = (bufferevent_read left input).0 in
      let rest = (bufferevent_read left input).1 in
      elim (Bool-cases (left == 0)) [
        | inl full ↦ (
          record { buffer = b; left_size = 0; input = input },
          rw full,
          (v, ([], sym (append-nil (arrived b))), ground arith),
        )
        | inr room ↦ elim (Bool-cases (length part == 0)) [
          | inl dry ↦ (
            record { buffer = b; left_size = left; input = rest },
            rw (room, dry),
            (v, ([], sym (append-nil (arrived b))), refl),
          )
          | inr got ↦
              let fits : b.in_buffer_len + length part ≤ conn_buffer_len =
                omega (arith, v.within, read_le left input) in
              let (r, e, read) =
                rec (store part b) rest (store-IsWithin part b v fits)
                  (unfold store in ground (arith, enough, fits)) in
              (
                r,
                rw (room, got) e,
                (
                  read.0,
                  (
                    part ++ read.1.0,
                    read.1.1
                        ∙ ap (λ (t : Bytes). t ++ read.1.0) (arrived-store part b v fits)
                        ∙ append_assoc (arrived b) part read.1.0,
                  ),
                  read.2,
                ),
              )
        ]
      ]

  -- For a `bufferevent_read` that gets no more than it is asked for, the read loop ends: every round but
  -- the last stores a byte, so that one round more than there is room for is enough. It writes inside
  -- `in_buffer` only, and keeps what had arrived.
  pub fill_lem :
      (fuel : ℕ) (b : InBuffer) (input : Input)
      → IsWithin b
      → conn_buffer_len - b.in_buffer_len < fuel
      → Fills fuel b input
  fill_lem zero b input v enough = absurd (omega arith)
  fill_lem (suc fuel) b input v enough = fill_round fuel b input v (fill_lem fuel) enough

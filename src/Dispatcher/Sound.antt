-- ===== src/Dispatcher/Sound.antt =====
-- What `HandleMsg` accepts is a message of the protocol: the proof of the converse of the round trip.
use alarm.Base.{
  ℕ, ◌+◌, ◌%◌, ◌/◌, ◌<◌, ◌≡◌, refl, sym, ap, ◌∙◌, [], ◌∷◌, ◌++◌, some, arith, length, drop, All,
  length-append, drop-drop, All-append, All-drop, snoc_split,
}
use alarm.Base.Bytes.{Bytes, IsByte}
use alarm.Base.Int.{IsU32}
use alarm.Coding.{encode_fixed32, decode_fixed32}
use alarm.Coding.Fixed.{decode_fixed32-split, decode_fixed32-IsU32}
use alarm.Connection.{World}
use alarm.Dispatcher.{Command, command, parse_msg, c_str}
use alarm.Dispatcher.Parse.{request, Accepted, parse_msg-Accepted}
use alarm.Tlv.{type_mid}

abbrev header : ℕ → ℕ → ℕ → Bytes
unfolding encode_fixed32
header mid cmd size =
    encode_fixed32 type_mid
    ++ (encode_fixed32 4 ++ (encode_fixed32 mid ++ (encode_fixed32 cmd ++ encode_fixed32 size)))

last_zero : (value : Bytes) (x : ℕ) → x ∷ [] ≡ value ++ (0 ∷ []) → x ≡ 0
last_zero [] x e = cc
last_zero (v ∷ vs) x e = absurd (omega (arith, ap length e, length-append vs (0 ∷ [])))

module _ (tlv_data : Bytes) (c : Command) (w w' : World) (bytes : All IsByte tlv_data)
    (a : Accepted tlv_data c w w') where
  abbrev mem : Bytes
  mem = c_str tlv_data

  mem_bytes : All IsByte mem
  mem_bytes = All-append IsByte tlv_data (0 ∷ []) bytes (omega arith)

  at :
      (n v : ℕ)
      → decode_fixed32 (drop n mem) ≡ some v
      → drop n mem ≡ encode_fixed32 v ++ drop (n + 4) mem
  at n v e =
      decode_fixed32-split (drop n mem) v (All-drop IsByte n mem mem_bytes) e
      ∙ ap (◌++◌ (encode_fixed32 v)) (drop-drop 4 n mem)

  flat :
      mem
      ≡ encode_fixed32 type_mid
        ++ (encode_fixed32 4
            ++ (encode_fixed32 c.mid
                ++ (encode_fixed32 c.cmd ++ (encode_fixed32 c.value.size ++ c.value.here))))
  flat =
      let size_read : decode_fixed32 (drop 16 mem) ≡ some c.value.size =
        ap decode_fixed32 (sym (drop-drop 4 12 mem)) ∙ a.read_size in
      let here_at : drop 20 mem ≡ c.value.here = sym (a.here ∙ drop-drop 8 12 mem) in
      cc (
        at 0 type_mid a.read_type,
        at 4 4 a.read_len,
        at 8 c.mid a.read_mid,
        at 12 c.cmd a.read_cmd,
        at 16 c.value.size size_read,
        here_at,
      )

  laid_out : tlv_data ++ (0 ∷ []) ≡ header c.mid c.cmd c.value.size ++ c.value.here
  unfolding encode_fixed32 header
  laid_out = flat

  size_IsU32 : IsU32 c.value.size
  size_IsU32 =
      decode_fixed32-IsU32 (drop 4 (drop 12 mem)) c.value.size
        (All-drop IsByte 4 (drop 12 mem) (All-drop IsByte 12 mem mem_bytes)) a.read_size

  -- An empty slice would make the terminator the top byte of the size, which would then be too small.
  here_nonempty : (here : Bytes) → c.value.here ≡ here → 0 < length here
  unfolding encode_fixed32 header
  here_nonempty (x ∷ xs) e = omega arith
  here_nonempty [] e =
      let size = c.value.size in
      let front : Bytes =
        encode_fixed32 type_mid
        ++ (encode_fixed32 4
            ++ (encode_fixed32 c.mid
                ++ (encode_fixed32 c.cmd
                    ++ (size % 256) ∷ (size / 256 % 256) ∷ (size / 65536 % 256) ∷ []))) in
      let (value, b, d) =
        snoc_split tlv_data front ((size / 16777216 % 256) ∷ []) 0 (rw e at laid_out)
          (omega arith) in
      absurd (
        omega (
          arith,
          last_zero value (size / 16777216 % 256) b,
          size_IsU32,
          a.size,
          ap length d,
          ap length b,
          length-append value (0 ∷ []),
        ))

-- A message that `HandleMsg` accepts is one of the protocol, and the command that it goes on with is
-- the one that the message stands for; the state is not touched.
pub parse_msg_sound :
    (tlv_data : Bytes) (c : Command) (w w' : World)
    → All IsByte tlv_data
    → parse_msg tlv_data w ≡ some (command c, w')
    → (value : Bytes) × (tlv_data ≡ request c.mid c.cmd value)
      × (c.value.size ≡ length value)
      × (c.value.here ≡ c_str value)
      × (w' ≡ w)
unfolding header encode_fixed32 request
parse_msg_sound tlv_data c w w' bytes e =
    let a = parse_msg-Accepted tlv_data c w w' e in
    let nonempty = here_nonempty tlv_data c w w' bytes a c.value.here refl in
    let (value, b, d) =
      snoc_split tlv_data (header c.mid c.cmd c.value.size) c.value.here 0
        (laid_out tlv_data c w w' bytes a) nonempty in
    let fits : c.value.size ≡ length value =
      omega (arith, ap length d, a.size, size_IsU32 tlv_data c w w' bytes a) in
    (value, rw (← fits) d, fits, b, a.same)

-- ===== src/Coding/Varint.antt =====
-- voice_server/util/coding.cc: variable length integers, seven bits to a byte, the lowest first; a byte
-- but the last has 128 added. A byte is `v % 256`; `x | 128` of a byte below 128 adds 128.
pub mod Trip
use alarm.Base.{
  ℕ, zero, suc, ◌+◌, ◌*◌, ◌/◌, ◌%◌, ◌^◌, List, [], ◌∷◌, ◌++◌, Option, none, some, ltb, leb,
  if◌then◌else◌,
}
use alarm.Base.Bytes.{Bytes}

-- `v | B` as it is stored in an unsigned char.
abbrev pub with_more : ℕ → ℕ
with_more v = v % 128 + 128

-- The bytes that `EncodeVarint32` writes.
unfoldable pub encode_varint32 : ℕ → Bytes
encode_varint32 v =
    if ltb v (2 ^ 7)
    then v ∷ []
    else if ltb v (2 ^ 14)
    then with_more v ∷ (v / 2 ^ 7) ∷ []
    else if ltb v (2 ^ 21)
    then with_more v ∷ with_more (v / 2 ^ 7) ∷ (v / 2 ^ 14) ∷ []
    else if ltb v (2 ^ 28)
    then with_more v ∷ with_more (v / 2 ^ 7) ∷ with_more (v / 2 ^ 14) ∷ (v / 2 ^ 21) ∷ []
    else with_more v
      ∷ with_more (v / 2 ^ 7)
      ∷ with_more (v / 2 ^ 14)
      ∷ with_more (v / 2 ^ 21)
      ∷ (v / 2 ^ 28)
      ∷ []

unfoldable pub put_varint32 : Bytes → ℕ → Bytes
put_varint32 dst v = dst ++ encode_varint32 v

-- The bytes that `EncodeVarint64` writes; the fuel is the number of rounds.
unfoldable pub encode_varint64 : ℕ → ℕ → Bytes
encode_varint64 zero v = []
encode_varint64 (suc fuel) v =
    let rest = encode_varint64 fuel (v / 2 ^ 7) in if leb 128 v then with_more v ∷ rest else v ∷ []

unfoldable pub varint_length : ℕ → ℕ → ℕ
varint_length zero v = 1
varint_length (suc fuel) v =
    let rest = varint_length fuel (v / 2 ^ 7) in if leb 128 v then suc rest else 1

-- `GetVarint32PtrFallback`, from the round with the given `shift` on: the value and what is behind it, or
-- NULL. `rounds` is how many more rounds `shift <= 28` lets through. `|=` joins bits that are apart, and
-- the shift of a uint32_t drops what is beyond 32 bits.
unfoldable pub get_varint32_loop : ℕ → ℕ → ℕ → Bytes → Option (ℕ × Bytes)
get_varint32_loop zero shift result p = none
get_varint32_loop (suc rounds) shift result [] = none
get_varint32_loop (suc rounds) shift result (byte ∷ p) =
    let more =
      get_varint32_loop rounds (shift + 7) ((result + byte % 128 * 2 ^ shift) % 2 ^ 32) p in
    if leb 128 byte then more else some ((result + byte * 2 ^ shift) % 2 ^ 32, p)

unfoldable pub get_varint32_ptr_fallback : Bytes → Option (ℕ × Bytes)
unfolding get_varint32_loop
get_varint32_ptr_fallback p = get_varint32_loop 5 0 0 p

unfoldable pub get_varint32_ptr : Bytes → Option (ℕ × Bytes)
unfolding get_varint32_ptr_fallback
get_varint32_ptr [] = get_varint32_ptr_fallback []
get_varint32_ptr (byte ∷ p) =
    if ltb byte 128 then some (byte, p) else get_varint32_ptr_fallback (byte ∷ p)

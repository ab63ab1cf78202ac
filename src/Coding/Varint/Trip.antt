-- ===== src/Coding/Varint/Trip.antt =====
-- Variable length integers are read back.
use alarm.Base.{
  ℕ, zero, suc, ◌*◌, ◌/◌, ◌^◌, ◌≤◌, ◌<◌, ◌≡◌, refl, ap, ◌∙◌, ◌∷◌, ◌++◌, some, arith, length, leb,
  Bool-cases, inl, inr,
}
use alarm.Base.Bytes.{Bytes}
use alarm.Base.Int.{IsU32}
use alarm.Coding.Varint.{
  with_more, encode_varint32, encode_varint64, varint_length, get_varint32_loop,
  get_varint32_ptr_fallback, get_varint32_ptr,
}

-- A uint32_t is read back from the bytes that `EncodeVarint32` writes for it, whatever follows them.
pub get-encode_varint32 :
    (v : ℕ) (rest : Bytes) → IsU32 v → get_varint32_ptr (encode_varint32 v ++ rest) ≡ some (v, rest)
unfolding encode_varint32 get_varint32_ptr get_varint32_ptr_fallback get_varint32_loop
get-encode_varint32 v rest h = ground arith

-- Both encoders write the same bytes for a uint32_t.
pub encode_varint64-32 : (v : ℕ) → IsU32 v → encode_varint64 10 v ≡ encode_varint32 v
unfolding encode_varint32 encode_varint64
encode_varint64-32 v h = ground arith

abbrev power : ℕ → ℕ
power zero = 1
power (suc fuel) = power fuel * 128

length-encode : (fuel v : ℕ) → length (encode_varint64 (suc fuel) v) ≡ varint_length fuel v
unfolding encode_varint64 varint_length
length-encode zero v = ground arith
length-encode (suc fuel) v = elim (Bool-cases (leb 128 v)) [
  | inl l ↦ rw l (ap suc (length-encode fuel (v / 128)))
  | inr l ↦ rw l refl
]

encode_enough :
    (fuel n v : ℕ)
    → v < power fuel * 128
    → fuel ≤ n
    → encode_varint64 (suc n) v ≡ encode_varint64 (suc fuel) v
unfolding encode_varint64
encode_enough zero n v h l = ground arith
encode_enough (suc fuel) zero v h l = absurd (omega arith)
encode_enough (suc fuel) (suc n) v h l = elim (Bool-cases (leb 128 v)) [
  | inl e ↦
      rw e (ap (◌∷◌ (with_more v)) (encode_enough fuel n (v / 128) (omega arith) (omega arith)))
  | inr e ↦ rw e refl
]

-- For a uint64_t ten rounds of `EncodeVarint64` are enough, and `VarintLength`, for which nine are, counts
-- the bytes that it writes.
pub encode_varint64_lem :
    (n v : ℕ)
    → v < 2 ^ 64
    → 9 ≤ n
    → (encode_varint64 (suc n) v ≡ encode_varint64 10 v)
      × (length (encode_varint64 (suc n) v) ≡ varint_length 9 v)
encode_varint64_lem n v h l =
    let enough = encode_enough 9 n v (omega arith) l in
    (enough, ap length enough ∙ length-encode 9 v)

-- ===== src/Coding/Fixed.antt =====
-- Fixed length integers: what is written is read back, and the reads are total on enough bytes.
use alarm.Base.{ℕ, ◌^◌, ◌≤◌, ◌<◌, ◌≡◌, refl, [], ◌∷◌, ◌++◌, some, arith, All, length, drop}
use alarm.Base.Bytes.{Bytes, IsByte}
use alarm.Base.Int.{IsU32}
use alarm.Coding.{encode_fixed32, encode_fixed64, decode_fixed32, decode_fixed64}

pub encode_fixed32-IsByte : (v : ℕ) → All IsByte (encode_fixed32 v)
unfolding encode_fixed32
encode_fixed32-IsByte v = omega arith

pub length-encode_fixed32 : (v : ℕ) → length (encode_fixed32 v) ≡ 4
unfolding encode_fixed32
length-encode_fixed32 v = refl

-- A uint32_t is read back from the bytes that were written for it, whatever follows them.
pub decode-encode32 :
    (v : ℕ) (rest : Bytes) → IsU32 v → decode_fixed32 (encode_fixed32 v ++ rest) ≡ some v
unfolding encode_fixed32 decode_fixed32
decode-encode32 v rest h = ground arith

-- A uint64_t is read back from the eight bytes that were written for it, whatever follows them.
pub decode-encode64 :
    (v : ℕ) (rest : Bytes) → v < 2 ^ 64 → decode_fixed64 (encode_fixed64 v ++ rest) ≡ some v
unfolding encode_fixed64 decode_fixed64
decode-encode64 v rest h = ground arith

-- On bytes, what is read is a uint32_t.
pub decode_fixed32-IsU32 : (p : Bytes) (v : ℕ) → All IsByte p → decode_fixed32 p ≡ some v → IsU32 v
unfolding decode_fixed32
decode_fixed32-IsU32 [] v b e = cc
decode_fixed32-IsU32 (x ∷ []) v b e = cc
decode_fixed32-IsU32 (x ∷ y ∷ []) v b e = cc
decode_fixed32-IsU32 (x ∷ y ∷ z ∷ []) v b e = cc
decode_fixed32-IsU32 (x ∷ y ∷ z ∷ w ∷ rest) v b e = ground arith

-- A read succeeds where four bytes stand.
pub decode_fixed32-total : (p : Bytes) → 4 ≤ length p → (v : ℕ) × (decode_fixed32 p ≡ some v)
unfolding decode_fixed32
decode_fixed32-total [] h = absurd (omega arith)
decode_fixed32-total (x ∷ []) h = absurd (omega arith)
decode_fixed32-total (x ∷ y ∷ []) h = absurd (omega arith)
decode_fixed32-total (x ∷ y ∷ z ∷ []) h = absurd (omega arith)
decode_fixed32-total (x ∷ y ∷ z ∷ w ∷ rest) h = (_, refl)

-- A word that is read is the one whose encoding stands there.
pub encode-decode32 :
    (a b c d : ℕ) (v : ℕ) (rest : Bytes)
    → All IsByte (a ∷ b ∷ c ∷ d ∷ [])
    → decode_fixed32 (a ∷ b ∷ c ∷ d ∷ rest) ≡ some v
    → encode_fixed32 v ≡ a ∷ b ∷ c ∷ d ∷ []
unfolding decode_fixed32 encode_fixed32
encode-decode32 a b c d v rest h e = ground arith

-- Where a word is read, the bytes there are its encoding.
pub decode_fixed32-split :
    (p : Bytes) (v : ℕ)
    → All IsByte p
    → decode_fixed32 p ≡ some v
    → p ≡ encode_fixed32 v ++ drop 4 p
unfolding decode_fixed32 encode_fixed32
decode_fixed32-split [] v b e = cc
decode_fixed32-split (x ∷ []) v b e = cc
decode_fixed32-split (x ∷ y ∷ []) v b e = cc
decode_fixed32-split (x ∷ y ∷ z ∷ []) v b e = cc
decode_fixed32-split (x ∷ y ∷ z ∷ w ∷ rest) v b e = ground arith

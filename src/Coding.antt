-- ===== src/Coding.antt =====
-- voice_server/util/coding.cc and coding.h: fixed and variable length integers in byte strings.
-- A `char *` is the list of the bytes from there to the end of the object that it points into; a
-- read past that end is `none`. `port::kLittleEndian` is true, so `memcpy` is the lowest byte first.
pub mod Fixed
pub mod Varint
mod Tests
use alarm.Base.{ℕ, ◌+◌, ◌*◌, ◌/◌, ◌%◌, List, [], ◌∷◌, ◌++◌, Option, none, some}
use alarm.Base.Bytes.{Bytes}

unfoldable pub encode_fixed32 : ℕ → Bytes
encode_fixed32 v = (v % 256) ∷ (v / 256 % 256) ∷ (v / 65536 % 256) ∷ (v / 16777216 % 256) ∷ []

unfoldable pub encode_fixed64 : ℕ → Bytes
encode_fixed64 v =
    (v % 256)
    ∷ (v / 256 % 256)
    ∷ (v / 65536 % 256)
    ∷ (v / 16777216 % 256)
    ∷ (v / 4294967296 % 256)
    ∷ (v / 1099511627776 % 256)
    ∷ (v / 281474976710656 % 256)
    ∷ (v / 72057594037927936 % 256)
    ∷ []

unfoldable pub put_fixed32 : Bytes → ℕ → Bytes
put_fixed32 dst v = dst ++ encode_fixed32 v

unfoldable pub put_fixed64 : Bytes → ℕ → Bytes
put_fixed64 dst v = dst ++ encode_fixed64 v

unfoldable pub decode_fixed32 : Bytes → Option ℕ
decode_fixed32 (a ∷ b ∷ c ∷ d ∷ rest) = some (a + b * 256 + c * 65536 + d * 16777216)
decode_fixed32 _ = none

unfoldable pub decode_fixed64 : Bytes → Option ℕ
decode_fixed64 (a ∷ b ∷ c ∷ d ∷ e ∷ f ∷ g ∷ h ∷ rest) = some (
    a
    + b * 256
    + c * 65536
    + d * 16777216
    + e * 4294967296
    + f * 1099511627776
    + g * 281474976710656
    + h * 72057594037927936)
decode_fixed64 _ = none

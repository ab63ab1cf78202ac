-- ===== src/Coding/Tests.antt =====
-- Concrete integers through the codings.
use alarm.Base.{◌≡◌, refl, arith, some, none, [], ◌∷◌, ◌++◌}
use alarm.Coding.{encode_fixed32, decode_fixed32}
use alarm.Coding.Varint.{encode_varint32, get_varint32_ptr}
use alarm.Coding.Varint.Trip.{get-encode_varint32}

lowest_first : encode_fixed32 305419896 ≡ 120 ∷ 86 ∷ 52 ∷ 18 ∷ []
unfolding encode_fixed32
lowest_first = refl

too_short : decode_fixed32 (1 ∷ 2 ∷ 3 ∷ []) ≡ none
unfolding decode_fixed32
too_short = refl

get-encode_varint32_example :
    get_varint32_ptr (encode_varint32 300 ++ (7 ∷ [])) ≡ some (300, 7 ∷ [])
get-encode_varint32_example = get-encode_varint32 300 (7 ∷ []) (omega arith)

two_bytes : encode_varint32 300 ≡ 172 ∷ 2 ∷ []
unfolding encode_varint32
two_bytes = refl

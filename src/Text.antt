-- ===== src/Text.antt =====
-- public/utils.h (voice_server/include/utils.h has the same code): the functions on strings.
pub mod Splitting
mod Tests
use alarm.Base.{
  ℕ, zero, suc, ◌+◌, Bool, true, false, ◌&&◌, List, [], ◌∷◌, ◌++◌, Option, none, some, length, take,
  drop, ◌==◌, ◌||◌, if◌then◌else◌,
}
use alarm.Base.Bytes.{Bytes, bytes_eq}

-- `CRLF`
abbrev pub crlf : Bytes
crlf = 13 ∷ 10 ∷ []

unfoldable pub is_prefix : Bytes → Bytes → Bool
is_prefix [] s = true
is_prefix (c ∷ d) [] = false
is_prefix (c ∷ d) (x ∷ s) = (x == c) && is_prefix d s

-- `std::string::find(d)`; `none` is npos.
unfoldable pub find : Bytes → Bytes → Option ℕ
unfolding is_prefix
find d [] = if is_prefix d [] then some 0 else none
find d (x ∷ s) =
    let rest = find d s in
    if is_prefix d (x ∷ s) then some 0 else elim rest [ none ↦ none | some i ↦ some (suc i) ]

-- `std::string::find_last_of(set)`, the last byte that is one of the set's.
unfoldable pub contains : ℕ → Bytes → Bool
contains b [] = false
contains b (c ∷ cs) = (c == b) || contains b cs

unfoldable pub find_last_of : Bytes → Bytes → Option ℕ
unfolding contains
find_last_of set [] = none
find_last_of set (x ∷ s) = elim (find_last_of set s) [
  | some i ↦ some (suc i)
  | none ↦ if contains x set then some 0 else none
]

unfoldable pub find_crlf : Bytes → Bool
unfolding find
find_crlf s = elim (find crlf s) [ none ↦ false | some pos ↦ true ]

-- The last argument is `vec_data`; `none` is the end of the fuel.
unfoldable pub split_data : ℕ → Bytes → Bytes → List Bytes → Option (List Bytes)
unfolding find
split_data zero delimiter s vec_data = none
split_data (suc fuel) delimiter s vec_data = elim (find delimiter s) [
  | none ↦ some vec_data
  | some pos ↦
      split_data fuel delimiter (drop (pos + length delimiter) s) (vec_data ++ (take pos s ∷ []))
]

-- The loop of `JoinListByDelimiter`, with `str`.
unfoldable pub join_from : Bytes → List Bytes → Bytes → Bytes
join_from str [] delimiter = str
join_from str (v ∷ vec) delimiter = join_from ((str ++ v) ++ delimiter) vec delimiter

unfoldable pub join_list_by_delimiter : List Bytes → Bytes → Bytes
unfolding join_from
join_list_by_delimiter vec delimiter = join_from [] vec delimiter

-- A set is the list of its texts in their order.
unfoldable pub join_set_by_delimiter : List Bytes → Bytes → Bytes
unfolding join_from
join_set_by_delimiter set_string delimiter = join_from [] set_string delimiter

unfoldable pub delete_element_from : Bytes → List Bytes → List Bytes
delete_element_from value [] = []
delete_element_from value (v ∷ vec) =
    let rest = delete_element_from value vec in if bytes_eq v value then rest else v ∷ rest

-- ===== src/Text/Tests.antt =====
-- A text of two lines and a rest.
use alarm.Base.{◌≡◌, refl, arith, List, [], ◌∷◌, ◌++◌, some}
use alarm.Base.Bytes.{Bytes}
use alarm.Text.{crlf, is_prefix, find, split_data, join_list_by_delimiter}
use alarm.Text.Splitting.{IsSplit, split_data_lem, split-join}

abbrev lines : List Bytes
lines = (97 ∷ []) ∷ (98 ∷ 99 ∷ []) ∷ []

split-join_example :
    split_data 9 crlf (join_list_by_delimiter lines crlf ++ (100 ∷ [])) [] ≡ some lines
unfolding find is_prefix join_list_by_delimiter
split-join_example = split-join lines (100 ∷ []) (refl, (refl, tt)) refl

abbrev semicolons : Bytes
semicolons = 97 ∷ 59 ∷ 98 ∷ 59 ∷ 99 ∷ []

split_data_lem_example :
    (vs : List Bytes) × (split_data 6 (59 ∷ []) semicolons [] ≡ some vs)
    × IsSplit (59 ∷ []) semicolons vs
split_data_lem_example = split_data_lem 6 (59 ∷ []) semicolons [] (omega arith) (omega arith)

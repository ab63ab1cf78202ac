-- ===== src/Lines/Tests.antt =====
-- A connection of which "a", "bc" and the beginning of a third line come.
use alarm.Base.{ℕ, zero, suc, ◌≤◌, ◌≡◌, refl, arith, true, List, [], ◌∷◌, some, length, take, drop}
use alarm.Base.Bytes.{Bytes}
use alarm.Base.Run.{Run}
use alarm.Lines.{ReadBuffer, data_buffer_size, client_tcp_read_cb}
use alarm.Lines.Buffer.{IsBuffer}
use alarm.Lines.Bounds.{Safe, Handles, read_cb_bounds}
use alarm.Lines.Framing.{Handled, read_cb_lem, begun_line_lost}
use alarm.Text.{find, is_prefix}
use alarm.Text.Splitting.{Clean}

zeros : ℕ → Bytes
zeros zero = []
zeros (suc n) = 0 ∷ zeros n

length-zeros : (n : ℕ) → length (zeros n) ≡ n
unfolding zeros
length-zeros zero = refl
length-zeros (suc n) = omega (arith, length-zeros n)

zeros-Clean : (n : ℕ) → Clean (take n (zeros n))
unfolding zeros find is_prefix
zeros-Clean zero = refl
zeros-Clean (suc n) = ground (arith, zeros-Clean n)

-- The logic that keeps a record of the lines.
abbrev logic : Bytes → Run (List Bytes) (Unit {0})
logic line s = some (tt, line ∷ s)

logic-Handles : Handles logic
logic-Handles line s = (line ∷ s, refl)

abbrev read : ℕ → Bytes → Bytes × Bytes
read n input = (take n input, drop n input)

length-read : (n : ℕ) (input : Bytes) → length (take n input) ≤ n
length-read zero input = omega arith
length-read (suc n) [] = omega arith
length-read (suc n) (x ∷ xs) = omega (arith, length-read n xs)

abbrev fresh : ReadBuffer
fresh = record { r_buf = zeros data_buffer_size; rlen = 0; is_verify = true }

fresh-IsBuffer : IsBuffer fresh
fresh-IsBuffer = record { size = length-zeros data_buffer_size; fits = omega arith }

abbrev full : ReadBuffer
full = record { r_buf = zeros data_buffer_size; rlen = data_buffer_size; is_verify = true }

abbrev two_lines : Bytes
two_lines = 97 ∷ 13 ∷ 10 ∷ 98 ∷ 99 ∷ 13 ∷ 10 ∷ 100 ∷ []

read_cb_bounds_example : Safe (client_tcp_read_cb logic read fresh two_lines [])
read_cb_bounds_example =
    read_cb_bounds logic logic-Handles read fresh two_lines [] length-read fresh-IsBuffer

read_cb_lem_example :
    Handled logic
      ((97 ∷ []) ∷ (98 ∷ 99 ∷ []) ∷ [])
      (100 ∷ [])
      true
      []
      (client_tcp_read_cb logic read fresh two_lines [])
unfolding find is_prefix
read_cb_lem_example =
    read_cb_lem logic read length-read ((97 ∷ []) ∷ (98 ∷ 99 ∷ []) ∷ []) (100 ∷ []) fresh two_lines
      [] fresh-IsBuffer refl (refl, (refl, tt)) (((λ e. omega arith), (λ e. omega arith)), tt) refl

abbrev half_line : Bytes
half_line = 97 ∷ 13 ∷ 10 ∷ 98 ∷ 99 ∷ 13 ∷ []

begun_line_lost_example :
    Handled logic ((97 ∷ []) ∷ []) [] true [] (client_tcp_read_cb logic read fresh half_line [])
unfolding find is_prefix
begun_line_lost_example =
    begun_line_lost logic read length-read (97 ∷ []) [] (98 ∷ 99 ∷ []) fresh half_line []
      fresh-IsBuffer refl (refl, tt)
      (((λ e. omega arith), (λ e. omega arith)), (((λ e. omega arith), (λ e. omega arith)), tt))
      refl

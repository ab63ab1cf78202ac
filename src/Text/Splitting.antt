-- ===== src/Text/Splitting.antt =====
-- `SplitData` cuts a text at its delimiters, and undoes `JoinListByDelimiter`.
use alarm.Base.{
  ℕ, zero, suc, ◌+◌, ◌<◌, ◌≤◌, ◌≡◌, refl, sym, ap, ◌∙◌, true, false, List, [], ◌∷◌, ◌++◌, none,
  some, arith, All, length, take, drop, Bool-cases, Option-cases, ◌⊎◌, inl, inr, length-append,
  length-drop, take-append,
}
use Prim.Native.Nat.add
use mathlib.Core.List.{append_assoc, append-nil}
use alarm.Base.Bytes.{Bytes}
use alarm.Text.{crlf, is_prefix, find, split_data, join_from, join_list_by_delimiter}

-- A text in which the delimiter does not occur.
abbrev pub IsFree : Bytes → Bytes → Type 0
IsFree d s = find d s ≡ none

-- The texts, each with the delimiter behind it, and what follows them.
abbrev pub joined : List Bytes → Bytes → Bytes → Bytes
joined [] d tail = tail
joined (v ∷ vs) d tail = v ++ (d ++ joined vs d tail)

is_prefix-append : (d s : Bytes) → is_prefix d s ≡ true → s ≡ d ++ drop (length d) s
unfolding is_prefix
is_prefix-append [] s h = refl
is_prefix-append (c ∷ d) [] h = cc
is_prefix-append (c ∷ d) (x ∷ s) h = ground (arith, is_prefix-append d s)

is_prefix-take :
    (d : Bytes) (n : ℕ) (s : Bytes) → is_prefix d (take n s) ≡ true → is_prefix d s ≡ true
unfolding is_prefix
is_prefix-take [] n s h = refl
is_prefix-take (c ∷ d) zero s h = cc
is_prefix-take (c ∷ d) (suc n) [] h = cc
is_prefix-take (c ∷ d) (suc n) (x ∷ s) h = ground (arith, is_prefix-take d n s)

find_front :
    (d : Bytes) (x : ℕ) (s : Bytes) (pos : ℕ)
    → find d (x ∷ s) ≡ some pos
    → ((is_prefix d (x ∷ s) ≡ true) × (pos ≡ 0))
      ⊎ ((is_prefix d (x ∷ s) ≡ false) × ((i : ℕ) × (find d s ≡ some i) × (pos ≡ suc i)))
unfolding find
find_front d x s pos h = elim (Bool-cases (is_prefix d (x ∷ s))) [
  | inl p ↦ inl (p, ground (arith, p))
  | inr p ↦ elim (Option-cases (find d s)) [
    | inl e ↦ absurd (ground (arith, p, e))
    | inr (i, e) ↦ inr (p, (i, e, ground (arith, p, e)))
  ]
]

IsFree-cons :
    (d : Bytes) (x : ℕ) (s : Bytes) → is_prefix d (x ∷ s) ≡ false → IsFree d s → IsFree d (x ∷ s)
unfolding find
IsFree-cons d x s p f = ground (arith, p, f)

IsFree-nil : (d : Bytes) → 0 < length d → IsFree d []
unfolding find is_prefix
IsFree-nil [] n = absurd (omega arith)
IsFree-nil (c ∷ d) n = refl

not_prefix :
    (d : Bytes) (x : ℕ) (s : Bytes) (n : ℕ)
    → is_prefix d (x ∷ s) ≡ false
    → is_prefix d (x ∷ take n s) ≡ false
not_prefix d x s n p = elim (Bool-cases (is_prefix d (x ∷ take n s))) [
  | inl q ↦ cc (is_prefix-take d (suc n) (x ∷ s) q)
  | inr q ↦ q
]

-- Where a delimiter is found it stands, and not before.
find_lem :
    (d s : Bytes) (pos : ℕ)
    → 0 < length d
    → find d s ≡ some pos
    → (s ≡ take pos s ++ (d ++ drop (pos + length d) s)) × IsFree d (take pos s)
find_lem d [] pos n h = cc (IsFree-nil d n)
find_lem d (x ∷ s) zero n h = elim (find_front d x s zero h) [
  | inl (p, e) ↦ (rw add.zero (is_prefix-append d (x ∷ s) p), IsFree-nil d n)
  | inr (p, (i, e, e')) ↦ absurd (omega arith)
]
find_lem d (x ∷ s) (suc pos) n h = elim (find_front d x s (suc pos) h) [
  | inl (p, e) ↦ absurd (omega arith)
  | inr (p, (i, e, e')) ↦
      let here : find d s ≡ some pos = ground arith in
      let (cut, free) = find_lem d s pos n here in
      (rw add.suc (ap (◌∷◌ x) cut), IsFree-cons d x (take pos s) (not_prefix d x s pos p) free)
]

-- What `SplitData` makes of a text: the texts between the delimiters, in which none occurs, and what
-- is behind the last, where none occurs either and which is not in the list.
pub record IsSplit (d s : Bytes) (vs : List Bytes) : Type 0 where
  pub tail : Bytes
  pub whole : s ≡ joined vs d tail
  pub tail_free : IsFree d tail
  pub free : All (IsFree d) vs

split_data-some :
    (fuel : ℕ) (d s : Bytes) (vec : List Bytes) (pos : ℕ)
    → find d s ≡ some pos
    → split_data (suc fuel) d s vec
      ≡ split_data fuel d (drop (pos + length d) s) (vec ++ (take pos s ∷ []))
unfolding split_data
split_data-some fuel d s vec pos e = rw (e, split_data) refl

split_data-none :
    (fuel : ℕ) (d s : Bytes) (vec : List Bytes)
    → find d s ≡ none
    → split_data (suc fuel) d s vec ≡ some vec
unfolding split_data
split_data-none fuel d s vec e = rw (e, split_data) refl

-- The delimiter is not empty. One round more than the text is long is enough, and the texts are put
-- behind those that are in the list.
pub split_data_lem :
    (fuel : ℕ) (d s : Bytes) (vec : List Bytes)
    → 0 < length d
    → length s < fuel
    → (vs : List Bytes) × (split_data fuel d s vec ≡ some (vec ++ vs)) × IsSplit d s vs
split_data_lem zero d s vec n l = absurd (omega arith)
split_data_lem (suc fuel) d s vec n l = elim (Option-cases (find d s)) [
  | inl e ↦ (
    [],
    split_data-none fuel d s vec e ∙ ap some (sym (append-nil vec)),
    record { tail = s; whole = refl; tail_free = e; free = tt },
  )
  | inr (pos, e) ↦
      let (cut, free) = find_lem d s pos n e in
      let (vs, run, split) =
        split_data_lem fuel d (drop (pos + length d) s) (vec ++ (take pos s ∷ [])) n (
          omega (
            arith,
            length-drop (pos + length d) s,
            ap length cut,
            length-append (take pos s) (d ++ drop (pos + length d) s),
            length-append d (drop (pos + length d) s),
          )) in
      (
        take pos s ∷ vs,
        split_data-some fuel d s vec pos e ∙ run ∙ ap some (append_assoc vec (take pos s ∷ []) vs),
        record {
          tail = split.tail;
          whole = cut ∙ ap (λ (t : Bytes). take pos s ++ (d ++ t)) split.whole;
          tail_free = split.tail_free;
          free = (free, split.free);
        },
      )
]

-- With CRLF as the delimiter, a text in which it does not occur is found whole in front of it.
pub find-crlf_behind :
    (v rest : Bytes) → IsFree crlf v → find crlf (v ++ (crlf ++ rest)) ≡ some (length v)
unfolding find is_prefix
find-crlf_behind [] rest f = refl
find-crlf_behind (x ∷ []) rest f = ground (arith, find-crlf_behind [] rest)
find-crlf_behind (x ∷ y ∷ v) rest f = ground (arith, find-crlf_behind (y ∷ v) rest)

abbrev pub Clean : Bytes → Type 0
Clean v = IsFree crlf v

drop-crlf : (v rest : Bytes) → drop (length v + 2) (v ++ (crlf ++ rest)) ≡ rest
drop-crlf [] rest = refl
drop-crlf (x ∷ v) rest = rw add.suc (drop-crlf v rest)

-- Texts in which no CRLF occurs, joined with one behind each, are split into the same texts, and what
-- is behind the last CRLF is left out.
pub split_joined :
    (vs : List Bytes) (fuel : ℕ) (tail : Bytes) (vec : List Bytes)
    → All Clean vs
    → Clean tail
    → length vs < fuel
    → split_data fuel crlf (joined vs crlf tail) vec ≡ some (vec ++ vs)
split_joined vs zero tail vec f t l = absurd (omega arith)
split_joined [] (suc fuel) tail vec f t l =
    split_data-none fuel crlf tail vec t ∙ ap some (sym (append-nil vec))
split_joined (v ∷ vs) (suc fuel) tail vec f t l =
    let rest = joined vs crlf tail in
    split_data-some fuel crlf (v ++ (crlf ++ rest)) vec (length v) (find-crlf_behind v rest f.0)
    ∙ rw (drop-crlf v rest, take-append v (crlf ++ rest))
        (split_joined vs fuel tail (vec ++ (v ∷ [])) f.1 t (omega arith))
    ∙ ap some (append_assoc vec (v ∷ []) vs)

join_from-joined :
    (vs : List Bytes) (d str tail : Bytes) → join_from str vs d ++ tail ≡ str ++ joined vs d tail
unfolding join_from
join_from-joined [] d str tail = refl
join_from-joined (v ∷ vs) d str tail =
    join_from-joined vs d ((str ++ v) ++ d) tail
    ∙ append_assoc (str ++ v) d (joined vs d tail)
    ∙ append_assoc str v (d ++ joined vs d tail)

pub length-joined : (vs : List Bytes) (tail : Bytes) → length vs ≤ length (joined vs crlf tail)
length-joined [] tail = omega arith
length-joined (v ∷ vs) tail =
    omega (arith, length-joined vs tail, length-append v (crlf ++ joined vs crlf tail))

-- `SplitData` by CRLF gives back the texts that `JoinListByDelimiter` joined with CRLF, if CRLF occurs
-- in none of them; a text behind them in which it does not occur changes nothing.
pub split-join :
    (vs : List Bytes) (tail : Bytes)
    → All Clean vs
    → Clean tail
    → split_data
        (suc (length (join_list_by_delimiter vs crlf ++ tail)))
        crlf
        (join_list_by_delimiter vs crlf ++ tail)
        []
      ≡ some vs
unfolding join_list_by_delimiter
split-join vs tail f t = rw (join_from-joined vs crlf [] tail) (
    split_joined vs (suc (length (joined vs crlf tail))) tail [] f t
      (omega (arith, length-joined vs tail)))

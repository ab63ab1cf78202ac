-- ===== src/Lines/Joined.antt =====
-- A text of lines, each with CRLF behind it, and a rest.
use alarm.Base.{
  ◌+◌, ◌≡◌, refl, sym, ap, ◌∙◌, true, List, [], ◌∷◌, ◌++◌, arith, length, length-append,
}
use mathlib.Core.List.{append_assoc}
use alarm.Base.Bytes.{Bytes}
use alarm.Lines.{line_end}
use alarm.Lines.Buffer.{NoBreaks, find_last_of-append}
use alarm.Text.{crlf, find, find_crlf, find_last_of, is_prefix, contains}
use alarm.Text.Splitting.{Clean, joined, find-crlf_behind}

pub NoBreaks-Clean : (s : Bytes) → NoBreaks s → Clean s
unfolding find is_prefix
NoBreaks-Clean [] h = refl
NoBreaks-Clean (x ∷ []) h = ground (arith, h.0.0)
NoBreaks-Clean (x ∷ y ∷ s) h = ground (arith, NoBreaks-Clean (y ∷ s) h.1, h.0.0)

-- The lines end with the last CRLF.
pub joined_end :
    (v : Bytes) (vs : List Bytes) (tail : Bytes)
    → (p : Bytes) × ((t : Bytes) → joined (v ∷ vs) crlf t ≡ p ++ (crlf ++ t))
joined_end v [] tail = (v, λ t. refl)
joined_end v (w ∷ vs) tail =
    let (p, e) = joined_end w vs tail in
    (
      v ++ (crlf ++ p),
      λ t.
          ap (λ (x : Bytes). v ++ (crlf ++ x)) (e t) ∙ sym (append_assoc v (crlf ++ p) (crlf ++ t)),
    )

pub Clean-snoc : (t : Bytes) → NoBreaks t → Clean (t ++ (13 ∷ []))
unfolding find is_prefix
Clean-snoc [] h = refl
Clean-snoc (x ∷ []) h = ground (arith, h.0.0)
Clean-snoc (x ∷ y ∷ s) h = ground (arith, Clean-snoc (y ∷ s) h.1, h.0.0)

pub line_end-cr :
    (p t : Bytes) → NoBreaks t → line_end (p ++ (t ++ (13 ∷ []))) ≡ length (p ++ (t ++ (13 ∷ [])))
unfolding line_end find_last_of contains
line_end-cr p t h =
    let back = find_last_of-append crlf t (13 ∷ []) 0 refl in
    ground (
      arith,
      find_last_of-append crlf p (t ++ (13 ∷ [])) (length t + 0) back,
      length-append p (t ++ (13 ∷ [])),
      length-append t (13 ∷ []),
    )

pub find_crlf-joined :
    (v : Bytes) (vs : List Bytes) (tail : Bytes)
    → Clean v
    → find_crlf (joined (v ∷ vs) crlf tail) ≡ true
unfolding find_crlf
find_crlf-joined v vs tail h = rw (find-crlf_behind v (joined vs crlf tail) h, find_crlf) refl

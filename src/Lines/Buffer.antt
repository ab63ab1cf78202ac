-- ===== src/Lines/Buffer.antt =====
-- The buffer after a read, and after its lines were taken from it.
use alarm.Base.{
  ℕ, zero, suc, ◌+◌, ◌-◌, ◌≤◌, ◌<◌, ◌≡◌, ◌≢◌, refl, sym, ap, ◌∙◌, [], ◌∷◌, ◌++◌, none, some, arith,
  All, length, take, drop, length-append, length-drop, take-append, drop-append, Option-cases, inl,
  inr,
}
use mathlib.Core.List.{append_assoc}
use alarm.Base.Bytes.{Bytes}
use alarm.Lines.{ReadBuffer, data_buffer_size, memmove, receive, discard, str_recv, line_end}
use alarm.Text.{crlf, contains, find_last_of}

pub length-take : (n : ℕ) (xs : Bytes) → n ≤ length xs → length (take n xs) ≡ n
length-take zero xs h = refl
length-take (suc n) [] h = absurd (omega arith)
length-take (suc n) (x ∷ xs) h = omega (arith, length-take n xs (omega arith))

pub length-memmove :
    (from count : ℕ) (buf : Bytes)
    → from + count ≤ length buf
    → length (memmove from count buf) ≡ length buf
unfolding memmove
length-memmove from count buf h = omega (
  arith,
  length-append (take count (drop from buf)) (drop count buf),
  length-take count (drop from buf) (omega (arith, length-drop from buf)),
  length-drop count buf,
)

take_front :
    (n : ℕ) (xs ys zs : Bytes) → length xs ≤ n → take (length xs) (take n (xs ++ ys) ++ zs) ≡ xs
take_front n [] ys zs h = refl
take_front zero (x ∷ xs) ys zs h = absurd (omega arith)
take_front (suc n) (x ∷ xs) ys zs h = ap (◌∷◌ x) (take_front n xs ys zs (omega arith))

-- All of the buffer is there, and its bytes are in it.
pub record IsBuffer (c : ReadBuffer) : Type 0 where
  pub size : length c.r_buf ≡ data_buffer_size
  pub fits : c.rlen ≤ data_buffer_size

pub take-drop : (n : ℕ) (xs : Bytes) → take n xs ++ drop n xs ≡ xs
take-drop zero xs = refl
take-drop (suc n) [] = refl
take-drop (suc n) (x ∷ xs) = ap (◌∷◌ x) (take-drop n xs)

pub receive_lem :
    (part : Bytes) (c : ReadBuffer)
    → IsBuffer c
    → c.rlen + length part ≤ data_buffer_size
    → IsBuffer (receive part c) × (str_recv (receive part c) ≡ str_recv c ++ part)
unfolding receive
receive_lem part c v h =
    let front = take c.rlen c.r_buf in
    let back = drop (c.rlen + length part) c.r_buf in
    let held : length front ≡ c.rlen = length-take c.rlen c.r_buf (omega (arith, v.size, v.fits)) in
    let whole : length (front ++ part) ≡ c.rlen + length part =
      omega (arith, held, length-append front part) in
    (
      record {
        size = omega (
          arith,
          held,
          length-append front (part ++ back),
          length-append part back,
          length-drop (c.rlen + length part) c.r_buf,
          v.size,
        );
        fits = h;
      },
      ap (λ (n : ℕ). take n (front ++ (part ++ back))) (sym whole)
          ∙ ap (take (length (front ++ part))) (sym (append_assoc front part back))
          ∙ take-append (front ++ part) back,
    )

pub discard-IsBuffer :
    (len : ℕ) (c : ReadBuffer) → IsBuffer c → len ≤ c.rlen → IsBuffer (discard len c)
unfolding discard
discard-IsBuffer len c v h = record {
  size =
      length-memmove len (data_buffer_size - len) c.r_buf (omega (arith, v.size, v.fits)) ∙ v.size;
  fits = omega (arith, v.fits);
}

-- What is behind the front part comes to the front.
pub memmove_lem :
    (size rlen : ℕ) (p tail buf : Bytes)
    → length buf ≡ size
    → rlen ≤ size
    → take rlen buf ≡ p ++ tail
    → (length p ≤ rlen) × (take (rlen - length p) (memmove (length p) (size - length p) buf) ≡ tail)
unfolding memmove
memmove_lem size rlen p tail buf full fits e =
    let held : rlen ≡ length p + length tail =
      sym (length-take rlen buf (omega (arith, full, fits))) ∙ ap length e ∙ length-append p tail in
    let behind : drop (length p) buf ≡ tail ++ drop rlen buf =
      ap (drop (length p)) (
        sym (take-drop rlen buf)
        ∙ ap (λ (t : Bytes). t ++ drop rlen buf) e
        ∙ append_assoc p tail (drop rlen buf))
      ∙ drop-append p (tail ++ drop rlen buf) in
    let left : rlen - length p ≡ length tail = omega arith in
    let m = size - length p in
    let back = drop m buf in
    (
      omega arith,
      ap (λ (n : ℕ). take n (take m (drop (length p) buf) ++ back)) left
          ∙ ap (λ (t : Bytes). take (length tail) (take m t ++ back)) behind
          ∙ take_front m tail (drop rlen buf) back (omega (arith, fits)),
    )

pub discard_lem :
    (p tail : Bytes) (c : ReadBuffer)
    → IsBuffer c
    → str_recv c ≡ p ++ tail
    → IsBuffer (discard (length p) c) × (str_recv (discard (length p) c) ≡ tail)
unfolding discard
discard_lem p tail c v e =
    let (h, moved) = memmove_lem data_buffer_size c.rlen p tail c.r_buf v.size v.fits e in
    (discard-IsBuffer (length p) c v h, moved)

-- The last line break of a text stands where that of its back part does.
pub find_last_of-append :
    (set p q : Bytes) (i : ℕ)
    → find_last_of set q ≡ some i
    → find_last_of set (p ++ q) ≡ some (length p + i)
unfolding find_last_of
find_last_of-append set [] q i e = ground (arith, e)
find_last_of-append set (x ∷ p) q i e = ground (arith, find_last_of-append set p q i e)

pub find_last_of_bound : (set s : Bytes) (i : ℕ) → find_last_of set s ≡ some i → i < length s
unfolding find_last_of
find_last_of_bound set [] i e = cc
find_last_of_bound set (x ∷ s) i e = elim (Option-cases (find_last_of set s)) [
  | inl n ↦ ground (arith, n)
  | inr (j, n) ↦ ground (arith, n, find_last_of_bound set s j n)
]

-- A text without line breaks.
abbrev pub NoBreaks : Bytes → Type 0
NoBreaks s = All (λ b. (b ≢ 13) × (b ≢ 10)) s

pub find_last_of-NoBreaks : (s : Bytes) → NoBreaks s → find_last_of crlf s ≡ none
unfolding find_last_of contains
find_last_of-NoBreaks [] h = refl
find_last_of-NoBreaks (x ∷ s) h = ground (arith, find_last_of-NoBreaks s h.1, h.0.0, h.0.1)

pub line_end-joined :
    (p tail : Bytes) → NoBreaks tail → line_end (p ++ (crlf ++ tail)) ≡ length (p ++ crlf)
unfolding line_end find_last_of contains
line_end-joined p tail h =
    let back : find_last_of crlf (crlf ++ tail) ≡ some 1 =
      ground (arith, find_last_of-NoBreaks tail h) in
    ground (arith, find_last_of-append crlf p (crlf ++ tail) 1 back, length-append p crlf)

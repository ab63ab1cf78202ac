-- ===== src/Redis/Answers.antt =====
-- The replies that a scan accepts.
use alarm.Base.{
  ◌≡◌, refl, sym, ap, ◌∙◌, true, List, [], ◌∷◌, ◌++◌, Option, none, some, arith, Option-cases, inl,
  inr,
}
use mathlib.Core.List.{append_assoc, append-nil}
use alarm.Base.Bytes.{Bytes}
use alarm.Base.Int.{ℤ}
use alarm.Redis.{
  Reply, Elements, reply_integer, reply_status, reply_string, reply_nil, reply_error, reply_array,
  no_elements, element, null_element,
}
use alarm.Redis.Scanning.{
  push_keys, two_elements, as_string, as_array, scan_elements, scan_reply, strtoll,
}

-- An array of strings.
abbrev pub strings : List Bytes → Elements
strings [] = no_elements
strings (s ∷ ss) = element (reply_string s) (strings ss)

-- The reply of a scan: the next cursor and the keys.
abbrev pub scan_answer : Bytes → List Bytes → Reply
scan_answer cursor keys =
    reply_array (element (reply_string cursor) (element (reply_array (strings keys)) no_elements))

push_keys-strings : (keys vec : List Bytes) → push_keys (strings keys) vec ≡ (true, vec ++ keys)
unfolding push_keys
push_keys-strings [] vec = ap (λ (v : List Bytes). (true, v)) (sym (append-nil vec))
push_keys-strings (k ∷ ks) vec =
    push_keys-strings ks (vec ++ (k ∷ []))
    ∙ ap (λ (v : List Bytes). (true, v)) (append_assoc vec (k ∷ []) ks)

push_keys-true :
    (es : Elements) (vec : List Bytes)
    → (push_keys es vec).0 ≡ true
    → (keys : List Bytes) × (es ≡ strings keys)
unfolding push_keys
push_keys-true no_elements vec h = ([], refl)
push_keys-true (null_element es) vec h = cc
push_keys-true (element (reply_string key) es) vec h =
    let (keys, e) = push_keys-true es (vec ++ (key ∷ [])) h in
    (key ∷ keys, ap (element (reply_string key)) e)
push_keys-true (element (reply_integer n) es) vec h = cc
push_keys-true (element (reply_status s) es) vec h = cc
push_keys-true (element reply_nil es) vec h = cc
push_keys-true (element (reply_error s) es) vec h = cc
push_keys-true (element (reply_array a) es) vec h = cc

as_string-some : (r : Option Reply) (s : Bytes) → as_string r ≡ some s → r ≡ some (reply_string s)
as_string-some none s e = cc
as_string-some (some (reply_string t)) s e = cc
as_string-some (some (reply_integer n)) s e = cc
as_string-some (some (reply_status t)) s e = cc
as_string-some (some reply_nil) s e = cc
as_string-some (some (reply_error t)) s e = cc
as_string-some (some (reply_array es)) s e = cc

as_array-some :
    (r : Option Reply) (es : Elements) → as_array r ≡ some es → r ≡ some (reply_array es)
as_array-some none es e = cc
as_array-some (some (reply_array fs)) es e = cc
as_array-some (some (reply_integer n)) es e = cc
as_array-some (some (reply_status t)) es e = cc
as_array-some (some (reply_string t)) es e = cc
as_array-some (some reply_nil) es e = cc
as_array-some (some (reply_error t)) es e = cc

two_elements-some :
    (es : Elements) (a b : Reply)
    → two_elements es ≡ some (some a, some b)
    → es ≡ element a (element b no_elements)
two_elements-some no_elements a b e = cc
two_elements-some (element x no_elements) a b e = cc
two_elements-some (element x (element y no_elements)) a b e = cc
two_elements-some (element x (element y (element z es))) a b e = cc
two_elements-some (element x (element y (null_element es))) a b e = cc
two_elements-some (element x (null_element no_elements)) a b e = cc
two_elements-some (element x (null_element (element z es))) a b e = cc
two_elements-some (element x (null_element (null_element es))) a b e = cc
two_elements-some (null_element no_elements) a b e = cc
two_elements-some (null_element (element y no_elements)) a b e = cc
two_elements-some (null_element (element y (element z es))) a b e = cc
two_elements-some (null_element (element y (null_element es))) a b e = cc
two_elements-some (null_element (null_element no_elements)) a b e = cc
two_elements-some (null_element (null_element (element z es))) a b e = cc
two_elements-some (null_element (null_element (null_element es))) a b e = cc

-- Where a scan succeeds the reply was a scan's answer.
abbrev pub Answered : Option Reply → Type 0
Answered reply = (cursor : Bytes) × (keys : List Bytes) × (reply ≡ some (scan_answer cursor keys))

scan_elements-true :
    (es : Elements) (vec : List Bytes) (next : ℤ)
    → (scan_elements es vec next).success ≡ true
    → Answered (some (reply_array es))
unfolding scan_elements
scan_elements-true es vec next h = elim (Option-cases (two_elements es)) [
  | inl e ↦ absurd (ground (arith, e))
  | inr ((a, b), e) ↦ elim (Option-cases (as_string a)) [
    | inl f ↦ absurd (ground (arith, e, f))
    | inr (cursor, f) ↦ elim (Option-cases (as_array b)) [
      | inl g ↦ absurd (ground (arith, e, f, g))
      | inr (ks, g) ↦
          let ok : (push_keys ks vec).0 ≡ true = ground (arith, e, f, g) in
          let (keys, k) = push_keys-true ks vec ok in
          let string = as_string-some a cursor f in
          let array = as_array-some b ks g in
          let both : two_elements es ≡ some (some (reply_string cursor), some (reply_array ks)) =
            cc (e, string, array) in
          let whole = two_elements-some es (reply_string cursor) (reply_array ks) both in
          (cursor, keys, cc (whole, k))
    ]
  ]
]

pub scan_reply-true :
    (reply : Option Reply) (vec : List Bytes) (next : ℤ)
    → (scan_reply reply vec next).success ≡ true
    → Answered reply
unfolding scan_reply
scan_reply-true reply vec next h = elim (Option-cases (as_array reply)) [
  | inl e ↦ absurd (ground (arith, e))
  | inr (es, e) ↦
      let there = as_array-some reply es e in
      let (cursor, keys, k) = scan_elements-true es vec next (ground (arith, e)) in
      (cursor, keys, there ∙ k)
]

pub scan_reply-answer :
    (cursor : Bytes) (keys vec : List Bytes) (next : ℤ)
    → scan_reply (some (scan_answer cursor keys)) vec next
      ≡ record { success = true; vec_keys = vec ++ keys; next_cursor = strtoll cursor }
unfolding scan_reply scan_elements
scan_reply-answer cursor keys vec next = rw (push_keys-strings keys vec) refl

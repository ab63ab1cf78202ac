-- ===== src/Net/Write.antt =====
-- `WriteSfd` reports success exactly when the kernel took the whole message, in order.
use alarm.Base.{
  ℕ, zero, suc, ◌-◌, if_cases, ◌≡◌, ◌↔◌, refl, sym, ap, ◌∙◌, true, List, [], ◌∷◌, ◌++◌, length,
  take, drop, ltb, leb, ◌==◌, if◌then◌else◌, Bool-cases, inl, inr,
}
use mathlib.Core.List.{append_assoc, append-nil}
use alarm.Base.Bytes.{Bytes}
use alarm.Net.{SendReply, sent, again, broken, Written, write_loop, write_sfd}

take-append-drop {ℓ} : {A : Type ℓ} (n : ℕ) (xs : List A) → take n xs ++ drop n xs ≡ xs
take-append-drop zero xs = refl
take-append-drop (suc n) [] = refl
take-append-drop (suc n) (x ∷ xs) = ap (◌∷◌ x) (take-append-drop n xs)

-- What was taken, and what is left of the message.
abbrev pub Outcome : Bytes → Written → Type 0
Outcome msg w = (left : Bytes) × (msg ≡ w.taken ++ left) × ((w.success ≡ true) ↔ (left ≡ []))

part-Outcome :
    (k : ℕ) (msg : Bytes) (w : Written)
    → Outcome (drop k msg) w
    → Outcome msg (record { success = w.success; taken = take k msg ++ w.taken })
part-Outcome k msg w (left, e, f) = (
  left,
  sym (take-append-drop k msg)
      ∙ ap (◌++◌ (take k msg)) e
      ∙ sym (append_assoc (take k msg) w.taken left),
  f,
)

write_loop-Outcome :
    (replies : List SendReply) (msg : Bytes) (first_time : ℕ)
    → Outcome msg (write_loop replies msg first_time)
unfolding write_loop
write_loop-Outcome [] [] ft = ([], refl, (λ e. refl, λ e. refl))
write_loop-Outcome [] (b ∷ msg) ft = (b ∷ msg, refl, (λ e. cc, λ e. cc))
write_loop-Outcome (r ∷ rs) [] ft = ([], refl, (λ e. refl, λ e. refl))
write_loop-Outcome (sent k ∷ rs) (b ∷ msg) ft = elim (Bool-cases (leb (length (b ∷ msg)) (suc k))) [
  | inl e ↦ rw e ([], sym (append-nil (b ∷ msg)), (λ e. refl, λ e. refl))
  | inr e ↦
      rw e (part-Outcome (suc k) (b ∷ msg) _ (write_loop-Outcome rs (drop (suc k) (b ∷ msg)) ft))
]
write_loop-Outcome (again now ∷ rs) (b ∷ msg) ft =
    let first_time = if ft == 0 then now else ft in
    let waiting = write_loop-Outcome rs (b ∷ msg) first_time in
    if_cases (Outcome (b ∷ msg)) (ft == 0) _ _ waiting (
      if_cases (Outcome (b ∷ msg)) (ltb 3 (now - ft)) _ _ (b ∷ msg, refl, (λ e. cc, λ e. cc))
        waiting)
write_loop-Outcome (broken ∷ rs) (b ∷ msg) ft = (b ∷ msg, refl, (λ e. cc, λ e. cc))

-- Whatever the kernel does, what it took is the front of the message, and `WriteSfd` returns true
-- exactly when nothing is left.
pub write_sfd_lem : (replies : List SendReply) (msg : Bytes) → Outcome msg (write_sfd replies msg)
unfolding write_sfd
write_sfd_lem replies msg = write_loop-Outcome replies msg 0

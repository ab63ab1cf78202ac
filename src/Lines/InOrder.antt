-- ===== src/Lines/InOrder.antt =====
-- What it is for the logic to be given lines, one after the other.
use alarm.Base.{◌≡◌, refl, ap, ◌∙◌, List, [], ◌∷◌, Option, none, some, Option-cases, inl, inr}
use alarm.Base.Bytes.{Bytes}
use alarm.Base.Run.{Run, >>=-some, >>=-none}
use alarm.Lines.{ReadBuffer, Outcome, stays, faulted, handle_lines, after_lines}

-- The logic is given the lines in their order, each once: it comes from the state `s` to the one of the
-- result, or breaks down at one of the lines, and is given none behind that.
pub data InOrder {S : Type 0} (logic : Bytes → Run S (Unit {0}))
    : List Bytes → S → Option S → Type 0 where
  all_given : {s : S} → InOrder logic [] s (some s)
  given :
      {line : Bytes} {lines : List Bytes} {s t : S} {result : Option S}
      → logic line s ≡ some (tt, t)
      → InOrder logic lines t result
      → InOrder logic (line ∷ lines) s result
  breaks :
      {line : Bytes} {lines : List Bytes} {s : S}
      → logic line s ≡ none
      → InOrder logic (line ∷ lines) s none

-- The callback's outcome then: the connection stays with its buffer, or undefined behaviour.
abbrev pub ended : {S : Type 0} → ReadBuffer → Option S → Outcome S
ended c none = faulted
ended c (some s) = stays c s

pub handle_lines-InOrder :
    {S : Type 0} (logic : Bytes → Run S (Unit {0})) (lines : List Bytes) (s : S)
    → (result : Option S) × InOrder logic lines s result
      × ((c : ReadBuffer) → after_lines c (handle_lines logic lines s) ≡ ended c result)
unfolding handle_lines
handle_lines-InOrder logic [] s = (some s, all_given, λ c. refl)
handle_lines-InOrder logic (line ∷ lines) s = elim (Option-cases (logic line s)) [
  | inl e ↦ (
    none,
    breaks e,
    λ c. ap (after_lines c) (>>=-none (logic line) (λ _. handle_lines logic lines) s e),
  )
  | inr ((u, t), e) ↦
      let (result, order, same) = handle_lines-InOrder logic lines t in
      (
        result,
        given e order,
        λ c.
            ap (after_lines c) (>>=-some (logic line) (λ _. handle_lines logic lines) s t u e)
            ∙ same c,
      )
]

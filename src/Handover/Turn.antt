-- ===== src/Handover/Turn.antt =====
-- The turns in which `DispatchSfdToWorker` chooses the workers.
use native.Mathlib.Nat.{mod-lt, mod-eq_of_lt, mod_self}
use alarm.Base.{ℕ, suc, ◌<◌, ◌≡◌, Option, none, some, arith}
use alarm.Handover.{next_thread}

-- Whose turn it is: the first worker's at the start, then that of the one behind the last, and behind the
-- last of all the first one's again.
pub record IsTurn (thread_num : ℕ) (last : Option ℕ) (tid : ℕ) : Type 0 where
  pub in_range : tid < thread_num
  pub first : last ≡ none → tid ≡ 0
  pub behind_last : (t : ℕ) → last ≡ some t → suc t < thread_num → tid ≡ suc t
  pub round : (t : ℕ) → last ≡ some t → suc t ≡ thread_num → tid ≡ 0

pub next_thread-IsTurn :
    (thread_num : ℕ) (last : Option ℕ)
    → 0 < thread_num
    → IsTurn thread_num last (next_thread thread_num last)
unfolding next_thread
next_thread-IsTurn n none h = record {
  in_range = mod-lt 0 h;
  first = λ e. mod-eq_of_lt h;
  behind_last = λ t e l. absurd (ground (arith, e));
  round = λ t e l. absurd (ground (arith, e));
}
next_thread-IsTurn n (some u) h = record {
  in_range = mod-lt (suc u) h;
  first = λ e. absurd (ground (arith, e));
  behind_last = λ t e l. rw (it t e) (mod-eq_of_lt l);
  round = λ t e l. rw (it t e, l) (mod_self n);
}
  where
    it : (t : ℕ) → some u ≡ some t → u ≡ t
    it t e = cc e

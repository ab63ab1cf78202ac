-- ===== src/Intake/Share.antt =====
-- The connections that fall to a worker when they are dealt out in turn.
use mathlib.Core.List.{append_assoc, append-nil}
use alarm.Base.{
  ℕ, suc, ◌+◌, ◌%◌, ◌^◌, ◌≡◌, refl, sym, ap, ◌∙◌, List, [], ◌∷◌, ◌++◌, arith, length, if_true,
  ==_iff, ==_ne, ◌≢◌, ◌==◌, if◌then◌else◌,
}
use alarm.Intake.{ConnInfo}

-- The socket `fd`, accepted after `k` others, with its `conn_id`, if it falls to worker `t` of `n`.
abbrev pub dealt : ℕ → ℕ → ℕ → ℕ → List (ℕ × ℕ)
dealt n t k fd = if (k % 2 ^ 64) % n == t then (suc k % 2 ^ 64, fd) ∷ [] else []

-- Of the sockets `fds`, accepted in this order after `k` others, those of worker `t` of `n`.
unfoldable pub share : ℕ → ℕ → ℕ → List ℕ → List (ℕ × ℕ)
share n t k [] = []
share n t k (fd ∷ fds) = dealt n t k fd ++ share n t (suc k) fds

abbrev pub sent : List ConnInfo → List (ℕ × ℕ)
sent [] = []
sent (c ∷ cs) = (c.conn_id, c.cfd) ∷ sent cs

pub sent-snoc :
    (cs : List ConnInfo) (c : ConnInfo)
    → sent (cs ++ (c ∷ [])) ≡ sent cs ++ ((c.conn_id, c.cfd) ∷ [])
sent-snoc [] c = refl
sent-snoc (x ∷ cs) c = ap (◌∷◌ (x.conn_id, x.cfd)) (sent-snoc cs c)

share-snoc :
    (n t k : ℕ) (fds : List ℕ) (fd : ℕ)
    → share n t k (fds ++ (fd ∷ [])) ≡ share n t k fds ++ dealt n t (k + length fds) fd
unfolding share
share-snoc n t k [] fd = append-nil (dealt n t k fd) ∙ ap (λ m. dealt n t m fd) (omega arith)
share-snoc n t k (x ∷ fds) fd =
    ap (λ l. dealt n t k x ++ l) (share-snoc n t (suc k) fds fd)
    ∙ sym (append_assoc (dealt n t k x) (share n t (suc k) fds) _)
    ∙ ap (λ m. (dealt n t k x ++ share n t (suc k) fds) ++ dealt n t m fd) (omega arith)

share-end :
    (n t : ℕ) (fds : List ℕ) (fd : ℕ)
    → share n t 0 (fds ++ (fd ∷ [])) ≡ share n t 0 fds ++ dealt n t (length fds) fd
share-end n t fds fd =
    share-snoc n t 0 fds fd ∙ ap (λ m. share n t 0 fds ++ dealt n t m fd) (omega arith)

pub share-own :
    (n t : ℕ) (fds : List ℕ) (fd : ℕ)
    → (length fds % 2 ^ 64) % n ≡ t
    → share n t 0 (fds ++ (fd ∷ []))
      ≡ share n t 0 fds ++ ((suc (length fds % 2 ^ 64) % 2 ^ 64, fd) ∷ [])
share-own n t fds fd e =
    share-end n t fds fd
    ∙ ap (λ l. share n t 0 fds ++ l) (falls ∙ ap (λ i. (i, fd) ∷ []) (omega arith))
  where
    falls : dealt n t (length fds) fd ≡ (suc (length fds) % 2 ^ 64, fd) ∷ []
    falls = if_true _ _ ((==_iff _ t).1 e)

pub share-other :
    (n t : ℕ) (fds : List ℕ) (fd : ℕ)
    → t ≢ (length fds % 2 ^ 64) % n
    → share n t 0 (fds ++ (fd ∷ [])) ≡ share n t 0 fds
share-other n t fds fd e =
    share-end n t fds fd ∙ ap (λ l. share n t 0 fds ++ l) passes ∙ append-nil (share n t 0 fds)
  where
    passes : dealt n t (length fds) fd ≡ []
    passes = ground (arith, ==_ne ((length fds % 2 ^ 64) % n) t (λ q. e (sym q)))

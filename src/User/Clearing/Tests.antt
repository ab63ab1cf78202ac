-- ===== src/User/Clearing/Tests.antt =====
-- A redis server that keeps its clients in a list and returns them all on one page.
use alarm.Base.{
  ℕ, ◌≡◌, refl, sym, ap, arith, Bool, true, false, List, [], ◌∷◌, Option, none, some, ◌⊎◌, inl, inr,
  ◌==◌, if◌then◌else◌, Bool-cases,
}
use alarm.Base.Bytes.{Bytes, bytes_eq}
use alarm.Base.Int.{ℤ, pos, is_zero}
use alarm.Base.Maps.{lookup, erase, lookup-erase, bytes_Eq}
use alarm.Redis.{
  Redis, Command, select, set_int, hexists_field, del_key, scan_from, Reply, reply_integer,
  reply_status, reply_error,
}
use alarm.Redis.Answers.{scan_answer}
use alarm.Redis.Cache.{atoi, atoi_sign, atoi_from}
use alarm.Redis.Commands.{print_int}
use alarm.Redis.Scanning.{strtoll}
use alarm.Redis.Store.{Ends}
use alarm.User.Clearing.{clear_guid_fd_cache}
use alarm.User.Clearing.Emptied.{Among, Scans, IsEmpty, clear_guid_fd_cache_lem}
use alarm.User.Serving.{UserServes}

record Clients : Type 0 where
  fds : List (Bytes × Bytes)
  database : ℕ → ℕ

abbrev number : ℤ → ℕ
number (pos n) = n
number _ = 0

abbrev keys : List (Bytes × Bytes) → List Bytes
keys [] = []
keys ((g, fd) ∷ m) = g ∷ keys m

abbrev serve : ℕ → Command → Clients → Option Reply × Clients
serve c (select n) s =
    (some (reply_status []), record s { database = λ d. if d == c then n else s.database d })
serve c (set_int g n) s =
    (some (reply_status (79 ∷ 75 ∷ [])), record s { fds = (g, print_int (number n)) ∷ s.fds })
serve c (hexists_field g f) s = (some (reply_integer (pos 0)), s)
serve c (del_key g) s = (some (reply_integer (pos 1)), record s { fds = erase g s.fds })
serve c (scan_from n) s = (some (scan_answer (48 ∷ []) (keys s.fds)), s)
serve c k s = (some (reply_error []), s)

abbrev always : ℕ → Clients → Bool
always n s = true

lookup-cons :
    (g h fd : Bytes) (m : List (Bytes × Bytes))
    → lookup h ((g, fd) ∷ m) ≡ (if bytes_eq g h then some fd else lookup h m)
unfolding lookup
lookup-cons g h fd m = refl

listed : (g : Bytes) (m : List (Bytes × Bytes)) → (lookup g m ≡ none) ⊎ Among g (keys m)
unfolding lookup
listed g [] = inl refl
listed g ((j, fd) ∷ m) = elim (Bool-cases (bytes_eq j g)) [
  | inl e ↦ inr (inl e)
  | inr e ↦ elim (listed g m) [ inl n ↦ inl (ground (arith, e, n)) | inr a ↦ inr (inr a) ]
]

abbrev serves : UserServes always serve
serves = record {
  fd_of = λ g s. lookup g s.fds;
  is_session = λ g s. false;
  selected = λ c s. s.database c;
  connects_lem = λ n s. refl;
  select_lem = λ c n s. ([], _, refl, ground arith, λ g. (refl, refl));
  set_lem = λ c g fd s e. (_, refl, λ h. (lookup-cons g h (print_int fd) s.fds, refl));
  hexists_lem = λ c g s e. (s, refl, λ h. (refl, refl));
  del_lem = λ c g s e. (pos 1, _, refl, λ h. (lookup-erase g h s.fds, refl));
}

zero_cursor : is_zero (strtoll (48 ∷ [])) ≡ true
unfolding strtoll atoi atoi_sign atoi_from
zero_cursor = refl

abbrev scans : Scans always serve serves
scans = record {
  to_come = λ x g s. true;
  pages_left = λ x s. 0;
  start_lem = λ g s. refl;
  scan_lem = λ c x s e. (
    48 ∷ [],
    keys s.fds,
    s,
    refl,
    e,
    λ g. refl,
    λ n. absurd (ground (arith, n, zero_cursor)),
    λ g t. elim (listed g s.fds) [ inl n ↦ inl n | inr a ↦ inr (inl a) ],
  );
  del_keeps = λ c g k s s' e.
      (ap (λ (p : Option Reply × Clients). p.1.database c) (sym e), λ x. refl, λ x h. refl);
}

abbrev two_clients : Redis Clients
two_clients = record {
  queue_redis_context = 0 ∷ [];
  opened = 1;
  freed = [];
  server = record { fds = (97 ∷ [], 49 ∷ []) ∷ (98 ∷ [], 50 ∷ []) ∷ []; database = λ c. 0 };
}

clear_guid_fd_cache_lem_example :
    Ends (clear_guid_fd_cache always serve 1) two_clients true (IsEmpty always serve serves scans)
clear_guid_fd_cache_lem_example =
    clear_guid_fd_cache_lem always serve serves scans 1 two_clients refl (λ s. omega arith)

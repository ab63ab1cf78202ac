-- ===== src/User/Clearing/Emptied.antt =====
-- On a redis server that serves and scans as its documentation says, nothing is left.
use alarm.Base.{
  ℕ, zero, suc, ◌<◌, ◌≡◌, refl, ap, ◌∙◌, Bool, true, false, List, [], ◌∷◌, Option, none, some,
  arith, if_true, ◌⊎◌, inl, inr, if◌then◌else◌, Bool-cases,
}
use alarm.Base.Bytes.{Bytes, bytes_eq}
use alarm.Base.Int.{ℤ, pos, is_zero}
use alarm.Base.Run.{>>=-some, pure}
use alarm.Redis.{Redis, Command, scan_from, del_key, Reply, reply_integer, del, found}
use alarm.Redis.Answers.{scan_answer}
use alarm.Redis.Commands.{Unbroken, with_server}
use alarm.Redis.Replies.{scan_lem}
use alarm.Redis.Opt.{scan}
use alarm.Redis.Scanning.{Scanned, strtoll}
use alarm.Redis.Store.{Ends}
use alarm.User.Cache.{redis_client_info}
use alarm.User.Clearing.{del_keys, clear_from, clear_guid_fd_cache}
use alarm.User.Serving.{UserServes, sent, deleted, with_database_lem}

-- One of the keys.
abbrev pub Among : Bytes → List Bytes → Type 0
Among g [] = ⊥
Among g (key ∷ keys) = (bytes_eq key g ≡ true) ⊎ Among g keys

-- SCAN's documented guarantee. `to_come` says of a cursor whether the calls from there on return a key that
-- stays in the database till then, and `pages_left` bounds their number; deleting keys changes neither.
pub record Scans {S : Type 0} (connects : ℕ → S → Bool)
    (redis_command : ℕ → Command → S → Option Reply × S)
    (serves : UserServes connects redis_command) : Type 0 where
  pub to_come : ℤ → Bytes → S → Bool
  pub pages_left : ℤ → S → ℕ
  pub start_lem : (g : Bytes) (s : S) → to_come (pos 0) g s ≡ true
  pub scan_lem :
      (c : ℕ) (cursor : ℤ) (s : S)
      → serves.selected c s ≡ 7
      → (next : Bytes) × (keys : List Bytes) × (s' : S) × (redis_command c (scan_from cursor) s
          ≡ (some (scan_answer next keys), s'))
        × (serves.selected c s' ≡ 7)
        × ((g : Bytes) → serves.fd_of g s' ≡ serves.fd_of g s)
        × (is_zero (strtoll next) ≡ false → pages_left (strtoll next) s' < pages_left cursor s)
        × ((g : Bytes)
            → to_come cursor g s ≡ true
            → (serves.fd_of g s ≡ none)
              ⊎ (Among g keys
                  ⊎ ((is_zero (strtoll next) ≡ false) × (to_come (strtoll next) g s' ≡ true))))
  pub del_keeps :
      (c : ℕ) (g : Bytes) (k : ℤ) (s s' : S)
      → redis_command c (del_key g) s ≡ (some (reply_integer k), s')
      → (serves.selected c s' ≡ serves.selected c s)
        × ((x : ℤ) → pages_left x s' ≡ pages_left x s)
        × ((x : ℤ) (h : Bytes) → to_come x h s' ≡ to_come x h s)

none_if : (b : Bool) (x : Option Bytes) → x ≡ none → (if b then none else x) ≡ none
none_if b x e = ground (arith, e, Bool-cases b)

usable : {S : Type 0} (c : ℕ) (r : Redis S) → Unbroken r → found c r.freed ≡ false
unfolding found
usable c r u = rw u refl

module _ {S : Type 0} (connects : ℕ → S → Bool) (redis_command : ℕ → Command → S → Option Reply × S)
    (serves : UserServes connects redis_command) (scans : Scans connects redis_command serves) where
  -- What deleting the keys does.
  record Deleted (c : ℕ) (keys : List Bytes) (s s' : S) : Type 0 where
    selected : serves.selected c s' ≡ 7
    gone : (g : Bytes) → Among g keys → serves.fd_of g s' ≡ none
    absent : (g : Bytes) → serves.fd_of g s ≡ none → serves.fd_of g s' ≡ none
    pages : (x : ℤ) → scans.pages_left x s' ≡ scans.pages_left x s
    coming : (x : ℤ) (g : Bytes) → scans.to_come x g s' ≡ scans.to_come x g s

  del_keys_lem :
      (c : ℕ) (keys : List Bytes) (r : Redis S)
      → Unbroken r
      → serves.selected c r.server ≡ 7
      → Ends (del_keys connects redis_command c keys) r tt (Deleted c keys r.server)
  unfolding del_keys
  del_keys_lem c [] r u sel = (
    r,
    refl,
    u,
    record {
      selected = sel;
      gone = λ g a. absurd a;
      absent = λ g e. e;
      pages = λ x. refl;
      coming = λ x g. refl;
    },
  )
  del_keys_lem c (key ∷ keys) r u sel =
      let (k, s, e, v) = serves.del_lem c key r.server sel in
      let (sel', pages, coming) = scans.del_keeps c key k r.server s e in
      let (r', run, u', d) = del_keys_lem c keys (with_server s r) u (sel' ∙ sel) in
      (
        r',
        >>=-some (del redis_command c key) _ r (with_server s r) true (
              deleted connects redis_command serves c key k s r
                (sent connects redis_command serves c (del_key key) _ s r u e))
            ∙ run,
        u',
        record {
          selected = d.selected;
          gone = λ g a. elim a [
            | inl h ↦ d.absent g ((v g).0 ∙ if_true none _ h)
            | inr h ↦ d.gone g h
          ];
          absent = λ g a. d.absent g ((v g).0 ∙ none_if (bytes_eq key g) _ a);
          pages = λ x. d.pages x ∙ pages x;
          coming = λ x g. d.coming x g ∙ coming x g;
        },
      )

  abbrev pub IsEmpty : S → Type 0
  IsEmpty s = (g : Bytes) → serves.fd_of g s ≡ none

  scan_run :
      (c : ℕ) (cursor next : ℤ) (b : Bytes) (keys : List Bytes) (s : S) (r : Redis S)
      → Unbroken r
      → redis_command c (scan_from cursor) r.server ≡ (some (scan_answer b keys), s)
      → scan redis_command c cursor [] next r
        ≡ some
            (record { success = true; vec_keys = keys; next_cursor = strtoll b }, with_server s r)
  scan_run c cursor next b keys s r u e =
      let (sc, run, answer, back) =
        scan_lem redis_command r c (usable c r u) cursor [] next (some (scan_answer b keys)) s e in
      run ∙ ap (λ (x : Scanned). some (x, with_server s r)) (answer b keys refl)

  -- One page.
  page_run :
      (fuel c : ℕ) (cursor next n : ℤ) (keys : List Bytes) (r m r' : Redis S)
      → scan redis_command c cursor [] next r
        ≡ some (record { success = true; vec_keys = keys; next_cursor = n }, m)
      → del_keys connects redis_command c keys m ≡ some (tt, r')
      → clear_from connects redis_command (suc fuel) c cursor next r
        ≡ (if is_zero n then pure true else clear_from connects redis_command fuel c n n) r'
  unfolding clear_from
  page_run fuel c cursor next n keys r m r' e f =
      >>=-some (scan redis_command c cursor [] next) _ r m _ e
      ∙ >>=-some (del_keys connects redis_command c keys) _ m r' tt f

  clear_from_lem :
      (fuel c : ℕ) (cursor next : ℤ) (r : Redis S)
      → Unbroken r
      → serves.selected c r.server ≡ 7
      → scans.pages_left cursor r.server < fuel
      → ((g : Bytes) → (serves.fd_of g r.server ≡ none) ⊎ (scans.to_come cursor g r.server ≡ true))
      → Ends (clear_from connects redis_command fuel c cursor next) r true IsEmpty
  unfolding clear_from
  clear_from_lem zero c cursor next r u sel h inv = absurd (omega arith)
  clear_from_lem (suc fuel) c cursor next r u sel h inv =
      let (b, keys, s, e, sel', same, less, come) = scans.scan_lem c cursor r.server sel in
      let (r', dels, u', d) = del_keys_lem c keys (with_server s r) u sel' in
      let first = scan_run c cursor next b keys s r u e in
      let page = page_run fuel c cursor next (strtoll b) keys r (with_server s r) r' first dels in
      let left : (g : Bytes)
          → (serves.fd_of g r'.server ≡ none)
            ⊎ ((is_zero (strtoll b) ≡ false) × (scans.to_come (strtoll b) g r'.server ≡ true)) =
        λ g. elim (inv g) [
          | inl n ↦ inl (d.absent g (same g ∙ n))
          | inr t ↦ elim (come g t) [
            | inl n ↦ inl (d.absent g (same g ∙ n))
            | inr (inl a) ↦ inl (d.gone g a)
            | inr (inr (z, m)) ↦ inr (z, d.coming (strtoll b) g ∙ m)
          ]
        ] in
      elim (Bool-cases (is_zero (strtoll b))) [
        | inl z ↦ (
          r',
          page
              ∙ ap
                  (λ (y : Bool).
                    (if y
                        then pure true
                        else clear_from connects redis_command fuel c (strtoll b) (strtoll b))
                      r')
                  z,
          u',
          λ g. elim (left g) [ inl n ↦ n | inr (y, m) ↦ absurd (ground (arith, z, y)) ],
        )
        | inr z ↦
            let (r2, again, u2, p) =
              clear_from_lem fuel c (strtoll b) (strtoll b) r' u' d.selected
                (omega (arith, less z, d.pages (strtoll b)))
                (λ g. elim (left g) [ inl n ↦ inl n | inr (y, m) ↦ inr m ]) in
            (
              r2,
              page
                  ∙ ap
                      (λ (y : Bool).
                        (if y
                            then pure true
                            else clear_from connects redis_command fuel c (strtoll b) (strtoll b))
                          r')
                      z
                  ∙ again,
              u2,
              p,
            )
      ]

  -- On a redis server that serves and scans as its documentation says, and with usable contexts,
  -- `ClearGuidFdCache` ends, after at most as many pages as the server has and one more, and then no session
  -- has a socket in the database of clients.
  pub clear_guid_fd_cache_lem :
      (fuel : ℕ) (r : Redis S)
      → Unbroken r
      → ((s : S) → scans.pages_left (pos 0) s < fuel)
      → Ends (clear_guid_fd_cache connects redis_command fuel) r true IsEmpty
  unfolding clear_guid_fd_cache
  clear_guid_fd_cache_lem fuel r u h =
      with_database_lem connects redis_command serves redis_client_info _ r true IsEmpty u
        (λ c r' u' sel same.
          clear_from_lem fuel c (pos 0) (pos 0) r' u' sel (h r'.server)
            (λ g. inr (scans.start_lem g r'.server)))

-- ===== src/Redis/Scanning.antt =====
-- deviceOnline/src/redis_opt.cc: what `Scan` and `Hscan` make of a reply.
use alarm.Base.{
  ◌-◌, ◌^◌, Bool, true, false, List, [], ◌∷◌, ◌++◌, Option, none, some, ltb, if◌then◌else◌,
}
use alarm.Base.Bytes.{Bytes}
use alarm.Base.Int.{ℤ, pos, negsuc}
use alarm.Redis.{Reply, Elements, reply_string, reply_array, no_elements, element, null_element}
use alarm.Redis.Cache.{atoi}

-- `strtoll`
unfoldable pub strtoll : Bytes → ℤ
unfolding atoi
strtoll s = elim (atoi s) [
  | pos n ↦ if ltb n (2 ^ 63) then pos n else pos (2 ^ 63 - 1)
  | negsuc n ↦ if ltb n (2 ^ 63) then negsuc n else negsuc (2 ^ 63 - 1)
]

-- The loop over the keys of a scan: it ends at one that is no string, and what was pushed stays.
unfoldable pub push_keys : Elements → List Bytes → Bool × List Bytes
push_keys no_elements vec = (true, vec)
push_keys (null_element es) vec = (false, vec)
push_keys (element (reply_string key) es) vec = push_keys es (vec ++ (key ∷ []))
push_keys (element _ es) vec = (false, vec)

-- What a scan gives: whether it succeeded, `vec_keys` and `next_cursor`.
pub record Scanned : Type 0 where
  pub success : Bool
  pub vec_keys : List Bytes
  pub next_cursor : ℤ

abbrev pub failed_scan : List Bytes → ℤ → Scanned
failed_scan vec next = record { success = false; vec_keys = vec; next_cursor = next }

-- The elements of an array of two; NULL is `none`.
abbrev pub two_elements : Elements → Option (Option Reply × Option Reply)
two_elements (element a (element b no_elements)) = some (some a, some b)
two_elements (element a (null_element no_elements)) = some (some a, none)
two_elements (null_element (element b no_elements)) = some (none, some b)
two_elements (null_element (null_element no_elements)) = some (none, none)
two_elements _ = none

-- What the tests of the type let through.
abbrev pub as_string : Option Reply → Option Bytes
as_string (some (reply_string s)) = some s
as_string _ = none

abbrev pub as_array : Option Reply → Option Elements
as_array (some (reply_array es)) = some es
as_array _ = none

unfoldable pub scan_elements : Elements → List Bytes → ℤ → Scanned
unfolding push_keys strtoll
scan_elements es vec next = elim (two_elements es) [
  | none ↦ failed_scan vec next
  | some (a, b) ↦ elim (as_string a) [
    | none ↦ failed_scan vec next
    | some cursor ↦ elim (as_array b) [
      | none ↦ failed_scan vec (strtoll cursor)
      | some keys ↦ record {
        success = (push_keys keys vec).0;
        vec_keys = (push_keys keys vec).1;
        next_cursor = strtoll cursor;
      }
    ]
  ]
]

unfoldable pub scan_reply : Option Reply → List Bytes → ℤ → Scanned
unfolding scan_elements
scan_reply reply vec next = elim (as_array reply) [
  | none ↦ failed_scan vec next
  | some es ↦ scan_elements es vec next
]

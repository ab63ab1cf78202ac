-- ===== src/Base/Maps.antt =====
-- `std::map` and `std::multimap` as association lists. A key type comes with its equality test.
use Prim.Native.Nat.{ℕ}
use mathlib.Core.Path.{◌≡◌}
use mathlib.Core.Logic.{◌↔◌}
use mathlib.Core.Bool.{Bool, true}
use mathlib.Core.List.{List, [], ◌∷◌, ◌++◌}
use mathlib.Core.Option.{Option, none, some}
use native.Mathlib.Omega.{arith}
use alarm.Base.Tests.{◌==◌, ==_iff, if◌then◌else◌}
use alarm.Base.Bytes.{Bytes, bytes_eq, bytes_eq_iff}

pub record Eq {ℓ} (K : Type ℓ) : Type ℓ where
  pub beq : K → K → Bool
  pub beq_iff : (a b : K) → (beq a b ≡ true) ↔ (a ≡ b)

instance abbrev pub nat_eq : Eq ℕ
nat_eq = record { beq = ◌==◌; beq_iff = ==_iff }

instance abbrev pub bytes_Eq : Eq Bytes
bytes_Eq = record { beq = bytes_eq; beq_iff = bytes_eq_iff }

module _ {ℓ κ} {K : Type ℓ} {V : Type κ} ⦃e : Eq K⦄ where
  -- `find`
  unfoldable pub lookup : K → List (K × V) → Option V
  lookup k [] = none
  lookup k ((j, v) ∷ m) = if e.beq j k then some v else lookup k m

  -- `erase(key)`: every entry of the key goes.
  unfoldable pub erase : K → List (K × V) → List (K × V)
  erase k [] = []
  erase k ((j, v) ∷ m) = let rest = erase k m in if e.beq j k then rest else (j, v) ∷ rest

  -- `map::insert` leaves a key that is there alone.
  unfoldable pub insert : K → V → List (K × V) → List (K × V)
  insert k v m = elim (lookup k m) [ none ↦ (k, v) ∷ m | some w ↦ m ]

  -- The values that `multimap::equal_range` walks through, oldest first.
  unfoldable pub equal_range : K → List (K × V) → List V
  equal_range k [] = []
  equal_range k ((j, v) ∷ m) = let rest = equal_range k m in if e.beq j k then v ∷ rest else rest

  -- `multimap::insert` puts an entry behind those of its key.
  unfoldable pub multi_insert : K → V → List (K × V) → List (K × V)
  multi_insert k v m = m ++ ((k, v) ∷ [])

  pub lookup-erase :
      (k j : K) (m : List (K × V)) → lookup j (erase k m) ≡ (if e.beq k j then none else lookup j m)
  unfolding lookup erase
  lookup-erase k j [] = ground arith
  lookup-erase k j ((i, v) ∷ m) =
      ground (arith, e.beq_iff k j, e.beq_iff i k, e.beq_iff i j, lookup-erase k j m)

  pub lookup-insert :
      (k j : K) (v : V) (m : List (K × V))
      → lookup k m ≡ none
      → lookup j (insert k v m) ≡ (if e.beq k j then some v else lookup j m)
  unfolding lookup insert
  lookup-insert k j v m h = ground arith

  pub insert_present : (k : K) (v w : V) (m : List (K × V)) → lookup k m ≡ some w → insert k v m ≡ m
  unfolding insert
  insert_present k v w m h = ground arith

  pub equal_range-multi_insert :
      (k j : K) (v : V) (m : List (K × V))
      → equal_range j (multi_insert k v m)
        ≡ (if e.beq k j then equal_range j m ++ (v ∷ []) else equal_range j m)
  unfolding equal_range multi_insert
  equal_range-multi_insert k j v [] = ground arith
  equal_range-multi_insert k j v ((i, w) ∷ m) = ground (arith, equal_range-multi_insert k j v m)

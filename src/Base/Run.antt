-- ===== src/Base/Run.antt =====
-- Code that has a state and can break down: a state monad whose `none` is undefined behaviour or a
-- failed assertion.
use mathlib.Core.Path.{◌≡◌, refl, ap}
use mathlib.Core.Option.{Option, none, some}

abbrev pub Run {ℓ κ} : Type ℓ → Type κ → Type (ℓ ⊔ κ)
Run S A = S → Option (A × S)

module _ {ℓ κ} {S : Type ℓ} {A : Type κ} where
  abbrev pub pure : A → Run S A
  pure a s = some (a, s)

  abbrev pub fault : Run S A
  fault s = none

  abbrev pub lift : Option A → Run S A
  lift none s = none
  lift (some a) s = some (a, s)

abbrev pub get {ℓ} : {S : Type ℓ} → Run S S
get s = some (s, s)

infixl 5 ◌>>=◌ ◌>>◌
abbrev pub ◌>>=◌ {ℓ κ μ} :
    {S : Type ℓ} {A : Type κ} {B : Type μ} → Run S A → (A → Run S B) → Run S B
◌>>=◌ m f s = elim (m s) [ none ↦ none | some (a, s') ↦ f a s' ]

abbrev pub ◌>>◌ {ℓ κ} : {S : Type ℓ} {B : Type κ} → Run S (Unit {0}) → Run S B → Run S B
m >> k = m >>= λ _. k

-- A run goes on from where its first part ends.
pub >>=-some {ℓ κ μ} :
    {S : Type ℓ} {A : Type κ} {B : Type μ} (m : Run S A) (k : A → Run S B) (s s' : S) (a : A)
    → m s ≡ some (a, s')
    → (m >>= k) s ≡ k a s'
>>=-some {S = S} {A = A} m k s s' a e =
    ap (λ (o : Option (A × S)). elim o [ none ↦ none | some (b, t) ↦ k b t ]) e

pub >>=-none {ℓ κ μ} :
    {S : Type ℓ} {A : Type κ} {B : Type μ} (m : Run S A) (k : A → Run S B) (s : S)
    → m s ≡ none
    → (m >>= k) s ≡ none
>>=-none {S = S} {A = A} m k s e =
    ap (λ (o : Option (A × S)). elim o [ none ↦ none | some (b, t) ↦ k b t ]) e

-- A run of two parts that ends went through the end of the first.
pub >>=-split {ℓ κ μ} :
    {S : Type ℓ} {A : Type κ} {B : Type μ} (m : Run S A) (k : A → Run S B) (s t : S) (b : B)
    → (m >>= k) s ≡ some (b, t)
    → (a : A) × (s' : S) × (m s ≡ some (a, s')) × (k a s' ≡ some (b, t))
>>=-split {S = S} {A = A} m k s t b e = by_result (m s) refl e
  where
    by_result :
        (o : Option (A × S))
        → m s ≡ o
        → elim o [ none ↦ none | some (a, s') ↦ k a s' ] ≡ some (b, t)
        → (a : A) × (s' : S) × (m s ≡ some (a, s')) × (k a s' ≡ some (b, t))
    by_result none h f = cc
    by_result (some (a, s')) h f = (a, s', h, f)

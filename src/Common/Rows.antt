-- ===== src/Common/Rows.antt =====
-- Tables as lists of rows: the row of a key, the rows that a test selects, and the change of the
-- rows of a key.
use Prim.Native.Nat.{ℕ}
use mathlib.Core.Path.{◌≡◌, refl}
use mathlib.Core.Logic.{◌≢◌}
use mathlib.Core.Bool.{Bool, false, ◌||◌}
use mathlib.Core.Option.{Option, none, some}
use mathlib.Core.List.{List, [], ◌∷◌, ◌++◌}
use native.Mathlib.Omega.{arith}
use callvoice.Common.Tests.{if◌then◌else◌, ◌==◌}

module _ {A : Type 0} where
  unfoldable pub select : (A → Bool) → List A → List A
  select p [] = []
  select p (a ∷ as_) = let rest = select p as_ in if p a then a ∷ rest else rest

  unfoldable pub exists : (A → Bool) → List A → Bool
  exists p [] = false
  exists p (a ∷ as_) = p a || exists p as_

  abbrev pub mapped : (A → A) → Option A → Option A
  mapped f none = none
  mapped f (some a) = some (f a)

module _ {A : Type 0} (key : A → ℕ) where
  unfoldable pub lookup : ℕ → List A → Option A
  lookup i [] = none
  lookup i (a ∷ as_) = let rest = lookup i as_ in if key a == i then some a else rest

  unfoldable pub has : ℕ → List A → Bool
  has i as_ = exists (λ a. key a == i) as_

  unfoldable pub amend : ℕ → (A → A) → List A → List A
  amend i f [] = []
  amend i f (a ∷ as_) = let rest = amend i f as_ in (if key a == i then f a else a) ∷ rest

  pub lookup-append :
      (i : ℕ) (xs ys : List A) {a : A} → lookup i xs ≡ some a → lookup i (xs ++ ys) ≡ some a
  unfolding lookup
  lookup-append i [] ys h = cc
  lookup-append i (x ∷ xs) ys {a = a} h = ground (arith, lookup-append i xs ys {a = a})

  pub lookup-new :
      (a : A) (xs : List A) → has (key a) xs ≡ false → lookup (key a) (xs ++ a ∷ []) ≡ some a
  unfolding lookup has exists
  lookup-new a [] h = ground arith
  lookup-new a (x ∷ xs) h = ground (arith, lookup-new a xs)

  pub lookup-amend :
      (i : ℕ) (f : A → A)
      → ((a : A) → key (f a) ≡ key a)
      → (xs : List A) → lookup i (amend i f xs) ≡ mapped f (lookup i xs)
  unfolding lookup amend
  lookup-amend i f h [] = refl
  lookup-amend i f h (x ∷ xs) = ground (arith, h x, lookup-amend i f h xs)

  pub lookup-amend_other :
      (i j : ℕ) (f : A → A)
      → i ≢ j
      → ((a : A) → key (f a) ≡ key a)
      → (xs : List A) → lookup j (amend i f xs) ≡ lookup j xs
  unfolding lookup amend
  lookup-amend_other i j f n h [] = refl
  lookup-amend_other i j f n h (x ∷ xs) = ground (arith, h x, lookup-amend_other i j f n h xs)

module _ {A : Type 0} where
  pub exists-append :
      (p : A → Bool) (xs : List A) (y : A) → exists p (xs ++ y ∷ []) ≡ (exists p xs || p y)
  unfolding exists
  exists-append p [] y = ground arith
  exists-append p (x ∷ xs) y = ground (arith, exists-append p xs y)

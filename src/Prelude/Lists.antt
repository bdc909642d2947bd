-- ===== src/Prelude/Lists.antt =====
-- Lists measured by native numbers, predicates on lists, and search.
use Prim.Native.String.{String}
use Prim.Native.Nat.{ℕ, zero, suc, ◌+◌, min}
use mathlib.Core.Path.{◌≡◌, refl}
use mathlib.Core.Bool.{Bool, true, false}
use mathlib.Core.Option.{Option, none, some}
use mathlib.Core.Logic.{inl, inr, ◌≢◌}
use mathlib.Core.List.{List, [], ◌∷◌, ◌++◌, map}
use native.Mathlib.Omega.{arith}
use text.Mathlib.TextEquality.{eq_iff}
use jobilee.Prelude.Tests.{Bool-cases, if◌then◌else◌, ◌==◌, string_eq}

module _ {ℓ} {A : Type ℓ} where
  abbrev pub length : List A → ℕ
  length [] = 0
  length (x ∷ xs) = suc (length xs)

  pub length-append : (xs ys : List A) → length (xs ++ ys) ≡ length xs + length ys
  length-append [] ys = omega arith
  length-append (x ∷ xs) ys = omega (arith, length-append xs ys)

  -- `slice(0, n)`
  abbrev pub take : ℕ → List A → List A
  take zero xs = []
  take (suc n) [] = []
  take (suc n) (x ∷ xs) = x ∷ take n xs

  pub length-take : (n : ℕ) (xs : List A) → length (take n xs) ≡ min n (length xs)
  length-take zero xs = omega arith
  length-take (suc n) [] = omega arith
  length-take (suc n) (x ∷ xs) = omega (arith, length-take n xs)

  -- `Array.prototype.find` by a Boolean test
  abbrev pub find : (A → Bool) → List A → Option A
  find p [] = none
  find p (x ∷ xs) = if p x then some x else find p xs

  -- `Array.prototype.filter` by a Boolean test
  abbrev pub filter : (A → Bool) → List A → List A
  filter p [] = []
  filter p (x ∷ xs) = let rest = filter p xs in if p x then x ∷ rest else rest

  -- `Array.prototype.some`
  abbrev pub any : (A → Bool) → List A → Bool
  any p [] = false
  any p (x ∷ xs) = if p x then true else any p xs

module _ {ℓ κ} {A : Type ℓ} (P : A → Type κ) where
  abbrev pub All : List A → Type κ
  All [] = Unit
  All (x ∷ xs) = P x × All xs

  pub All-append : (xs ys : List A) → All xs → All ys → All (xs ++ ys)
  All-append [] ys hx hy = hy
  All-append (x ∷ xs) ys hx hy = (hx.0, All-append xs ys hx.1 hy)

module _ {ℓ κ μ} {A : Type ℓ} (P : A → Type κ) (Q : A → Type μ) where
  pub All-imp : (xs : List A) → ((a : A) → P a → Q a) → All P xs → All Q xs
  All-imp [] k h = tt
  All-imp (x ∷ xs) k h = (k x h.0, All-imp xs k h.1)

  pub All-map : (f : A → A) (xs : List A) → ((a : A) → P a → Q (f a)) → All P xs → All Q (map f xs)
  All-map f [] k h = tt
  All-map f (x ∷ xs) k h = (k x h.0, All-map f xs k h.1)

  pub All-filter :
      (p : A → Bool) (xs : List A)
      → ((a : A) → p a ≡ true → P a → Q a)
      → All P xs
      → All Q (filter p xs)
  All-filter p [] k h = tt
  All-filter p (x ∷ xs) k h = elim (Bool-cases (p x)) [
    | inl e ↦ rw e (k x e h.0, All-filter p xs k h.1)
    | inr e ↦ rw e (All-filter p xs k h.1)
  ]

  pub All-both : (xs : List A) → All P xs → All Q xs → All (λ a. P a × Q a) xs
  All-both [] h k = tt
  All-both (x ∷ xs) h k = ((h.0, k.0), All-both xs h.1 k.1)

module _ {ℓ} {A : Type ℓ} where
  pub filter-cong :
      (p q : A → Bool) (xs : List A) → ((a : A) → p a ≡ q a) → filter p xs ≡ filter q xs
  filter-cong p q [] h = refl
  filter-cong p q (x ∷ xs) h = ground (arith, h x, filter-cong p q xs h)

  -- A filter does not see what another one drops, if it drops it too.
  pub filter-filter :
      (p q : A → Bool) (xs : List A)
      → ((a : A) → q a ≡ false → p a ≡ false)
      → filter p (filter q xs) ≡ filter p xs
  filter-filter p q [] h = refl
  filter-filter p q (x ∷ xs) h = ground (arith, h x, filter-filter p q xs h)

  pub filter-append_dropped :
      (p : A → Bool) (xs : List A) (a : A) → p a ≡ false → filter p (xs ++ a ∷ []) ≡ filter p xs
  filter-append_dropped p [] a h = rw h
  filter-append_dropped p (x ∷ xs) a h = ground (arith, filter-append_dropped p xs a h)

  -- Nor what is written over dropped entries.
  pub filter-write :
      (p q : A → Bool) (b : A) (xs : List A)
      → ((a : A) → q a ≡ true → p a ≡ false)
      → p b ≡ false
      → filter p (map (λ a. if q a then b else a) xs) ≡ filter p xs
  filter-write p q b [] h k = refl
  filter-write p q b (x ∷ xs) h k = ground (arith, h x, k, filter-write p q b xs h k)

-- A key that no row has, by the Boolean test.
pub absent :
    {A : Type 0} (key : A → String) (id : String) (rows : List A)
    → any (λ a. key a == id) rows ≡ false
    → All (λ a. key a ≢ id) rows
absent key id [] h = tt
absent key id (a ∷ rows) h = (ground (arith, eq_iff (key a) id), absent key id rows (ground arith))

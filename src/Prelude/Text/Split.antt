-- ===== src/Prelude/Text/Split.antt =====
-- Splitting a text at a separator, and how that reads in a longer text.
use Prim.Native.String.{String, [], ◌∷◌, ◌++◌}
use Prim.Native.String.append.{cons as cons-append, nil as nil-append}
use Prim.Native.Nat.{◌+◌, ◌≤◌}
use Prim.Native.Char.{code}
use mathlib.Core.Path.{◌≡◌, refl, subst, ap}
use mathlib.Core.Logic.{inl, inr}
use mathlib.Core.Option.{none, some}
use native.Mathlib.Omega.{arith}
use jobilee.Prelude.Tests.{Bool-cases, Option-cases, ◌==◌, nat_eq}
use jobilee.Prelude.Text.{strip_prefix, split_first, size}

-- A prefix that is found is found in a longer text.
pub strip_prefix-append :
    (p s t r : String) → strip_prefix p s ≡ some r → strip_prefix p (s ++ t) ≡ some (r ++ t)
unfolding strip_prefix
strip_prefix-append [] s t r = λ h. ground arith
strip_prefix-append (c ∷ p) [] t r = λ h. ground arith
strip_prefix-append (c ∷ p) (d ∷ s) t r = elim (Bool-cases (code c == code d)) [
  | inl e ↦ rw (cons-append, strip_prefix, e) (strip_prefix-append p s t r)
  | inr e ↦ rw e (λ h. ground arith)
]

strip_prefix-size : (p s r : String) → strip_prefix p s ≡ some r → size s ≡ size p + size r
unfolding strip_prefix size
strip_prefix-size [] s r = λ h. ground arith
strip_prefix-size (c ∷ p) [] r = λ h. ground arith
strip_prefix-size (c ∷ p) (d ∷ s) r = elim (Bool-cases (code c == code d)) [
  | inl e ↦ rw e (λ h. omega (arith, strip_prefix-size p s r h))
  | inr e ↦ rw e (λ h. ground arith)
]

-- A prefix that a long enough text lacks is lacking from a longer one.
pub strip_prefix-append_none :
    (p s t : String) → size p ≤ size s → strip_prefix p s ≡ none → strip_prefix p (s ++ t) ≡ none
unfolding strip_prefix size
strip_prefix-append_none [] s t l = λ h. ground arith
strip_prefix-append_none (c ∷ p) [] t l = λ h. ground arith
strip_prefix-append_none (c ∷ p) (d ∷ s) t l = elim (Bool-cases (code c == code d)) [
  | inl e ↦ rw (cons-append, strip_prefix, e) (strip_prefix-append_none p s t (omega arith))
  | inr e ↦ rw (cons-append, strip_prefix, e) (λ h. refl)
]

-- A text that lacks a prefix lacks a longer one.
pub strip_prefix-longer :
    (p q s : String) → strip_prefix p s ≡ none → strip_prefix (p ++ q) s ≡ none
unfolding strip_prefix
strip_prefix-longer [] q s = λ h. ground arith
strip_prefix-longer (c ∷ p) q [] = λ h. rw (cons-append, strip_prefix) refl
strip_prefix-longer (c ∷ p) q (d ∷ s) = elim (Bool-cases (code c == code d)) [
  | inl e ↦ rw (cons-append, strip_prefix, e) (strip_prefix-longer p q s)
  | inr e ↦ rw (cons-append, strip_prefix, e) (λ h. refl)
]

-- What a split takes off.
pub split_first-size : (n s b r : String) → split_first n s ≡ some (b, r) → size n + size r ≤ size s
unfolding split_first size
split_first-size n [] b r = λ h. ground arith
split_first-size n (c ∷ s) b r = elim (Option-cases (strip_prefix n (c ∷ s))) [
  | inr (q, e) ↦ rw (e, split_first) (λ h. ground (arith, strip_prefix-size n (c ∷ s) q e))
  | inl e ↦
      rw (e, split_first)
        (elim (Option-cases (split_first n s)) [
          | inl k ↦ rw k (λ h. ground arith)
          | inr ((b', q), k) ↦ rw k (λ h. ground (arith, split_first-size n s b' q k))
        ])
]

-- A split that is found is the same in a longer text.
pub split_first-append :
    (n s t b r : String) → split_first n s ≡ some (b, r) → split_first n (s ++ t) ≡ some (b, r ++ t)
unfolding split_first size
split_first-append n [] t b r = λ h. ground arith
split_first-append n (c ∷ s) t b r = elim (Option-cases (strip_prefix n (c ∷ s))) [
  | inr (q, e) ↦
      rw
        (
          cons-append,
          split_first,
          e,
          subst (λ x. strip_prefix n x ≡ some (q ++ t)) (cons-append c s t)
              (strip_prefix-append n (c ∷ s) t q e),
        )
        (λ h. ground arith)
  | inl e ↦ elim (Option-cases (split_first n s)) [
    | inl k ↦ rw (split_first, e, k) (λ h. ground arith)
    | inr ((b', q), k) ↦
        rw
          (
            cons-append,
            split_first,
            e,
            k,
            subst (λ x. strip_prefix n x ≡ none) (cons-append c s t)
                (strip_prefix-append_none n (c ∷ s) t (omega (arith, split_first-size n s b' q k))
                  e),
            split_first-append n s t b' q k,
          )
          (λ h. ground arith)
  ]
]

pub append-size : (s t : String) → size (s ++ t) ≡ size s + size t
unfolding size
append-size [] t = rw nil-append (omega arith)
append-size (c ∷ s) t = rw (cons-append, size) (omega (arith, append-size s t))

pub append_assoc : (a b c : String) → (a ++ b) ++ c ≡ a ++ (b ++ c)
append_assoc [] b c = rw (nil-append, nil-append) refl
append_assoc (x ∷ a) b c =
    rw (cons-append, cons-append, cons-append) (ap (◌∷◌ x) (append_assoc a b c))

pub append-empty : (a : String) → a ++ "" ≡ a
append-empty [] = rw nil-append refl
append-empty (x ∷ a) = rw cons-append (ap (◌∷◌ x) (append-empty a))

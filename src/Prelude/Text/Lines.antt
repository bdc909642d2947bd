-- ===== src/Prelude/Text/Lines.antt =====
-- Texts without line breaks, and texts that no blank line ends or cuts.
use Prim.Native.String.{String, [], ◌∷◌, ◌++◌}
use Prim.Native.String.append.{cons as cons-append, nil as nil-append}
use Prim.Native.Char.{Char, code}
use mathlib.Core.Path.{◌≡◌, refl}
use mathlib.Core.Bool.{Bool, true, false, ◌&&◌, not}
use mathlib.Core.Option.{none, some}
use native.Mathlib.Omega.{arith}
use jobilee.Prelude.Tests.{◌==◌, nat_eq, if◌then◌else◌}
use jobilee.Prelude.Text.{strip_prefix, split_first}

-- no "\n" in a text
unfoldable pub is_line : String → Bool
is_line [] = true
is_line (c ∷ s) = if code c == 10 then false else is_line s

-- the text is not empty and its first character is no "\n"
unfoldable goes_on : String → Bool
goes_on [] = false
goes_on (c ∷ s) = not (code c == 10)

-- no "\n\n" in a text, nor a "\n" at its end
unfoldable pub is_block : String → Bool
unfolding goes_on
is_block [] = true
is_block (c ∷ s) = let rest = is_block s in if code c == 10 then goes_on s && rest else rest

goes_on-append : (s t : String) → goes_on s ≡ true → goes_on (s ++ t) ≡ true
unfolding goes_on
goes_on-append [] t = λ h. ground arith
goes_on-append (c ∷ s) t = rw (cons-append, goes_on) (λ h. h)

is_line-is_block : (s : String) → is_line s ≡ true → is_block s ≡ true
unfolding is_line is_block
is_line-is_block [] h = refl
is_line-is_block (c ∷ s) h = ground (arith, is_line-is_block s)

pub is_block-append :
    (s t : String) → is_block s ≡ true → is_line t ≡ true → is_block (s ++ t) ≡ true
unfolding is_block
is_block-append [] t h k = rw nil-append (is_line-is_block t k)
is_block-append (c ∷ s) t h k =
    rw (cons-append, is_block) (ground (arith, is_block-append s t, goes_on-append s t))

strip_prefix-goes_on : (s x : String) → goes_on s ≡ true → strip_prefix "\n" (s ++ x) ≡ none
unfolding strip_prefix goes_on
strip_prefix-goes_on [] x h = ground arith
strip_prefix-goes_on (c ∷ s) x h = rw (cons-append, strip_prefix) (ground arith)

strip_prefix-block :
    (c : Char) (s x : String) → is_block (c ∷ s) ≡ true → strip_prefix "\n\n" (c ∷ (s ++ x)) ≡ none
unfolding strip_prefix is_block
strip_prefix-block c s x h = ground (arith, strip_prefix-goes_on s x)

-- A block that a blank line follows is what a split at the first blank line cuts off.
pub split_first-block :
    (s t : String) → is_block s ≡ true → split_first "\n\n" (s ++ ("\n\n" ++ t)) ≡ some (s, t)
unfolding split_first is_block strip_prefix goes_on
split_first-block [] t h =
    rw (nil-append, cons-append "\n" "\n" t, cons-append "\n" "" t, nil-append) refl
split_first-block (c ∷ s) t h =
    rw
      (
        cons-append,
        split_first,
        strip_prefix-block c s ("\n\n" ++ t) h,
        split_first-block s t (ground arith),
      )
      refl

pub strip_prefix_self : (p s : String) → strip_prefix p (p ++ s) ≡ some s
unfolding strip_prefix
strip_prefix_self [] s = rw nil-append refl
strip_prefix_self (c ∷ p) s = rw (cons-append, strip_prefix) (ground (arith, strip_prefix_self p s))

pub is_line-append : (s t : String) → is_line s ≡ true → is_line t ≡ true → is_line (s ++ t) ≡ true
unfolding is_line
is_line-append [] t h k = rw nil-append k
is_line-append (c ∷ s) t h k = rw (cons-append, is_line) (ground (arith, is_line-append s t))

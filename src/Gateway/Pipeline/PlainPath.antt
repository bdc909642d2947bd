-- ===== src/Gateway/Pipeline/PlainPath.antt =====
-- Paths without what a glob or a pattern gives a meaning to.
use Prim.Native.Char.{code}
use Prim.Native.String.{[], ◌∷◌, ◌++◌}
use Prim.Native.String.append.{cons as cons-append, nil as nil-append}
use jobilee.Prelude.{ℕ, leb, ◌==◌, nat_eq, ◌&&◌, ◌||◌, String, Bool, true, ◌≡◌, subst, arith}

-- The characters of the paths that are considered: letters, digits, `-`, `_` and `/`. None of them
-- means anything in a glob or a pattern, and no segment starts with a dot, which `**` would not match.
abbrev is_path_char : ℕ → Bool
is_path_char n =
    (leb b'a' n && leb n b'z')
    || ((leb b'A' n && leb n b'Z')
        || ((leb b'0' n && leb n b'9') || (n == b'-' || (n == b'_' || n == b'/'))))

unfoldable pub is_plain : String → Bool
is_plain [] = true
is_plain (c ∷ s) = is_path_char (code c) && is_plain s

pub is_plain-append :
    (p s : String) → is_plain p ≡ true → is_plain s ≡ true → is_plain (p ++ s) ≡ true
unfolding is_plain
is_plain-append [] s h k = rw nil-append k
is_plain-append (c ∷ p) s h k = rw (cons-append, is_plain) (ground (arith, is_plain-append p s))

-- What is left of a plain path is plain.
pub is_plain-right : (p s : String) → is_plain (p ++ s) ≡ true → is_plain s ≡ true
unfolding is_plain
is_plain-right [] s h = subst (λ t. is_plain t ≡ true) (nil-append s) h
is_plain-right (c ∷ p) s h =
    is_plain-right p s (ground (arith, subst (λ t. is_plain t ≡ true) (cons-append c p s) h))

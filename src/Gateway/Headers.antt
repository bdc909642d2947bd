-- ===== src/Gateway/Headers.antt =====
-- The header object of a request or a response, whose names are in lower case: reading,
-- setting and deleting a header, and how they interact.
use text.Mathlib.TextPositions.{eq_refl}
use jobilee.Prelude.{
  String, ◌≡◌, ◌≢◌, refl, Option, none, some, List, [], ◌∷◌, arith, eq_iff, ◌==◌, string_eq,
  if◌then◌else◌,
}

abbrev pub Headers : Type 0
Headers = List (String × String)

-- `headers[name]`
unfoldable pub header : String → Headers → Option String
header name [] = none
header name ((k, v) ∷ hs) = if k == name then some v else header name hs

-- `delete headers[name]`
unfoldable pub delete_header : String → Headers → Headers
delete_header name [] = []
delete_header name ((k, v) ∷ hs) =
    let rest = delete_header name hs in if k == name then rest else (k, v) ∷ rest

-- `headers[name] = value`
unfoldable pub set_header : String → String → Headers → Headers
unfolding delete_header
set_header name value hs = (name, value) ∷ delete_header name hs

pub header-delete_self : (name : String) (hs : Headers) → header name (delete_header name hs) ≡ none
unfolding header delete_header
header-delete_self name [] = refl
header-delete_self name ((k, v) ∷ hs) = ground (arith, eq_iff k name, header-delete_self name hs)

pub header-delete_ne :
    (a b : String) (hs : Headers) → a ≢ b → header a (delete_header b hs) ≡ header a hs
unfolding header delete_header
header-delete_ne a b [] h = refl
header-delete_ne a b ((k, v) ∷ hs) h =
    ground (arith, eq_iff k a, eq_iff k b, header-delete_ne a b hs h)

pub header-set_self :
    (name value : String) (hs : Headers) → header name (set_header name value hs) ≡ some value
unfolding header set_header
header-set_self name value hs = rw eq_refl

pub header-set_ne :
    (a b v : String) (hs : Headers) → a ≢ b → header a (set_header b v hs) ≡ header a hs
unfolding header set_header
header-set_ne a b v hs h = ground (arith, eq_iff b a, header-delete_ne a b hs h)

-- ===== src/Gateway/Metrics/Labels.antt =====
-- services/gateway/src/middleware/observability.ts, `routeLabel`.
use jobilee.Prelude.{
  ℕ, zero, suc, Bool, true, false, ◌&&◌, ◌||◌, List, [], ◌∷◌, leb, ◌==◌, nat_eq, if◌then◌else◌,
}

-- `[0-9a-f]` under the flag `i`
unfoldable pub is_hex : ℕ → Bool
is_hex c = (leb b'0' c && leb c b'9') || (leb b'a' c && leb c b'f') || (leb b'A' c && leb c b'F')

abbrev pub is_digit : ℕ → Bool
is_digit c = leb b'0' c && leb c b'9'

-- Whether a text begins with groups of so many hexadecimal digits, with a "-" between the groups.
abbrev pub begins_uuid : List ℕ → ℕ → List ℕ → Bool
unfolding is_hex
begins_uuid [] zero groups = elim groups [ [] ↦ true | _ ∷ _ ↦ false ]
begins_uuid [] (suc n) groups = false
begins_uuid (c ∷ s) zero [] = true
begins_uuid (c ∷ s) zero (g ∷ groups) = c == b'-' && begins_uuid s g groups
begins_uuid (c ∷ s) (suc n) groups = is_hex c && begins_uuid s n groups

-- the first `replace`: after a match, its 36 characters are passed over
unfoldable pub collapse_ids : ℕ → List ℕ → List ℕ
unfolding begins_uuid
collapse_ids skip [] = []
collapse_ids (suc skip) (c ∷ s) = collapse_ids skip s
collapse_ids zero (c ∷ s) =
    let rest = collapse_ids zero s in
    let after_match = collapse_ids 36 s in
    if c == b'/' && begins_uuid s 8 (4 ∷ 4 ∷ 4 ∷ 12 ∷ [])
    then b'/' ∷ b':' ∷ b'i' ∷ b'd' ∷ after_match
    else c ∷ rest

abbrev pub begins_digit : List ℕ → Bool
begins_digit [] = false
begins_digit (c ∷ s) = is_digit c

-- the second `replace`; inside a match the digits are passed over
unfoldable pub collapse_numbers : Bool → List ℕ → List ℕ
collapse_numbers inside [] = []
collapse_numbers inside (c ∷ s) =
    let rest = collapse_numbers false s in
    let in_match = collapse_numbers true s in
    if inside && is_digit c
    then in_match
    else if c == b'/' && begins_digit s
    then b'/' ∷ b':' ∷ b'n' ∷ in_match
    else c ∷ rest

-- `routeLabel`, on code points
unfoldable pub route_label : List ℕ → List ℕ
unfolding collapse_ids collapse_numbers
route_label path = collapse_numbers false (collapse_ids 0 path)

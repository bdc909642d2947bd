-- ===== src/Web/Pages/Versions.antt =====
-- apps/web/src/components/Artifacts.tsx and TailoredResumes.tsx: which entry of a list is expanded.
use jobilee.Prelude.{
  String, ◌≡◌, ◌≢◌, refl, inl, inr, Bool-cases, Bool, true, false, not, List, [], ◌∷◌, arith, ◌==◌,
  string_eq, eq_iff, eq_refl, if◌then◌else◌,
}

-- `openId`: `undefined`, `null` or an id
pub data OpenId : Type 0 where
  unchosen closed : OpenId
  opened : String → OpenId

-- `entries[0]?.id === entry.id`
abbrev pub is_first : List String → String → Bool
is_first [] id = false
is_first (first ∷ ids) id = first == id

-- `open`, for the ids of the list
unfoldable pub is_open : List String → OpenId → String → Bool
is_open ids unchosen id = is_first ids id
is_open ids closed id = false
is_open ids (opened o) id = o == id

-- `onClick`
unfoldable pub click : List String → String → OpenId → OpenId
unfolding is_open
click ids id o = if is_open ids o id then closed else opened id

-- A click on an entry changes whether it is open, and closes every other one.
pub is_open-click :
    (ids : List String) (id other : String) (o : OpenId)
    → (is_open ids (click ids id o) id ≡ not (is_open ids o id))
      × (id ≢ other → is_open ids (click ids id o) other ≡ false)
unfolding click is_open
is_open-click ids id other o = elim (Bool-cases (is_open ids o id)) [
  | inl e ↦ rw (click, e) (refl, λ _. refl)
  | inr e ↦ rw (click, e) (eq_refl id, λ apart. ground (arith, eq_iff id other))
]

-- At most one entry is open.
pub is_open_unique :
    (ids : List String) (o : OpenId) (a b : String)
    → is_open ids o a ≡ true
    → is_open ids o b ≡ true
    → a ≡ b
unfolding is_open
is_open_unique [] unchosen a b p q = cc
is_open_unique (first ∷ ids) unchosen a b p q = ground (arith, eq_iff first a, eq_iff first b)
is_open_unique ids closed a b p q = cc
is_open_unique ids (opened id) a b p q = ground (arith, eq_iff id a, eq_iff id b)

-- ===== src/Ai/Quota/Budget.antt =====
-- How many generations a user gets in a day.
use text.Mathlib.TextLemmas.{append_cancel_left}
use jobilee.Prelude.{
  ℕ, suc, ◌+◌, ◌-◌, min, String, ◌≡◌, ◌≢◌, refl, sym, ap, ◌∙◌, List, [], ◌∷◌, arith, eq_iff,
  Bool-cases, inl, inr, ◌==◌, string_eq, if◌then◌else◌, ltb,
}
use jobilee.Effect.{Outcome, returned, threw, after}
use jobilee.Ai.Quota.{Count, nonneg, below, Redis, Now, key_for, consume, check_cap}
use jobilee.Ai.Quota.Counting.{IsCounting, incremented, consume-counted}

same_user : (now : Now) (u v : String) → key_for now u ≡ key_for now v → u ≡ v
same_user now u v e =
    append_cancel_left ":" u v
      (append_cancel_left now.today _ _ (append_cancel_left "quota:generations:" _ _ e))

-- the charges of the user in a list of charges
pub requested : String → List String → ℕ
requested user_id [] = 0
requested user_id (u ∷ users) =
    if u == user_id then suc (requested user_id users) else requested user_id users

module _ {W : Type 0} (redis : Redis W) (cap : ℕ) (now : Now) (user_id : String) where
  abbrev accepted : Outcome W (Unit {0}) → ℕ
  accepted (returned _ w) = 1
  accepted (threw e w) = 0

  -- the user's charges that pass, when the charges of all users come in turn
  pub accepted_of : List String → W → ℕ
  accepted_of [] w = 0
  accepted_of (u ∷ users) w =
      let o = consume redis cap now u w in
      (if u == user_id then accepted o else 0) + accepted_of users (after o)

module _ {W : Type 0} (count : W → String → Count) (redis : Redis W)
    (counting : IsCounting count redis) (cap : ℕ) (now : Now) where
  check_cap-accepted :
      (n : ℕ) (user_id : String) (w : W)
      → accepted redis cap now user_id (check_cap redis cap (nonneg n) w)
        ≡ (if ltb cap n then 0 else 1)
  check_cap-accepted n user_id w = ground arith

  check_cap-after : (c : Count) (w : W) → after (check_cap redis cap c w) ≡ w
  check_cap-after (nonneg n) w = ground arith
  check_cap-after (below n) w = refl

  -- one charge of the user: it passes if the cap is not used up, and it counts in any case
  own_charge :
      (user_id u : String) (n : ℕ) (w : W)
      → u ≡ user_id
      → count w (key_for now user_id) ≡ nonneg n
      → (accepted redis cap now user_id (consume redis cap now u w)
          ≡ (if ltb cap (suc n) then 0 else 1))
        × (count (after (consume redis cap now u w)) (key_for now user_id) ≡ nonneg (suc n))
  own_charge user_id u n w same e =
      let (w', c, (s, others)) = consume-counted count redis counting cap now u w in
      let here : count w (key_for now u) ≡ nonneg n = rw same e in
      let there : count w' (key_for now user_id) ≡ nonneg (suc n) =
        rw (sym same) (s ∙ ap incremented here) in
      (
        ap (accepted redis cap now user_id)
              (c ∙ ap (λ m. check_cap redis cap (incremented m) w') here)
            ∙ check_cap-accepted (suc n) user_id w',
        ap (λ o. count (after o) (key_for now user_id)) c
            ∙ ap (λ v. count v (key_for now user_id)) (check_cap-after _ w')
            ∙ there,
      )

  -- a charge of another user leaves the counter alone
  other_charge :
      (user_id u : String) (w : W)
      → u ≢ user_id
      → count (after (consume redis cap now u w)) (key_for now user_id)
        ≡ count w (key_for now user_id)
  other_charge user_id u w differ =
      let (w', c, (s, others)) = consume-counted count redis counting cap now u w in
      ap (λ o. count (after o) (key_for now user_id)) c
      ∙ ap (λ v. count v (key_for now user_id)) (check_cap-after _ w')
      ∙ others (key_for now user_id) (λ e. differ (sym (same_user now user_id u e)))

  -- Within a day a user gets all the generations asked for, or as many as the cap has left,
  -- whatever other users ask for in between.
  pub accepted_of-min :
      (user_id : String) (users : List String) (n : ℕ) (w : W)
      → count w (key_for now user_id) ≡ nonneg n
      → accepted_of redis cap now user_id users w ≡ min (requested user_id users) (cap - n)
  unfolding accepted_of requested
  accepted_of-min user_id [] n w e = omega arith
  accepted_of-min user_id (u ∷ users) n w e = elim (Bool-cases (u == user_id)) [
    | inl h ↦
        let (a, c) = own_charge user_id u n w ((eq_iff u user_id).0 h) e in
        rw h (ground (arith, a, accepted_of-min user_id users (suc n) _ c))
    | inr h ↦
        let c = other_charge user_id u w (ground (arith, eq_iff u user_id)) in
        rw h (ground (arith, accepted_of-min user_id users n _ (c ∙ e)))
  ]

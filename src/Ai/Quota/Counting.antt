-- ===== src/Ai/Quota/Counting.antt =====
-- What the quota relies on of Redis, and what a charge and a refund do to the counter.
use jobilee.Prelude.{
  ℕ, zero, suc, ◌-◌, ◌<◌, String, ◌≡◌, ◌≢◌, refl, ap, ◌∙◌, arith, eq_iff, string_eq, if◌then◌else◌,
}
use jobilee.Effect.{returned, pure}
use jobilee.Effect.Rules.{bind_returned}
use jobilee.Ai.Quota.{
  Count, nonneg, below, is_negative, Redis, Now, key_for, consume, set_expiry, check_cap, refund,
}

-- INCR and DECR
abbrev pub incremented : Count → Count
incremented (nonneg n) = nonneg (suc n)
incremented (below zero) = nonneg 0
incremented (below (suc n)) = below n

abbrev pub decremented : Count → Count
decremented (nonneg zero) = below 0
decremented (nonneg (suc n)) = nonneg n
decremented (below n) = below (suc n)

module _ {W : Type 0} (count : W → String → Count) where
  abbrev pub SetTo : W → W → String → Count → Type 0
  SetTo w w' key n = (count w' key ≡ n) × ((k : String) → k ≢ key → count w' k ≡ count w k)

  abbrev pub SameCounts : W → W → Type 0
  SameCounts w w' = (k : String) → count w' k ≡ count w k

  -- A Redis that answers: `count w key` is the number under a key, 0 for a missing one. An expiry
  -- that is set now takes no key away now.
  pub record IsCounting (redis : Redis W) : Type 0 where
    pub incr_law :
        (key : String) (w : W)
        → (ttl : Count) × (w' : W) × (redis.incr_ttl key w
            ≡ returned (incremented (count w key), ttl) w')
          × SetTo w w' key (incremented (count w key))
    pub expire_law :
        (key : String) (seconds : ℕ) (w : W)
        → (w' : W) × (redis.expire key seconds w ≡ returned tt w') × SameCounts w w'
    pub decr_law :
        (key : String) (w : W)
        → (w' : W) × (redis.decr key w ≡ returned (decremented (count w key)) w')
          × SetTo w w' key (decremented (count w key))
    pub del_law :
        (key : String) (w : W)
        → (w' : W) × (redis.del key w ≡ returned tt w') × SetTo w w' key (nonneg 0)

module _ {W : Type 0} (count : W → String → Count) (redis : Redis W)
    (counting : IsCounting count redis) (cap : ℕ) where
  -- the same outcome, whatever the time to live was
  expiry :
      (now : Now) (key : String) (ttl : Count) (w : W)
      → (w' : W) × (set_expiry redis cap now key ttl w ≡ returned tt w') × SameCounts count w w'
  expiry now key (nonneg n) w = (w, refl, λ k. refl)
  expiry now key (below n) w = counting.expire_law key _ w

  -- A charge counts, and passes just when the new count is within the cap.
  pub consume-counted :
      (now : Now) (user_id : String) (w : W)
      → let key = key_for now user_id in
        (w' : W) × (consume redis cap now user_id w
          ≡ check_cap redis cap (incremented (count w key)) w')
        × SetTo count w w' key (incremented (count w key))
  unfolding consume
  consume-counted now user_id w =
      let (ttl, w₁, e, (s, others)) = counting.incr_law (key_for now user_id) w in
      let (w₂, e', kept) = expiry now (key_for now user_id) ttl w₁ in
      (
        w₂,
        bind_returned (redis.incr_ttl (key_for now user_id)) _ w w₁ _ e
            ∙ bind_returned (set_expiry redis cap now (key_for now user_id) ttl) _ w₁ w₂ tt e',
        (kept _ ∙ s, λ k ne. kept k ∙ others k ne),
      )

  forgotten :
      (c : Count) (key : String) (w w' : W)
      → c ≡ nonneg 0
      → redis.del key w ≡ returned tt w'
      → (if is_negative (decremented c) then redis.del key else pure tt) w ≡ returned tt w'
  forgotten c key w w' e d = rw e d

  kept_positive :
      (key : String) (c : Count) (n : ℕ) (w : W)
      → c ≡ nonneg (suc n)
      → (if is_negative (decremented c) then redis.del key else pure tt) w ≡ returned tt w
  kept_positive key c n w e = rw e refl

  pub passes :
      (c : Count) (n : ℕ) (w : W)
      → c ≡ nonneg n
      → n < cap
      → check_cap redis cap (incremented c) w ≡ returned tt w
  passes c n w e under = ground arith

  -- A refund takes one off, and never goes below zero.
  pub refund-counted :
      (now : Now) (user_id : String) (n : ℕ) (w : W)
      → count w (key_for now user_id) ≡ nonneg n
      → (w' : W) × (refund redis cap now user_id w ≡ returned tt w')
        × SetTo count w w' (key_for now user_id) (nonneg (n - 1))
  unfolding refund
  refund-counted now user_id zero w at_zero =
      let (w₁, e, (s, others)) = counting.decr_law (key_for now user_id) w in
      let (w₂, e', (s', others')) = counting.del_law (key_for now user_id) w₁ in
      (
        w₂,
        bind_returned (redis.decr (key_for now user_id)) _ w w₁ _ e
            ∙ forgotten (count w (key_for now user_id)) (key_for now user_id) w₁ w₂ at_zero e',
        (s', λ k ne. others' k ne ∙ others k ne),
      )
  refund-counted now user_id (suc n) w at_suc =
      let (w₁, e, (s, others)) = counting.decr_law (key_for now user_id) w in
      (
        w₁,
        bind_returned (redis.decr (key_for now user_id)) _ w w₁ _ e
            ∙ kept_positive (key_for now user_id) (count w (key_for now user_id)) n w₁ at_suc,
        (s ∙ ap decremented at_suc ∙ ap nonneg (omega arith), others),
      )

  -- A charge under the cap passes, and a refund on the same day puts every counter back.
  pub refund-consume :
      (now : Now) (user_id : String) (n : ℕ) (w : W)
      → count w (key_for now user_id) ≡ nonneg n
      → n < cap
      → (w₁ w₂ : W) × (consume redis cap now user_id w ≡ returned tt w₁)
        × (refund redis cap now user_id w₁ ≡ returned tt w₂)
        × SameCounts count w w₂
  refund-consume now user_id n w at_n under =
      let (w₁, e, (s, others)) = consume-counted now user_id w in
      let (w₂, e', (s', others')) =
        refund-counted now user_id (suc n) w₁ (s ∙ ap incremented at_n) in
      (
        w₁,
        w₂,
        e ∙ passes _ n w₁ at_n under,
        e',
        λ k. ground (arith, eq_iff k (key_for now user_id), others k, others' k),
      )

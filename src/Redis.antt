-- ===== src/Redis.antt =====
-- What the program relies on of Redis's counters. The store is a parameter: `count w key` is the
-- value under a key in the world `w`, 0 for a missing key.
use jobilee.Prelude.{ℕ, suc, String, ◌≡◌, ◌≢◌}
use jobilee.Effect.{Outcome, returned, threw}

-- INCR returns the value that it stored, one above the old one, and no other key changes. Nothing
-- is asked of a call that throws.
abbrev pub Increments : {W : Type 0} → (W → String → ℕ) → String → W → Outcome W ℕ → Type 0
Increments count key w (returned n w') =
    (n ≡ suc (count w key)) × (count w' key ≡ n) × ((k : String) → k ≢ key → count w' k ≡ count w k)
Increments count key w (threw e w') = Unit

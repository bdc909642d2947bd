-- ===== src/Effect/Meets.antt =====
-- Postconditions of actions that see what was thrown.
use jobilee.Effect.{Outcome, Action, returned, threw, catch, ◌>>=◌}
use jobilee.Effect.Rules.{Ensures}
use jobilee.Thrown.{Thrown}

-- a postcondition that sees what was thrown
abbrev pub Meets : {W A : Type 0} → Outcome W A → (A → W → Type 0) → (Thrown → W → Type 0) → Type 0
Meets (returned a w) good bad = good a w
Meets (threw e w) good bad = bad e w

meets_bind_outcome :
    {W A B : Type 0} (o : Outcome W A) (f : A → Action W B) (mid : A → W → Type 0)
    (good : B → W → Type 0) (bad : Thrown → W → Type 0)
    → Meets o mid bad
    → ((a : A) (w : W) → mid a w → Meets (f a w) good bad)
    → Meets
        (let r : Outcome W B = elim o [ returned a w ↦ f a w | threw e w ↦ threw e w ] in r)
        good
        bad
meets_bind_outcome (returned a w) f mid good bad h k = k a w h
meets_bind_outcome (threw e w) f mid good bad h k = h

pub Meets-bind :
    {W A B : Type 0} (m : Action W A) (f : A → Action W B) (w : W) (mid : A → W → Type 0)
    (good : B → W → Type 0) (bad : Thrown → W → Type 0)
    → Meets (m w) mid bad
    → ((a : A) (w' : W) → mid a w' → Meets (f a w') good bad)
    → Meets ((m >>= f) w) good bad
Meets-bind m f w mid good bad h k = meets_bind_outcome (m w) f mid good bad h k

meets_catch_outcome :
    {W A : Type 0} (o : Outcome W A) (handler : Thrown → Action W A) (good : A → W → Type 0)
    (mid bad : Thrown → W → Type 0)
    → Meets o good mid
    → ((e : Thrown) (w : W) → mid e w → Meets (handler e w) good bad)
    → Meets
        (let r : Outcome W A = elim o [ returned a w ↦ returned a w | threw e w ↦ handler e w ] in
          r)
        good
        bad
meets_catch_outcome (returned a w) handler good mid bad h k = h
meets_catch_outcome (threw e w) handler good mid bad h k = k e w h

pub Meets-catch :
    {W A : Type 0} (m : Action W A) (handler : Thrown → Action W A) (w : W) (good : A → W → Type 0)
    (mid bad : Thrown → W → Type 0)
    → Meets (m w) good mid
    → ((e : Thrown) (w' : W) → mid e w' → Meets (handler e w') good bad)
    → Meets (catch m handler w) good bad
Meets-catch m handler w good mid bad h k = meets_catch_outcome (m w) handler good mid bad h k

pub Meets-mono :
    {W A : Type 0} (o : Outcome W A) (good good' : A → W → Type 0) (bad bad' : Thrown → W → Type 0)
    → Meets o good bad
    → ((a : A) (w : W) → good a w → good' a w)
    → ((e : Thrown) (w : W) → bad e w → bad' e w)
    → Meets o good' bad'
Meets-mono (returned a w) good good' bad bad' h g b = g a w h
Meets-mono (threw e w) good good' bad bad' h g b = b e w h

-- Of any outcome nothing is known.
pub Meets-any : {W A : Type 0} (o : Outcome W A) → Meets o (λ _ _. Unit) (λ _ _. Unit)
Meets-any (returned a w) = tt
Meets-any (threw e w) = tt

pub Ensures-Meets :
    {W A : Type 0} (o : Outcome W A) (good : A → W → Type 0) (bad : W → Type 0)
    → Ensures o good bad
    → Meets o good (λ _. bad)
Ensures-Meets (returned a w) good bad h = h
Ensures-Meets (threw e w) good bad h = h

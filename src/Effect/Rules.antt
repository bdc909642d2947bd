-- ===== src/Effect/Rules.antt =====
-- Postconditions of actions, for the return and for the throw.
use jobilee.Prelude.{◌≡◌, refl, subst}
use jobilee.Effect.{Outcome, Action, returned, threw, after, catch, ◌>>=◌}
use jobilee.Thrown.{Thrown}

-- `good` of what was returned, `bad` of the world after a throw
abbrev pub Ensures : {W A : Type 0} → Outcome W A → (A → W → Type 0) → (W → Type 0) → Type 0
Ensures (returned a w) good bad = good a w
Ensures (threw e w) good bad = bad w

module _ {W A : Type 0} where
  pub Ensures-mono :
      (o : Outcome W A) (good good' : A → W → Type 0) (bad bad' : W → Type 0)
      → Ensures o good bad
      → ((a : A) (w : W) → good a w → good' a w)
      → ((w : W) → bad w → bad' w)
      → Ensures o good' bad'
  Ensures-mono (returned a w) good good' bad bad' h g b = g a w h
  Ensures-mono (threw e w) good good' bad bad' h g b = b w h

bind_outcome :
    {W A B : Type 0} (o : Outcome W A) (f : A → Action W B) (mid : A → W → Type 0)
    (good : B → W → Type 0) (bad : W → Type 0)
    → Ensures o mid bad
    → ((a : A) (w : W) → mid a w → Ensures (f a w) good bad)
    → Ensures
        (let r : Outcome W B = elim o [ returned a w ↦ f a w | threw e w ↦ threw e w ] in r)
        good
        bad
bind_outcome (returned a w) f mid good bad h k = k a w h
bind_outcome (threw e w) f mid good bad h k = h

-- The rule for `do`: what holds between two steps is named.
pub Ensures-bind :
    {W A B : Type 0} (m : Action W A) (f : A → Action W B) (w : W) (mid : A → W → Type 0)
    (good : B → W → Type 0) (bad : W → Type 0)
    → Ensures (m w) mid bad
    → ((a : A) (w' : W) → mid a w' → Ensures (f a w') good bad)
    → Ensures ((m >>= f) w) good bad
Ensures-bind m f w mid good bad h k = bind_outcome (m w) f mid good bad h k

-- What holds after a return and after a throw holds of the world afterwards.
pub Ensures-after :
    {W A : Type 0} (o : Outcome W A) (good : A → W → Type 0) (bad P : W → Type 0)
    → Ensures o good bad
    → ((a : A) (w : W) → good a w → P w)
    → ((w : W) → bad w → P w)
    → P (after o)
Ensures-after (returned a w) good bad P h g b = g a w h
Ensures-after (threw e w) good bad P h g b = b w h

catch_outcome :
    {W A : Type 0} (o : Outcome W A) (handler : Thrown → Action W A) (good : A → W → Type 0)
    (mid bad : W → Type 0)
    → Ensures o good mid
    → ((e : Thrown) (w : W) → mid w → Ensures (handler e w) good bad)
    → Ensures
        (let r : Outcome W A = elim o [ returned a w ↦ returned a w | threw e w ↦ handler e w ] in
          r)
        good
        bad
catch_outcome (returned a w) handler good mid bad h k = h
catch_outcome (threw e w) handler good mid bad h k = k e w h

-- The rule for `try … catch`: the handler starts from what holds after a throw.
pub Ensures-catch :
    {W A : Type 0} (m : Action W A) (handler : Thrown → Action W A) (w : W) (good : A → W → Type 0)
    (mid bad : W → Type 0)
    → Ensures (m w) good mid
    → ((e : Thrown) (w' : W) → mid w' → Ensures (handler e w') good bad)
    → Ensures (catch m handler w) good bad
Ensures-catch m handler w good mid bad h k = catch_outcome (m w) handler good mid bad h k

-- A step that is known to return.
pub bind_returned :
    {W A B : Type 0} (m : Action W A) (f : A → Action W B) (w w' : W) (a : A)
    → m w ≡ returned a w'
    → (m >>= f) w ≡ f a w'
bind_returned m f w w' a e = rw (e, ◌>>=◌) refl

-- Of any outcome nothing is known.
pub Ensures-any : {W A : Type 0} (o : Outcome W A) → Ensures o (λ _ _. Unit) (λ _. Unit)
Ensures-any (returned a w) = tt
Ensures-any (threw e w) = tt

-- What an outcome ensures, it ensures of the value that it is known to return.
pub Ensures-returned :
    {W A : Type 0} (o : Outcome W A) (good : A → W → Type 0) (bad : W → Type 0) (a : A) (w : W)
    → o ≡ returned a w
    → Ensures o good bad
    → good a w
Ensures-returned o good bad a w e h = subst (λ p. Ensures p good bad) e h

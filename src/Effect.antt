-- ===== src/Effect.antt =====
-- Asynchronous code that may throw: an action takes the world and returns or throws in a new one.
-- `W` stands for all that lies outside the program (databases, Redis, other services).

pub mod Rules
pub mod Meets
use jobilee.Thrown.{Thrown}

pub data Outcome (W A : Type 0) : Type 0 where
  returned : A → W → Outcome W A
  threw : Thrown → W → Outcome W A

abbrev pub Action : Type 0 → Type 0 → Type 0
Action W A = W → Outcome W A

module _ {W : Type 0} where
  abbrev pub pure : {A : Type 0} → A → Action W A
  pure a w = returned a w

  abbrev pub throw : {A : Type 0} → Thrown → Action W A
  throw e w = threw e w

  infixl 5 ◌>>=◌ ◌>>◌
  abbrev pub ◌>>=◌ : {A B : Type 0} → Action W A → (A → Action W B) → Action W B
  ◌>>=◌ m f w = elim (m w) [ returned a w' ↦ f a w' | threw e w' ↦ threw e w' ]

  abbrev pub ◌>>◌ : {A B : Type 0} → Action W A → Action W B → Action W B
  ◌>>◌ m f w = elim (m w) [ returned _ w' ↦ f w' | threw e w' ↦ threw e w' ]

  -- `try { m } catch (e) { handler }`
  abbrev pub catch : {A : Type 0} → Action W A → (Thrown → Action W A) → Action W A
  catch m handler w = elim (m w) [ returned a w' ↦ returned a w' | threw e w' ↦ handler e w' ]

  -- `m.catch(() => undefined)`
  abbrev pub ignore_errors : Action W (Unit {0}) → Action W (Unit {0})
  ignore_errors m = catch m (λ _. pure tt)

  -- the world after an action
  abbrev pub after : {A : Type 0} → Outcome W A → W
  after (returned _ w) = w
  after (threw _ w) = w

-- ===== src/Web/Pages/View.antt =====
-- What the components of apps/web/src share: the state of a component beside the world that its calls
-- run in, and the message for a failure.
use jobilee.Prelude.{String, ◌≡◌, refl}
use jobilee.Effect.{Outcome, Action, returned, threw}
use jobilee.Effect.Meets.{Meets}
use jobilee.Thrown.{Thrown, request_error}

-- `V` is the state of a component, `W` all else
pub record Shown (V W : Type 0) : Type 0 where
  pub view : V
  pub world : W

-- `cause instanceof ApiError ? cause.message : "…"`
abbrev pub reason : String → Thrown → String
reason fallback (request_error e) = e.message
reason fallback _ = fallback

module _ {V W : Type 0} where
  -- the setters of `useState`
  abbrev pub on_view : (V → V) → Action (Shown V W) (Unit {0})
  on_view f s = returned tt (record s { view = f s.view })

  abbrev pub in_view : {A : Type 0} → V → Outcome W A → Outcome (Shown V W) A
  in_view v (returned a w) = returned a (record { view = v; world = w })
  in_view v (threw e w) = threw e (record { view = v; world = w })

  -- a call that does not touch the component's own state
  unfoldable pub calling : {A : Type 0} → Action W A → Action (Shown V W) A
  calling m s = in_view s.view (m s.world)

  -- What is known of the call and the state that it started in.
  pub calling-Meets :
      {A : Type 0} (m : Action W A) (s : Shown V W) (good : A → W → Type 0)
      (bad : Thrown → W → Type 0)
      → Meets (m s.world) good bad
      → Meets
          (calling m s)
          (λ a t. (t.view ≡ s.view) × good a t.world)
          (λ e t. (t.view ≡ s.view) × bad e t.world)
  unfolding calling
  calling-Meets {A} m s good bad h = shown (m s.world) h
    where
      shown :
          (o : Outcome W A)
          → Meets o good bad
          → Meets
              (in_view s.view o)
              (λ a t. (t.view ≡ s.view) × good a t.world)
              (λ e t. (t.view ≡ s.view) × bad e t.world)
      shown (returned a w) k = (refl, k)
      shown (threw e w) k = (refl, k)

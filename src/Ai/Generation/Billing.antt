-- ===== src/Ai/Generation/Billing.antt =====
-- What a generation costs, and what it reports.
use jobilee.Prelude.{
  ℕ, zero, suc, ◌+◌, ◌≤◌, String, ◌≡◌, ◌≢◌, List, [], ◌∷◌, ◌++◌, arith, eq_iff, string_eq,
}
use jobilee.Effect.{Action}
use jobilee.Effect.Rules.{Ensures, Ensures-bind, Ensures-mono}
use jobilee.Shared.Ai.{CreateTaskRequest}
use jobilee.Ai.Prompts.{PromptSpec, spec_for}
use jobilee.Ai.Tasks.{
  Environment, Message, StopReason, refusal, pause_turn, max_tokens, end_turn, ModelRequest, Turn,
  assistant_turn,
}
use jobilee.Ai.Generation.{GenerationResult, attempt_from, generate, settle, accept, request_of}

-- The provider's meters: how often the model was called, and the tokens that it took and gave.
pub record Meters (W : Type 0) : Type 0 where
  pub calls : W → ℕ
  pub input : W → ℕ
  pub output : W → ℕ

module _ {W : Type 0} (env : Environment W) (meters : Meters W) where
  -- a call counts once, and its message says what it cost
  abbrev Counts : W → Message → W → Type 0
  Counts w m w' =
      (meters.calls w' ≡ suc (meters.calls w))
      × (meters.input w' ≡ meters.input w + m.input_tokens)
      × (meters.output w' ≡ meters.output w + m.output_tokens)

  abbrev pub IsMetered : Type 0
  IsMetered =
      (r : ModelRequest) (w : W)
      → Ensures (env.stream r w) (Counts w) (λ w'. meters.calls w' ≤ suc (meters.calls w))

  -- The result has a text, and the tokens of it are those metered since `w`, on top of `i` and `o`.
  abbrev pub Bills : ℕ → ℕ → ℕ → W → GenerationResult → W → Type 0
  Bills left i o w g w' =
      (g.text ≢ "")
      × (meters.calls w' ≤ meters.calls w + left)
      × (meters.input w + g.input_tokens ≡ meters.input w' + i)
      × (meters.output w + g.output_tokens ≡ meters.output w' + o)

  abbrev pub CallsAtMost : ℕ → W → W → Type 0
  CallsAtMost left w w' = meters.calls w' ≤ meters.calls w + left

  accept-Bills :
      (text : String) (left i o p q : ℕ) (w w' : W)
      → meters.calls w' ≤ meters.calls w + left
      → meters.input w + p ≡ meters.input w' + i
      → meters.output w + q ≡ meters.output w' + o
      → Ensures (accept env text p q w') (Bills left i o w) (CallsAtMost left w)
  accept-Bills text left i o p q w w' c a b = ground (arith, eq_iff text "")

  settle-Bills :
      (reason : StopReason) (m : Message) (left i o : ℕ) (w w' : W)
      (resume : Action W GenerationResult)
      → meters.calls w' ≡ suc (meters.calls w)
      → meters.input w' ≡ meters.input w + m.input_tokens
      → meters.output w' ≡ meters.output w + m.output_tokens
      → Ensures (resume w') (Bills (suc left) i o w) (CallsAtMost (suc left) w)
      → Ensures
          (settle env reason m (i + m.input_tokens) (o + m.output_tokens) resume w')
          (Bills (suc left) i o w)
          (CallsAtMost (suc left) w)
  settle-Bills refusal m left i o w w' resume c a b h = omega arith
  settle-Bills pause_turn m left i o w w' resume c a b h = h
  settle-Bills max_tokens m left i o w w' resume c a b h =
      accept-Bills _ (suc left) i o _ _ w w' (omega arith) (omega arith) (omega arith)
  settle-Bills end_turn m left i o w w' resume c a b h =
      accept-Bills _ (suc left) i o _ _ w w' (omega arith) (omega arith) (omega arith)

  attempt_from-Bills :
      IsMetered
      → (spec : PromptSpec) (left : ℕ) (messages : List Turn) (i o : ℕ) (w : W)
      → Ensures (attempt_from env spec left messages i o w) (Bills left i o w) (CallsAtMost left w)
  unfolding attempt_from
  attempt_from-Bills metered spec zero messages i o w = omega arith
  attempt_from-Bills metered spec (suc left) messages i o w =
      Ensures-bind (env.stream (request_of env.ai_model_generation spec messages)) _ w (Counts w)
        (Bills (suc left) i o w) (CallsAtMost (suc left) w)
        (Ensures-mono _ (Counts w) (Counts w) (λ w'. meters.calls w' ≤ suc (meters.calls w))
          (CallsAtMost (suc left) w) (metered (request_of env.ai_model_generation spec messages) w)
          (λ m w' h. h) (λ w' h. omega arith))
        (λ m w' (c, a, b). settle-Bills m.stop_reason m left i o w w' _ c a b (
          Ensures-mono _ (Bills left (i + m.input_tokens) (o + m.output_tokens) w')
            (Bills (suc left) i o w) (CallsAtMost left w') (CallsAtMost (suc left) w)
            (attempt_from-Bills metered spec left (messages ++ assistant_turn m.content ∷ [])
              (i + m.input_tokens) (o + m.output_tokens) w')
            (λ g w'' (t, c', a', b'). (t, omega arith, omega arith, omega arith))
            (λ w'' c'. omega arith)))

  -- A generation calls the model at most six times. If it returns, its text is not empty, and its
  -- token counts are all that was metered during it, over the paused turns too.
  pub generate-Bills :
      IsMetered
      → (request : CreateTaskRequest) (w : W)
      → Ensures (generate env request w) (Bills 6 0 0 w) (CallsAtMost 6 w)
  unfolding generate
  generate-Bills metered request w = attempt_from-Bills metered (spec_for request) 6 _ 0 0 w

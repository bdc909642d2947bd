-- ===== src/Ai/Generation.antt =====
-- services/ai-service/src/generation/generation.service.ts: the loop over paused turns, and what a
-- failure tells the user. The log lines are left out.
pub mod Billing
use jobilee.Prelude.{
  ℕ, zero, suc, ◌+◌, String, Bool, true, false, Option, none, some, List, [], ◌∷◌, ◌++◌, join, trim,
  leb, ◌==◌, string_eq, if◌then◌else◌,
}
use jobilee.Effect.{Action, pure, throw, ◌>>=◌}
use jobilee.Thrown.{
  Thrown, app_error, http_error, sdk_rate_limit, sdk_authentication, sdk_connection, sdk_api_error,
  retryable,
}
use jobilee.Shared.Errors.{bad_request, upstream_error}
use jobilee.Shared.Ai.{CreateTaskRequest}
use jobilee.Ai.Prompts.{PromptSpec, spec_for}
use jobilee.Ai.Tasks.{
  StopReason, refusal, pause_turn, max_tokens, end_turn, Block, text_block, other_block, Message,
  Turn, user_turn, assistant_turn, ModelRequest, Environment,
}

pub record GenerationResult : Type 0 where
  pub text : String
  pub input_tokens : ℕ
  pub output_tokens : ℕ

abbrev pub max_continuations : ℕ
max_continuations = 5

-- the texts of the text blocks
abbrev pub texts : List Block → List String
texts [] = []
texts (text_block s ∷ blocks) = s ∷ texts blocks
texts (other_block ∷ blocks) = texts blocks

unfoldable pub answer_text : Message → String
unfolding join trim
answer_text message = trim (join "\n" (texts message.content))

abbrev pub request_of : String → PromptSpec → List Turn → ModelRequest
request_of model spec messages = record {
  model = model;
  max_tokens = spec.max_tokens;
  system = spec.system;
  messages = messages;
  web_search = spec.web_search;
}

module _ {W : Type 0} (env : Environment W) where
  -- an answer that is neither refused nor paused
  abbrev pub accept : String → ℕ → ℕ → Action W GenerationResult
  accept text input output =
      if text == ""
      then throw (app_error upstream_error "The model returned an empty response.")
      else pure (record { text = text; input_tokens = input; output_tokens = output })

  -- what follows a message, `resume` being the rest of the loop
  abbrev pub settle :
      StopReason → Message → ℕ → ℕ → Action W GenerationResult → Action W GenerationResult
  settle refusal message input output resume =
      throw (
        app_error bad_request
          "The model declined this request. Try rephrasing the job description.")
  settle pause_turn message input output resume = resume
  settle max_tokens message input output resume = accept (answer_text message) input output
  settle end_turn message input output resume = accept (answer_text message) input output

  -- the `for` loop, with the attempts that are left
  unfoldable pub attempt_from : PromptSpec → ℕ → List Turn → ℕ → ℕ → Action W GenerationResult
  unfolding answer_text
  attempt_from spec zero messages input output =
      throw (app_error upstream_error "Research took too many steps to complete. Please try again.")
  attempt_from spec (suc left) messages input output = do
    message ← env.stream (request_of env.ai_model_generation spec messages)
    settle message.stop_reason message (input + message.input_tokens)
        (output + message.output_tokens)
        (attempt_from spec left (messages ++ assistant_turn message.content ∷ [])
          (input + message.input_tokens) (output + message.output_tokens))

  unfoldable pub generate : CreateTaskRequest → Action W GenerationResult
  unfolding attempt_from spec_for
  generate request =
      let spec = spec_for request in
      attempt_from spec (suc max_continuations) (user_turn spec.user ∷ []) 0 0

pub record Failure : Type 0 where
  pub message : String
  pub can_retry : Bool

abbrev failure : String → Bool → Failure
failure message can_retry = record { message = message; can_retry = can_retry }

-- `error.status === undefined || error.status >= 500`
abbrev is_server_error : Option ℕ → Bool
is_server_error none = true
is_server_error (some status) = leb 500 status

unfoldable pub describe_failure : Thrown → Failure
unfolding retryable
describe_failure (app_error code message) = failure message false
describe_failure (http_error e) =
    failure "Generated, but could not be saved. Please try again." (retryable e)
describe_failure sdk_rate_limit =
    failure "The AI service is busy right now. Please try again shortly." true
describe_failure sdk_authentication = failure "The AI service is not configured correctly." false
describe_failure sdk_connection = failure "Could not reach the AI service. Please try again." true
describe_failure (sdk_api_error status) =
    failure "The AI service returned an error. Please try again." (is_server_error status)
describe_failure _ = failure "Generation failed unexpectedly. Please try again." true

-- ===== src/Ai/Worker/Keeper.antt =====
-- What the calls of the worker leave alone: the rows of tasks, and what the services hold.
use jobilee.Prelude.{
  ℕ, zero, suc, ◌+◌, List, [], ◌∷◌, ◌++◌, ◌==◌, string_eq, String, ◌≡◌, refl, inl, inr, Option,
  some, Bool-cases, if◌then◌else◌, ◌∙◌,
}
use jobilee.Effect.{Action, Outcome, pure, ◌>>=◌}
use jobilee.Effect.Rules.{Ensures, Ensures-bind, Ensures-mono}
use jobilee.Shared.Ai.{CreateTaskRequest, research, interview_prep, resume_tailor}
use jobilee.Shared.Jobs.{
  ArtifactType, research as research_artifact, interview_prep as interview_prep_artifact,
}
use jobilee.Shared.Tailor.{split_tailor_result}
use jobilee.Ai.Prompts.{PromptSpec, spec_for}
use jobilee.Ai.Quota.{Count, nonneg, below, key_for, refund, is_negative}
use jobilee.Ai.Tasks.{
  TaskRow, TaskPatch, patch_task, TaskEvent, Environment, refund_now, ModelRequest, Message,
  StopReason, refusal, pause_turn, max_tokens, end_turn, Turn, user_turn, assistant_turn,
}
use jobilee.Ai.Generation.{GenerationResult, accept, settle, attempt_from, request_of, generate}
use jobilee.Ai.Delivery.{deliver}

-- What the other services hold, by user and job.
pub data Delivery : Type 0 where
  artifact : String → String → ArtifactType → String → Delivery
  tailored_resume : String → String → String → String → Delivery

-- where a result belongs
abbrev pub delivery_of : String → CreateTaskRequest → String → Delivery
delivery_of user_id (research input) result = artifact user_id input.job_id research_artifact result
delivery_of user_id (interview_prep input) result =
    artifact user_id input.job_id interview_prep_artifact result
delivery_of user_id (resume_tailor input) result =
    tailored_resume user_id input.job_id (split_tailor_result result).gap_analysis
      (split_tailor_result result).content

-- What is relied on: `row w id` is the row of a task in the world `w`, and `Holds d w` says that a
-- service holds `d`.
pub record Keeper (W : Type 0) : Type 1 where
  pub row : W → String → Option TaskRow
  pub Holds : Delivery → W → Type 0

-- No row changes, and what is held stays held.
abbrev pub Keeps : {W : Type 0} → Keeper W → W → W → Type 0
Keeps k w w' =
    ((id : String) → k.row w' id ≡ k.row w id) × ((d : Delivery) → k.Holds d w → k.Holds d w')

abbrev pub KeepsRows : {W : Type 0} → Keeper W → W → W → Type 0
KeepsRows k w w' = (id : String) → k.row w' id ≡ k.row w id

abbrev pub KeepsBoth : {W A : Type 0} → Keeper W → W → Outcome W A → Type 0
KeepsBoth k w o = Ensures o (λ _ w'. Keeps k w w') (λ w'. Keeps k w w')

abbrev pub Updated : {W : Type 0} → Keeper W → W → String → TaskPatch → W → Type 0
Updated k w id patch w' =
    (old : TaskRow) × (k.row w id ≡ some old)
    × (k.row w' id ≡ some (patch_task patch old))
    × ((d : Delivery) → k.Holds d w → k.Holds d w')

-- No row changes, and of what is held only the artifact of a type may be replaced that a job has.
abbrev pub Replaces : {W : Type 0} → Keeper W → String → ArtifactType → W → W → Type 0
Replaces k job_id type w w' =
    ((id : String) → k.row w' id ≡ k.row w id)
    × ((user_id other : String) (other_type : ArtifactType) (content : String)
        → ¬ ((other ≡ job_id) × (other_type ≡ type))
        → k.Holds (artifact user_id other other_type content) w
        → k.Holds (artifact user_id other other_type content) w')
    × ((user_id other gap_analysis content : String)
        → k.Holds (tailored_resume user_id other gap_analysis content) w
        → k.Holds (tailored_resume user_id other gap_analysis content) w')

-- Only an update changes a row, and one that throws changes none; a call of a service that returns
-- has stored what it was given. An artifact takes the place of the one of its job and type.
pub record IsKept {W : Type 0} (env : Environment W) (k : Keeper W) : Type 1 where
  pub find_law :
      (id : String) (w : W)
      → Ensures (env.find_task id w) (λ o w'. (o ≡ k.row w id) × Keeps k w w') (Keeps k w)
  pub update_law :
      (id : String) (patch : TaskPatch) (w : W)
      → Ensures (env.update_task id patch w) (λ _ w'. Updated k w id patch w') (Keeps k w)
  pub publish_law : (e : TaskEvent) (w : W) → KeepsBoth k w (env.publish e w)
  pub stream_law : (r : ModelRequest) (w : W) → KeepsBoth k w (env.stream r w)
  pub decr_law : (key : String) (w : W) → KeepsBoth k w (env.redis.decr key w)
  pub del_law : (key : String) (w : W) → KeepsBoth k w (env.redis.del key w)
  pub put_artifact_law :
      (user_id job_id : String) (type : ArtifactType) (content : String) (w : W)
      → Ensures
          (env.put_artifact user_id job_id type content w)
          (λ _ w'. Replaces k job_id type w w' × k.Holds (artifact user_id job_id type content) w')
          (Replaces k job_id type w)
  pub create_tailored_law :
      (user_id job_id gap_analysis content : String) (w : W)
      → Ensures
          (env.create_tailored user_id job_id gap_analysis content w)
          (λ _ w'. Keeps k w w' × k.Holds (tailored_resume user_id job_id gap_analysis content) w')
          (Keeps k w)

module _ {W : Type 0} (k : Keeper W) where
  pub Keeps-refl : (w : W) → Keeps k w w
  Keeps-refl w = (λ id. refl, λ d h. h)

  pub Keeps-trans : (w w' w'' : W) → Keeps k w w' → Keeps k w' w'' → Keeps k w w''
  Keeps-trans w w' w'' (r, h) (r', h') = (λ id. r' id ∙ r id, λ d x. h' d (h d x))

  -- two steps that keep
  KeepsBoth-bind :
      {A B : Type 0} (m : Action W A) (f : A → Action W B) (w : W)
      → KeepsBoth k w (m w)
      → ((a : A) (w' : W) → KeepsBoth k w' (f a w'))
      → KeepsBoth k w ((m >>= f) w)
  KeepsBoth-bind m f w h g =
      Ensures-bind m f w (λ _. Keeps k w) (λ _. Keeps k w) (Keeps k w) h
        (λ a w' e.
          Ensures-mono (f a w') (λ _. Keeps k w') (λ _. Keeps k w) (Keeps k w') (Keeps k w) (g a w')
            (λ _ w'' e'. Keeps-trans w w' w'' e e') (λ w'' e'. Keeps-trans w w' w'' e e'))

module _ {W : Type 0} (env : Environment W) (k : Keeper W) (kept : IsKept env k) where
  accept-Keeps : (text : String) (i o : ℕ) (w : W) → KeepsBoth k w (accept env text i o w)
  accept-Keeps text i o w = elim (Bool-cases (text == "")) [
    | inl e ↦ rw (e, accept) (Keeps-refl k w)
    | inr e ↦ rw (e, accept) (Keeps-refl k w)
  ]

  settle-Keeps :
      (reason : StopReason) (m : Message) (i o : ℕ) (resume : Action W GenerationResult) (w : W)
      → KeepsBoth k w (resume w)
      → KeepsBoth k w (settle env reason m i o resume w)
  settle-Keeps refusal m i o resume w h = Keeps-refl k w
  settle-Keeps pause_turn m i o resume w h = h
  settle-Keeps max_tokens m i o resume w h = accept-Keeps _ i o w
  settle-Keeps end_turn m i o resume w h = accept-Keeps _ i o w

  attempt_from-Keeps :
      (spec : PromptSpec) (left : ℕ) (messages : List Turn) (i o : ℕ) (w : W)
      → KeepsBoth k w (attempt_from env spec left messages i o w)
  unfolding attempt_from
  attempt_from-Keeps spec zero messages i o w = Keeps-refl k w
  attempt_from-Keeps spec (suc left) messages i o w =
      KeepsBoth-bind k (env.stream (request_of env.ai_model_generation spec messages)) _ w
        (kept.stream_law _ w)
        (λ m w'. settle-Keeps m.stop_reason m _ _ _ w' (
          attempt_from-Keeps spec left (messages ++ assistant_turn m.content ∷ [])
            (i + m.input_tokens) (o + m.output_tokens) w'))

  pub generate-Keeps :
      (request : CreateTaskRequest) (w : W) → KeepsBoth k w (generate env request w)
  unfolding generate
  generate-Keeps request w =
      attempt_from-Keeps (spec_for request) 6 (user_turn (spec_for request).user ∷ []) 0 0 w

  forget-Keeps :
      (left : Count) (key : String) (w : W)
      → KeepsBoth k w ((if is_negative left then env.redis.del key else pure tt) w)
  forget-Keeps (nonneg n) key w = Keeps-refl k w
  forget-Keeps (below n) key w = kept.del_law key w

  pub refund-Keeps : (user_id : String) (w : W) → KeepsBoth k w (refund_now env user_id w)
  unfolding refund_now refund
  refund-Keeps user_id w =
      let key = key_for (env.now w) user_id in
      KeepsBoth-bind k (env.redis.decr key) _ w (kept.decr_law _ w)
        (λ left w'. forget-Keeps left key w')

  put_artifact-Holds :
      (user_id job_id : String) (type : ArtifactType) (content : String) (w : W)
      → Ensures
          (env.put_artifact user_id job_id type content w)
          (λ _ w'. KeepsRows k w w' × k.Holds (artifact user_id job_id type content) w')
          (KeepsRows k w)
  put_artifact-Holds user_id job_id type content w =
      Ensures-mono _
        (λ _ w'. Replaces k job_id type w w' × k.Holds (artifact user_id job_id type content) w')
        (λ _ w'. KeepsRows k w w' × k.Holds (artifact user_id job_id type content) w')
        (Replaces k job_id type w) (KeepsRows k w)
        (kept.put_artifact_law user_id job_id type content w) (λ _ w' (r, h). (r.0, h))
        (λ w' r. r.0)

  -- A delivery changes no row, and one that returns is held.
  pub deliver-Holds :
      (user_id : String) (request : CreateTaskRequest) (result : String) (w : W)
      → Ensures
          (deliver env user_id request result w)
          (λ _ w'. KeepsRows k w w' × k.Holds (delivery_of user_id request result) w')
          (KeepsRows k w)
  unfolding deliver
  deliver-Holds user_id (research input) result w = put_artifact-Holds user_id _ _ result w
  deliver-Holds user_id (interview_prep input) result w = put_artifact-Holds user_id _ _ result w
  deliver-Holds user_id (resume_tailor input) result w =
      Ensures-mono (env.create_tailored user_id input.job_id _ _ w)
        (λ _ w'. Keeps k w w' × k.Holds (delivery_of user_id (resume_tailor input) result) w')
        (λ _ w'. KeepsRows k w w' × k.Holds (delivery_of user_id (resume_tailor input) result) w')
        (Keeps k w) (KeepsRows k w) (kept.create_tailored_law user_id input.job_id _ _ w)
        (λ _ w' (r, h). (r.0, h)) (λ w' r. r.0)

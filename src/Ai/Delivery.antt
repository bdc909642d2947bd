-- ===== src/Ai/Delivery.antt =====
-- services/ai-service/src/delivery/delivery.service.ts: a result goes to the service that owns it.
use jobilee.Prelude.{String}
use jobilee.Effect.{Action}
use jobilee.Shared.Ai.{CreateTaskRequest, research, interview_prep, resume_tailor}
use jobilee.Shared.Jobs.{research as research_artifact, interview_prep as interview_prep_artifact}
use jobilee.Shared.Tailor.{split_tailor_result}
use jobilee.Ai.Tasks.{Environment}

unfoldable pub deliver :
    {W : Type 0} → Environment W → String → CreateTaskRequest → String → Action W (Unit {0})
unfolding split_tailor_result
deliver env user_id (research input) result =
    env.put_artifact user_id input.job_id research_artifact result
deliver env user_id (interview_prep input) result =
    env.put_artifact user_id input.job_id interview_prep_artifact result
deliver env user_id (resume_tailor input) result =
    let halves = split_tailor_result result in
    env.create_tailored user_id input.job_id halves.gap_analysis halves.content

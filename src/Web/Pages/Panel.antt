-- ===== src/Web/Pages/Panel.antt =====
-- apps/web/src/components/GenerationPanel.tsx: the start of a generation from the page of a job. What it
-- calls is a parameter: the hook of ai.ts, the request for the base resume, and React Query's
-- `invalidateQueries`.
use Prim.Native.String.{◌++◌}
use jobilee.Prelude.{
  String, ◌≡◌, ◌⊎◌, Bool, true, false, ◌&&◌, ◌||◌, Option, none, some, trim, ◌==◌, string_eq,
  if◌then◌else◌,
}
use jobilee.Effect.{Action, returned, pure, throw, catch, ◌>>=◌}
use jobilee.Effect.Meets.{Meets}
use jobilee.Thrown.{Thrown, request_error, other}
use jobilee.Shared.Ai.{CreateTaskRequest}
use jobilee.Shared.Jobs.{Job}
use jobilee.Web.Client.{is_set}
use jobilee.Web.Generation.{GenerationState, Hook, Phase, idle_state, run}
use jobilee.Web.Queries.{Key, job_key, tailored_key}
use jobilee.Web.Pages.View.{Shown, on_view, calling}

pub data Kind : Type 0 where
  research interview_prep resume_tailor : Kind

pub record Panel : Type 0 where
  pub active : Option Kind
  pub notice : Option String

-- `fetch_base` has the field `content` of the answer, if there is one
pub record PanelEnv (W : Type 0) : Type 0 where
  pub hook : Hook W
  pub fetch_base : Action W (Option String)
  pub invalidate : Key → W → W

abbrev pub idle_label : Kind → String
idle_label research = "Research company"
idle_label interview_prep = "Interview prep"
idle_label resume_tailor = "Tailor resume"

abbrev pub running_label : Kind → String
running_label research = "Searching the web…"
running_label interview_prep = "Writing prep…"
running_label resume_tailor = "Tailoring…"

abbrev pub Kind-beq : Kind → Kind → Bool
Kind-beq research research = true
Kind-beq interview_prep interview_prep = true
Kind-beq resume_tailor resume_tailor = true
Kind-beq _ _ = false

abbrev pub active_label : Kind → Phase → String
active_label kind Phase.generating = running_label kind
active_label kind _ = "Queued…"

-- `labelFor`
unfoldable pub label_for : Option Kind → Phase → Kind → String
label_for none phase kind = idle_label kind
label_for (some active) phase kind =
    if Kind-beq active kind then active_label kind phase else idle_label kind

-- whether a button is disabled
unfoldable pub is_disabled : Bool → Job → Kind → Bool
is_disabled running job kind = running || (Kind-beq kind interview_prep && trim job.jd == "")

-- the request for a brief
abbrev pub brief_of : Kind → Job → Option CreateTaskRequest
brief_of research job = some (
    CreateTaskRequest.research
      (record { job_id = job.id; company = job.company; title = job.title; jd = job.jd }))
brief_of interview_prep job = some (
    CreateTaskRequest.interview_prep
      (record { job_id = job.id; company = job.company; title = job.title; jd = job.jd }))
brief_of resume_tailor job = none

abbrev pub tailor_of : Job → String → CreateTaskRequest
tailor_of job content = CreateTaskRequest.resume_tailor (record {
  job_id = job.id;
  company = job.company;
  title = job.title;
  jd = job.jd;
  base_resume = content;
})

-- the message below the buttons: an error of the hook, and else the notice
abbrev pub displayed : Option String → Option String → Option String
displayed error notice = if is_set error then error else notice

module _ {W : Type 0} (env : PanelEnv W) (job : Job) where
  abbrev pub set_notice : Option String → Action (Shown Panel W) (Unit {0})
  set_notice notice = on_view (λ v. record v { notice = notice })

  -- `if (saved !== null)`
  abbrev pub show_saved : Key → Option String → Action (Shown Panel W) (Unit {0})
  show_saved key none = pure tt
  show_saved key (some saved) = do
    _ ← calling (λ w. returned tt (env.invalidate key w))
    set_notice (some "Saved.")

  abbrev pub generate_then : CreateTaskRequest → Key → Action (Shown Panel W) (Unit {0})
  generate_then request key = do saved ← calling (run env.hook request); show_saved key saved

  abbrev pub no_base : String
  no_base = "Add your base resume under “Resume” before tailoring."

  abbrev pub tailor : Option String → Action (Shown Panel W) (Unit {0})
  tailor none = throw other
  tailor (some content) =
      if trim content == ""
      then set_notice (some no_base)
      else generate_then (tailor_of job content) (tailored_key job.id)

  abbrev pub start_with : Option CreateTaskRequest → Action (Shown Panel W) (Unit {0})
  start_with (some request) = generate_then request (job_key job.id)
  start_with none = do content ← calling env.fetch_base; tailor content

  abbrev pub start_failure : Thrown → String
  start_failure (request_error e) = "Could not start: " ++ e.message
  start_failure _ = "Could not start."

  -- `start`
  unfoldable pub start_kind : Kind → Action (Shown Panel W) (Unit {0})
  unfolding run
  start_kind kind = do
    _ ← on_view (λ v. record v { active = some kind; notice = none })
    _ ← catch (start_with (brief_of kind job)) (λ cause. set_notice (some (start_failure cause)))
    on_view (λ v. record v { active = none })

  module _ (state : W → GenerationState) where
    abbrev pub NoError : W → Type 0
    NoError w = (state w).error ≡ none

    -- Neither the request for the base resume nor the cache has the hook's state.
    pub record KeepsState : Type 0 where
      pub base_law :
          (w : W) → NoError w → Meets (env.fetch_base w) (λ _ w'. NoError w') (λ _ w'. NoError w')
      pub invalidate_law : (key : Key) (w : W) → NoError w → NoError (env.invalidate key w)

    -- The user reads how it ended, unless the generation was cancelled or its error is an empty text.
    abbrev pub IsTold : Shown Panel W → Type 0
    IsTold s =
        ((text : String) × (displayed (state s.world).error s.view.notice ≡ some text))
        ⊎ (env.hook.cancelled s.world ≡ true)
        ⊎ (state s.world ≡ idle_state (some ""))

    abbrev Clear : Thrown → Shown Panel W → Type 0
    Clear _ s = NoError s.world

-- ===== src/Web/Pages/Tests.antt =====
-- The pages over the memory of Web/Pages/Tests/Memory and a model that answers at once.
mod Memory
use jobilee.Prelude.{
  nat_eq, ◌==◌, if◌then◌else◌, ℕ, suc, true, String, ◌≡◌, refl, ◌||◌, false, Option, none, some,
  List, [], ◌∷◌, any, filter, arith, ◌==◌, string_eq,
}
use mathlib.Core.List.{Perm}
use jobilee.Effect.{returned, threw}
use jobilee.Effect.Rules.{Ensures}
use jobilee.Effect.Meets.{Meets}
use jobilee.Thrown.{other}
use jobilee.Shared.Ai.{succeeded}
use jobilee.Shared.Auth.{User, Credentials}
use jobilee.Shared.Jobs.{Stage, stage_eq, stages, saved, offer, Job}
use jobilee.Shared.Resume.{BaseResume}
use jobilee.Ai.Tasks.{TaskEvent}
use jobilee.Web.Tokens.{get_refresh_token}
use jobilee.Web.Client.{is_set, Browser, Page}
use jobilee.Web.Generation.{GenerationState, Hook, idle_state}
use jobilee.Web.Board.{in_stage, cards}
use jobilee.Web.Board.Columns.{cards-perm}
use jobilee.Web.Queries.{Key, starts_with, QueryCache, Schemas, App, use_save_base_resume}
use jobilee.Web.Queries.Refetch.{moves, mutate, Refetches, mutate-Refetches}
use jobilee.Web.Session.{SessionAnswer, Screen, restore}
use jobilee.Web.Pages.Gate.{IsDecided, restored, restore-IsRestored}
use jobilee.Web.Pages.View.{Shown}
use jobilee.Web.Pages.Editor.{Editor, EditorEvent, renders, types, edit_all, edit_all-render}
use jobilee.Web.Pages.JobDetail.{Drafts, drafts_of}
use jobilee.Web.Pages.AddJob.{
  Fields, AddJobForm, Candidate, Parsed, valid, candidate_of, submit_job,
}
use jobilee.Web.Pages.AddJob.Submit.{IsClean, IsSubmitted, submit_job-IsSubmitted}
use jobilee.Web.Pages.SignIn.{
  AuthForm, logs_in, submit_credentials, IsSettled, answer_in, sent, submit_credentials-IsSettled,
}
use jobilee.Web.Pages.Panel.{Panel, PanelEnv}
use jobilee.Web.Pages.Tests.Memory.{job_at, Cache, queries, browser, schemas, page, app}

abbrev three_jobs : List Job
three_jobs = job_at "a" offer ∷ job_at "b" saved ∷ job_at "c" offer ∷ []

cards-perm_example :
    ((stage : Stage) → in_stage three_jobs stage ≡ filter (λ j. j.stage == stage) three_jobs)
    × Perm (cards three_jobs stages) three_jobs
cards-perm_example = cards-perm three_jobs

-- The saved job comes first, and the two offers keep their order.
cards_test : cards three_jobs stages ≡ job_at "b" saved ∷ job_at "a" offer ∷ job_at "c" offer ∷ []
unfolding cards
cards_test = refl

mutate-Refetches_example :
    Ensures
      (mutate browser schemas queries (moves "a" offer) app)
      (λ _ w. Refetches browser schemas queries (moves "a" offer) w.cache)
      (λ w. w.cache ≡ app.cache)
    × Ensures
        (use_save_base_resume browser schemas queries "# CV" app)
        (λ saved w. queries.base_of w.cache ≡ some saved)
        (λ w. w.cache ≡ app.cache)
mutate-Refetches_example = mutate-Refetches browser schemas queries (moves "a" offer) "# CV" app tt

abbrev no_drafts : Editor Drafts
no_drafts = record { seeded_for = none; draft = record { jd = ""; notes = "" } }

-- the job arrives again after something was typed
abbrev typing : List (EditorEvent Job Drafts)
typing =
    types (λ d. record d { notes = "call back" })
    ∷ renders (some (job_at "a" offer))
    ∷ types (λ d. record d { jd = "new" })
    ∷ []

edit_all-render_example :
    (edit_all (λ j. j.id) drafts_of (renders (some (job_at "a" saved)) ∷ typing) no_drafts).draft
    ≡ record { jd = "new"; notes = "call back" }
edit_all-render_example =
    edit_all-render (λ j. j.id) drafts_of (job_at "a" saved) typing no_drafts (λ e. cc)
      (tt, (refl, (tt, tt)))

abbrev ann_user : User
ann_user = record { id = "ann"; email = "ann@example.com"; created_at = 0 }

abbrev signed_in : SessionAnswer
signed_in = record { user = some ann_user; access_token = some "t"; refresh_token = some "r" }

-- the payload 7 is an answer, and no other is
abbrev me_of : ℕ → Option (Option User)
me_of j = if j == 7 then some (some ann_user) else none

abbrev session_of : ℕ → Option SessionAnswer
session_of j = if j == 7 then some signed_in else none

abbrev email_of : Credentials → String
email_of c = c.email

abbrev form : Shown AuthForm (Screen ℕ)
form = record {
  view = record {
    email = "ann@example.com";
    password = "secret-1";
    error = none;
    submitting = false;
    went_to = none;
  };
  world = record {
    session = record { user = none; loading = false };
    cancelled = false;
    page = page;
  };
}

submit_credentials-IsSettled_example :
    Meets
      (submit_credentials browser me_of session_of email_of logs_in (some "/jobs/a") form)
      (λ _ t.
        (t.view.submitting ≡ false)
        × IsSettled browser me_of session_of email_of
            (some "/jobs/a")
            (answer_in browser me_of session_of email_of
              (sent browser me_of session_of email_of logs_in form))
            form
            t)
      (λ _ _. ⊥)
submit_credentials-IsSettled_example =
    submit_credentials-IsSettled browser me_of session_of email_of logs_in (some "/jobs/a") form
      refl

-- a page that is loaded with a refresh token
abbrev loading : Screen ℕ
loading = record form.world { session = record { user = none; loading = true } }

restore-IsRestored_example :
    Meets
      (restore browser me_of session_of email_of loading)
      (λ _ t.
        (t
          ≡ restored browser me_of session_of email_of
              (is_set (get_refresh_token loading.page.tab))
              loading)
        × IsDecided t.session)
      (λ _ _. ⊥)
restore-IsRestored_example = restore-IsRestored browser me_of session_of email_of loading refl

abbrev done_event : TaskEvent
done_event = record { task_id = "t"; status = succeeded; result = some "brief"; error = none }

-- the world is the hook's state
abbrev hook : Hook GenerationState
hook = record {
  create_task = λ b s. returned "t" s;
  get_task = λ t s. threw other s;
  stream_events = λ t s. returned (record { event = "task"; data_text = "{}" } ∷ []) s;
  sleep = λ s. returned tt s;
  parse_event = λ t. some done_event;
  cancelled = λ s. false;
  uncancel = λ s. s;
  set_state = λ f s. f s;
}

abbrev env : PanelEnv GenerationState
env = record { hook = hook; fetch_base = λ s. returned (some "# CV") s; invalidate = λ k s. s }

abbrev panel : Shown Panel GenerationState
panel = record { view = record { active = none; notice = none }; world = idle_state none }

abbrev fields : Fields
fields = record { company = "ACME"; title = "Engineer"; location = " "; link = ""; jd = " text" }

abbrev text_or_empty : Option String → String
text_or_empty none = ""
text_or_empty (some text) = text

-- the schema accepts the candidate, with its defaults
abbrev accepted : Candidate → Parsed
accepted c = valid (record {
  company = c.company;
  title = c.title;
  location = c.location;
  link = c.link;
  jd = text_or_empty c.jd;
  notes = "";
  stage = saved;
})

abbrev job_form : Shown AddJobForm (App ℕ Cache)
job_form = record { view = record { fields = fields; error = none; done = false }; world = app }

submit_job-IsSubmitted_example :
    IsClean fields (candidate_of fields)
    × Meets
        (submit_job browser schemas queries accepted job_form)
        (λ _ t. IsSubmitted browser schemas queries (accepted (candidate_of fields)) job_form t)
        (λ _ _. ⊥)
submit_job-IsSubmitted_example = submit_job-IsSubmitted browser schemas queries accepted job_form

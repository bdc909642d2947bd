-- ===== src/Web/Pages/AddJob/Submit.antt =====
-- How a submission of apps/web/src/components/AddJobForm.tsx ends.
use jobilee.Prelude.{◌≡◌, refl, ap, ◌∙◌, ◌⊎◌, inl, inr, trim, String, true, none, some}
use jobilee.Effect.{Action, ◌>>=◌}
use jobilee.Effect.Meets.{Meets, Meets-bind, Meets-catch, Ensures-Meets}
use jobilee.HttpClient.{post}
use jobilee.Shared.Jobs.{Job, CreateJobRequest}
use jobilee.Web.Client.{Browser, json_body}
use jobilee.Web.Queries.{App, QueryCache, Schemas, jobs_key, jobs_path, parsed, use_create_job}
use jobilee.Web.Queries.Refetch.{parsed-Keeps, on_success-Ensures, invalidated}
use jobilee.Web.Pages.View.{Shown, on_view, calling, calling-Meets, reason}
use jobilee.Web.Pages.AddJob.{
  AddJobForm, Fields, Candidate, Parsed, valid, invalid, message_or, candidate_of, submit_job,
  submit_parsed, create_and_close, set_form_error, IsFilled, candidate_of-IsFilled,
}

-- Each optional field is left out just when its text is blank.
abbrev pub IsClean : Fields → Candidate → Type 0
IsClean f c =
    IsFilled f.location (trim f.location) c.location
    × IsFilled f.link (trim f.link) c.link
    × IsFilled f.jd f.jd c.jd

module _ {N J C F : Type 0} (browser : Browser N J) (schemas : Schemas J F)
    (queries : QueryCache C) where
  abbrev pub Form : Type 0
  Form = Shown AddJobForm (App N C)

  -- The form is closed, and the board is fetched again.
  abbrev pub Closed : Form → Type 0
  Closed t =
      (t.view.error ≡ none)
      × (t.view.done ≡ true)
      × (queries.is_stale jobs_key t.world.cache ≡ true)

  -- The form stays with an error to show, and the cache as it was.
  abbrev pub Failed : Form → Form → Type 0
  Failed s t =
      ((e : String) × (t.view.error ≡ some e))
      × (t.view.done ≡ s.view.done)
      × (t.world.cache ≡ s.world.cache)

  abbrev pub IsSubmitted : Parsed → Form → Form → Type 0
  IsSubmitted (invalid message) s t =
      (t.view ≡ record s.view { error = some (message_or message) }) × (t.world ≡ s.world)
  IsSubmitted (valid body) s t = (t.view.fields ≡ s.view.fields) × (Closed t ⊎ Failed s t)

  use_create_job-Meets :
      (body : CreateJobRequest) (app : App N C)
      → Meets
          (use_create_job browser schemas queries body app)
          (λ _ w. queries.is_stale jobs_key w.cache ≡ true)
          (λ _ w. w.cache ≡ app.cache)
  unfolding use_create_job
  use_create_job-Meets body app =
      let create : Action (App N C) Job =
        parsed browser schemas queries schemas.job jobs_path post
          (json_body (schemas.of_create body)) in
      Ensures-Meets (use_create_job browser schemas queries body app)
        (λ _ w. queries.is_stale jobs_key w.cache ≡ true) (λ w. w.cache ≡ app.cache)
        (on_success-Ensures browser schemas queries (λ _ c. queries.is_stale jobs_key c ≡ true)
          create (λ _. queries.invalidate jobs_key) app
          (parsed-Keeps browser schemas queries schemas.job jobs_path post
            (json_body (schemas.of_create body)) app)
          (λ _. invalidated browser schemas queries jobs_key jobs_key app.cache refl))

  module _ (safe_parse : Candidate → Parsed) where
    create_and_close-Submitted :
        (body : CreateJobRequest) (s : Form)
        → s.view.error ≡ none
        → Meets
            (create_and_close browser schemas queries safe_parse body s)
            (λ _ t. IsSubmitted (valid body) s t)
            (λ _ _. ⊥)
    create_and_close-Submitted body s clear =
        Meets-catch
          (do
            _ ← calling (use_create_job browser schemas queries body)
            on_view (λ v. record v { done = true }))
          (λ cause.
            set_form_error browser schemas queries safe_parse
              (some (reason "Could not save this job." cause)))
          s (λ _ t. IsSubmitted (valid body) s t)
          (λ _ t. (t.view ≡ s.view) × (t.world.cache ≡ s.world.cache)) (λ _ _. ⊥)
          (Meets-bind (calling (use_create_job browser schemas queries body))
            (λ _. on_view (λ v. record v { done = true })) s
            (λ _ t. (t.view ≡ s.view) × (queries.is_stale jobs_key t.world.cache ≡ true))
            (λ _ t. IsSubmitted (valid body) s t)
            (λ _ t. (t.view ≡ s.view) × (t.world.cache ≡ s.world.cache))
            (calling-Meets (use_create_job browser schemas queries body) s _ _
              (use_create_job-Meets body s.world))
            (λ _ t (same, stale). (
              ap (λ (v : AddJobForm). v.fields) same,
              inl (ap (λ (v : AddJobForm). v.error) same ∙ clear, refl, stale),
            )))
          (λ cause t (same, kept). (
            ap (λ (v : AddJobForm). v.fields) same,
            inr (
              (reason "Could not save this job." cause, refl),
              ap (λ (v : AddJobForm). v.done) same,
              kept,
            ),
          ))

    submit_parsed-Submitted :
        (parsed : Parsed) (s : Form)
        → Meets
            (submit_parsed browser schemas queries safe_parse parsed
              (record s { view = record s.view { error = none } }))
            (λ _ t. IsSubmitted parsed s t)
            (λ _ _. ⊥)
    submit_parsed-Submitted (invalid message) s = (refl, refl)
    submit_parsed-Submitted (valid body) s = create_and_close-Submitted body _ refl

    -- A submission never throws, and what it validates has no blank optional field: each is left out
    -- just when its text is blank, the location and the link are sent trimmed, and the job description
    -- as it is. When the schema refuses that, the form shows why and nothing else has happened. Else
    -- the form keeps its fields, and is closed with the board to be fetched again, or shows an error
    -- and the cache is as it was.
    pub submit_job-IsSubmitted :
        (s : Form)
        → IsClean s.view.fields (candidate_of s.view.fields)
          × Meets
              (submit_job browser schemas queries safe_parse s)
              (λ _ t. IsSubmitted (safe_parse (candidate_of s.view.fields)) s t)
              (λ _ _. ⊥)
    unfolding submit_job
    submit_job-IsSubmitted s = (
      candidate_of-IsFilled s.view.fields,
      submit_parsed-Submitted (safe_parse (candidate_of s.view.fields)) s,
    )

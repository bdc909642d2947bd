-- ===== src/Web/Pages/AddJob.antt =====
-- apps/web/src/components/AddJobForm.tsx: what the form sends and what it shows. The schema's
-- `safeParse` is a parameter.
pub mod Submit
use jobilee.Prelude.{
  String, ◌≡◌, ◌≢◌, refl, inl, inr, eq_iff, arith, Bool-cases, Bool, true, Option, none, some, ◌==◌,
  string_eq, trim, if◌then◌else◌,
}
use jobilee.Effect.{Action, catch, ◌>>=◌}
use jobilee.Shared.Jobs.{CreateJobRequest}
use jobilee.Web.Client.{Browser}
use jobilee.Web.Queries.{App, QueryCache, Schemas, use_create_job}
use jobilee.Web.Pages.View.{Shown, on_view, calling, reason}

pub record Fields : Type 0 where
  pub company : String
  pub title : String
  pub location : String
  pub link : String
  pub jd : String

pub record AddJobForm : Type 0 where
  pub fields : Fields
  pub error : Option String
  -- `onDone` was called
  pub done : Bool

-- `set(key)`, for the field that `f` changes
unfoldable pub set_field : (Fields → Fields) → AddJobForm → AddJobForm
set_field f v = record v { fields = f v.fields }

-- what is validated; a field that is `none` is left out
pub record Candidate : Type 0 where
  pub company : String
  pub title : String
  pub location : Option String
  pub link : Option String
  pub jd : Option String

-- `if (text.trim())`
abbrev pub if_filled : String → String → Option String
if_filled text value = if trim text == "" then none else some value

unfoldable pub candidate_of : Fields → Candidate
candidate_of f = record {
  company = f.company;
  title = f.title;
  location = if_filled f.location (trim f.location);
  link = if_filled f.link (trim f.link);
  jd = if_filled f.jd f.jd;
}

-- the outcome of `safeParse`: the request, or the message of the first issue
pub data Parsed : Type 0 where
  valid : CreateJobRequest → Parsed
  invalid : Option String → Parsed

abbrev pub message_or : Option String → String
message_or none = "Please check the form."
message_or (some message) = message

module _ {N J C F : Type 0} (browser : Browser N J) (schemas : Schemas J F) (queries : QueryCache C)
    (safe_parse : Candidate → Parsed) where
  abbrev pub set_form_error : Option String → Action (Shown AddJobForm (App N C)) (Unit {0})
  set_form_error message = on_view (λ v. record v { error = message })

  abbrev pub create_and_close : CreateJobRequest → Action (Shown AddJobForm (App N C)) (Unit {0})
  create_and_close body =
      catch
        (do
          _ ← calling (use_create_job browser schemas queries body)
          on_view (λ v. record v { done = true }))
        (λ cause. set_form_error (some (reason "Could not save this job." cause)))

  abbrev pub submit_parsed : Parsed → Action (Shown AddJobForm (App N C)) (Unit {0})
  submit_parsed (invalid message) = set_form_error (some (message_or message))
  submit_parsed (valid body) = create_and_close body

  -- `handleSubmit`
  unfoldable pub submit_job : Action (Shown AddJobForm (App N C)) (Unit {0})
  unfolding candidate_of
  submit_job s =
      (do _ ← set_form_error none; submit_parsed (safe_parse (candidate_of s.view.fields))) s

-- A text that is left out was blank, and one that is sent is as `sent` and not blank.
abbrev pub IsFilled : String → String → Option String → Type 0
IsFilled text sent none = trim text ≡ ""
IsFilled text sent (some t) = (t ≡ sent) × (trim text ≢ "")

if_filled-IsFilled : (text sent : String) → IsFilled text sent (if_filled text sent)
if_filled-IsFilled text sent = elim (Bool-cases (trim text == "")) [
  | inl blank ↦ rw blank ((eq_iff (trim text) "").0 blank)
  | inr filled ↦ rw filled (refl, λ e. ground (arith, eq_iff (trim text) ""))
]

-- What the form validates has no optional field that is blank: each is left out just when its text
-- is blank, the location and the link are sent trimmed, and the job description as it is.
pub candidate_of-IsFilled :
    (f : Fields)
    → IsFilled f.location (trim f.location) (candidate_of f).location
      × IsFilled f.link (trim f.link) (candidate_of f).link
      × IsFilled f.jd f.jd (candidate_of f).jd
unfolding candidate_of
candidate_of-IsFilled f = (
  if_filled-IsFilled f.location (trim f.location),
  if_filled-IsFilled f.link (trim f.link),
  if_filled-IsFilled f.jd f.jd,
)

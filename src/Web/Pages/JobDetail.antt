-- ===== src/Web/Pages/JobDetail.antt =====
-- apps/web/src/routes/JobDetail.tsx: the drafts of a job, their saving, and the deletion.
use jobilee.Prelude.{
  ℕ, String, ◌≡◌, refl, Bool, true, false, not, ◌||◌, Option, none, some, arith, ◌==◌, string_eq,
  eq_refl,
}
use jobilee.Effect.{Action, pure, catch, ◌>>=◌}
use jobilee.Shared.Jobs.{Stage, Job, UpdateJobRequest}
use jobilee.Jobs.Db.{patch_job}
use jobilee.Jobs.Service.{editable}
use jobilee.Web.Client.{Browser}
use jobilee.Web.Queries.{App, QueryCache, Schemas, use_update_job, use_change_stage, use_delete_job}
use jobilee.Web.Pages.View.{Shown, on_view, calling, reason}
use jobilee.Web.Pages.Editor.{Editor, render}

pub record Drafts : Type 0 where
  pub jd : String
  pub notes : String

-- the state of the page; `left` once it went back to the board
pub record JobPage : Type 0 where
  pub editor : Editor Drafts
  pub confirming_delete : Bool
  pub save_error : Option String
  pub left : Bool

abbrev pub drafts_of : Job → Drafts
drafts_of job = record { jd = job.jd; notes = job.notes }

-- the effect that seeds the editors
abbrev pub show_job : Option Job → JobPage → JobPage
show_job answer p = record p { editor = render (λ j. j.id) drafts_of answer p.editor }

unfoldable pub dirty : Job → Drafts → Bool
dirty job d = not (d.jd == job.jd) || not (d.notes == job.notes)

-- the body `{ jd, notes }`
abbrev pub save_body : Drafts → UpdateJobRequest
save_body d = record {
  company = none;
  title = none;
  location = none;
  link = none;
  jd = some d.jd;
  notes = some d.notes;
  stage = none;
}

module _ {N J C F : Type 0} (browser : Browser N J) (schemas : Schemas J F) (queries : QueryCache C)
    (id : String) where
  abbrev pub set_save_error : Option String → Action (Shown JobPage (App N C)) (Unit {0})
  set_save_error message = on_view (λ p. record p { save_error = message })

  abbrev pub try_save : Drafts → Action (Shown JobPage (App N C)) (Unit {0})
  try_save d =
      catch (do _ ← calling (use_update_job browser schemas queries id (save_body d)); pure tt)
        (λ cause. set_save_error (some (reason "Could not save changes." cause)))

  -- `handleSave`
  unfoldable pub handle_save : Action (Shown JobPage (App N C)) (Unit {0})
  handle_save s = (do _ ← set_save_error none; try_save s.view.editor.draft) s

  -- the `select` of the stage, whose failures are not shown
  unfoldable pub select_stage : Stage → Action (Shown JobPage (App N C)) (Unit {0})
  select_stage stage =
      catch (do _ ← calling (use_change_stage browser schemas queries id stage); pure tt)
        (λ _. pure tt)

  abbrev pub ask_delete : Bool → Action (Shown JobPage (App N C)) (Unit {0})
  ask_delete asked = on_view (λ p. record p { confirming_delete = asked })

  -- the button "Delete permanently"
  unfoldable pub delete_permanently : Action (Shown JobPage (App N C)) (Unit {0})
  delete_permanently = do
    _ ← calling (use_delete_job browser schemas queries id)
    on_view (λ p. record p { left = true })

-- What `update` of the jobs service makes of a save: the drafts are stored, the rest of the row but
-- the time of its change stays, and the page has no unsaved changes.
pub patch_job-save_body :
    (job : Job) (d : Drafts) (now : ℕ)
    → (patch_job (editable (save_body d)) now job
        ≡ record job { jd = d.jd; notes = d.notes; updated_at = now })
      × (dirty (patch_job (editable (save_body d)) now job) d ≡ false)
unfolding patch_job dirty
patch_job-save_body job d now = (refl, ground (arith, eq_refl d.jd, eq_refl d.notes))

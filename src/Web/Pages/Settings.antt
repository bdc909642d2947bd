-- ===== src/Web/Pages/Settings.antt =====
-- apps/web/src/routes/Settings.tsx: the editor of the base resume.
use jobilee.Prelude.{String, Bool, false, not, Option, none, some, ◌==◌, string_eq}
use jobilee.Effect.{Action, pure, catch, ◌>>=◌}
use jobilee.Shared.Resume.{BaseResume}
use jobilee.Web.Client.{Browser}
use jobilee.Web.Queries.{App, QueryCache, Schemas, use_save_base_resume}
use jobilee.Web.Pages.View.{Shown, on_view, calling, reason}
use jobilee.Web.Pages.Editor.{Editor, render}

pub record SettingsPage : Type 0 where
  pub editor : Editor String
  pub error : Option String

-- the effect that seeds the editor
abbrev pub show_base : Option BaseResume → SettingsPage → SettingsPage
show_base answer p = record p { editor = render (λ b. b.id) (λ b. b.content) answer p.editor }

abbrev pub is_dirty : Option BaseResume → String → Bool
is_dirty none content = false
is_dirty (some base) content = not (content == base.content)

module _ {N J C F : Type 0} (browser : Browser N J) (schemas : Schemas J F)
    (queries : QueryCache C) where
  abbrev pub set_error : Option String → Action (Shown SettingsPage (App N C)) (Unit {0})
  set_error message = on_view (λ p. record p { error = message })

  abbrev pub try_save_base : String → Action (Shown SettingsPage (App N C)) (Unit {0})
  try_save_base content =
      catch (do _ ← calling (use_save_base_resume browser schemas queries content); pure tt)
        (λ cause. set_error (some (reason "Could not save your resume." cause)))

  -- `handleSave`
  unfoldable pub save_base : Action (Shown SettingsPage (App N C)) (Unit {0})
  save_base s = (do _ ← set_error none; try_save_base s.view.editor.draft) s

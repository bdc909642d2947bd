-- ===== src/Web/Pages/Files.antt =====
-- apps/web/src/components/FileList.tsx: the upload, the download and the removal of resume files.
-- Sizes are integers below 2^53, which doubles divide by 1024 exactly.
use Prim.Native.String.{◌++◌}
use jobilee.Prelude.{
  ℕ, ◌+◌, ◌*◌, ◌/◌, ◌%◌, ◌<◌, String, ◌≡◌, refl, inl, inr, Bool, false, Option, none, some, ltb,
  lt→ltb, show, arith, Bool-cases, if◌then◌else◌,
}
use jobilee.Effect.{Action, pure, catch, ◌>>=◌}
use jobilee.Effect.Meets.{Meets, Meets-bind, Meets-catch, Meets-any}
use jobilee.Shared.Resume.{resume_upload_max_bytes}
use jobilee.Web.Client.{Browser}
use jobilee.Web.Queries.{
  App, QueryCache, Schemas, use_upload_resume_file, use_delete_resume_file, download_url,
}
use jobilee.Web.Pages.View.{Shown, on_view, calling, reason}

-- `Math.round(bytes / 1024)`
abbrev pub kilobytes : ℕ → ℕ
kilobytes bytes = (bytes + 512) / 1024

-- ten times the number that `(bytes / 1024 / 1024).toFixed(1)` shows
abbrev pub tenths_of_megabytes : ℕ → ℕ
tenths_of_megabytes bytes = (20 * bytes + 1048576) / 2097152

unfoldable pub human_size : ℕ → String
human_size bytes =
    if ltb bytes 1024
    then show bytes ++ " B"
    else if ltb bytes (1024 * 1024)
    then show (kilobytes bytes) ++ " KB"
    else show (tenths_of_megabytes bytes / 10)
      ++ ("." ++ (show (tenths_of_megabytes bytes % 10) ++ " MB"))

-- `picked` is false once the input's value was reset; `opened` is the address that was handed to the
-- browser last
pub record FileList : Type 0 where
  pub error : Option String
  pub confirming_id : Option String
  pub picked : Bool
  pub opened : Option String

module _ {N J C F : Type 0} (browser : Browser N J) (schemas : Schemas J F) (queries : QueryCache C)
    (size_of : F → ℕ) (job_id : Option String) where
  abbrev pub set_file_error : Option String → Action (Shown FileList (App N C)) (Unit {0})
  set_file_error message = on_view (λ v. record v { error = message })

  abbrev pub reset_input : Action (Shown FileList (App N C)) (Unit {0})
  reset_input = on_view (λ v. record v { picked = false })

  abbrev pub try_upload : F → Action (Shown FileList (App N C)) (Unit {0})
  try_upload file =
      catch (do _ ← calling (use_upload_resume_file browser schemas queries job_id file); pure tt)
        (λ cause. set_file_error (some (reason "Upload failed." cause)))

  abbrev pub refuse_large : ℕ → Action (Shown FileList (App N C)) (Unit {0})
  refuse_large size = do
    _ ← set_file_error (some ("That file is " ++ (human_size size ++ ". The limit is 10 MB.")))
    reset_input

  abbrev pub upload_and_reset : F → Action (Shown FileList (App N C)) (Unit {0})
  upload_and_reset file = do _ ← try_upload file; reset_input

  abbrev pub upload_picked : F → Action (Shown FileList (App N C)) (Unit {0})
  upload_picked file =
      if ltb resume_upload_max_bytes (size_of file)
      then refuse_large (size_of file)
      else upload_and_reset file

  -- `handlePick`
  unfoldable pub handle_pick : Option F → Action (Shown FileList (App N C)) (Unit {0})
  handle_pick none = pure tt
  handle_pick (some file) = do _ ← set_file_error none; upload_picked file

  abbrev pub open_url : String → Action (Shown FileList (App N C)) (Unit {0})
  open_url id = do
    url ← calling (download_url browser schemas queries id)
    on_view (λ v. record v { opened = some url })

  -- `handleDownload`
  unfoldable pub handle_download : String → Action (Shown FileList (App N C)) (Unit {0})
  handle_download id = do
    _ ← set_file_error none
    catch (open_url id)
        (λ cause. set_file_error (some (reason "Could not start the download." cause)))

  abbrev pub ask_removal : Option String → Action (Shown FileList (App N C)) (Unit {0})
  ask_removal id = on_view (λ v. record v { confirming_id = id })

  -- the button "Confirm"
  unfoldable pub confirm_removal : String → Action (Shown FileList (App N C)) (Unit {0})
  confirm_removal id = do
    _ ← calling (use_delete_resume_file browser schemas queries job_id id)
    ask_removal none

  -- The input is free for the next file, and a file over the limit was not sent.
  abbrev pub IsHandled : F → Shown FileList (App N C) → Shown FileList (App N C) → Type 0
  IsHandled file s t =
      (t.view.picked ≡ false)
      × (resume_upload_max_bytes < size_of file
          → (t.world ≡ s.world) × ((e : String) × (t.view.error ≡ some e)))

  try_upload-returns :
      (file : F) (s : Shown FileList (App N C)) → Meets (try_upload file s) (λ _ _. Unit) (λ _ _. ⊥)
  try_upload-returns file s =
      Meets-catch
        (calling (use_upload_resume_file browser schemas queries job_id file) >>= λ _. pure tt)
        (λ cause. set_file_error (some (reason "Upload failed." cause))) s (λ _ _. Unit)
        (λ _ _. Unit) (λ _ _. ⊥) (Meets-any _) (λ _ _ _. tt)

  -- A pick of a file never throws.
  pub handle_pick-IsHandled :
      (file : F) (s : Shown FileList (App N C))
      → Meets (handle_pick (some file) s) (λ _ t. IsHandled file s t) (λ _ _. ⊥)
  unfolding handle_pick
  handle_pick-IsHandled file s = elim (Bool-cases (ltb resume_upload_max_bytes (size_of file))) [
    | inl large ↦ rw large (refl, λ _. (refl, (_, refl)))
    | inr small ↦ rw small (
        Meets-bind (try_upload file) (λ _. reset_input) _ (λ _ _. Unit) (λ _ t. IsHandled file s t)
          (λ _ _. ⊥) (try_upload-returns file _)
          (λ _ t _. (refl, λ over. ground (arith, lt→ltb resume_upload_max_bytes (size_of file)))))
  ]

-- ===== src/Resume/Controller/History.antt =====
-- Any history of calls of the resume controller keeps every row's object.
use jobilee.Prelude.{ℕ, zero, suc, String, Option, none, some, List, [], ◌∷◌, inl, inr, Bool-cases}
use jobilee.Effect.{Action, after, pure, throw, catch, ◌>>=◌}
use jobilee.Effect.Rules.{Ensures, Ensures-bind, Ensures-mono, Ensures-catch, Ensures-after}
use jobilee.Thrown.{Thrown, unique_violation}
use jobilee.ServiceKit.ZodPipe.{transform}
use jobilee.Shared.Resume.{CreateTailoredResumeRequest, TailoredResume}
use jobilee.Resume.Versions.{
  next_version, collided, insert, return_or, allocate, create_tailored, version_retries,
}
use jobilee.Resume.Files.{owned, signed_url, list}
use jobilee.Resume.Files.Storage.{Bucket, IsLawful, Sound, Stays}
use jobilee.Resume.Files.Sound.{upload-Sound, remove-Sound, Stays-Sound, owned_lem}
use jobilee.Resume.Controller.{
  MulterFile, ResumeSchemas, ResumeEnv, input_of, parse_uuid, get_base_route, put_base_route,
  list_tailored_route, create_tailored_route, list_files_route, upload_route, download_route,
  remove_file_route,
}

-- a request of a user, as the routes get it
pub data Call (B R : Type 0) : Type 0 where
  reads_base : Call B R
  writes_base adds_version : R → Call B R
  lists_versions lists_files : Option String → Call B R
  uploads : Option (MulterFile B) → Option String → Call B R
  downloads removes : String → Call B R

module _ {W B Url R : Type 0} (env : ResumeEnv W B Url) (schemas : ResumeSchemas R) where
  -- whether it answers or fails, the next one starts in its world
  unfoldable pub serve : String → Call B R → W → W
  serve user_id reads_base w = after (get_base_route env schemas user_id w)
  serve user_id (writes_base raw) w = after (put_base_route env schemas user_id raw w)
  serve user_id (adds_version raw) w = after (create_tailored_route env schemas user_id raw w)
  serve user_id (lists_versions raw) w = after (list_tailored_route env schemas user_id raw w)
  serve user_id (lists_files job_id) w = after (list_files_route env schemas user_id job_id w)
  serve user_id (uploads file job_id) w = after (upload_route env schemas user_id file job_id w)
  serve user_id (downloads raw) w = after (download_route env schemas user_id raw w)
  serve user_id (removes raw) w = after (remove_file_route env schemas user_id raw w)

  unfoldable pub serve_all : List (String × Call B R) → W → W
  unfolding serve
  serve_all [] w = w
  serve_all ((user_id, call) ∷ calls) w = serve_all calls (serve user_id call w)

abbrev Keeps : {W A : Type 0} → (W → Type 0) → Action W A → Type 0
Keeps {W = W} P m = (w : W) → P w → Ensures (m w) (λ _. P) P

-- The other tables, the lists and the signing of addresses leave rows and objects alone.
pub record IsApart {W B Url : Type 0} (env : ResumeEnv W B Url) (b : Bucket W) : Type 1 where
  pub upsert_law :
      (user_id content : String) (change : Option String) (w : W)
      → Ensures (env.base.upsert user_id content change w) (λ _. Stays b w) (Stays b w)
  pub versions_desc_law :
      (user_id job_id : String) (w : W)
      → Ensures (env.base.versions_desc user_id job_id w) (λ _. Stays b w) (Stays b w)
  pub latest_version_law :
      (user_id job_id : String) (w : W)
      → Ensures (env.versions.latest_version user_id job_id w) (λ _. Stays b w) (Stays b w)
  pub create_version_law :
      (user_id : String) (v : ℕ) (body : CreateTailoredResumeRequest) (w : W)
      → Ensures (env.versions.create_version user_id v body w) (λ _. Stays b w) (Stays b w)
  pub find_files_law :
      (user_id : String) (job_id : Option String) (w : W)
      → Ensures (env.files.find_files user_id job_id w) (λ _. Stays b w) (Stays b w)
  pub signed_download_url_law :
      (key filename : String) (w : W)
      → Ensures (env.files.signed_download_url key filename w) (λ _. Stays b w) (Stays b w)

module _ {W A : Type 0} (P : W → Type 0) where
  bind-Keeps :
      {C : Type 0} (m : Action W A) (f : A → Action W C)
      → Keeps P m
      → ((a : A) → Keeps P (f a))
      → Keeps P (m >>= f)
  bind-Keeps m f h k w p = Ensures-bind m f w (λ _. P) (λ _. P) P (h w p) (λ a w' q. k a w' q)

  transform-Keeps : {R : Type 0} (schema : R → Option A) (raw : R) → Keeps P (transform schema raw)
  transform-Keeps schema raw w p = parsed (schema raw)
    where
      parsed :
          (o : Option A)
          → Ensures
              (let r : Action W A = elim o [ none ↦ throw Thrown.zod_error | some a ↦ pure a ] in
                r w)
              (λ _. P)
              P
      parsed none = p
      parsed (some a) = p

  after-Keeps : (m : Action W A) → Keeps P m → (w : W) → P w → P (after (m w))
  after-Keeps m h w p = Ensures-after (m w) (λ _. P) P P (h w p) (λ _ _ q. q) (λ _ q. q)

module _ {W B Url R : Type 0} (env : ResumeEnv W B Url) (schemas : ResumeSchemas R) (b : Bucket W)
    (lawful : IsLawful env.files b) (apart : IsApart env b) where
  Stays-Keeps :
      {A : Type 0} (m : Action W A)
      → ((w : W) → Ensures (m w) (λ _. Stays b w) (Stays b w))
      → Keeps (Sound b) m
  Stays-Keeps m h w s =
      Ensures-mono (m w) (λ _. Stays b w) (λ _. Sound b) (Stays b w) (Sound b) (h w)
        (λ _ w' k. Stays-Sound env.files b lawful w w' k s)
        (λ w' k. Stays-Sound env.files b lawful w w' k s)

  collided-Keeps : (e : Thrown) → Keeps (Sound b) (collided {W = W} e)
  collided-Keeps unique_violation w s = s
  collided-Keeps _ w s = s

  insert-Keeps :
      (user_id : String) (body : CreateTailoredResumeRequest) (v : ℕ)
      → Keeps (Sound b) (catch (insert env.versions user_id body v) collided)
  insert-Keeps user_id body v w s =
      Ensures-catch (insert env.versions user_id body v) collided w (λ _. Sound b) (Sound b)
        (Sound b)
        (bind-Keeps (Sound b) (env.versions.create_version user_id v body) (λ row. pure (some row))
          (Stays-Keeps _ (apart.create_version_law user_id v body)) (λ _ _ q. q) w s)
        (λ e w' q. collided-Keeps e w' q)

  return_or-Keeps :
      (user_id : String) (body : CreateTailoredResumeRequest) (again : Action W TailoredResume)
      → Keeps (Sound b) again
      → (o : Option TailoredResume) → Keeps (Sound b) (return_or env.versions user_id body again o)
  return_or-Keeps user_id body again h none w s = h w s
  return_or-Keeps user_id body again h (some row) w s = s

  allocate-Keeps :
      (user_id : String) (body : CreateTailoredResumeRequest) (left : ℕ)
      → Keeps (Sound b) (allocate env.versions user_id body left)
  unfolding allocate
  allocate-Keeps user_id body zero w s = s
  allocate-Keeps user_id body (suc left) w s =
      bind-Keeps (Sound b) (env.versions.latest_version user_id body.job_id) _
        (Stays-Keeps _ (apart.latest_version_law user_id body.job_id))
        (λ latest.
          bind-Keeps (Sound b)
            (catch (insert env.versions user_id body (next_version latest)) collided)
            (return_or env.versions user_id body (allocate env.versions user_id body left))
            (insert-Keeps user_id body (next_version latest))
            (return_or-Keeps user_id body _ (allocate-Keeps user_id body left)))
        w s

  parse_uuid-Keeps : (raw : String) → Keeps (Sound b) (parse_uuid env schemas raw)
  parse_uuid-Keeps raw w s = elim (Bool-cases (schemas.is_uuid raw)) [
    | inl e ↦ rw e s
    | inr e ↦ rw e s
  ]

  signed_url-Keeps : (user_id id : String) → Keeps (Sound b) (signed_url env.files user_id id)
  unfolding signed_url
  signed_url-Keeps user_id id =
      bind-Keeps (Sound b) (owned env.files user_id id) _
        (λ w s.
          Ensures-mono (owned env.files user_id id w) _ (λ _. Sound b) (Sound b) (Sound b)
            (owned_lem env.files b lawful user_id id w s) (λ _ _ q. q.0) (λ _ q. q))
        (λ file. Stays-Keeps _ (apart.signed_download_url_law file.object_key file.filename))

  uploads-Sound :
      (user_id : String) (file : Option (MulterFile B)) (job_id : Option String) (w : W)
      → Sound b w
      → Sound b (after (upload_route env schemas user_id file job_id w))
  unfolding upload_route
  uploads-Sound user_id none job_id w s = s
  uploads-Sound user_id (some file) job_id w s =
      upload-Sound env.files b lawful user_id (input_of file job_id) w s

  removes-Sound :
      (user_id raw : String) (w : W)
      → Sound b w
      → Sound b (after (remove_file_route env schemas user_id raw w))
  unfolding remove_file_route
  removes-Sound user_id raw w s = elim (Bool-cases (schemas.is_uuid raw)) [
    | inl e ↦ rw e (remove-Sound env.files b lawful user_id raw w s)
    | inr e ↦ rw e s
  ]

  serve-Sound :
      (user_id : String) (call : Call B R) (w : W)
      → Sound b w
      → Sound b (serve env schemas user_id call w)
  unfolding serve put_base_route list_tailored_route create_tailored_route list_files_route
      download_route create_tailored list
  serve-Sound user_id reads_base w s =
      after-Keeps (Sound b) (get_base_route env schemas user_id)
        (Stays-Keeps _ (apart.upsert_law user_id "" none)) w s
  serve-Sound user_id (writes_base raw) w s =
      after-Keeps (Sound b) (put_base_route env schemas user_id raw)
        (bind-Keeps (Sound b) (transform schemas.put_base_resume raw) _
          (transform-Keeps (Sound b) schemas.put_base_resume raw)
          (λ content. Stays-Keeps _ (apart.upsert_law user_id content (some content))))
        w s
  serve-Sound user_id (adds_version raw) w s =
      after-Keeps (Sound b) (create_tailored_route env schemas user_id raw)
        (bind-Keeps (Sound b) (transform schemas.create_tailored_resume raw) _
          (transform-Keeps (Sound b) schemas.create_tailored_resume raw)
          (λ body. allocate-Keeps user_id body version_retries))
        w s
  serve-Sound user_id (lists_versions raw) w s =
      after-Keeps (Sound b) (list_tailored_route env schemas user_id raw)
        (bind-Keeps (Sound b) (transform schemas.uuid raw) _
          (transform-Keeps (Sound b) schemas.uuid raw)
          (λ job_id. Stays-Keeps _ (apart.versions_desc_law user_id job_id)))
        w s
  serve-Sound user_id (lists_files job_id) w s =
      after-Keeps (Sound b) (list_files_route env schemas user_id job_id)
        (Stays-Keeps _ (apart.find_files_law user_id job_id)) w s
  serve-Sound user_id (uploads file job_id) w s = uploads-Sound user_id file job_id w s
  serve-Sound user_id (downloads raw) w s =
      after-Keeps (Sound b) (download_route env schemas user_id raw)
        (bind-Keeps (Sound b) (parse_uuid env schemas raw) _ (parse_uuid-Keeps raw)
          (λ id. signed_url-Keeps user_id id))
        w s
  serve-Sound user_id (removes raw) w s = removes-Sound user_id raw w s

  -- After any requests of any users, whatever they send and whether they are answered or fail, every
  -- row of a file has its object and no two rows share one, if that was so before.
  pub serve_all-Sound :
      (calls : List (String × Call B R)) (w : W)
      → Sound b w
      → Sound b (serve_all env schemas calls w)
  unfolding serve_all
  serve_all-Sound [] w s = s
  serve_all-Sound ((user_id, call) ∷ calls) w s =
      serve_all-Sound calls (serve env schemas user_id call w) (serve-Sound user_id call w s)

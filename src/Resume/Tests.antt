-- ===== src/Resume/Tests.antt =====
-- Files over rows and objects in memory. An upload finds an id while there is no row; the database
-- refuses uploads that belong to a job.
use jobilee.Prelude.{
  String, ◌≡◌, refl, Bool, true, false, not, Option, none, some, List, [], ◌∷◌, ◌++◌, filter, find,
  arith, eq_iff, ◌==◌, string_eq, if◌then◌else◌,
}
use jobilee.Effect.{Action, returned, threw}
use jobilee.Effect.Rules.{Ensures}
use jobilee.Thrown.{other, unique_violation}
use jobilee.Shared.Resume.{ResumeFile}
use jobilee.Resume.Objects.{object_key}
use jobilee.Resume.Files.{UploadInput, FilesEnv}
use jobilee.Resume.Files.Storage.{Bucket, IsLawful, Sound, Stays, Fresh, is_owned}
use jobilee.Resume.Controller.{MulterFile, ResumeSchemas, ResumeEnv}
use jobilee.Resume.Controller.History.{Call, uploads, removes, serve_all, IsApart, serve_all-Sound}

record World : Type 0 where
  rows : List ResumeFile
  objects : String → Bool

abbrev file_of : String → UploadInput String → String → ResumeFile
file_of user_id input key = record {
  id = key;
  user_id = user_id;
  job_id = input.job_id;
  filename = input.filename;
  content_type = input.content_type;
  size = input.size;
  object_key = key;
  created_at = 0;
}

abbrev add_row : Option String → ResumeFile → Action World ResumeFile
add_row none f w = returned f (record w { rows = w.rows ++ f ∷ [] })
add_row (some job_id) f w = threw other w

-- an id for an upload into an empty table
abbrev next_uuid : List ResumeFile → Action World String
next_uuid [] w = returned "1" w
next_uuid (f ∷ fs) w = threw other w

abbrev env : FilesEnv World String String
env = record {
  find_owned = λ user_id id w. returned (find (is_owned user_id id) w.rows) w;
  create_file = λ user_id input key w. add_row input.job_id (file_of user_id input key) w;
  delete_file = λ id w. returned tt (record w { rows = filter (λ f. not (f.id == id)) w.rows });
  find_files = λ user_id job_id w. threw other w;
  random_uuid = λ w. next_uuid w.rows w;
  to_lower_case = λ s. s;
  put_object = λ key buffer content_type w.
      returned tt (record w { objects = λ k. if k == key then true else w.objects k });
  remove_object =
      λ key w. returned tt (record w { objects = λ k. if k == key then false else w.objects k });
  signed_download_url = λ key filename w. returned key w;
}

abbrev bucket : Bucket World
bucket = record { rows = λ w. w.rows; Has = λ key w. w.objects key ≡ true }

next_uuid-Fresh :
    (user_id filename : String) (fs : List ResumeFile) (w : World)
    → w.rows ≡ fs
    → Ensures
        (next_uuid fs w)
        (λ id w'. Stays bucket w w' × Fresh bucket (object_key (λ s. s) user_id filename id) w')
        (Stays bucket w)
next_uuid-Fresh user_id filename [] w e = ((refl, λ k x. x), rw e tt)
next_uuid-Fresh user_id filename (f ∷ fs) w e = (refl, λ k x. x)

add_row_lem :
    (job_id : Option String) (f : ResumeFile) (w : World)
    → Ensures
        (add_row job_id f w)
        (λ g w'.
          (g.object_key ≡ f.object_key)
          × (w'.rows ≡ w.rows ++ g ∷ [])
          × ((k : String) → w.objects k ≡ true → w'.objects k ≡ true))
        (Stays bucket w)
add_row_lem none f w = (refl, refl, λ k x. x)
add_row_lem (some job_id) f w = (refl, λ k x. x)

env-IsLawful : IsLawful env bucket
env-IsLawful = record {
  find_owned_law = λ user_id id w. ((refl, λ k x. x), refl);
  create_file_law = λ user_id input key w. add_row_lem input.job_id (file_of user_id input key) w;
  delete_file_law = λ id w. (refl, λ k x. x);
  random_uuid_law = λ user_id filename w. next_uuid-Fresh user_id filename w.rows w refl;
  put_object_law = λ key buffer content_type w.
      ((refl, λ k x. ground (arith, eq_iff k key)), ground (arith, eq_iff key key));
  remove_object_law = λ key w. (refl, λ k ne x. ground (arith, eq_iff k key));
}

abbrev cv : Option String → UploadInput String
cv job_id = record {
  filename = "cv.pdf";
  content_type = "application/pdf";
  size = 3;
  buffer = "%PDF";
  job_id = job_id;
}

abbrev empty : World
empty = record { rows = []; objects = λ k. false }

-- the row of ann's file, with its object
abbrev one_file : World
one_file = record { rows = file_of "ann" (cv none) "u/0" ∷ []; objects = λ k. k == "u/0" }

one_file-Sound : Sound bucket one_file
one_file-Sound = ((refl, tt), (tt, tt))

abbrev resume_env : ResumeEnv World String String
resume_env = record {
  base = record {
    upsert = λ user_id content change w. threw other w;
    versions_desc = λ user_id job_id w. returned [] w;
  };
  versions = record {
    latest_version = λ user_id job_id w. returned none w;
    create_version = λ user_id v body w. threw unique_violation w;
  };
  files = env;
}

resume_env-IsApart : IsApart resume_env bucket
resume_env-IsApart = record {
  upsert_law = λ user_id content change w. (refl, λ k x. x);
  versions_desc_law = λ user_id job_id w. (refl, λ k x. x);
  latest_version_law = λ user_id job_id w. (refl, λ k x. x);
  create_version_law = λ user_id v body w. (refl, λ k x. x);
  find_files_law = λ user_id job_id w. (refl, λ k x. x);
  signed_download_url_law = λ key filename w. (refl, λ k x. x);
}

-- what is sent is a text, and every id passes for a UUID
abbrev schemas : ResumeSchemas String
schemas = record {
  put_base_resume = λ raw. some raw;
  create_tailored_resume = λ raw. none;
  uuid = λ raw. raw;
  is_uuid = λ raw. true;
}

abbrev picked : MulterFile String
picked = record {
  original_name = "cv.pdf";
  mime_type = "application/pdf";
  size = 3;
  buffer = "%PDF";
}

abbrev requests : List (String × Call String String)
requests =
    ("bob", uploads none none)
    ∷ ("ann", removes "u/0")
    ∷ ("bob", uploads (some picked) (some "j"))
    ∷ ("bob", uploads (some picked) (some ""))
    ∷ []

serve_all-Sound_example : Sound bucket (serve_all resume_env schemas requests one_file)
serve_all-Sound_example =
    serve_all-Sound resume_env schemas bucket env-IsLawful resume_env-IsApart requests one_file
      one_file-Sound

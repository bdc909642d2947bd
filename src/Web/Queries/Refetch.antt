-- ===== src/Web/Queries/Refetch.antt =====
-- What a mutation makes the pages fetch again.
use Prim.Native.String.{◌++◌}
use jobilee.Prelude.{
  String, ◌≡◌, ◌≢◌, refl, sym, ap, subst, eq_iff, Bool-cases, inl, inr, if◌then◌else◌, ◌∙◌, Bool,
  true, false, Option, none, some, ◌==◌, string_eq,
}
use jobilee.Effect.{Outcome, Action, returned, threw, pure, ◌>>=◌}
use jobilee.Effect.Rules.{Ensures, Ensures-bind}
use jobilee.HttpClient.{Method, post, put, patch, delete}
use jobilee.Shared.Jobs.{Stage, CreateJobRequest, UpdateJobRequest}
use jobilee.Web.Requests.{or_zod_error}
use jobilee.Web.Client.{Browser, Page, WebBody, no_body, json_body, form_data, is_set}
use jobilee.Web.Queries.{
  Key, jobs_key, job_key, base_key, base_path, tailored_key, files_key, starts_with, QueryCache,
  Schemas, App, in_app, fetching, parsed, on_success, use_create_job, use_update_job,
  use_change_stage, use_delete_job, use_upload_resume_file, use_delete_resume_file,
  use_save_base_resume, job_and_board, form_of,
}

-- what the pages show
pub data Query : Type 0 where
  board : Query
  job_page : String → Query
  base_resume : Query
  tailored_versions : String → Query
  file_list : Option String → Query

abbrev pub key_of : Query → Key
key_of board = jobs_key
key_of (job_page id) = job_key id
key_of base_resume = base_key
key_of (tailored_versions job_id) = tailored_key job_id
key_of (file_list job_id) = files_key job_id

-- the mutations that the pages refetch after
pub data Mutation (F : Type 0) : Type 0 where
  creates : CreateJobRequest → Mutation F
  edits : String → UpdateJobRequest → Mutation F
  moves : String → Stage → Mutation F
  deletes : String → Mutation F
  uploads : Option String → F → Mutation F
  removes_file : Option String → String → Mutation F

-- The id of a job that a request names: an empty one counts as none.
abbrev effective : Option String → Option String
effective job_id = if is_set job_id then job_id else none

effective-named : (job_id : Option String) → job_id ≢ some "" → effective job_id ≡ job_id
effective-named none h = refl
effective-named (some s) h = elim (Bool-cases (s == "")) [
  | inl e ↦ absurd (h (ap some ((eq_iff s "").0 e)))
  | inr e ↦ rw e refl
]

-- The pages list the files of a job, or those of none.
abbrev pub IsShown : Query → Type 0
IsShown (file_list job_id) = job_id ≢ some ""
IsShown _ = Unit

-- A mutation of files names no job or one whose id is not empty.
abbrev pub IsNamed : {F : Type 0} → Mutation F → Type 0
IsNamed (uploads job_id file) = job_id ≢ some ""
IsNamed (removes_file job_id id) = job_id ≢ some ""
IsNamed _ = Unit

-- A list shows the rows of its job, or those of none.
abbrev same_list : Option String → Option String → Bool
same_list none none = true
same_list (some a) (some b) = a == b
same_list _ _ = false

-- which of the answers that the pages show a mutation may change
abbrev pub changes : {F : Type 0} → Mutation F → Query → Bool
changes (creates body) board = true
changes (edits id body) board = true
changes (edits id body) (job_page other) = id == other
changes (moves id stage) board = true
changes (moves id stage) (job_page other) = id == other
changes (deletes id) board = true
changes (deletes id) (job_page other) = id == other
changes (uploads job_id file) (file_list other) = same_list (effective job_id) (effective other)
changes (removes_file job_id id) (file_list other) = same_list (effective job_id) (effective other)
changes _ _ = false

-- the widest key that a mutation invalidates
abbrev widest : {F : Type 0} → Mutation F → Key
widest (uploads job_id file) = files_key job_id
widest (removes_file job_id id) = files_key job_id
widest _ = jobs_key

same_list-starts :
    (a b : Option String) → same_list a b ≡ true → starts_with (files_key a) (files_key b) ≡ true
same_list-starts none none h = refl
same_list-starts (some a) (some b) h = rw h refl
same_list-starts none (some b) h = cc
same_list-starts (some a) none h = cc

named :
    (a b : Option String)
    → a ≢ some ""
    → b ≢ some ""
    → same_list (effective a) (effective b) ≡ true
    → same_list a b ≡ true
named a b n k h =
    subst (λ c. same_list c b ≡ true) (effective-named a n)
      (subst (λ c. same_list (effective a) c ≡ true) (effective-named b k) h)

module _ {F : Type 0} where
  -- It starts the key of every query that the mutation may change.
  changes-starts :
      (m : Mutation F) (q : Query)
      → IsNamed m
      → IsShown q
      → changes m q ≡ true
      → starts_with (widest m) (key_of q) ≡ true
  changes-starts (creates body) board n k h = refl
  changes-starts (creates body) q n k h = cc
  changes-starts (edits id body) board n k h = refl
  changes-starts (edits id body) (job_page other) n k h = refl
  changes-starts (edits id body) q n k h = cc
  changes-starts (moves id stage) board n k h = refl
  changes-starts (moves id stage) (job_page other) n k h = refl
  changes-starts (moves id stage) q n k h = cc
  changes-starts (deletes id) board n k h = refl
  changes-starts (deletes id) (job_page other) n k h = refl
  changes-starts (deletes id) q n k h = cc
  changes-starts (uploads job_id file) (file_list other) n k h =
      same_list-starts job_id other (named job_id other n k h)
  changes-starts (uploads job_id file) q n k h = cc
  changes-starts (removes_file job_id id) (file_list other) n k h =
      same_list-starts job_id other (named job_id other n k h)
  changes-starts (removes_file job_id id) q n k h = cc

module _ {N J C F : Type 0} (browser : Browser N J) (schemas : Schemas J F)
    (queries : QueryCache C) where
  -- a mutation, whatever it returns
  abbrev pub mutate : Mutation F → App N C → Outcome (App N C) (Unit {0})
  mutate (creates body) = do _ ← use_create_job browser schemas queries body; pure tt
  mutate (edits id body) = do _ ← use_update_job browser schemas queries id body; pure tt
  mutate (moves id stage) = do _ ← use_change_stage browser schemas queries id stage; pure tt
  mutate (deletes id) = do _ ← use_delete_job browser schemas queries id; pure tt
  mutate (uploads job_id file) = do
    _ ← use_upload_resume_file browser schemas queries job_id file
    pure tt
  mutate (removes_file job_id id) = do
    _ ← use_delete_resume_file browser schemas queries job_id id
    pure tt

  -- A request leaves the cache alone.
  abbrev Keeps : {A : Type 0} → C → Outcome (App N C) A → Type 0
  Keeps c o = Ensures o (λ _ w. w.cache ≡ c) (λ w. w.cache ≡ c)

  in_app-Keeps :
      {A : Type 0} (c : C) (o : Outcome (Page N) A) → Keeps c (in_app browser schemas queries c o)
  in_app-Keeps c (returned a p) = refl
  in_app-Keeps c (threw e p) = refl

  fetching-Keeps :
      (path : String) (method : Method) (body : WebBody) (app : App N C)
      → Keeps app.cache (fetching browser schemas queries path method body app)
  unfolding fetching
  fetching-Keeps path method body app = in_app-Keeps app.cache _

  or_zod_error-Keeps : {A : Type 0} (o : Option A) (w : App N C) → Keeps w.cache (or_zod_error o w)
  or_zod_error-Keeps none w = refl
  or_zod_error-Keeps (some a) w = refl

  pub parsed-Keeps :
      {A : Type 0} (schema : Option J → Option A) (path : String) (method : Method) (body : WebBody)
      (app : App N C)
      → Keeps app.cache (parsed browser schemas queries schema path method body app)
  unfolding parsed
  parsed-Keeps schema path method body app =
      Ensures-bind (fetching browser schemas queries path method body) _ app
        (λ _ w. w.cache ≡ app.cache) (λ _ w. w.cache ≡ app.cache) (λ w. w.cache ≡ app.cache)
        (fetching-Keeps path method body app)
        (λ payload w e.
          subst (λ c. Keeps c (or_zod_error (schema payload) w)) e
            (or_zod_error-Keeps (schema payload) w))

  -- A mutation that returns leaves what its `onSuccess` makes of the cache, and one that throws
  -- leaves the cache alone.
  pub on_success-Ensures :
      {A : Type 0} (P : A → C → Type 0) (m : Action (App N C) A) (f : A → C → C) (app : App N C)
      → Keeps app.cache (m app)
      → ((a : A) → P a (f a app.cache))
      → Ensures
          (on_success browser schemas queries m f app)
          (λ a w. P a w.cache)
          (λ w. w.cache ≡ app.cache)
  on_success-Ensures {A} P m f app k h = on_outcome (m app) k
    where
      on_outcome :
          (o : Outcome (App N C) A)
          → Keeps app.cache o
          → Ensures
              (let r : Outcome (App N C) A = elim o [
                | returned a w ↦ returned a (record w { cache = f a w.cache })
                | threw e w ↦ threw e w
              ] in
                r)
              (λ a w. P a w.cache)
              (λ w. w.cache ≡ app.cache)
      on_outcome (returned a w) e = subst (λ c. P a (f a c)) (sym e) (h a)
      on_outcome (threw t w) e = e

  -- Every query whose answer the mutation may have changed is fetched again.
  abbrev pub Refetches : Mutation F → C → Type 0
  Refetches m c =
      (q : Query) → IsShown q → changes m q ≡ true → queries.is_stale (key_of q) c ≡ true

  pub invalidated :
      (key : Key) (q : Key) (c : C)
      → starts_with key q ≡ true
      → queries.is_stale q (queries.invalidate key c) ≡ true
  invalidated key q c h = queries.invalidate_law key q c ∙ rw h refl

  invalidate-Refetches :
      (m : Mutation F) (c : C) → IsNamed m → Refetches m (queries.invalidate (widest m) c)
  invalidate-Refetches m c n q k h = invalidated (widest m) (key_of q) c (changes-starts m q n k h)

  abbrev Done : Mutation F → C → Outcome (App N C) (Unit {0}) → Type 0
  Done m c o = Ensures o (λ _ w. Refetches m w.cache) (λ w. w.cache ≡ c)

  -- the rules for a hook in `mutate`
  hook-Done :
      {A : Type 0} (m : Mutation F) (call : Action (App N C) A) (f : A → C → C) (app : App N C)
      → Keeps app.cache (call app)
      → ((a : A) → Refetches m (f a app.cache))
      → Done m app.cache ((on_success browser schemas queries call f >>= λ _. pure tt) app)
  hook-Done m call f app k h =
      Ensures-bind (on_success browser schemas queries call f) (λ _. pure tt) app
        (λ _ w. Refetches m w.cache) (λ _ w. Refetches m w.cache) (λ w. w.cache ≡ app.cache)
        (on_success-Ensures (λ _. Refetches m) call f app k h) (λ _ w r. r)

  parsed-Done :
      {A : Type 0} (m : Mutation F) (schema : Option J → Option A) (path : String) (method : Method)
      (body : WebBody) (f : A → C → C) (app : App N C)
      → ((a : A) → Refetches m (f a app.cache))
      → Done m app.cache (
          (on_success browser schemas queries
                (parsed browser schemas queries schema path method body)
                f
              >>= λ _. pure tt)
            app)
  parsed-Done m schema path method body f app h =
      hook-Done m (parsed browser schemas queries schema path method body) f app
        (parsed-Keeps schema path method body app) h

  delete-Done :
      (m : Mutation F) (n : IsNamed m) (path : String) (app : App N C)
      → Done m app.cache (
          (on_success browser schemas queries
                (fetching browser schemas queries path delete no_body)
                (λ _. queries.invalidate (widest m))
              >>= λ _. pure tt)
            app)
  delete-Done m n path app =
      hook-Done m (fetching browser schemas queries path delete no_body)
        (λ _. queries.invalidate (widest m)) app (fetching-Keeps path delete no_body app)
        (λ _. invalidate-Refetches m app.cache n)

  mutate-Done : (m : Mutation F) → IsNamed m → (app : App N C) → Done m app.cache (mutate m app)
  unfolding use_create_job use_update_job use_change_stage use_delete_job use_upload_resume_file
      use_delete_resume_file
  mutate-Done (creates body) n app =
      parsed-Done (creates body) schemas.job "/jobs" post (json_body (schemas.of_create body))
        (λ _. queries.invalidate jobs_key) app
        (λ _. invalidate-Refetches (creates body) app.cache n)
  mutate-Done (edits id body) n app =
      parsed-Done (edits id body) schemas.job ("/jobs/" ++ id) patch
        (json_body (schemas.of_update body)) (job_and_board browser schemas queries id) app
        (λ _. invalidate-Refetches (edits id body) _ n)
  mutate-Done (moves id stage) n app =
      parsed-Done (moves id stage) schemas.job ("/jobs/" ++ (id ++ "/stage")) post
        (json_body (schemas.of_stage stage)) (job_and_board browser schemas queries id) app
        (λ _. invalidate-Refetches (moves id stage) _ n)
  mutate-Done (deletes id) n app = delete-Done (deletes id) n ("/jobs/" ++ id) app
  mutate-Done (uploads job_id file) n app =
      parsed-Done (uploads job_id file) schemas.resume_file "/resume/files" post
        (form_data (form_of browser schemas queries file job_id))
        (λ _. queries.invalidate (files_key job_id)) app
        (λ _. invalidate-Refetches (uploads job_id file) app.cache n)
  mutate-Done (removes_file job_id id) n app =
      delete-Done (removes_file job_id id) n ("/resume/files/" ++ id) app

  save_base-Ensures :
      (content : String) (app : App N C)
      → Ensures
          (use_save_base_resume browser schemas queries content app)
          (λ saved w. queries.base_of w.cache ≡ some saved)
          (λ w. w.cache ≡ app.cache)
  unfolding use_save_base_resume
  save_base-Ensures content app =
      on_success-Ensures (λ saved c. queries.base_of c ≡ some saved)
        (parsed browser schemas queries schemas.base_resume base_path put
          (json_body (schemas.of_content content)))
        queries.set_base app
        (parsed-Keeps schemas.base_resume base_path put (json_body (schemas.of_content content))
          app)
        (λ saved. queries.set_base_law saved app.cache)

  -- A mutation of jobs or files that returns has every query of the pages fetched again whose answer it
  -- may have changed, if it names no job by an empty id; a saving of the base resume that returns puts
  -- what was saved in the cache. One that throws changes nothing in the cache.
  pub mutate-Refetches :
      (m : Mutation F) (content : String) (app : App N C)
      → IsNamed m
      → Ensures (mutate m app) (λ _ w. Refetches m w.cache) (λ w. w.cache ≡ app.cache)
        × Ensures
            (use_save_base_resume browser schemas queries content app)
            (λ saved w. queries.base_of w.cache ≡ some saved)
            (λ w. w.cache ≡ app.cache)
  mutate-Refetches m content app named = (mutate-Done m named app, save_base-Ensures content app)

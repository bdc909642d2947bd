-- ===== src/Jobs/Calls.antt =====
-- The calls of jobs.controller.ts that reach `JobsService`, and what each does to the tables.
use jobilee.Prelude.{
  ℕ, String, ◌≡◌, ◌≢◌, refl, ap, ◌∙◌, ◌⊎◌, inl, inr, none, some, [], ◌∷◌, ◌++◌, filter, not, find,
  arith, Bool-cases, ◌==◌, string_eq, if◌then◌else◌,
}
use jobilee.Effect.{Action, after, pure, ◌>>=◌}
use jobilee.Effect.Rules.{Ensures, Ensures-bind, Ensures-mono}
use jobilee.Shared.Jobs.{
  Stage, stage_eq, Stage-beq_iff, ArtifactType, StageEvent, JobArtifact, JobDetail, Job,
  CreateJobRequest, UpdateJobRequest,
}
use jobilee.Jobs.Db.{JobsDb, Tables, owned_by, has_id, update_where, patch_job, is_of, Details}
use jobilee.Jobs.Service.{
  require, assert_owned, list, create, get, update, remove, change_stage, get_artifact,
  put_artifact, editable, to_stage,
}

pub data Call : Type 0 where
  list_jobs : Call
  create_job : CreateJobRequest → Call
  get_job delete_job : String → Call
  update_job : String → UpdateJobRequest → Call
  move_job : String → Stage → Call
  read_artifact : String → ArtifactType → Call
  write_artifact : String → ArtifactType → String → Call

module _ {W : Type 0} (db : JobsDb W) where
  -- a call of the user `user_id`; whether it answers or fails, the next one starts in its world
  unfoldable pub step : String → Call → W → W
  step user_id list_jobs w = after (list db user_id w)
  step user_id (create_job body) w = after (create db user_id body w)
  step user_id (get_job id) w = after (get db user_id id w)
  step user_id (delete_job id) w = after (remove db user_id id w)
  step user_id (update_job id body) w = after (update db user_id id body w)
  step user_id (move_job id stage) w = after (change_stage db user_id id stage w)
  step user_id (read_artifact id type) w = after (get_artifact db user_id id type w)
  step user_id (write_artifact id type content) w =
      after (put_artifact db user_id id type content w)

  pub assert_owned_lem :
      (user_id id : String) (w : W)
      → Ensures
          (assert_owned db user_id id w)
          (λ job w'.
            (db.view w' ≡ db.view w) × (find (owned_by user_id id) (db.view w).jobs ≡ some job))
          (λ w'. db.view w' ≡ db.view w)
  unfolding assert_owned
  assert_owned_lem user_id id w = ground (arith, db.find_job_law user_id id w)

-- the tables after each write
abbrev pub updated : String → UpdateJobRequest → ℕ → Tables → Tables
updated id body now v = record v {
  jobs = update_where (has_id id) (patch_job (editable body) now) v.jobs;
}

abbrev pub deleted : String → Tables → Tables
deleted id v = record {
  jobs = filter (λ j. not (j.id == id)) v.jobs;
  events = filter (λ e. not (e.job_id == id)) v.events;
  artifacts = filter (λ a. not (a.job_id == id)) v.artifacts;
}

abbrev pub moved : String → Stage → ℕ → StageEvent → Tables → Tables
moved id stage now e v = record v {
  jobs = update_where (has_id id) (patch_job (to_stage stage) now) v.jobs;
  events = v.events ++ e ∷ [];
}

abbrev pub with_artifact : String → ArtifactType → JobArtifact → Tables → Tables
with_artifact id type a v = record v {
  artifacts = elim (find (is_of id type) v.artifacts) [
    | none ↦ v.artifacts ++ a ∷ []
    | some _ ↦ update_where (is_of id type) (λ _. a) v.artifacts
  ];
}

module _ {W : Type 0} (db : JobsDb W) (user_id id : String) (w : W) where
  -- the job that the ownership gate found
  abbrev pub Owned : Job → Type 0
  Owned job = find (owned_by user_id id) (db.view w).jobs ≡ some job

  abbrev pub Unchanged : W → Type 0
  Unchanged w' = db.view w' ≡ db.view w

  gate :
      {A : Type 0} (rest : Job → Action W A) (good : A → W → Type 0)
      → ((job : Job) (w' : W)
          → (db.view w' ≡ db.view w) × Owned job
          → Ensures (rest job w') good Unchanged)
      → Ensures ((assert_owned db user_id id >>= rest) w) good Unchanged
  gate rest good k =
      Ensures-bind (assert_owned db user_id id) rest w (λ job w'. Unchanged w' × Owned job) good
        Unchanged (assert_owned_lem db user_id id w) k

  abbrev pub Updates : UpdateJobRequest → Job → W → Type 0
  Updates body _ w' =
      (job : Job) × Owned job × (now : ℕ) × (db.view w' ≡ updated id body now (db.view w))

  pub update_lem :
      (body : UpdateJobRequest) → Ensures (update db user_id id body w) (Updates body) Unchanged
  unfolding update
  update_lem body =
      gate (λ _. db.update_job id (editable body)) _
        λ job w' (e, owned). ground (arith, e, owned, db.update_job_law id (editable body) w')

  abbrev pub Removes : Unit {0} → W → Type 0
  Removes _ w' = (job : Job) × Owned job × (db.view w' ≡ deleted id (db.view w))

  pub remove_lem : Ensures (remove db user_id id w) Removes Unchanged
  unfolding remove
  remove_lem =
      gate (λ _. db.delete_job id) _
        λ job w' (e, owned). ground (arith, e, owned, db.delete_job_law id w')

  abbrev pub Moves : Stage → Job → W → Type 0
  Moves stage job w' =
      (current : Job) × Owned current
      × (((current.stage ≡ stage) × (job ≡ current) × (db.view w' ≡ db.view w))
          ⊎ ((current.stage ≢ stage)
              × (now : ℕ) × (e : StageEvent) × (e.job_id ≡ id)
              × (e.stage ≡ stage)
              × (find (has_id id) (db.view w').jobs ≡ some job)
              × (db.view w' ≡ moved id stage now e (db.view w))))

  pub change_stage_lem :
      (stage : Stage) → Ensures (change_stage db user_id id stage w) (Moves stage) Unchanged
  unfolding change_stage
  change_stage_lem stage =
      gate
        (λ current.
          if current.stage == stage then pure current else db.move_job id stage (to_stage stage))
        _
        λ job w' (e, owned). elim (Bool-cases (job.stage == stage)) [
          | inl s ↦ rw s (job, owned, inl ((Stage-beq_iff job.stage stage).0 s, refl, e))
          | inr d ↦ rw d (
              Ensures-mono (db.move_job id stage (to_stage stage) w') _ _ _ _
                (db.move_job_law id stage (to_stage stage) w')
                (λ j w'' (now, ev, a, b, f, v). (
                  job,
                  owned,
                  inr (
                    ground (arith, Stage-beq_iff job.stage stage),
                    now,
                    ev,
                    a,
                    b,
                    f,
                    v ∙ ap (moved id stage now ev) e,
                  ),
                ))
                (λ w'' v. v ∙ e))
        ]

  abbrev pub ReadsArtifact : ArtifactType → JobArtifact → W → Type 0
  ReadsArtifact type a w' =
      (job : Job) × Owned job
      × (find (is_of id type) (db.view w).artifacts ≡ some a)
      × (db.view w' ≡ db.view w)

  pub get_artifact_lem :
      (type : ArtifactType)
      → Ensures (get_artifact db user_id id type w) (ReadsArtifact type) Unchanged
  unfolding get_artifact
  get_artifact_lem type =
      gate (λ _. do artifact ← db.find_artifact id type; require _ artifact) _
        λ job w' (e, owned). ground (arith, e, owned, db.find_artifact_law id type w')

  abbrev pub WritesArtifact : ArtifactType → String → JobArtifact → W → Type 0
  WritesArtifact type content a w' =
      (job : Job) × Owned job
      × (a.job_id ≡ id)
      × (a.type ≡ type)
      × (a.content ≡ content)
      × (db.view w' ≡ with_artifact id type a (db.view w))

  pub put_artifact_lem :
      (type : ArtifactType) (content : String)
      → Ensures (put_artifact db user_id id type content w) (WritesArtifact type content) Unchanged
  unfolding put_artifact
  put_artifact_lem type content =
      gate (λ _. db.upsert_artifact id type content) _
        λ job w' (e, owned). ground (arith, e, owned, db.upsert_artifact_law id type content w')

  abbrev pub Reads : JobDetail → W → Type 0
  Reads d w' =
      (job : Job) × Owned job × Details (some job) (db.view w) (some d) × (db.view w' ≡ db.view w)

  pub get_lem : Ensures (get db user_id id w) Reads Unchanged
  unfolding get
  get_lem = ground (arith, db.find_job_detail_law user_id id w)

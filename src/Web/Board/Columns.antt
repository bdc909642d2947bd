-- ===== src/Web/Board/Columns.antt =====
-- The columns of the board against the filter of the jobs by their stage.
use jobilee.Prelude.{
  ℕ, ◌+◌, ◌≡◌, refl, ◌∙◌, ap, inl, inr, Option, none, some, List, [], ◌∷◌, ◌++◌, filter, arith,
  Bool-cases, Eq, ◌==◌, if◌then◌else◌,
}
use mathlib.Core.List.{append-nil, append_assoc, Perm, perm_middle}
use mathlib.Core.List.Perm
use jobilee.Shared.Jobs.{Stage, stage_eq, stages, Job}
use jobilee.Web.Board.{no_jobs, bucket_of, push, push_all, by_stage, or_empty, in_stage, cards}

module _ {S A : Type 0} ⦃e : Eq S⦄ (stage_of : A → S) (stage : S) where
  -- what a push adds to a bucket
  abbrev grown : A → Option (List A) → Option (List A)
  grown job none = none
  grown job (some jobs) = some (if stage_of job == stage then jobs ++ job ∷ [] else jobs)

  bucket_of-push :
      (job : A) (b : List (S × List A))
      → bucket_of stage (push stage_of job b) ≡ grown job (bucket_of stage b)
  unfolding bucket_of push
  bucket_of-push job [] = refl
  bucket_of-push job ((s, jobs) ∷ b) = ground (
    arith,
    e.beq_iff s stage,
    e.beq_iff s (stage_of job),
    e.beq_iff (stage_of job) stage,
    bucket_of-push job b,
  )

  bucket_of-push_all :
      (jobs : List A) (b : List (S × List A)) (held : List A)
      → bucket_of stage b ≡ some held
      → bucket_of stage (push_all stage_of jobs b)
        ≡ some (held ++ filter (λ j. stage_of j == stage) jobs)
  unfolding push_all
  bucket_of-push_all [] b held h = rw append-nil h
  bucket_of-push_all (job ∷ jobs) b held h = elim (Bool-cases (stage_of job == stage)) [
    | inl same ↦
        rw (same, ← append_assoc held (job ∷ []) (filter (λ j. stage_of j == stage) jobs))
          (bucket_of-push_all jobs _ (held ++ job ∷ [])
            (bucket_of-push job b ∙ (rw (h, grown, same))))
    | inr apart ↦
        rw apart (bucket_of-push_all jobs _ held (bucket_of-push job b ∙ (rw (h, grown, apart))))
  ]

bucket_of-no_jobs : (stage : Stage) → bucket_of stage (no_jobs {A = Job} stages) ≡ some []
unfolding bucket_of no_jobs
bucket_of-no_jobs Stage.saved = refl
bucket_of-no_jobs Stage.applied = refl
bucket_of-no_jobs Stage.recruiter_call = refl
bucket_of-no_jobs Stage.phone_screen = refl
bucket_of-no_jobs Stage.technical = refl
bucket_of-no_jobs Stage.onsite = refl
bucket_of-no_jobs Stage.offer = refl
bucket_of-no_jobs Stage.rejected = refl

in_stage-filter :
    (jobs : List Job) (stage : Stage) → in_stage jobs stage ≡ filter (λ j. j.stage == stage) jobs
unfolding in_stage by_stage
in_stage-filter jobs stage =
    ap or_empty
      (bucket_of-push_all (λ j. j.stage) stage jobs (no_jobs stages) [] (bucket_of-no_jobs stage))

module _ {S A : Type 0} ⦃e : Eq S⦄ (stage_of : A → S) where
  -- how often a stage has a column
  abbrev times : S → List S → ℕ
  times s [] = 0
  times s (c ∷ columns) = (if s == c then 1 else 0) + times s columns

  abbrev in_columns : List S → List A → List A
  in_columns [] jobs = []
  in_columns (c ∷ columns) jobs = filter (λ j. stage_of j == c) jobs ++ in_columns columns jobs

  in_columns-skip :
      (job : A) (jobs : List A) (columns : List S)
      → times (stage_of job) columns ≡ 0
      → in_columns columns (job ∷ jobs) ≡ in_columns columns jobs
  in_columns-skip job jobs [] h = refl
  in_columns-skip job jobs (c ∷ columns) h = ground (arith, in_columns-skip job jobs columns)

  in_columns-once :
      (job : A) (jobs : List A) (columns : List S)
      → times (stage_of job) columns ≡ 1
      → Perm (in_columns columns (job ∷ jobs)) (job ∷ in_columns columns jobs)
  in_columns-once job jobs [] h = absurd (omega arith)
  in_columns-once job jobs (c ∷ columns) h = elim (Bool-cases (stage_of job == c)) [
    | inl here ↦
        rw here (Perm.cons job (rw (in_columns-skip job jobs columns (ground arith)) Perm.rfl))
    | inr there ↦ rw there (
        Perm.trans
          (Perm.append_left (filter (λ j. stage_of j == c) jobs)
            (in_columns-once job jobs columns (ground arith)))
          (perm_middle (filter (λ j. stage_of j == c) jobs) (in_columns columns jobs)))
  ]

  in_columns-nil : (columns : List S) → in_columns columns [] ≡ []
  in_columns-nil [] = refl
  in_columns-nil (c ∷ columns) = in_columns-nil columns

  in_columns-perm :
      (columns : List S) (jobs : List A)
      → ((s : S) → times s columns ≡ 1)
      → Perm (in_columns columns jobs) jobs
  in_columns-perm columns [] h = rw (in_columns-nil columns) Perm.rfl
  in_columns-perm columns (job ∷ jobs) h =
      Perm.trans (in_columns-once job jobs columns (h (stage_of job)))
        (Perm.cons job (in_columns-perm columns jobs h))

times-stages : (stage : Stage) → times (λ (j : Job). j.stage) stage stages ≡ 1
times-stages Stage.saved = refl
times-stages Stage.applied = refl
times-stages Stage.recruiter_call = refl
times-stages Stage.phone_screen = refl
times-stages Stage.technical = refl
times-stages Stage.onsite = refl
times-stages Stage.offer = refl
times-stages Stage.rejected = refl

cards-in_columns :
    (jobs : List Job) (columns : List Stage)
    → cards jobs columns ≡ in_columns (λ j. j.stage) columns jobs
unfolding cards
cards-in_columns jobs [] = refl
cards-in_columns jobs (c ∷ columns) = rw (in_stage-filter jobs c, cards-in_columns jobs columns)

-- The column of a stage holds the jobs of that stage in the order of the list, and the columns
-- together hold every job exactly once.
pub cards-perm :
    (jobs : List Job)
    → ((stage : Stage) → in_stage jobs stage ≡ filter (λ j. j.stage == stage) jobs)
      × Perm (cards jobs stages) jobs
cards-perm jobs = (
  in_stage-filter jobs,
  rw (cards-in_columns jobs stages) (in_columns-perm (λ j. j.stage) stages jobs times-stages),
)

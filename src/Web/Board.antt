-- ===== src/Web/Board.antt =====
-- apps/web/src/routes/Board.tsx: the jobs in one column for each stage. A JavaScript `Map` is the list
-- of its entries, in the order of their insertion.
pub mod Columns
use jobilee.Prelude.{Option, none, some, List, [], ◌∷◌, ◌++◌, map, Eq, ◌==◌, if◌then◌else◌}
use jobilee.Shared.Jobs.{Stage, stage_eq, stages, Job}

abbrev pub or_empty : {A : Type 0} → Option (List A) → List A
or_empty none = []
or_empty (some jobs) = jobs

module _ {S A : Type 0} ⦃e : Eq S⦄ where
  -- `new Map(STAGES.map((stage) => [stage, []]))`
  unfoldable pub no_jobs : List S → List (S × List A)
  no_jobs [] = []
  no_jobs (stage ∷ columns) = (stage, []) ∷ no_jobs columns

  -- `buckets.get(stage)`
  unfoldable pub bucket_of : S → List (S × List A) → Option (List A)
  bucket_of stage [] = none
  bucket_of stage ((s, jobs) ∷ buckets) = if s == stage then some jobs else bucket_of stage buckets

  module _ (stage_of : A → S) where
    -- `buckets.get(job.stage)?.push(job)`
    unfoldable pub push : A → List (S × List A) → List (S × List A)
    push job [] = []
    push job ((s, jobs) ∷ buckets) =
        if s == stage_of job then (s, jobs ++ job ∷ []) ∷ buckets else (s, jobs) ∷ push job buckets

    -- the loop over the jobs
    unfoldable pub push_all : List A → List (S × List A) → List (S × List A)
    unfolding push
    push_all [] buckets = buckets
    push_all (job ∷ jobs) buckets = push_all jobs (push job buckets)

-- `byStage`
unfoldable pub by_stage : List Job → List (Stage × List Job)
unfolding push_all no_jobs
by_stage jobs = push_all (λ job. job.stage) jobs (no_jobs stages)

-- `inStage`, the jobs of a column
unfoldable pub in_stage : List Job → Stage → List Job
unfolding bucket_of by_stage
in_stage jobs stage = or_empty (bucket_of stage (by_stage jobs))

-- the cards of the rail, column by column
unfoldable pub cards : List Job → List Stage → List Job
unfolding in_stage
cards jobs [] = []
cards jobs (stage ∷ columns) = in_stage jobs stage ++ cards jobs columns

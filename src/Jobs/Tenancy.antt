-- ===== src/Jobs/Tenancy.antt =====
-- One user's calls never touch what belongs to another.
pub mod Content
use jobilee.Prelude.{
  ℕ, String, ◌≡◌, ◌≢◌, refl, sym, ap, ◌∙◌, inl, inr, Bool, false, not, none, some, List, [], ◌∷◌,
  ◌++◌, filter, filter-cong, filter-filter, filter-append_dropped, filter-write, Option-cases, find,
  any, All, All-imp, arith, eq_iff, Bool-cases, ◌==◌, string_eq,
}
use jobilee.Shared.Jobs.{
  Stage, ArtifactType, StageEvent, JobArtifact, Job, CreateJobRequest, UpdateJobRequest,
}
use jobilee.Jobs.Db.{
  JobsDb, Tables, Created, JobPatch, created, owned_by, has_id, update_where, patch_job, is_of,
}
use jobilee.Jobs.Service.{editable, to_stage}
use jobilee.Jobs.Calls.{Call, step, updated, deleted, moved, with_artifact}
use jobilee.Jobs.Changes.{Change, keeps, creates, updates, deletes, moves, writes, step-Change}
use jobilee.Jobs.Tenancy.Content.{
  UniqueIds, content, Owns-All, created-content, updated-content, moved-content, deleted-content,
  written-content,
}

-- A call of one user leaves alone all that any other user has: the jobs, their history and their
-- artifacts, provided that ids are unique.
Change-content :
    (u other : String) (v v' : Tables)
    → other ≢ u
    → UniqueIds v.jobs
    → Change u v v'
    → content other v' ≡ content other v
Change-content u other v v' differ ids (keeps e) = ap (content other) e
Change-content u other v v' differ ids (creates body job ev made e) =
    ap (content other) e ∙ created-content u other differ v body job ev made
Change-content u other v v' differ ids (updates id body now job owned e) =
    ap (content other) e
    ∙ updated-content u other differ v id body now (Owns-All u id v.jobs job ids owned)
Change-content u other v v' differ ids (deletes id job owned e) =
    ap (content other) e ∙ deleted-content u other differ v id (Owns-All u id v.jobs job ids owned)
Change-content u other v v' differ ids (moves id stage now ev job owned of_job at_stage e) =
    ap (content other) e
    ∙ moved-content u other differ v id stage now ev of_job (Owns-All u id v.jobs job ids owned)
Change-content u other v v' differ ids (writes id type a job owned of_job of_type e) =
    ap (content other) e
    ∙ written-content u other differ v id type a of_job (Owns-All u id v.jobs job ids owned)

-- A call of one user, whether it answers or fails, leaves alone all that any other user has: the
-- jobs, their history and their artifacts. Job ids are unique, as the primary key demands.
pub content-step :
    {W : Type 0} (db : JobsDb W) (u other : String) (c : Call) (w : W)
    → other ≢ u
    → UniqueIds (db.view w).jobs
    → content other (db.view (step db u c w)) ≡ content other (db.view w)
content-step db u other c w differ ids =
    Change-content u other (db.view w) _ differ ids (step-Change db u c w)

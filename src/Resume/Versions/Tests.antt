-- ===== src/Resume/Versions/Tests.antt =====
-- Versions in memory, and another writer of them.
use jobilee.Prelude.{
  ◌≢◌, All, ℕ, suc, ◌≤◌, ◌<◌, length, ltb, String, ◌≡◌, refl, Option, none, some, List, [], ◌∷◌,
  arith, Bool-cases, inl, inr, string_eq, if◌then◌else◌,
}
use jobilee.Effect.{Action, returned, threw}
use jobilee.Effect.Rules.{Ensures}
use jobilee.Thrown.{unique_violation}
use jobilee.Shared.Resume.{TailoredResume, CreateTailoredResumeRequest}
use jobilee.Resume.Versions.{VersionsDb, create_tailored}
use jobilee.Resume.Versions.Sequence.{
  IsSequence, IsShared, value_of, Appended, create_tailored-IsSequence,
}

-- after the first was read, another writer adds the second
abbrev latest_of : List ℕ → Option ℕ
latest_of [] = none
latest_of (v ∷ vs) = some v

abbrev intrude : List ℕ → List ℕ
intrude (v ∷ []) = suc v ∷ v ∷ []
intrude vs = vs

abbrev tailored : String → ℕ → CreateTailoredResumeRequest → TailoredResume
tailored user_id version body = record {
  id = "r";
  user_id = user_id;
  job_id = body.job_id;
  version = version;
  gap_analysis = body.gap_analysis;
  content = body.content;
  created_at = 0;
}

abbrev add_version : String → ℕ → CreateTailoredResumeRequest → Action (List ℕ) TailoredResume
add_version user_id v body vs =
    if ltb (length vs) v
    then returned (tailored user_id v body) (v ∷ vs)
    else threw unique_violation vs

abbrev versions_db : VersionsDb (List ℕ)
versions_db = record {
  latest_version = λ user_id job_id vs. returned (latest_of vs) (intrude vs);
  create_version = add_version;
}

above : (v : ℕ) (vs : List ℕ) → IsSequence vs → length vs < v → All (λ u. u ≢ v) vs
above v [] s h = tt
above v (u ∷ vs) (e, s) h = (λ q. omega arith, above v vs s (omega arith))

add_version_lem :
    (user_id : String) (v : ℕ) (body : CreateTailoredResumeRequest) (vs : List ℕ)
    → IsSequence vs
    → Ensures
        (add_version user_id v body vs)
        (λ row ws.
          (us : List ℕ) × IsSequence us
          × (length vs ≤ length us)
          × All (λ u. u ≢ v) us
          × (ws ≡ v ∷ us)
          × (row.version ≡ v))
        IsSequence
add_version_lem user_id v body vs s = elim (Bool-cases (ltb (length vs) v)) [
  | inl h ↦ rw h (vs, s, omega arith, above v vs s (ground arith), refl, refl)
  | inr h ↦ rw h s
]

latest_lem :
    (vs : List ℕ)
    → IsSequence vs
    → IsSequence (intrude vs) × (value_of (latest_of vs) ≤ length (intrude vs))
latest_lem [] s = (tt, omega arith)
latest_lem (v ∷ []) (e, s) = ((omega arith, (e, s)), omega arith)
latest_lem (v ∷ (u ∷ vs)) (e, s) = ((e, s), omega arith)

abbrev request : CreateTailoredResumeRequest
request = record { job_id = "j"; gap_analysis = ""; content = "CV" }

versions_db-IsShared : IsShared versions_db "ann" request (λ vs. vs)
versions_db-IsShared = record {
  latest_law = λ vs s. latest_lem vs s;
  create_law = λ v vs s. add_version_lem "ann" v request vs s;
}

create_tailored-IsSequence_example :
    Ensures
      (create_tailored versions_db "ann" request (1 ∷ []))
      (Appended versions_db "ann" request (λ vs. vs) versions_db-IsShared)
      IsSequence
create_tailored-IsSequence_example =
    create_tailored-IsSequence versions_db "ann" request (λ vs. vs) versions_db-IsShared (1 ∷ [])
      (refl, tt)

-- ===== src/Resume/Versions/Sequence.antt =====
-- The versions of a user's resumes for a job run from one without a gap, whatever other writers do.
use jobilee.Prelude.{
  ℕ, zero, suc, ◌+◌, ◌≤◌, ◌<◌, String, ◌≡◌, ◌≢◌, refl, sym, ◌∙◌, subst, Option, none, some, List,
  [], ◌∷◌, length, All, arith,
}
use jobilee.Effect.{Action, catch}
use jobilee.Effect.Rules.{Ensures, Ensures-bind, Ensures-mono, Ensures-catch}
use jobilee.Thrown.{Thrown, unique_violation}
use jobilee.Shared.Resume.{TailoredResume, CreateTailoredResumeRequest}
use jobilee.Resume.Versions.{
  VersionsDb, version_retries, next_version, collided, insert, return_or, allocate, create_tailored,
}

-- n, …, 2, 1
abbrev pub IsSequence : List ℕ → Type 0
IsSequence [] = Unit
IsSequence (v ∷ vs) = (v ≡ suc (length vs)) × IsSequence vs

abbrev pub value_of : Option ℕ → ℕ
value_of none = 0
value_of (some v) = v

-- What is relied on, while other writers follow the same protocol between the queries: `versions w`
-- are the versions of the user and the job, newest first. The version that is read is at most their
-- number from then on, since none is deleted; a creation that returns has found, among what the
-- others had written, no row with its version.
pub record IsShared {W : Type 0} (db : VersionsDb W) (user_id : String)
    (body : CreateTailoredResumeRequest) (versions : W → List ℕ) : Type 0 where
  pub latest_law :
      (w : W)
      → IsSequence (versions w)
      → Ensures
          (db.latest_version user_id body.job_id w)
          (λ o w'. IsSequence (versions w') × (value_of o ≤ length (versions w')))
          (λ w'. IsSequence (versions w'))
  pub create_law :
      (v : ℕ) (w : W)
      → IsSequence (versions w)
      → Ensures
          (db.create_version user_id v body w)
          (λ row w'.
            (vs : List ℕ) × IsSequence vs
            × (length (versions w) ≤ length vs)
            × All (λ u. u ≢ v) vs
            × (versions w' ≡ v ∷ vs)
            × (row.version ≡ v))
          (λ w'. IsSequence (versions w'))

-- A version that a sequence lacks lies above it.
IsSequence-lacks :
    (v : ℕ) (vs : List ℕ) → IsSequence vs → 1 ≤ v → All (λ u. u ≢ v) vs → length vs < v
IsSequence-lacks v [] s h a = h
IsSequence-lacks v (u ∷ vs) (e, s) h (ne, a) =
    let below = IsSequence-lacks v vs s h a in
    omega (arith, λ (q : v ≡ suc (length vs)). ne (e ∙ sym q))

module _ {W : Type 0} (db : VersionsDb W) (user_id : String) (body : CreateTailoredResumeRequest)
    (versions : W → List ℕ) (shared : IsShared db user_id body versions) where
  abbrev Kept : W → Type 0
  Kept w = IsSequence (versions w)

  -- the new version is the newest, and there is no gap below it
  abbrev pub Appended : TailoredResume → W → Type 0
  Appended row w = (vs : List ℕ) × (versions w ≡ row.version ∷ vs) × IsSequence (row.version ∷ vs)

  abbrev Tried : Option TailoredResume → W → Type 0
  Tried none w = Kept w
  Tried (some row) w = Appended row w

  appended :
      (v : ℕ) (row : TailoredResume) (vs : List ℕ) (w w' : W)
      → 1 ≤ v
      → v ≤ suc (length (versions w))
      → IsSequence vs
      → length (versions w) ≤ length vs
      → All (λ u. u ≢ v) vs
      → versions w' ≡ v ∷ vs
      → row.version ≡ v
      → Appended row w'
  appended v row vs w w' positive low s longer lacks e same =
      let above = IsSequence-lacks v vs s positive lacks in
      (vs, subst (λ u. versions w' ≡ u ∷ vs) (sym same) e, (omega arith, s))

  insert_lem :
      (v : ℕ) (w : W)
      → Kept w
      → 1 ≤ v
      → v ≤ suc (length (versions w))
      → Ensures (insert db user_id body v w) Tried Kept
  insert_lem v w kept positive low =
      Ensures-bind (db.create_version user_id v body) _ w (λ row w'. Appended row w') Tried Kept
        (Ensures-mono _
          (λ row w'.
            (vs : List ℕ) × IsSequence vs
            × (length (versions w) ≤ length vs)
            × All (λ u. u ≢ v) vs
            × (versions w' ≡ v ∷ vs)
            × (row.version ≡ v))
          (λ row w'. Appended row w') Kept Kept (shared.create_law v w kept)
          (λ row w' (vs, s, longer, lacks, e, same).
            appended v row vs w w' positive low s longer lacks e same)
          (λ w' k. k))
        (λ row w' a. a)

  collided_lem : (e : Thrown) (w : W) → Kept w → Ensures (collided e w) Tried Kept
  collided_lem unique_violation w k = k
  collided_lem e w k = k

  return_or_lem :
      (again : Action W TailoredResume) (o : Option TailoredResume) (w : W)
      → (Kept w → Ensures (again w) Appended Kept)
      → Tried o w
      → Ensures (return_or db user_id body again o w) Appended Kept
  return_or_lem again none w h k = h k
  return_or_lem again (some row) w h a = a

  next_version_lem : (o : Option ℕ) → next_version o ≡ value_of o + 1
  next_version_lem none = refl
  next_version_lem (some v) = refl

  allocate_lem :
      (left : ℕ) (w : W) → Kept w → Ensures (allocate db user_id body left w) Appended Kept
  unfolding allocate
  allocate_lem zero w kept = kept
  allocate_lem (suc left) w kept =
      Ensures-bind (db.latest_version user_id body.job_id) _ w
        (λ o w'. Kept w' × (value_of o ≤ length (versions w'))) Appended Kept
        (shared.latest_law w kept)
        (λ o w' (kept', low).
          let v = next_version_lem o in
          Ensures-bind (catch (insert db user_id body (next_version o)) collided) _ w' Tried
            Appended Kept
            (Ensures-catch (insert db user_id body (next_version o)) collided w' Tried Kept Kept
              (insert_lem (next_version o) w' kept' (omega arith) (omega arith))
              (λ e w'' k. collided_lem e w'' k))
            (λ row w'' t.
              return_or_lem (allocate db user_id body left) row w'' (allocate_lem left w'') t))

  -- If the versions run from one without a gap, they do after a creation, whoever else writes: a row
  -- that is returned has the newest version, one above the number of the others, and a creation that
  -- throws leaves no gap either.
  pub create_tailored-IsSequence :
      (w : W)
      → IsSequence (versions w)
      → Ensures (create_tailored db user_id body w) Appended (λ w'. IsSequence (versions w'))
  unfolding create_tailored
  create_tailored-IsSequence w s = allocate_lem version_retries w s

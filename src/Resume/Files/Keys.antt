-- ===== src/Resume/Files/Keys.antt =====
-- Rows whose keys differ.
use jobilee.Prelude.{
  String, ◌≡◌, ◌≢◌, sym, ◌∙◌, Bool, not, some, List, [], ◌∷◌, ◌++◌, filter, find, All, All-append,
  All-filter, arith, Bool-cases, inl, inr, ◌==◌, string_eq,
}
use jobilee.Shared.Resume.{ResumeFile}
use jobilee.Resume.Files.Storage.{UniqueKeys, is_owned}

abbrev pub Without : String → ResumeFile → Type 0
Without key f = f.object_key ≢ key

pub UniqueKeys-append :
    (fs : List ResumeFile) (f : ResumeFile)
    → All (Without f.object_key) fs
    → UniqueKeys fs
    → UniqueKeys (fs ++ f ∷ [])
UniqueKeys-append [] f h u = (tt, tt)
UniqueKeys-append (g ∷ fs) f (h, hs) (u, us) = (
  All-append (Without g.object_key) fs (f ∷ []) u ((λ e. h (sym e)), tt),
  UniqueKeys-append fs f hs us,
)

pub UniqueKeys-filter :
    (p : ResumeFile → Bool) (fs : List ResumeFile) → UniqueKeys fs → UniqueKeys (filter p fs)
UniqueKeys-filter p [] u = tt
UniqueKeys-filter p (g ∷ fs) (u, us) = elim (Bool-cases (p g)) [
  | inl h ↦ rw h (
    All-filter (Without g.object_key) (Without g.object_key) p fs (λ f _ x. x) u,
    UniqueKeys-filter p fs us,
  )
  | inr h ↦ rw h (UniqueKeys-filter p fs us)
]

find-Without :
    (user_id id key : String) (fs : List ResumeFile) (f : ResumeFile)
    → All (Without key) fs
    → find (is_owned user_id id) fs ≡ some f
    → f.object_key ≢ key
find-Without user_id id key [] f h e = cc
find-Without user_id id key (g ∷ fs) f (h, hs) e = elim (Bool-cases (is_owned user_id id g)) [
  | inl hit ↦ ground arith
  | inr miss ↦ find-Without user_id id key fs f hs (ground arith)
]

-- what is left beside the row that was found has other keys
pub left-Without :
    (user_id id : String) (fs : List ResumeFile) (f : ResumeFile)
    → UniqueKeys fs
    → find (is_owned user_id id) fs ≡ some f
    → All (Without f.object_key) (filter (λ g. not (g.id == id)) fs)
left-Without user_id id [] f u e = tt
left-Without user_id id (g ∷ fs) f (u, us) e = elim (Bool-cases (g.id == id)) [
  | inl same ↦ rw same (elim (Bool-cases (is_owned user_id id g)) [
    | inl hit ↦
        let key : g.object_key ≡ f.object_key = ground arith in
        All-filter (Without g.object_key) (Without f.object_key) (λ x. not (x.id == id)) fs
          (λ x _ h q. h (q ∙ sym key)) u
    | inr miss ↦ left-Without user_id id fs f us (ground arith)
  ])
  | inr other ↦ rw other (
    λ q. find-Without user_id id g.object_key fs f u (ground arith) (sym q),
    left-Without user_id id fs f us (ground arith),
  )
]

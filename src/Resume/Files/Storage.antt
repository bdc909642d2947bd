-- ===== src/Resume/Files/Storage.antt =====
-- No row points at an object that is gone.
use jobilee.Prelude.{
  String, ◌≡◌, ◌≢◌, Bool, not, ◌&&◌, List, [], ◌∷◌, ◌++◌, filter, find, All, ◌==◌, string_eq,
}
use jobilee.Effect.Rules.{Ensures}
use jobilee.Shared.Resume.{ResumeFile}
use jobilee.Resume.Objects.{object_key}
use jobilee.Resume.Files.{UploadInput, FilesEnv}

abbrev pub is_owned : String → String → ResumeFile → Bool
is_owned user_id id f = f.id == id && f.user_id == user_id

-- `objectKey` is unique.
abbrev pub UniqueKeys : List ResumeFile → Type 0
UniqueKeys [] = Unit
UniqueKeys (f ∷ fs) = All (λ (g : ResumeFile). g.object_key ≢ f.object_key) fs × UniqueKeys fs

-- What is relied on: the rows in a world, and whether it has an object under a key.
pub record Bucket (W : Type 0) : Type 1 where
  pub rows : W → List ResumeFile
  pub Has : String → W → Type 0

module _ {W : Type 0} (b : Bucket W) where
  -- the rows stay, and so do all objects
  abbrev pub Stays : W → W → Type 0
  Stays w w' = (b.rows w' ≡ b.rows w) × ((k : String) → b.Has k w → b.Has k w')

  -- the rows stay, and so do all objects but one
  abbrev pub StaysBut : String → W → W → Type 0
  StaysBut key w w' = (b.rows w' ≡ b.rows w) × ((k : String) → k ≢ key → b.Has k w → b.Has k w')

  -- Every row has its object, and no two rows share one.
  abbrev pub Sound : W → Type 0
  Sound w = All (λ (f : ResumeFile). b.Has f.object_key w) (b.rows w) × UniqueKeys (b.rows w)

  -- a key of no row
  abbrev pub Fresh : String → W → Type 0
  Fresh key w = All (λ (f : ResumeFile). f.object_key ≢ key) (b.rows w)

-- A call that throws changes nothing, but an object may be gone after a removal that throws. A key
-- that is made with a random id is in no row.
pub record IsLawful {W B Url : Type 0} (env : FilesEnv W B Url) (b : Bucket W) : Type 1 where
  pub find_owned_law :
      (user_id id : String) (w : W)
      → Ensures
          (env.find_owned user_id id w)
          (λ o w'. Stays b w w' × (o ≡ find (is_owned user_id id) (b.rows w)))
          (Stays b w)
  pub create_file_law :
      (user_id : String) (input : UploadInput B) (key : String) (w : W)
      → Ensures
          (env.create_file user_id input key w)
          (λ f w'.
            (f.object_key ≡ key)
            × (b.rows w' ≡ b.rows w ++ f ∷ [])
            × ((k : String) → b.Has k w → b.Has k w'))
          (Stays b w)
  pub delete_file_law :
      (id : String) (w : W)
      → Ensures
          (env.delete_file id w)
          (λ _ w'.
            (b.rows w' ≡ filter (λ f. not (f.id == id)) (b.rows w))
            × ((k : String) → b.Has k w → b.Has k w'))
          (Stays b w)
  pub random_uuid_law :
      (user_id filename : String) (w : W)
      → Ensures
          (env.random_uuid w)
          (λ id w'. Stays b w w' × Fresh b (object_key env.to_lower_case user_id filename id) w')
          (Stays b w)
  pub put_object_law :
      (key : String) (buffer : B) (content_type : String) (w : W)
      → Ensures
          (env.put_object key buffer content_type w)
          (λ _ w'. Stays b w w' × b.Has key w')
          (Stays b w)
  pub remove_object_law :
      (key : String) (w : W)
      → Ensures (env.remove_object key w) (λ _ w'. StaysBut b key w w') (StaysBut b key w)

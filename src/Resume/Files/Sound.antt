-- ===== src/Resume/Files/Sound.antt =====
-- Uploads and removals keep every row's object.
use jobilee.Prelude.{
  String, ◌≡◌, ◌≢◌, sym, ap, ◌∙◌, subst, not, Option, none, some, [], ◌∷◌, ◌++◌, filter, find, ltb,
  All, All-imp, All-append, All-both, All-filter, Bool-cases, inl, inr, ◌==◌, string_eq,
}
use jobilee.Effect.{after, catch, ignore_errors}
use jobilee.Effect.Rules.{Ensures, Ensures-bind, Ensures-mono, Ensures-catch, Ensures-after}
use jobilee.Shared.Resume.{ResumeFile, resume_upload_max_bytes}
use jobilee.Resume.Objects.{object_key, build_object_key}
use jobilee.Resume.Files.{
  UploadInput, FilesEnv, is_allowed, found_or_throw, owned, drop_object, store, upload, remove,
}
use jobilee.Resume.Files.Storage.{
  Bucket, IsLawful, Stays, StaysBut, Sound, Fresh, UniqueKeys, is_owned,
}
use jobilee.Resume.Files.Keys.{Without, UniqueKeys-append, UniqueKeys-filter, left-Without}

module _ {W B Url : Type 0} (env : FilesEnv W B Url) (b : Bucket W) (lawful : IsLawful env b) where
  pub Stays-Sound : (w w' : W) → Stays b w w' → Sound b w → Sound b w'
  Stays-Sound w w' (r, k) (h, u) =
      subst (λ fs. All (λ (f : ResumeFile). b.Has f.object_key w') fs × UniqueKeys fs) (sym r)
        (All-imp (λ (f : ResumeFile). b.Has f.object_key w) _ (b.rows w) (λ f. k f.object_key) h, u)

  Stays-Fresh : (key : String) (w w' : W) → Stays b w w' → Fresh b key w → Fresh b key w'
  Stays-Fresh key w w' (r, k) h = subst (λ fs. All (Without key) fs) (sym r) h

  StaysBut-Sound :
      (key : String) (w w' : W) → StaysBut b key w w' → Fresh b key w → Sound b w → Sound b w'
  StaysBut-Sound key w w' (r, k) fresh (h, u) =
      subst (λ fs. All (λ (f : ResumeFile). b.Has f.object_key w') fs × UniqueKeys fs) (sym r)
        (
          All-imp (λ (f : ResumeFile). (f.object_key ≢ key) × b.Has f.object_key w) _ (b.rows w)
              (λ f (ne, x). k f.object_key ne x)
              (All-both (Without key) (λ (f : ResumeFile). b.Has f.object_key w) (b.rows w) fresh
                h),
          u,
        )

  -- dropping an object that no row has
  drop_lem :
      (key : String) (w : W)
      → Fresh b key w
      → Sound b w
      → Ensures (ignore_errors (env.remove_object key) w) (λ _. Sound b) (Sound b)
  drop_lem key w fresh sound =
      Ensures-catch (env.remove_object key) _ w (λ _. Sound b) (Sound b) (Sound b)
        (Ensures-mono _ (λ _. StaysBut b key w) (λ _. Sound b) (StaysBut b key w) (Sound b)
          (lawful.remove_object_law key w) (λ _ w' s. StaysBut-Sound key w w' s fresh sound)
          (λ w' s. StaysBut-Sound key w w' s fresh sound))
        (λ e w' s. s)

  create_lem :
      (user_id : String) (input : UploadInput B) (key : String) (w : W)
      → Fresh b key w
      → b.Has key w
      → Sound b w
      → Ensures
          (catch (env.create_file user_id input key) (drop_object env key) w)
          (λ _. Sound b)
          (Sound b)
  create_lem user_id input key w fresh has (h, u) =
      Ensures-catch (env.create_file user_id input key) (drop_object env key) w (λ _. Sound b)
        (Stays b w) (Sound b)
        (Ensures-mono _
          (λ f w'.
            (f.object_key ≡ key)
            × (b.rows w' ≡ b.rows w ++ f ∷ [])
            × ((k : String) → b.Has k w → b.Has k w'))
          (λ _. Sound b) (Stays b w) (Stays b w) (lawful.create_file_law user_id input key w)
          (λ f w' (at_key, r, k).
            subst (λ fs. All (λ (g : ResumeFile). b.Has g.object_key w') fs × UniqueKeys fs) (sym r)
              (
                All-append (λ (g : ResumeFile). b.Has g.object_key w') (b.rows w) (f ∷ [])
                    (All-imp (λ (g : ResumeFile). b.Has g.object_key w) _ (b.rows w)
                      (λ g. k g.object_key) h)
                    (subst (λ key'. b.Has key' w') (sym at_key) (k key has), tt),
                UniqueKeys-append (b.rows w) f
                    (subst (λ key'. All (Without key') (b.rows w)) (sym at_key) fresh) u,
              ))
          (λ w' s. s))
        (λ e w' s.
          Ensures-bind (ignore_errors (env.remove_object key)) _ w' (λ _. Sound b) (λ _. Sound b)
            (Sound b) (drop_lem key w' (Stays-Fresh key w w' s fresh) (Stays-Sound w w' s (h, u)))
            (λ _ v t. t))

  build_object_key_lem :
      (user_id filename : String) (w : W)
      → Ensures
          (build_object_key env.random_uuid env.to_lower_case user_id filename w)
          (λ key w'. Stays b w w' × Fresh b key w')
          (Stays b w)
  unfolding build_object_key
  build_object_key_lem user_id filename w =
      Ensures-bind env.random_uuid _ w
        (λ id w'. Stays b w w' × Fresh b (object_key env.to_lower_case user_id filename id) w')
        (λ key w'. Stays b w w' × Fresh b key w') (Stays b w)
        (lawful.random_uuid_law user_id filename w) (λ id w' h. h)

  store_lem :
      (user_id : String) (input : UploadInput B) (w : W)
      → Sound b w
      → Ensures (store env user_id input w) (λ _. Sound b) (Sound b)
  store_lem user_id input w sound =
      Ensures-bind (build_object_key env.random_uuid env.to_lower_case user_id input.filename) _ w
        (λ key w'. Sound b w' × Fresh b key w') (λ _. Sound b) (Sound b)
        (Ensures-mono _ (λ key w'. Stays b w w' × Fresh b key w')
          (λ key w'. Sound b w' × Fresh b key w') (Stays b w) (Sound b)
          (build_object_key_lem user_id input.filename w)
          (λ key w' (s, f). (Stays-Sound w w' s sound, f)) (λ w' s. Stays-Sound w w' s sound))
        (λ key w' (sound', fresh).
          Ensures-bind (env.put_object key input.buffer input.content_type) _ w'
            (λ _ v. Sound b v × Fresh b key v × b.Has key v) (λ _. Sound b) (Sound b)
            (Ensures-mono _ (λ _ v. Stays b w' v × b.Has key v)
              (λ _ v. Sound b v × Fresh b key v × b.Has key v) (Stays b w') (Sound b)
              (lawful.put_object_law key input.buffer input.content_type w')
              (λ _ v (s, has). (Stays-Sound w' v s sound', Stays-Fresh key w' v s fresh, has))
              (λ v s. Stays-Sound w' v s sound'))
            (λ _ v (sound'', fresh', has). create_lem user_id input key v fresh' has sound''))

  -- Whatever an upload meets, and whether it returns or throws, afterwards every row has its object
  -- and no two rows share one, if that was so before.
  pub upload-Sound :
      (user_id : String) (input : UploadInput B) (w : W)
      → Sound b w
      → Sound b (after (upload env user_id input w))
  unfolding upload
  upload-Sound user_id input w sound = elim (Bool-cases (not (is_allowed input.content_type))) [
    | inl h ↦ rw h sound
    | inr h ↦ rw h (elim (Bool-cases (ltb resume_upload_max_bytes input.size)) [
      | inl l ↦ rw l sound
      | inr l ↦ rw l (
          Ensures-after _ (λ _. Sound b) (Sound b) (Sound b) (store_lem user_id input w sound)
            (λ _ v s. s) (λ v s. s))
    ])
  ]

  found_lem :
      (user_id id : String) (w w' : W) (o : Option ResumeFile)
      → Stays b w w'
      → o ≡ find (is_owned user_id id) (b.rows w)
      → Sound b w
      → Ensures
          (found_or_throw o w')
          (λ f v. Sound b v × (find (is_owned user_id id) (b.rows v) ≡ some f))
          (Sound b)
  found_lem user_id id w w' none s e sound = Stays-Sound w w' s sound
  found_lem user_id id w w' (some f) s e sound =
      (Stays-Sound w w' s sound, ap (find (is_owned user_id id)) s.0 ∙ sym e)

  pub owned_lem :
      (user_id id : String) (w : W)
      → Sound b w
      → Ensures
          (owned env user_id id w)
          (λ f v. Sound b v × (find (is_owned user_id id) (b.rows v) ≡ some f))
          (Sound b)
  unfolding owned
  owned_lem user_id id w sound =
      Ensures-bind (env.find_owned user_id id) _ w
        (λ o w'. Stays b w w' × (o ≡ find (is_owned user_id id) (b.rows w)))
        (λ f v. Sound b v × (find (is_owned user_id id) (b.rows v) ≡ some f)) (Sound b)
        (Ensures-mono _ (λ o w'. Stays b w w' × (o ≡ find (is_owned user_id id) (b.rows w)))
          (λ o w'. Stays b w w' × (o ≡ find (is_owned user_id id) (b.rows w))) (Stays b w) (Sound b)
          (lawful.find_owned_law user_id id w) (λ _ _ x. x) (λ w' s. Stays-Sound w w' s sound))
        (λ o w' (s, e). found_lem user_id id w w' o s e sound)

  delete_lem :
      (user_id id : String) (f : ResumeFile) (w : W)
      → Sound b w
      → find (is_owned user_id id) (b.rows w) ≡ some f
      → Ensures (env.delete_file id w) (λ _ v. Sound b v × Fresh b f.object_key v) (Sound b)
  delete_lem user_id id f w (h, u) e =
      Ensures-mono _
        (λ _ v.
          (b.rows v ≡ filter (λ g. not (g.id == id)) (b.rows w))
          × ((k : String) → b.Has k w → b.Has k v))
        (λ _ v. Sound b v × Fresh b f.object_key v) (Stays b w) (Sound b)
        (lawful.delete_file_law id w)
        (λ _ v (r, k).
          subst
            (λ fs.
              (All (λ (g : ResumeFile). b.Has g.object_key v) fs × UniqueKeys fs)
              × All (Without f.object_key) fs)
            (sym r)
            (
              (
                All-filter (λ (g : ResumeFile). b.Has g.object_key w)
                    (λ (g : ResumeFile). b.Has g.object_key v) _ (b.rows w) (λ g _. k g.object_key)
                    h,
                UniqueKeys-filter _ (b.rows w) u,
              ),
              left-Without user_id id (b.rows w) f u e,
            ))
        (λ v s. Stays-Sound w v s (h, u))

  -- The same holds of a removal: the row goes before the object.
  pub remove-Sound :
      (user_id id : String) (w : W) → Sound b w → Sound b (after (remove env user_id id w))
  unfolding remove
  remove-Sound user_id id w sound =
      Ensures-after _ (λ _. Sound b) (Sound b) (Sound b)
        (Ensures-bind (owned env user_id id) _ w
          (λ f v. Sound b v × (find (is_owned user_id id) (b.rows v) ≡ some f)) (λ _. Sound b)
          (Sound b) (owned_lem user_id id w sound)
          (λ f v (sound', e).
            Ensures-bind (env.delete_file id) _ v (λ _ v'. Sound b v' × Fresh b f.object_key v')
              (λ _. Sound b) (Sound b) (delete_lem user_id id f v sound' e)
              (λ _ v' (sound'', fresh). drop_lem f.object_key v' fresh sound'')))
        (λ _ v s. s) (λ v s. s)

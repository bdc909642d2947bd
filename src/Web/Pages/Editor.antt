-- ===== src/Web/Pages/Editor.antt =====
-- The text fields of apps/web/src/routes/JobDetail.tsx and Settings.tsx: an effect seeds them when the
-- id of what the query answers is another than at the last render.
use jobilee.Prelude.{
  String, ◌≡◌, ◌≢◌, refl, sym, ap, ◌∙◌, inl, inr, Bool-cases, Bool, true, false, Option, none, some,
  List, [], ◌∷◌, ◌==◌, string_eq, eq_iff, eq_refl, if◌then◌else◌,
}

-- the dependency of the effect when it last ran, and the text of the fields
pub record Editor (D : Type 0) : Type 0 where
  pub seeded_for : Option String
  pub draft : D

-- `Object.is` of two ids, either of which may be `undefined`
abbrev pub same_id : Option String → Option String → Bool
same_id none none = true
same_id (some a) (some b) = a == b
same_id _ _ = false

pub data EditorEvent (T D : Type 0) : Type 0 where
  -- a render with what the query answers
  renders : Option T → EditorEvent T D
  -- a field is typed in
  types : (D → D) → EditorEvent T D

module _ {T D : Type 0} (id_of : T → String) (text_of : T → D) where
  abbrev pub id_of? : Option T → Option String
  id_of? none = none
  id_of? (some t) = some (id_of t)

  -- the body of the effect
  abbrev pub seed : Option T → Editor D → Editor D
  seed none e = record e { seeded_for = none }
  seed (some t) e = record { seeded_for = some (id_of t); draft = text_of t }

  unfoldable pub render : Option T → Editor D → Editor D
  render answer e = if same_id (id_of? answer) e.seeded_for then e else seed answer e

  unfoldable pub edit : EditorEvent T D → Editor D → Editor D
  unfolding render
  edit (renders answer) e = render answer e
  edit (types f) e = record e { draft = f e.draft }

  unfoldable pub edit_all : List (EditorEvent T D) → Editor D → Editor D
  unfolding edit
  edit_all [] e = e
  edit_all (event ∷ events) e = edit_all events (edit event e)

  -- Each answer is of the one row.
  abbrev pub IsOf : String → EditorEvent T D → Type 0
  IsOf id (renders none) = ⊥
  IsOf id (renders (some t)) = id_of t ≡ id
  IsOf id (types f) = Unit

  abbrev pub AreOf : String → List (EditorEvent T D) → Type 0
  AreOf id [] = Unit
  AreOf id (event ∷ events) = IsOf id event × AreOf id events

  -- what was typed, on top of a text
  abbrev pub typed : List (EditorEvent T D) → D → D
  typed [] d = d
  typed (renders _ ∷ events) d = typed events d
  typed (types f ∷ events) d = typed events (f d)

  edit_all-typed :
      (id : String) (events : List (EditorEvent T D)) (d : D)
      → AreOf id events
      → edit_all events (record { seeded_for = some id; draft = d })
        ≡ record { seeded_for = some id; draft = typed events d }
  unfolding edit_all
  edit_all-typed id [] d h = refl
  edit_all-typed id (renders none ∷ events) d h = absurd h.0
  edit_all-typed id (renders (some t) ∷ events) d h =
      rw (h.0, eq_refl) (edit_all-typed id events d h.1)
  edit_all-typed id (types f ∷ events) d h = edit_all-typed id events (f d) h.1

  same_id-new :
      (id : String) (seeded : Option String) → seeded ≢ some id → same_id (some id) seeded ≡ false
  same_id-new id none h = refl
  same_id-new id (some other) h = elim (Bool-cases (id == other)) [
    | inl e ↦ absurd (h (ap some (sym ((eq_iff id other).0 e))))
    | inr e ↦ e
  ]

  render-new :
      (t : T) (e : Editor D)
      → e.seeded_for ≢ some (id_of t)
      → render (some t) e ≡ record { seeded_for = some (id_of t); draft = text_of t }
  unfolding render
  render-new t e h = rw (same_id-new (id_of t) e.seeded_for h) refl

  -- However often the row is answered again, the fields hold its first text with what was typed since,
  -- provided that another row, or none, was shown before.
  pub edit_all-render :
      (t : T) (events : List (EditorEvent T D)) (e : Editor D)
      → e.seeded_for ≢ some (id_of t)
      → AreOf (id_of t) events
      → (edit_all (renders (some t) ∷ events) e).draft ≡ typed events (text_of t)
  unfolding edit_all
  edit_all-render t events e fresh h =
      ap (λ x. (edit_all events x).draft) (render-new t e fresh)
      ∙ ap (λ x. x.draft) (edit_all-typed (id_of t) events (text_of t) h)

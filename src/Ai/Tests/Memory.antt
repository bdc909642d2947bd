-- ===== src/Ai/Tests/Memory.antt =====
-- ai-service in memory, with one task: a model that pauses once before it answers, counters, and a
-- list of what was delivered.
use jobilee.Prelude.{
  ℕ, zero, suc, ◌+◌, String, ◌≡◌, refl, ◌⊎◌, inl, inr, ap, ◌∙◌, Bool, true, not, ◌&&◌, filter,
  Bool-cases, Option, none, some, List, [], ◌∷◌, arith, eq_iff, ◌==◌, string_eq, if◌then◌else◌,
}
use jobilee.Effect.{Action, returned, threw}
use jobilee.Effect.Rules.{Ensures}
use jobilee.Thrown.{other}
use jobilee.Shared.Ai.{queued, running, CreateTaskRequest, research}
use jobilee.Shared.Jobs.{ArtifactType, ArtifactType-beq_iff, artifact_type_eq}
use jobilee.Ai.Quota.{Count, nonneg, Redis, Now}
use jobilee.Ai.Quota.Counting.{incremented, decremented, IsCounting, SameCounts}
use jobilee.Ai.Tasks.{
  TaskRow, TaskPatch, patch_task, Message, ModelRequest, pause_turn, end_turn, text_block,
  other_block, Environment,
}
use jobilee.Ai.Generation.Billing.{Meters}
use jobilee.Ai.Service.Charges.{LeavesCounts}
use jobilee.Ai.Worker.{GenerationJob}
use jobilee.Ai.Worker.Keeper.{Delivery, artifact, tailored_resume, Keeper, Keeps, Updated, IsKept}
use jobilee.Ai.Worker.Settled.{IsAnswering}

pub record World : Type 0 where
  row : Option TaskRow
  counts : String → Count
  held : List Delivery
  calls : ℕ
  input : ℕ
  output : ℕ

abbrev row_of : World → String → Option TaskRow
row_of w id = if id == "t" then w.row else none

abbrev set_count : String → Count → World → World
set_count key n w = record w { counts = λ k. if k == key then n else w.counts k }

abbrev pub redis : Redis World
redis = record {
  incr_ttl = λ key w.
      returned (incremented (w.counts key), nonneg 60)
        (set_count key (incremented (w.counts key)) w);
  expire = λ key seconds w. returned tt w;
  decr =
      λ key w. returned (decremented (w.counts key)) (set_count key (decremented (w.counts key)) w);
  del = λ key w. returned tt (set_count key (nonneg 0) w);
  get = λ key w. returned (some (w.counts key)) w;
}

-- the first answer pauses, every later one is a text
abbrev answer : ℕ → Message
answer zero = record {
  stop_reason = pause_turn;
  content = other_block ∷ [];
  input_tokens = 10;
  output_tokens = 2;
}
answer (suc n) = record {
  stop_reason = end_turn;
  content = text_block " a brief " ∷ [];
  input_tokens = 20;
  output_tokens = 5;
}

abbrev stream : ModelRequest → Action World Message
stream r w =
    let m = answer w.calls in
    returned m (record w {
      calls = suc w.calls;
      input = w.input + m.input_tokens;
      output = w.output + m.output_tokens;
    })

abbrev update_with : Option TaskRow → TaskPatch → Action World (Unit {0})
update_with none p w = threw other w
update_with (some old) p w = returned tt (record w { row = some (patch_task p old) })

abbrev pub new_row : String → CreateTaskRequest → TaskRow
new_row user_id request = record {
  id = "t";
  user_id = user_id;
  request = request;
  status = queued;
  result = none;
  error = none;
  input_tokens = none;
  output_tokens = none;
}

abbrev pub now : Now
now = record { today = "2026-08-04"; to_midnight = 3_600_000 }

-- an artifact of another job or of another type, or no artifact
abbrev is_kept : String → ArtifactType → Delivery → Bool
is_kept job_id type (artifact u place kind c) = not (place == job_id && kind == type)
is_kept job_id type (tailored_resume u j g c) = true

abbrev pub env : Environment World
env = record {
  find_task = λ id w. returned (row_of w id) w;
  update_task = λ id p w. update_with (row_of w id) p w;
  find_owned = λ user_id id w. returned (row_of w id) w;
  create_task = λ user_id request w.
      returned (new_row user_id request) (record w { row = some (new_row user_id request) });
  -- the queue is down
  enqueue = λ id user_id request w. threw other w;
  publish = λ e w. returned tt w;
  stream = stream;
  put_artifact = λ user_id job_id type content w. returned tt (record w {
    held = artifact user_id job_id type content ∷ filter (is_kept job_id type) w.held;
  });
  create_tailored = λ user_id job_id gap_analysis content w.
      returned tt
        (record w { held = tailored_resume user_id job_id gap_analysis content ∷ w.held });
  redis = redis;
  now = λ w. now;
  ai_daily_task_cap = 2;
  ai_max_attempts = 3;
  ai_model_generation = "model";
}

abbrev Among : Delivery → List Delivery → Type 0
Among d [] = ⊥
Among d (x ∷ xs) = (x ≡ d) ⊎ Among d xs

kept-Among :
    (job_id : String) (type : ArtifactType) (d : Delivery) (ds : List Delivery)
    → is_kept job_id type d ≡ true
    → Among d ds
    → Among d (filter (is_kept job_id type) ds)
kept-Among job_id type d [] k h = elim h [ ]
kept-Among job_id type d (x ∷ xs) k (inl e) = rw (ap (is_kept job_id type) e ∙ k) (inl e)
kept-Among job_id type d (x ∷ xs) k (inr h) = elim (Bool-cases (is_kept job_id type x)) [
  | inl b ↦ rw b (inr (kept-Among job_id type d xs k h))
  | inr b ↦ rw b (kept-Among job_id type d xs k h)
]

other_kept :
    (job_id : String) (type : ArtifactType) (place : String) (kind : ArtifactType)
    → ¬ ((place ≡ job_id) × (kind ≡ type))
    → not (place == job_id && kind == type) ≡ true
other_kept job_id type place kind ne = elim (Bool-cases (place == job_id)) [
  | inl a ↦ elim (Bool-cases (kind == type)) [
    | inl b ↦ absurd (ne ((eq_iff place job_id).0 a, (ArtifactType-beq_iff kind type).0 b))
    | inr b ↦ rw (a, b) refl
  ]
  | inr a ↦ rw a refl
]

abbrev pub keeper : Keeper World
keeper = record { row = row_of; Holds = λ d w. Among d w.held }

update_with-Updated :
    (id : String) (p : TaskPatch) (w : World) (o : Option TaskRow)
    → row_of w id ≡ o
    → Ensures (update_with o p w) (λ _ w'. Updated keeper w id p w') (Keeps keeper w)
update_with-Updated id p w none e = (λ _. refl, λ d h. h)
update_with-Updated id p w (some old) e = (old, e, ground arith, λ d h. h)

pub env-IsKept : IsKept env keeper
env-IsKept = record {
  find_law = λ id w. (refl, (λ _. refl, λ d h. h));
  update_law = λ id p w. update_with-Updated id p w (row_of w id) refl;
  publish_law = λ e w. (λ _. refl, λ d h. h);
  stream_law = λ r w. (λ _. refl, λ d h. h);
  decr_law = λ key w. (λ _. refl, λ d h. h);
  del_law = λ key w. (λ _. refl, λ d h. h);
  put_artifact_law = λ u j t c w. (
    (
      λ _. refl,
      λ v i s b ne h. inr (kept-Among j t (artifact v i s b) w.held (other_kept j t i s ne) h),
      λ v i g b h. inr (kept-Among j t (tailored_resume v i g b) w.held refl h),
    ),
    inl refl,
  );
  create_tailored_law = λ u j g c w. ((λ _. refl, λ d h. inr h), inl refl);
}

pub env-IsAnswering : IsAnswering env keeper
env-IsAnswering = record {
  find_answers = λ id w. (row_of w id, w, refl);
  update_answers = λ id p row w e. (record w { row = some (patch_task p row) }, rw e refl);
  publish_answers = λ e w. (w, refl);
}

abbrev pub counts_of : World → String → Count
counts_of w = w.counts

pub redis-IsCounting : IsCounting counts_of redis
redis-IsCounting = record {
  incr_law = λ key w. (
    nonneg 60,
    set_count key (incremented (w.counts key)) w,
    refl,
    (ground (arith, eq_iff key key), λ k ne. ground (arith, eq_iff k key)),
  );
  expire_law = λ key seconds w. (w, refl, λ k. refl);
  decr_law = λ key w. (
    set_count key (decremented (w.counts key)) w,
    refl,
    (ground (arith, eq_iff key key), λ k ne. ground (arith, eq_iff k key)),
  );
  del_law = λ key w. (
    set_count key (nonneg 0) w,
    refl,
    (ground (arith, eq_iff key key), λ k ne. ground (arith, eq_iff k key)),
  );
}

update_with-SameCounts :
    (p : TaskPatch) (w : World) (o : Option TaskRow)
    → Ensures (update_with o p w) (λ _. SameCounts counts_of w) (SameCounts counts_of w)
update_with-SameCounts p w none = λ k. refl
update_with-SameCounts p w (some old) = λ k. refl

pub env-LeavesCounts : LeavesCounts env counts_of
env-LeavesCounts = record {
  counting = redis-IsCounting;
  create_law = λ u r w k. refl;
  enqueue_law = λ id u r w k. refl;
  update_law = λ id p w. update_with-SameCounts p w (row_of w id);
}

abbrev pub meters : Meters World
meters = record { calls = λ w. w.calls; input = λ w. w.input; output = λ w. w.output }

abbrev pub brief : CreateTaskRequest
brief = research (record { job_id = "j"; company = "Acme"; title = "Engineer"; jd = "" })

abbrev pub job : GenerationJob
job = record { task_id = "t"; user_id = "ann"; request = brief }

abbrev pub start : Option TaskRow → World
start row = record {
  row = row;
  counts = λ k. nonneg 1;
  held = [];
  calls = 0;
  input = 0;
  output = 0;
}

-- a row whose result an earlier attempt stored
abbrev pub stored_row : TaskRow
stored_row = record (new_row "ann" brief) { status = running; result = some "a brief" }
